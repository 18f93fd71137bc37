-- ===== src/Startup.antt =====
-- src/main.rs, up to the state that the handlers share: the environment variables, the connection
-- pool, the keys and the registration.
pub mod Agreement
pub mod Serves
use hush_net_backend.Prelude.{
  ℕ, suc, ◌+◌, ◌==◌, String, Bool, true, false, ◌&&◌, Option, none, some, leb, if◌then◌else◌,
}
use hush_net_backend.Store.{
  World, Env, Fault, fine, refused, lost, Result, ok, err, Exec, pure, throw, gets, ok_or, ◌>>=◌,
  ◌>>◌,
}
use hush_net_backend.Web.{AppState}
use hush_net_backend.Utils.KeyFile.{StartError, panicked, connect_error, load_or_generate}
use hush_net_backend.Registry.{var_or, node_host_of, node_api_url_of, register_with_registry}
use Prim.Native.Char.{code}
use Prim.Native.String

-- to_lowercase, as far as it can give one of the letters a to z: no character but an ASCII capital
-- becomes one of "true"
abbrev lower : ℕ → ℕ
lower c = if leb b'A' c && leb c b'Z' then c + 32 else c

-- s.to_lowercase() == t, for a text `t` out of the letters t, r, u and e
abbrev lowercase_is : String → String → Bool
lowercase_is String.[] String.[] = true
lowercase_is String.[] (String.◌∷◌ d t) = false
lowercase_is (String.◌∷◌ c s) String.[] = false
lowercase_is (String.◌∷◌ c s) (String.◌∷◌ d t) =
    let rest = lowercase_is s t in lower (code c) == code d && rest

abbrev connected : Fault → Result StartError (Unit {0})
connected fine = ok tt
connected refused = err connect_error
connected lost = err connect_error

-- PgPool::connect
unfoldable pub connect : String → Exec StartError (Unit {0})
connect database_url w = (connected (w.env.fault w.calls), record w { calls = suc w.calls })

abbrev pub wants_registration : Env → Bool
wants_registration env = lowercase_is (var_or env "REGISTER_TO_REGISTRY" "false") "true"

abbrev pub registry_url_var : Env → String
registry_url_var env = var_or env "REGISTRY_URL" "https://registry.hushnet.net"

unfoldable pub start : Exec StartError AppState
start = do
  env ← gets (λ w. w.env)
  database_url ← ok_or (env.var "DATABASE_URL") (panicked "DATABASE_URL must be set")
  jwt_secret ← ok_or (env.var "JWT_SECRET") (panicked "called `Result::unwrap()` on an `Err` value")
  connect database_url
  keys ← load_or_generate
  if wants_registration env then register_with_registry (registry_url_var env) else pure tt
  pure (record {
    jwt_secret = jwt_secret;
    node_keys = keys;
    this_node_id = node_host_of env;
    this_api_url = node_api_url_of env;
    registry_url = registry_url_var env;
  })
