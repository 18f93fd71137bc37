-- ===== src/Tests/Startup.antt =====
-- The theorems on start-up and on the registration, at a small node.
use Prim.Native.Char.{Char, code}
use hush_net_backend.Prelude.{
  String, true, ◌≡◌, refl, ap, ◌∙◌, Option, none, some, ◌==◌, str_eq, if◌then◌else◌,
}
use hush_net_backend.Prelude.Text.{as_bytes}
use hush_net_backend.Models.{Value, string, object, field, end}
use hush_net_backend.Store.{Env, World, HttpRequest, HttpReply, response, ok, send, ◌>>=◌}
use hush_net_backend.Web.{AppState, NodeKeys}
use hush_net_backend.Utils.Keys.{signing_key}
use hush_net_backend.Utils.KeyFile.{
  make_dir, write_file, read_file, get_node_keys_path, keys_to_value, keys_of_value,
  generate_and_save, load_or_generate,
}
use hush_net_backend.Utils.KeyFile.Kept.{PrettyReadsBack, keys_stay}
use hush_net_backend.Registry.{register_with_registry}
use hush_net_backend.Startup.{connect, start}
use hush_net_backend.Prelude.{Bool, not}
use hush_net_backend.Startup.Serves.{has_colon_segment, run_node, never_listens}
use hush_net_backend.Startup.Agreement.{Told, start-Told}
use hush_net_backend.Tests.Fixtures.{env, encode, zeros, w0}

-- a text with a mark before each character and at its end, and the text behind
abbrev escape : String → String → String
escape String.[] rest = String.◌∷◌ "1" rest
escape (String.◌∷◌ c s) rest = String.◌∷◌ "0" (String.◌∷◌ c (escape s rest))

abbrev more : Char → Option (String × String) → Option (String × String)
more c none = none
more c (some (s, rest)) = some (String.◌∷◌ c s, rest)

abbrev unescape : String → Option (String × String)
unescape String.[] = none
unescape (String.◌∷◌ t String.[]) = if code t == b'1' then some (String.[], String.[]) else none
unescape (String.◌∷◌ t (String.◌∷◌ c s)) =
    let rest = unescape s in
    if code t == b'1' then some (String.[], String.◌∷◌ c s) else more c rest

unescape-escape : (s rest : String) → unescape (escape s rest) ≡ some (s, rest)
unescape-escape String.[] String.[] = refl
unescape-escape String.[] (String.◌∷◌ c s) = refl
unescape-escape (String.◌∷◌ c s) rest = ap (more c) (unescape-escape s rest)

abbrev pair_text : Option NodeKeys → String
pair_text none = ""
pair_text (some keys) = escape keys.public_b64 (escape keys.private_b64 "")

abbrev second : String → Option (String × String) → Option Value
second public none = none
second public (some (private, _)) =
    some (keys_to_value (record { public_b64 = public; private_b64 = private }))

abbrev first : Option (String × String) → Option Value
first none = none
first (some (public, rest)) = second public (unescape rest)

-- a registry that gives a nonce, and refuses every registration
abbrev registry : HttpRequest → HttpReply
registry req =
    if str_eq req.url "https://registry.hushnet.net/api/registry/challenge"
    then response 200 (some (object (field "nonce" (string "n-1") end)))
    else response 403 none

abbrev host : Env
host = record env {
  http = λ i req. registry req;
  random = λ i. zeros 32;
  pretty_text = λ v. pair_text (keys_of_value v);
  parse_json = λ s. first (unescape s);
}

host-PrettyReadsBack : PrettyReadsBack host
host-PrettyReadsBack keys =
    ap first (unescape-escape keys.public_b64 (escape keys.private_b64 ""))
    ∙ ap (second keys.public_b64) (unescape-escape keys.private_b64 "")

abbrev fresh : World
fresh = record w0 { env = host }

abbrev pair : NodeKeys
pair = record { public_b64 = encode (zeros 32); private_b64 = encode (zeros 32) }

abbrev loaded : World
loaded = record fresh { calls = 3; key_dir = true; key_file = some (pair_text (some pair)) }

abbrev reloaded : World
reloaded = (load_or_generate loaded).1

loads : load_or_generate fresh ≡ (ok pair, loaded)
unfolding load_or_generate get_node_keys_path generate_and_save make_dir write_file ◌>>=◌
loads = refl

reloads : load_or_generate loaded ≡ (ok pair, reloaded)
unfolding load_or_generate get_node_keys_path generate_and_save make_dir write_file read_file ◌>>=◌
reloads = refl

keys_stay_example : pair ≡ pair
keys_stay_example =
    keys_stay fresh loaded loaded reloaded pair pair host-PrettyReadsBack loads refl refl reloads

abbrev started : World
started = (start fresh).1

abbrev state : AppState
state = record {
  jwt_secret = "secret";
  node_keys = pair;
  this_node_id = "node-unknown.hushnet.net";
  this_api_url = "https://node-unknown.hushnet.net/api";
  registry_url = "https://registry.hushnet.net";
}

starts : start fresh ≡ (ok state, started)
unfolding start connect register_with_registry send load_or_generate get_node_keys_path
    generate_and_save make_dir write_file read_file signing_key as_bytes ◌>>=◌
starts = refl

start-Told_example : Told state fresh started
start-Told_example = start-Told fresh started state host-PrettyReadsBack refl starts

-- a router that refuses the paths with a segment that starts with a colon
abbrev accepts : String → Bool
accepts path = not (has_colon_segment path)

never_listens_example : ¬ (run_node accepts fresh ≡ (ok state, started))
never_listens_example = never_listens accepts fresh started state (λ path h. ap not h)
