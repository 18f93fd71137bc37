-- ===== src/Registry.antt =====
-- src/registry/register.rs: the registration of the node with the central registry.
pub mod Registered
use hush_net_backend.Prelude.{String, Bool, Option, none, some, List, [], ◌∷◌, ◌++◌, if◌then◌else◌}
use hush_net_backend.Prelude.Text.{as_bytes}
use hush_net_backend.Models.{Value, string, object, field, end, get_str}
use hush_net_backend.Store.{
  Env, Bytes, HttpRequest, HttpReply, unreachable, response, json, Result, ok, err, Exec, pure,
  throw, gets, lift, ok_or, map_err, send, ◌>>=◌, ◌>>◌,
}
use hush_net_backend.Web.{NodeKeys}
use hush_net_backend.Utils.Keys.{signing_key}
use hush_net_backend.Utils.KeyFile.{
  StartError, panicked, key_error, request_error, status_error, body_error, load_or_generate,
}
use hush_net_backend.Federation.Client.{is_error_status}
use Prim.Native.String

abbrev or_default : Option String → String → String
or_default none s = s
or_default (some s) _ = s

-- env::var(name).unwrap_or_else(|_| default)
abbrev pub var_or : Env → String → String → String
var_or env name default = or_default (env.var name) default

abbrev pub node_host_of : Env → String
node_host_of env = var_or env "NODE_HOST" "node-unknown.hushnet.net"

abbrev pub node_api_url_of : Env → String
node_api_url_of env =
    var_or env "NODE_API_URL" (String.◌++◌ "https://" (String.◌++◌ (node_host_of env) "/api"))

-- .json(&value), which sets the content type
abbrev pub post_json : String → Value → HttpRequest
post_json url value = record {
  method = "POST";
  url = url;
  headers = ("Content-Type", "application/json") ∷ [];
  body = json value;
}

abbrev pub challenge_request : String → NodeKeys → HttpRequest
challenge_request registry_url keys =
    post_json (String.◌++◌ registry_url "/api/registry/challenge")
      (object (field "pubkey_b64" (string keys.public_b64) end))

abbrev pub payload_of : Env → Value
payload_of env = object (
    field "name" (string (var_or env "NODE_NAME" "node-unknown")) (
      field "host" (string (node_host_of env)) (
        field "api_base_url" (string (node_api_url_of env)) (
          field "protocol_version" (string "0.0.1") (
            field "features" (object end) (
              field "contact_email" (string (var_or env "CONTACT_EMAIL" "ops@hushnet.net"))
                end))))))

-- canon ++ nonce
abbrev pub signed_message : Env → String → Bytes
signed_message env nonce = as_bytes (env.compact_text (payload_of env)) ++ as_bytes nonce

abbrev pub register_request : String → Env → NodeKeys → Bytes → String → HttpRequest
register_request registry_url env keys key nonce =
    post_json (String.◌++◌ registry_url "/api/registry/register") (
      object (
        field "nonce" (string nonce) (
          field "pubkey_b64" (string keys.public_b64) (
            field "signature_b64"
              (string (env.encode_b64 (env.sign key (signed_message env nonce))))
              (field "payload" (payload_of env) end)))))

-- send()?, error_for_status()?, json()?
abbrev challenge_body : HttpReply → Exec StartError Value
challenge_body unreachable = throw request_error
challenge_body (response status body) =
    if is_error_status status then throw status_error else ok_or body body_error

-- send()?, text()?: the status is not looked at
abbrev register_body : HttpReply → Exec StartError (Unit {0})
register_body unreachable = throw request_error
register_body (response status body) = pure tt

unfoldable pub register_with_registry : String → Exec StartError (Unit {0})
register_with_registry registry_url = do
  keys ← load_or_generate
  challenge ← send (challenge_request registry_url keys)
  challenge_res ← challenge_body challenge
  nonce ←
      ok_or (get_str challenge_res "nonce") (panicked "called `Option::unwrap()` on a `None` value")
  env ← gets (λ w. w.env)
  key ← map_err key_error (lift (signing_key env keys))
  reply ← send (register_request registry_url env keys key nonce)
  register_body reply
