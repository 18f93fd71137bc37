-- ===== src/Auth/Node.antt =====
-- src/middlewares/node_auth.rs: authentication of requests from peer nodes.
pub mod Frames
pub mod Untouched
pub mod Accepted
pub mod Replay
pub mod Signed
pub mod Refused
use hush_net_backend.Prelude.{ℕ, String, not, Option, none, some, if◌then◌else◌}
use hush_net_backend.Prelude.Text.{as_bytes}
use hush_net_backend.Prelude.Decimal.{parse_i64}
use hush_net_backend.Models.{Value, FederationNode, get_str}
use hush_net_backend.Store.{
  ◌>>=◌, ◌>>◌, HttpReply, unreachable, response, empty, Exec, SqlError, pure, throw, gets, ok_or,
  map_err, throw_if, send, utc_now,
}
use hush_net_backend.Web.{AppState, Parts, HeaderValue, text, opaque, Response, respond, plain}
use hush_net_backend.Repository.Federation.{
  get_federation_node, upsert_federation_node, claim_nonce,
}
use hush_net_backend.Federation.Client.{canonical, is_error_status}
use hush_net_backend.Utils.Keys.{to_array}
use hush_net_backend.Auth.Window.{outside_window}
use Prim.Native.String.{◌++◌}
use mathlib.Core.List.{List}

abbrev pub reject : {A : Type 0} → ℕ → String → Exec Response A
reject code message = throw (respond code (plain message))

abbrev pub db_error : SqlError → Response
db_error e = respond 500 (plain "db error")

abbrev header_text : Option HeaderValue → Option String
header_text none = none
header_text (some opaque) = none
header_text (some (text s)) = some s

unfoldable pub header_str : Parts → String → Exec Response String
header_str parts name =
    ok_or (header_text (parts.header name)) (respond 401 (plain ("missing header: " ++ name)))

-- `send`, `error_for_status` and `json`, each with its own rejection
abbrev registry_body : HttpReply → Exec Response Value
registry_body unreachable = reject 503 "registry unreachable"
registry_body (response status json) =
    if is_error_status status
    then reject 401 "peer node not found in registry"
    else ok_or json (respond 502 (plain "malformed registry response"))

abbrev pub registry_url_of : AppState → String → String
registry_url_of state node_id = state.registry_url ++ ("/api/registry/nodes/" ++ node_id)

-- the registry fallback of resolve_peer
ask_registry : AppState → String → Exec Response FederationNode
ask_registry state node_id = do
  reply ← send (record {
    method = "GET";
    url = registry_url_of state node_id;
    headers = List.[];
    body = empty;
  })
  resp ← registry_body reply
  api_url ← ok_or (get_str resp "api_url") (respond 502 (plain "registry response missing api_url"))
  pubkey ←
      ok_or (get_str resp "public_key_b64")
        (respond 502 (plain "registry response missing public_key_b64"))
  map_err db_error (upsert_federation_node node_id api_url pubkey)

abbrev or_ask : AppState → String → Option FederationNode → Exec Response FederationNode
or_ask state node_id (some node) = pure node
or_ask state node_id none = ask_registry state node_id

unfoldable pub resolve_peer : AppState → String → Exec Response FederationNode
unfolding ask_registry
resolve_peer state node_id = do
  cached ← map_err db_error (get_federation_node node_id)
  or_ask state node_id cached

abbrev or_root : Option String → String
or_root none = "/"
or_root (some path) = path

-- step 4: the signature over the canonical string, under the peer's key
unfoldable pub check_signature :
    Parts → FederationNode → String → String → String → Exec Response (Unit {0})
check_signature parts node ts_str nonce sig_b64 = do
  env ← gets (λ w. w.env)
  sig_decoded ← ok_or (env.decode_b64 sig_b64) (respond 400 (plain "bad signature base64"))
  sig ← ok_or (to_array 64 sig_decoded) (respond 400 (plain "signature must be 64 bytes"))
  vk_decoded ←
      ok_or (env.decode_b64 node.public_key_b64) (respond 500 (plain "bad cached peer pubkey"))
  vk ← ok_or (to_array 32 vk_decoded) (respond 500 (plain "peer pubkey must be 32 bytes"))
  throw_if (not (env.valid_key vk)) (respond 500 (plain "invalid peer pubkey"))
  throw_if
      (not (
        env.verify vk
          (as_bytes (canonical parts.method (or_root parts.path_and_query) ts_str nonce)) sig))
      (respond 401 (plain "invalid node signature"))

-- AuthenticatedNode::from_request_parts
unfoldable pub authenticate_node : AppState → Parts → Exec Response FederationNode
authenticate_node state parts = do
  node_id ← header_str parts "X-Node-ID"
  ts_str ← header_str parts "X-Timestamp"
  nonce ← header_str parts "X-Nonce"
  sig_b64 ← header_str parts "X-Node-Signature"
  now ← utc_now
  ts ← ok_or (parse_i64 ts_str) (respond 400 (plain "X-Timestamp must be an integer"))
  throw_if (outside_window 60 now ts) (respond 401 (plain "timestamp outside 60-second window"))
  node ← resolve_peer state node_id
  throw_if node.is_blocked (respond 403 (plain "node is blocked"))
  check_signature parts node ts_str nonce sig_b64
  fresh ← map_err db_error (claim_nonce node_id nonce)
  throw_if (not fresh) (respond 401 (plain "replayed nonce"))
  pure node
