-- ===== src/Controllers/Peers.antt =====
-- resolve_node of src/controllers/messages_controller.rs, and the lookup of a peer in
-- federated_keys of federation_controller.rs.
pub mod Blocked
use hush_net_backend.Prelude.{ℕ, String, Bool, ◌&&◌, leb, Option, none, some, if◌then◌else◌}
use hush_net_backend.Models.{Value, FederationNode, get_str}
use hush_net_backend.Store.{
  ◌>>=◌, ◌>>◌, Exec, Result, ok, err, SqlError, HttpReply, unreachable, response, empty, pure,
  throw, throw_if, attempt, ok_or, map_err, send,
}
use hush_net_backend.Web.{AppState, Response, respond, error}
use hush_net_backend.Repository.Federation.{get_federation_node, upsert_federation_node}
use hush_net_backend.Auth.Node.{registry_url_of}
use mathlib.Core.List.{List}

abbrev pub internal : SqlError → Response
internal e = respond 500 (error "internal error")

-- status().is_success()
abbrev pub is_success : ℕ → Bool
is_success status = leb 200 status && leb status 299

abbrev peer_body : HttpReply → Exec Response Value
peer_body unreachable = throw (respond 503 (error "registry unreachable"))
peer_body (response status json) =
    if is_success status
    then ok_or json (respond 502 (error "malformed registry response"))
    else throw (respond 404 (error "target node not found in registry"))

-- unwrap_or("")
abbrev or_empty : Option String → String
or_empty none = ""
or_empty (some s) = s

-- the registry lookup, whose missing fields become empty texts
unfoldable pub lookup_peer : AppState → String → Exec Response FederationNode
lookup_peer state node_id = do
  reply ← send (record {
    method = "GET";
    url = registry_url_of state node_id;
    headers = List.[];
    body = empty;
  })
  body ← peer_body reply
  map_err internal (
      upsert_federation_node node_id (or_empty (get_str body "api_url"))
        (or_empty (get_str body "public_key_b64")))

-- `if let Ok(Some(n)) = …`, so that a database error also falls through to the registry
abbrev pub resolve_from :
    AppState → String → Result SqlError (Option FederationNode) → Exec Response FederationNode
resolve_from state node_id (ok (some n)) =
    if n.is_blocked then throw (respond 403 (error "target node is blocked")) else pure n
resolve_from state node_id (ok none) = lookup_peer state node_id
resolve_from state node_id (err e) = lookup_peer state node_id

unfoldable pub resolve_node : AppState → String → Exec Response FederationNode
resolve_node state node_id = do
  cached ← attempt (get_federation_node node_id)
  resolve_from state node_id cached

abbrev pub cached_or : AppState → String → Option FederationNode → Exec Response FederationNode
cached_or state node_id (some n) = pure n
cached_or state node_id none = lookup_peer state node_id

-- the lookup in federated_keys: a database error ends it, and a block counts on every path
unfoldable pub resolve_target : AppState → String → Exec Response FederationNode
resolve_target state node_id = do
  cached ← map_err internal (get_federation_node node_id)
  node ← cached_or state node_id cached
  throw_if node.is_blocked (respond 403 (error "target node is blocked"))
  pure node
