-- ===== src/Auth/Node/Refused.antt =====
-- The errors of src/middlewares/node_auth.rs: each is a response with an error status.
use hush_net_backend.Prelude.{String, Option, none, some}
use hush_net_backend.Models.{FederationNode}
use hush_net_backend.Store.{HttpReply, unreachable, response}
use hush_net_backend.Store.Fails.{Fails, fails_rules}
use hush_net_backend.Web.{AppState, Parts}
use hush_net_backend.Federation.Client.Refusals.{Refusal, refusals}
use hush_net_backend.Auth.Node.{
  header_str, registry_body, ask_registry, or_ask, resolve_peer, check_signature, authenticate_node,
}

header_str-Refusal : (parts : Parts) (name : String) → Fails Refusal (header_str parts name)
unfolding header_str
header_str-Refusal parts name = search (fails_rules, refusals)

registry_body-Refusal : (reply : HttpReply) → Fails Refusal (registry_body reply)
registry_body-Refusal unreachable = search (fails_rules, refusals)
registry_body-Refusal (response status json) = search (fails_rules, refusals)

ask_registry-Refusal :
    (state : AppState) (node_id : String) → Fails Refusal (ask_registry state node_id)
unfolding ask_registry
ask_registry-Refusal state node_id = search (fails_rules, refusals, registry_body-Refusal) depth 16

or_ask-Refusal :
    (state : AppState) (node_id : String) (o : Option FederationNode)
    → Fails Refusal (or_ask state node_id o)
or_ask-Refusal state node_id none = ask_registry-Refusal state node_id
or_ask-Refusal state node_id (some node) = search fails_rules

resolve_peer-Refusal :
    (state : AppState) (node_id : String) → Fails Refusal (resolve_peer state node_id)
unfolding resolve_peer
resolve_peer-Refusal state node_id = search (fails_rules, refusals, or_ask-Refusal)

check_signature-Refusal :
    (parts : Parts) (node : FederationNode) (ts nonce sig : String)
    → Fails Refusal (check_signature parts node ts nonce sig)
unfolding check_signature
check_signature-Refusal parts node ts nonce sig = search (fails_rules, refusals) depth 24

-- A request that is not accepted is answered with an error status.
pub authenticate_node-Refusal :
    (state : AppState) (parts : Parts) → Fails Refusal (authenticate_node state parts)
unfolding authenticate_node
authenticate_node-Refusal state parts =
    search
      (fails_rules, refusals, header_str-Refusal, resolve_peer-Refusal, check_signature-Refusal)
      depth 32
