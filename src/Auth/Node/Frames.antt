-- ===== src/Auth/Node/Frames.antt =====
-- What the parts of the authentication leave alone: the script of the outside and recorded claims.
use hush_net_backend.Prelude.{ℕ, String, Option, none, some}
use hush_net_backend.Models.{FederationNode}
use hush_net_backend.Store.{HttpReply, unreachable, response}
use hush_net_backend.Store.Keeps.{Keeps, keeps_rules}
use hush_net_backend.Store.Runs.{Runs, runs_rules}
use hush_net_backend.Web.{AppState, Parts}
use hush_net_backend.Repository.Federation.{
  get_federation_node, upsert_federation_node, claim_nonce, purge_expired_nonces,
}
use hush_net_backend.Repository.Federation.Nonces.{
  IsClaimed, claim_nonce-IsClaimed, upsert_federation_node-IsClaimed, get_federation_node-IsClaimed,
}
use hush_net_backend.Auth.Node.{
  header_str, registry_body, ask_registry, or_ask, resolve_peer, check_signature, authenticate_node,
}

registry_body-Runs : (r : HttpReply) → Runs (registry_body r)
registry_body-Runs unreachable = search runs_rules
registry_body-Runs (response status json) = search runs_rules

get-Runs : (id : String) → Runs (get_federation_node id)
unfolding get_federation_node
get-Runs id = search runs_rules

upsert-Runs : (id url key : String) → Runs (upsert_federation_node id url key)
unfolding upsert_federation_node
upsert-Runs id url key = search runs_rules

claim-Runs : (id nonce : String) → Runs (claim_nonce id nonce)
unfolding claim_nonce
claim-Runs id nonce = search runs_rules

ask_registry-Runs : (state : AppState) (id : String) → Runs (ask_registry state id)
unfolding ask_registry
ask_registry-Runs state id = search (runs_rules, registry_body-Runs, upsert-Runs) depth 12

or_ask-Runs :
    (state : AppState) (id : String) (o : Option FederationNode) → Runs (or_ask state id o)
or_ask-Runs state id none = ask_registry-Runs state id
or_ask-Runs state id (some node) = search runs_rules

pub resolve_peer-Runs : (state : AppState) (id : String) → Runs (resolve_peer state id)
unfolding resolve_peer
resolve_peer-Runs state id = search (runs_rules, get-Runs, or_ask-Runs)

pub check_signature-Runs :
    (parts : Parts) (node : FederationNode) (ts nonce sig : String)
    → Runs (check_signature parts node ts nonce sig)
unfolding check_signature
check_signature-Runs parts node ts nonce sig = search runs_rules depth 20

pub authenticate_node-Runs :
    (state : AppState) (parts : Parts) → Runs (authenticate_node state parts)
unfolding authenticate_node header_str
authenticate_node-Runs state parts =
    search (runs_rules, resolve_peer-Runs, check_signature-Runs, claim-Runs) depth 30

pub purge-Runs : Runs purge_expired_nonces
unfolding purge_expired_nonces
purge-Runs = search runs_rules

module _ (node_id nonce : String) (t : ℕ) where
  registry_body-Keeps : (r : HttpReply) → Keeps (IsClaimed node_id nonce t) (registry_body r)
  registry_body-Keeps unreachable = search keeps_rules
  registry_body-Keeps (response status json) = search keeps_rules

  ask_registry-Keeps :
      (state : AppState) (id : String) → Keeps (IsClaimed node_id nonce t) (ask_registry state id)
  unfolding ask_registry
  ask_registry-Keeps state id =
      search (keeps_rules, registry_body-Keeps, upsert_federation_node-IsClaimed node_id nonce t)
        depth 12

  or_ask-Keeps :
      (state : AppState) (id : String) (o : Option FederationNode)
      → Keeps (IsClaimed node_id nonce t) (or_ask state id o)
  or_ask-Keeps state id none = ask_registry-Keeps state id
  or_ask-Keeps state id (some node) = search keeps_rules

  pub resolve_peer-Keeps :
      (state : AppState) (id : String) → Keeps (IsClaimed node_id nonce t) (resolve_peer state id)
  unfolding resolve_peer
  resolve_peer-Keeps state id =
      search (keeps_rules, or_ask-Keeps, get_federation_node-IsClaimed node_id nonce t)

  pub check_signature-Keeps :
      (parts : Parts) (node : FederationNode) (ts n sig : String)
      → Keeps (IsClaimed node_id nonce t) (check_signature parts node ts n sig)
  unfolding check_signature
  check_signature-Keeps parts node ts n sig = search keeps_rules depth 20

  pub authenticate_node-Keeps :
      (state : AppState) (parts : Parts)
      → Keeps (IsClaimed node_id nonce t) (authenticate_node state parts)
  unfolding authenticate_node header_str
  authenticate_node-Keeps state parts =
      search
        (
          keeps_rules,
          resolve_peer-Keeps,
          check_signature-Keeps,
          claim_nonce-IsClaimed node_id nonce t,
        )
        depth 30
