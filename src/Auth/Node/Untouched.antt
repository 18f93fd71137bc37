-- ===== src/Auth/Node/Untouched.antt =====
-- What the authentication of a peer leaves alone: all tables but the known nodes and the nonces.
use hush_net_backend.Prelude.{String, Option, none, some, ◌≡◌, arith}
use hush_net_backend.Models.{FederationNode}
use hush_net_backend.Store.{Db, HttpReply, unreachable, response, query}
use hush_net_backend.Store.Keeps.{Keeps, Keeps-query, KeepsDb, keeps_rules}
use hush_net_backend.Web.{AppState, Parts}
use hush_net_backend.Repository.Federation.{
  upsert_node_statement, get_federation_node, upsert_federation_node, claim_statement, claim_nonce,
}
use hush_net_backend.Auth.Node.{
  header_str, registry_body, ask_registry, or_ask, resolve_peer, check_signature, authenticate_node,
}
use mathlib.Core.List.{List}

-- the tables without the known nodes and the nonces
abbrev pub rest : Db → Db
rest db = record db { federation_nodes = List.[]; used_node_nonces = List.[] }

-- the same tables as in `old`, but for the known nodes and the nonces
abbrev pub SameRest : Db → Db → Type 0
SameRest old db = rest db ≡ rest old

module _ (old : Db) where
  upsert_statement-SameRest :
      (id url key : String) → KeepsDb (SameRest old) (upsert_node_statement id url key)
  unfolding upsert_node_statement
  upsert_statement-SameRest id url key c db h = ground arith

  claim_statement-SameRest : (id nonce : String) → KeepsDb (SameRest old) (claim_statement id nonce)
  unfolding claim_statement
  claim_statement-SameRest id nonce c db h = ground arith

  upsert-SameRest : (id url key : String) → Keeps (SameRest old) (upsert_federation_node id url key)
  unfolding upsert_federation_node
  upsert-SameRest id url key = Keeps-query _ (upsert_statement-SameRest id url key)

  get-SameRest : (id : String) → Keeps (SameRest old) (get_federation_node id)
  unfolding get_federation_node
  get-SameRest id = Keeps-query _ (λ c db h. h)

  claim_query-SameRest :
      (id nonce : String) → Keeps (SameRest old) (query (claim_statement id nonce))
  claim_query-SameRest id nonce = Keeps-query _ (claim_statement-SameRest id nonce)

  claim-SameRest : (id nonce : String) → Keeps (SameRest old) (claim_nonce id nonce)
  unfolding claim_nonce
  claim-SameRest id nonce = search (keeps_rules, claim_query-SameRest)

  registry_body-SameRest : (r : HttpReply) → Keeps (SameRest old) (registry_body r)
  registry_body-SameRest unreachable = search keeps_rules
  registry_body-SameRest (response status json) = search keeps_rules

  ask_registry-SameRest :
      (state : AppState) (id : String) → Keeps (SameRest old) (ask_registry state id)
  unfolding ask_registry
  ask_registry-SameRest state id =
      search (keeps_rules, registry_body-SameRest, upsert-SameRest) depth 12

  or_ask-SameRest :
      (state : AppState) (id : String) (o : Option FederationNode)
      → Keeps (SameRest old) (or_ask state id o)
  or_ask-SameRest state id none = ask_registry-SameRest state id
  or_ask-SameRest state id (some node) = search keeps_rules

  resolve_peer-SameRest :
      (state : AppState) (id : String) → Keeps (SameRest old) (resolve_peer state id)
  unfolding resolve_peer
  resolve_peer-SameRest state id = search (keeps_rules, or_ask-SameRest, get-SameRest)

  check_signature-SameRest :
      (parts : Parts) (node : FederationNode) (ts nonce sig : String)
      → Keeps (SameRest old) (check_signature parts node ts nonce sig)
  unfolding check_signature
  check_signature-SameRest parts node ts nonce sig = search keeps_rules depth 20

  pub authenticate_node-SameRest :
      (state : AppState) (parts : Parts) → Keeps (SameRest old) (authenticate_node state parts)
  unfolding authenticate_node header_str
  authenticate_node-SameRest state parts =
      search (keeps_rules, resolve_peer-SameRest, check_signature-SameRest, claim-SameRest) depth 30
