-- ===== src/Controllers/Peers/Blocked.antt =====
-- Blocked peers: resolve_node of src/controllers/messages_controller.rs and the lookup in
-- federated_keys of federation_controller.rs.
use hush_net_backend.Prelude.{
  suc, String, false, ◌≡◌, refl, sym, ap, ◌∙◌, Option, some, find_where, Bool-cases, if◌then◌else◌,
  inl, inr,
}
use hush_net_backend.Models.{FederationNode}
use hush_net_backend.Store.{World, ok, err, fine, query, ◌>>=◌, map_err}
use hush_net_backend.Store.Inversion.{bind_elim, throw_if_elim, pure-eq-ok, query_fine}
use hush_net_backend.Store.Forward.{bind_step, attempt_step}
use hush_net_backend.Web.{AppState, Response, respond, error}
use hush_net_backend.Repository.Federation.{has_node_id, get_federation_node}
use hush_net_backend.Controllers.Peers.{resolve_from, resolve_node, resolve_target}

-- The key proxy asks no blocked peer, whether the peer was cached or came from the registry.
pub resolve_target_unblocked :
    (state : AppState) (node_id : String) (w v : World) (n : FederationNode)
    → resolve_target state node_id w ≡ (ok n, v)
    → n.is_blocked ≡ false
unfolding resolve_target
resolve_target_unblocked state node_id w v n e =
    bind_elim (map_err _ (get_federation_node node_id)) _ e (λ o w1 run1 e1.
      bind_elim _ _ e1 (λ node w2 run2 e2. throw_if_elim node.is_blocked _ _ e2 (λ free e3.
        let (same, _) = pure-eq-ok node e3 in
        ap (λ (x : FederationNode). x.is_blocked) (sym same) ∙ free)))

cached_run :
    (state : AppState) (node_id : String) (w : World) (n : FederationNode)
    → w.env.fault w.calls ≡ fine
    → find_where (has_node_id node_id) w.db.federation_nodes ≡ some n
    → resolve_node state node_id w
      ≡ resolve_from state node_id (ok (some n)) (record w { calls = suc w.calls })
unfolding resolve_node get_federation_node
cached_run state node_id w n f h =
    bind_step _ (resolve_from state node_id) (attempt_step (query _) (query_fine _ w f))
    ∙ ap
        (λ (o : Option FederationNode).
          resolve_from state node_id (ok o) (record w { calls = suc w.calls }))
        h

abbrev pub blocked : Response
blocked = respond 403 (error "target node is blocked")

-- A cached peer is used as it stands, without asking the registry, and a blocked one is refused, as
-- long as the database answers.
pub resolve_node_cached :
    (state : AppState) (node_id : String) (w : World) (n : FederationNode)
    → w.env.fault w.calls ≡ fine
    → find_where (has_node_id node_id) w.db.federation_nodes ≡ some n
    → resolve_node state node_id w
      ≡ (if n.is_blocked then err blocked else ok n, record w { calls = suc w.calls })
unfolding ◌>>=◌
resolve_node_cached state node_id w n f h =
    cached_run state node_id w n f h
    ∙ elim (Bool-cases n.is_blocked) [ inl b ↦ rw b refl | inr b ↦ rw b refl ]
