-- ===== src/Federation/Outbox/Failed.antt =====
-- A failed delivery of one row of the outbox: src/federation/outbox.rs.
use hush_net_backend.Prelude.{
  ℕ, suc, ◌+◌, String, ◌≡◌, refl, sym, subst, ap, ◌∙◌, Option, none, some, ◌==◌, leb, find_where,
  update_where, if◌then◌else◌,
}
use hush_net_backend.Models.{Uuid, FederationOutboxEntry, FederationNode, S2sMessagePayload, S2sAck}
use hush_net_backend.Store.{Env, World, Result, ok, err, fine, ◌>>=◌, ignore, Db, call_of, pure}
use hush_net_backend.Store.Keeps.{Keeps-at}
use hush_net_backend.Store.Runs.{Runs-at}
use hush_net_backend.Store.Inversion.{query_fine, after}
use hush_net_backend.Store.Forward.{bind_step, gets_run, attempt_step, pure_run}
use hush_net_backend.Web.{AppState, ClientError}
use hush_net_backend.Federation.Client.{forward_messages}
use hush_net_backend.Federation.Client.Frames.{forward_messages-Keeps}
use hush_net_backend.Federation.Client.Failures.{
  Unreceptive, forward_messages-Runs, forward_messages-fails,
}
use hush_net_backend.Repository.Federation.{
  has_node_id, get_federation_node, record_outbox_failure, failure_statement, set_failed, set_retry,
}
use hush_net_backend.Federation.Outbox.{
  after_forward, deliver_to, deliver, deliver_entry, client_of,
}

-- The database always answers, and no peer takes a request.
pub record Isolated (env : Env) : Type 0 where
  pub no_fault : (i : ℕ) → env.fault i ≡ fine
  pub no_peer : Unreceptive env

-- `v` is `w` with one more failure of the row `id` on record, the `n`-th.
pub record Failed (id : Uuid) (n : ℕ) (w v : World) : Type 0 where
  pub same_env : v.env ≡ w.env
  pub at_time : ℕ
  pub outbox :
      v.db.federation_outbox
      ≡ update_where
          (λ e. e.id == id)
          (if leb 10 n then set_failed n at_time else set_retry n at_time)
          w.db.federation_outbox

-- The same, counted from an earlier world with the same tables.
Failed-from :
    {id : Uuid} {n : ℕ} (w u : World) {x : World}
    → u.env ≡ w.env
    → u.db ≡ w.db
    → Failed id n u x
    → Failed id n w x
Failed-from {id} {n} w u {x} env same f = record {
  same_env = f.same_env ∙ env;
  at_time = f.at_time;
  outbox =
      f.outbox
      ∙ ap
          (λ (d : Db).
            update_where (λ e. e.id == id)
              (if leb 10 n then set_failed n f.at_time else set_retry n f.at_time)
              d.federation_outbox)
          same;
}

module _ (E : Type 0) where
  record-Failed :
      (id : Uuid) (n : ℕ) (w : World)
      → Isolated w.env
      → Failed id n w (ignore {F = E} (record_outbox_failure id n 10) w).1
  unfolding record_outbox_failure failure_statement
  record-Failed id n w alone = record {
    same_env = ap (λ (x : Result E (Unit {0}) × World). x.1.env) run;
    at_time = (call_of w).now;
    outbox = ap (λ (x : Result E (Unit {0}) × World). x.1.db.federation_outbox) run;
  }
    where
      run :
          ignore {F = E} (record_outbox_failure id n 10) w
          ≡ (ok tt, after (failure_statement id n 10) w)
      run =
          bind_step _ (λ _. pure tt)
            (attempt_step (record_outbox_failure id n 10)
              (query_fine (failure_statement id n 10) w (alone.no_fault w.calls)))
          ∙ pure_run tt (after (failure_statement id n 10) w)

  after_forward-Failed :
      (state : AppState) (entry : FederationOutboxEntry) (w v u : World)
      (r : Result ClientError S2sAck) (url : String) (payload : S2sMessagePayload)
      → Isolated w.env
      → u.env ≡ w.env
      → u.db ≡ w.db
      → forward_messages (client_of state) url payload u ≡ (r, v)
      → Failed entry.id (entry.attempt_count + 1) w (after_forward {E = E} entry r v).1
  after_forward-Failed state entry w v u (ok ack) url payload alone env same run = absurd (
      forward_messages-fails (client_of state) url payload u v ack
        (subst Unreceptive (sym env) alone.no_peer) run)
  after_forward-Failed state entry w v u (err e) url payload alone env same run =
      let same_env : v.env ≡ w.env =
        (Runs-at (forward_messages-Runs (client_of state) url payload) run).same_env ∙ env in
      let same_db : v.db ≡ w.db =
        Keeps-at (forward_messages-Keeps (λ db. db ≡ w.db) (client_of state) url payload) run
          same in
      Failed-from w v same_env same_db
        (record-Failed entry.id (entry.attempt_count + 1) v (subst Isolated (sym same_env) alone))

  deliver_to-Failed :
      (state : AppState) (entry : FederationOutboxEntry) (payload : S2sMessagePayload) (w u : World)
      (node : Option FederationNode)
      → Isolated w.env
      → u.env ≡ w.env
      → u.db ≡ w.db
      → Failed entry.id
          (entry.attempt_count + 1)
          w
          (deliver_to {E = E} state entry payload (ok node) u).1
  unfolding ◌>>=◌
  deliver_to-Failed state entry payload w u none alone env same =
      Failed-from w u env same
        (record-Failed entry.id (entry.attempt_count + 1) u (subst Isolated (sym env) alone))
  deliver_to-Failed state entry payload w u (some node) alone env same =
      after_forward-Failed state entry w
        (forward_messages (client_of state) node.api_url payload u).1 u
        (forward_messages (client_of state) node.api_url payload u).0 node.api_url payload alone env
        same refl

get_node_fine :
    (id : String) (w : World)
    → w.env.fault w.calls ≡ fine
    → get_federation_node id w
      ≡ (ok (find_where (has_node_id id) w.db.federation_nodes), record w { calls = suc w.calls })
unfolding get_federation_node
get_node_fine id w f = query_fine _ w f

-- A row whose payload decodes is tried, and the failure is recorded.
pub deliver_entry-Failed :
    (E : Type 0) (state : AppState) (entry : FederationOutboxEntry) (w : World)
    (payload : S2sMessagePayload)
    → Isolated w.env
    → w.env.message_of_value entry.payload ≡ some payload
    → Failed entry.id (entry.attempt_count + 1) w (deliver_entry {E = E} state entry w).1
unfolding deliver_entry deliver
deliver_entry-Failed E state entry w payload alone decodes =
    subst (λ x. Failed entry.id (entry.attempt_count + 1) w x.1) (sym run)
      (deliver_to-Failed E state entry payload w (record w { calls = suc w.calls })
        (find_where (has_node_id entry.target_node_id) w.db.federation_nodes) alone refl refl)
  where
    node : Option FederationNode
    node = find_where (has_node_id entry.target_node_id) w.db.federation_nodes

    run :
        deliver_entry {E = E} state entry w
        ≡ deliver_to {E = E} state entry payload (ok node) (record w { calls = suc w.calls })
    run =
        gets_run _ _ w
        ∙ ap (λ o. deliver {E = E} state entry o w) decodes
        ∙ bind_step _ (deliver_to state entry payload) (
            attempt_step (get_federation_node entry.target_node_id)
              (get_node_fine entry.target_node_id w (alone.no_fault w.calls)))
