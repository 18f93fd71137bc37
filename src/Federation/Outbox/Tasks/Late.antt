-- ===== src/Federation/Outbox/Tasks/Late.antt =====
-- Two tasks of src/federation/outbox.rs for one row: a failure that is recorded late.
use hush_net_backend.Prelude.{
  ℕ, suc, ◌≡◌, refl, ap, ◌∙◌, Option, none, some, List, [], ◌∷◌, ◌==◌, find_where, update_where,
  arith,
}
use hush_net_backend.Models.{Uuid, FederationOutboxEntry, OutboxStatus, delivered, failed}
use hush_net_backend.Store.{
  World, ok, SqlError, fine, Statement, query, call_of, ignore, pure, ◌>>=◌,
}
use hush_net_backend.Store.Inversion.{after, query_fine}
use hush_net_backend.Store.Forward.{bind_step, attempt_step, pure_run}
use hush_net_backend.Web.{AppState}
use hush_net_backend.Repository.Federation.{
  set_delivered, set_failed, delivered_statement, mark_outbox_delivered, failure_statement,
  record_outbox_failure,
}
use hush_net_backend.Federation.Outbox.Tasks.{
  Task, marking, failing, advance, Node, at, Step, runs, Steps, done, more,
}

-- the status of a row
abbrev pub status_in : Uuid → List FederationOutboxEntry → Option OutboxStatus
status_in id es = elim (find_where (λ e. e.id == id) es) [ none ↦ none | some e ↦ some e.status ]

find-update :
    (id : Uuid) (f : FederationOutboxEntry → FederationOutboxEntry)
    (es : List FederationOutboxEntry) (e : FederationOutboxEntry)
    → ((x : FederationOutboxEntry) → (f x).id ≡ x.id)
    → find_where (λ e. e.id == id) es ≡ some e
    → find_where (λ e. e.id == id) (update_where (λ e. e.id == id) f es) ≡ some (f e)
find-update id f [] e k h = ground arith
find-update id f (x ∷ es) e k h = ground (arith, h, k x, find-update id f es e k)

-- the last call of a task, where the database answers
ended :
    (s : Statement (Unit {0})) (w : World)
    → w.env.fault w.calls ≡ fine
    → (s (call_of w) w.db).0 ≡ ok tt
    → ◌>>=◌ {E = SqlError} {B = Option Task} (ignore (query s)) (λ _. pure none) w
      ≡ (ok none, after s w)
ended s w f h =
    bind_step (ignore (query s)) (λ _. pure none)
      (bind_step _ (λ _. pure tt)
          (attempt_step (query s) (query_fine s w f ∙ ap (λ r. (r, after s w)) h))
        ∙ pure_run tt (after s w))
    ∙ pure_run none (after s w)

module _ (state : AppState) (entry : FederationOutboxEntry) (w : World)
    (answers : w.env.fault w.calls ≡ fine) where
  marking_run :
      advance {E = SqlError} state (marking entry) w
      ≡ (ok none, after (delivered_statement entry.id) w)
  unfolding advance mark_outbox_delivered delivered_statement
  marking_run = ended (delivered_statement entry.id) w answers refl

  failing_run :
      (n : ℕ)
      → advance {E = SqlError} state (failing entry n) w
        ≡ (ok none, after (failure_statement entry.id n 10) w)
  unfolding advance record_outbox_failure failure_statement
  failing_run n = ended (failure_statement entry.id n 10) w answers refl

after_delivered :
    (id : Uuid) (w : World) (row : FederationOutboxEntry)
    → find_where (λ e. e.id == id) w.db.federation_outbox ≡ some row
    → find_where (λ e. e.id == id) (after (delivered_statement id) w).db.federation_outbox
      ≡ some (set_delivered (call_of w).now row)
unfolding delivered_statement
after_delivered id w row h = find-update id _ w.db.federation_outbox row (λ x. refl) h

after_failure :
    (id : Uuid) (w : World) (row : FederationOutboxEntry)
    → find_where (λ e. e.id == id) w.db.federation_outbox ≡ some row
    → find_where (λ e. e.id == id) (after (failure_statement id 10 10) w).db.federation_outbox
      ≡ some (set_failed 10 (call_of w).now row)
unfolding failure_statement
after_failure id w row h = find-update id _ w.db.federation_outbox row (λ x. refl) h

-- the status that a row found has
status-found :
    (id : Uuid) (es : List FederationOutboxEntry) (e : FederationOutboxEntry)
    → find_where (λ e. e.id == id) es ≡ some e
    → status_in id es ≡ some e.status
status-found id es e h = rw (h, status_in) refl

-- The row `id` is delivered at the one node and failed at the other.
abbrev pub Undone : Uuid → Node → Node → Type 0
Undone id m n =
    (status_in id m.world.db.federation_outbox ≡ some delivered)
    × (status_in id n.world.db.federation_outbox ≡ some failed)

-- A failure that is recorded late undoes a delivery: when one task for a row is about to mark it as
-- delivered and another is about to record its tenth failure, the row can become delivered and then
-- failed, if the database answers.
pub late_failure :
    (state : AppState) (entry row : FederationOutboxEntry) (w : World)
    → w.env.fault w.calls ≡ fine
    → w.env.fault (suc w.calls) ≡ fine
    → find_where (λ e. e.id == entry.id) w.db.federation_outbox ≡ some row
    → (m : Node) × (n : Node) × Steps state (at w (marking entry ∷ failing entry 10 ∷ [])) m
      × Step state m n
      × Undone entry.id m n
late_failure state entry row w f1 f2 h =
    let u = after (delivered_statement entry.id) w in
    let v = after (failure_statement entry.id 10 10) u in
    let found = after_delivered entry.id w row h in
    (
      at u (failing entry 10 ∷ []),
      at v [],
      more done
          (runs w u [] (marking entry) (failing entry 10 ∷ []) none (marking_run state entry w f1)),
      runs u v [] (failing entry 10) [] none (failing_run state entry u f2 10),
      (
        status-found entry.id _ _ found,
        status-found entry.id _ _ (after_failure entry.id u _ found),
      ),
    )
