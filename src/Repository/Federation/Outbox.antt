-- ===== src/Repository/Federation/Outbox.antt =====
-- The outbox rows of src/repository/federation_repository.rs: how often a row is tried.
use hush_net_backend.Prelude.{
  ℕ, ◌≤◌, String, Bool, false, ◌&&◌, ◌||◌, ◌≡◌, refl, List, [], ◌∷◌, ◌==◌, leb, ltb, exists_where,
  exists_where-append, update_where, if◌then◌else◌, arith, Bool-cases, inl, inr, ap, ◌∙◌,
}
use hush_net_backend.Models.{Uuid, Value, FederationOutboxEntry}
use hush_net_backend.Store.{Db}
use hush_net_backend.Store.Keeps.{Keeps, KeepsDb, Keeps-query}
use hush_net_backend.Repository.Federation.{
  is_pending, new_entry, set_delivered, set_failed, set_retry, enqueue_statement, enqueue_outbox,
  delivered_statement, mark_outbox_delivered, logical_id_statement,
  mark_outbox_delivered_by_logical_id, failure_statement, record_outbox_failure,
}

-- tried more than ten times, or ten times and still pending
abbrev pub over_budget : FederationOutboxEntry → Bool
over_budget e = ltb 10 e.attempt_count || (is_pending e.status && leb 10 e.attempt_count)

pub record WithinBudget (db : Db) : Type 0 where
  pub none_over : exists_where over_budget db.federation_outbox ≡ false

-- an update under which rows stay within their budget
exists-update :
    (p : FederationOutboxEntry → Bool) (f : FederationOutboxEntry → FederationOutboxEntry)
    (es : List FederationOutboxEntry)
    → ((e : FederationOutboxEntry) → over_budget e ≡ false → over_budget (f e) ≡ false)
    → exists_where over_budget es ≡ false
    → exists_where over_budget (update_where p f es) ≡ false
exists-update p f [] h k = refl
exists-update p f (e ∷ es) h k = ground (arith, h e, exists-update p f es h)

enqueue-WithinBudget :
    (node logical_msg_id : String) (payload : Value)
    → KeepsDb WithinBudget (enqueue_statement node logical_msg_id payload)
unfolding enqueue_statement
enqueue-WithinBudget node logical_msg_id payload c db h =
    elim (Bool-cases (exists_where (λ e. e.id == c.new_id) db.federation_outbox)) [
      | inl clash ↦ rw clash h
      | inr new ↦ rw new (record {
        none_over =
            exists_where-append over_budget db.federation_outbox
              (new_entry node logical_msg_id payload c ∷ [])
            ∙ ap (λ b. b || false) h.none_over;
      })
    ]

set_delivered-budget :
    (t : ℕ) (e : FederationOutboxEntry)
    → over_budget e ≡ false
    → over_budget (set_delivered t e) ≡ false
set_delivered-budget t e h = ground (arith, h)

delivered-WithinBudget : (id : Uuid) → KeepsDb WithinBudget (delivered_statement id)
unfolding delivered_statement
delivered-WithinBudget id c db h = record {
  none_over =
      exists-update _ (set_delivered c.now) db.federation_outbox (set_delivered-budget c.now)
        h.none_over;
}

logical_id-WithinBudget : (l : String) → KeepsDb WithinBudget (logical_id_statement l)
unfolding logical_id_statement
logical_id-WithinBudget l c db h = record {
  none_over =
      exists-update _ (set_delivered c.now) db.federation_outbox (set_delivered-budget c.now)
        h.none_over;
}

failed-budget :
    (n t : ℕ) (e : FederationOutboxEntry)
    → n ≤ 10
    → over_budget e ≡ false
    → over_budget ((if leb 10 n then set_failed n t else set_retry n t) e) ≡ false
failed-budget n t e l h = ground (arith, h)

failure-WithinBudget :
    (id : Uuid) (n : ℕ) → n ≤ 10 → KeepsDb WithinBudget (failure_statement id n 10)
unfolding failure_statement
failure-WithinBudget id n l c db h = record {
  none_over =
      exists-update (λ e. e.id == id) (if leb 10 n then set_failed n c.now else set_retry n c.now)
        db.federation_outbox (λ e. failed-budget n c.now e l) h.none_over;
}

pub enqueue_outbox-WithinBudget :
    (node l : String) (payload : Value) → Keeps WithinBudget (enqueue_outbox node l payload)
unfolding enqueue_outbox
enqueue_outbox-WithinBudget node l payload = Keeps-query _ (enqueue-WithinBudget node l payload)

pub mark_delivered-WithinBudget : (id : Uuid) → Keeps WithinBudget (mark_outbox_delivered id)
unfolding mark_outbox_delivered
mark_delivered-WithinBudget id = Keeps-query _ (delivered-WithinBudget id)

pub by_logical_id-WithinBudget :
    (l : String) → Keeps WithinBudget (mark_outbox_delivered_by_logical_id l)
unfolding mark_outbox_delivered_by_logical_id
by_logical_id-WithinBudget l = Keeps-query _ (logical_id-WithinBudget l)

pub record_failure-WithinBudget :
    (id : Uuid) (n : ℕ) → n ≤ 10 → Keeps WithinBudget (record_outbox_failure id n 10)
unfolding record_outbox_failure
record_failure-WithinBudget id n l = Keeps-query _ (failure-WithinBudget id n l)
