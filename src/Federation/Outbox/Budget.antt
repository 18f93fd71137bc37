-- ===== src/Federation/Outbox/Budget.antt =====
-- How often the worker of src/federation/outbox.rs tries a row.
use hush_net_backend.Prelude.{
  ℕ, ◌+◌, String, Bool, false, ◌≡◌, refl, subst, Option, none, some, List, [], ◌∷◌, leb, take, zero,
  suc, order_by, none-order_by, select_where, exists_where, arith,
}
use hush_net_backend.Models.{FederationOutboxEntry, FederationNode, S2sMessagePayload, S2sAck}
use hush_net_backend.Store.{World, Result, ok, err, SqlError, ◌>>=◌, attempt, call_of}
use hush_net_backend.Store.Keeps.{Keeps, Keeps-at, Keeps-bind, Keeps-pure, Keeps-query, keeps_rules}
use hush_net_backend.Store.Inversion.{query-eq-ok}
use hush_net_backend.Web.{AppState, ClientError}
use hush_net_backend.Repository.Federation.{
  is_due, get_federation_node, purge_expired_nonces, purge_statement, fetch_due_outbox_entries,
  record_outbox_failure,
}
use hush_net_backend.Repository.Federation.Outbox.{
  over_budget, WithinBudget, record_failure-WithinBudget, mark_delivered-WithinBudget,
}
use hush_net_backend.Federation.Client.Frames.{forward_messages-Keeps}
use hush_net_backend.Federation.Outbox.{
  after_forward, deliver_to, deliver, deliver_entry, deliver_all, spawn_all, round,
}

-- a row that may be tried once more
abbrev pub exhausted : FederationOutboxEntry → Bool
exhausted e = leb 10 e.attempt_count

due-exhausted :
    (now : ℕ) (es : List FederationOutboxEntry)
    → exists_where over_budget es ≡ false
    → exists_where exhausted (select_where (is_due now) es) ≡ false
due-exhausted now [] h = refl
due-exhausted now (e ∷ es) h = ground (arith, due-exhausted now es)

take-exhausted :
    (n : ℕ) (es : List FederationOutboxEntry)
    → exists_where exhausted es ≡ false
    → exists_where exhausted (take n es) ≡ false
take-exhausted zero es h = refl
take-exhausted (suc n) [] h = refl
take-exhausted (suc n) (e ∷ es) h = ground (arith, take-exhausted n es)

failure_rule :
    (entry : FederationOutboxEntry)
    → exhausted entry ≡ false
    → Keeps WithinBudget (record_outbox_failure entry.id (entry.attempt_count + 1) 10)
failure_rule entry left =
    record_failure-WithinBudget entry.id (entry.attempt_count + 1) (ground (arith, left))

pub get-WithinBudget : (id : String) → Keeps WithinBudget (get_federation_node id)
unfolding get_federation_node
get-WithinBudget id = Keeps-query _ (λ c db h. h)

module _ {E : Type 0} (state : AppState) (entry : FederationOutboxEntry)
    (left : exhausted entry ≡ false) where
  after_forward-WithinBudget :
      (r : Result ClientError S2sAck) → Keeps WithinBudget (after_forward {E = E} entry r)
  unfolding ◌>>=◌
  after_forward-WithinBudget (ok ack) = search (keeps_rules, mark_delivered-WithinBudget)
  after_forward-WithinBudget (err e) = search (keeps_rules, failure_rule entry left)

  deliver_to-WithinBudget :
      (payload : S2sMessagePayload) (r : Result SqlError (Option FederationNode))
      → Keeps WithinBudget (deliver_to {E = E} state entry payload r)
  unfolding ◌>>=◌
  deliver_to-WithinBudget payload (err e) = search keeps_rules
  deliver_to-WithinBudget payload (ok none) = search (keeps_rules, failure_rule entry left)
  deliver_to-WithinBudget payload (ok (some node)) =
      search (keeps_rules, forward_messages-Keeps WithinBudget, after_forward-WithinBudget)

  deliver-WithinBudget :
      (payload : Option S2sMessagePayload)
      → Keeps WithinBudget (deliver {E = E} state entry payload)
  unfolding deliver ◌>>=◌
  deliver-WithinBudget none =
      search (keeps_rules, record_failure-WithinBudget entry.id 10 (omega arith))
  deliver-WithinBudget (some payload) =
      search (keeps_rules, get-WithinBudget, deliver_to-WithinBudget payload)

  pub deliver_entry-WithinBudget : Keeps WithinBudget (deliver_entry {E = E} state entry)
  unfolding deliver_entry
  deliver_entry-WithinBudget = search (keeps_rules, deliver-WithinBudget)

pub deliver_all-WithinBudget :
    (E : Type 0) (state : AppState) (entries : List FederationOutboxEntry)
    → exists_where exhausted entries ≡ false
    → Keeps WithinBudget (deliver_all {E = E} state entries)
unfolding deliver_all
deliver_all-WithinBudget E state [] h = search keeps_rules
deliver_all-WithinBudget E state (entry ∷ entries) h =
    Keeps-bind _ _ (deliver_entry-WithinBudget state entry (ground (arith, h)))
      (λ _. deliver_all-WithinBudget E state entries (ground (arith, h)))

purge-WithinBudget : Keeps WithinBudget purge_expired_nonces
unfolding purge_expired_nonces purge_statement
purge-WithinBudget = Keeps-query _ (λ c db h. record { none_over = h.none_over })

-- what the worker fetches may be tried once more
pub fetched-exhausted :
    (w v : World) (es : List FederationOutboxEntry)
    → WithinBudget w.db
    → fetch_due_outbox_entries w ≡ (ok es, v)
    → exists_where exhausted es ≡ false
unfolding fetch_due_outbox_entries
fetched-exhausted w v es h e =
    let (said, _) = query-eq-ok _ e in
    subst (λ es. exists_where exhausted es ≡ false) (ok_list said)
      (take-exhausted 100
        (order_by (λ e. e.next_attempt)
          (select_where (is_due (call_of w).now) w.db.federation_outbox))
        (none-order_by exhausted (λ e. e.next_attempt)
          (select_where (is_due (call_of w).now) w.db.federation_outbox)
          (due-exhausted (call_of w).now w.db.federation_outbox h.none_over)))
  where
    ok_list :
        {a b : List FederationOutboxEntry}
        → ◌≡◌ {A = Result SqlError (List FederationOutboxEntry)} (ok a) (ok b)
        → a ≡ b
    ok_list h = ground arith

pub fetch-WithinBudget : Keeps WithinBudget fetch_due_outbox_entries
unfolding fetch_due_outbox_entries
fetch-WithinBudget = Keeps-query _ (λ c db h. h)

spawn_all-WithinBudget :
    (E : Type 0) (state : AppState) (w v : World) (r : Result SqlError (List FederationOutboxEntry))
    → WithinBudget w.db
    → fetch_due_outbox_entries w ≡ (r, v)
    → WithinBudget (spawn_all {E = E} state r v).1.db
spawn_all-WithinBudget E state w v (err e) h run =
    (Keeps-pure {E = E} {P = WithinBudget} tt).at v (Keeps-at fetch-WithinBudget run h)
spawn_all-WithinBudget E state w v (ok es) h run =
    (deliver_all-WithinBudget E state es (fetched-exhausted w v es h run)).at v
      (Keeps-at fetch-WithinBudget run h)

fetch_and_spawn-WithinBudget :
    (E : Type 0) (state : AppState)
    → Keeps WithinBudget (attempt {F = E} fetch_due_outbox_entries >>= spawn_all state)
unfolding ◌>>=◌
fetch_and_spawn-WithinBudget E state = record {
  at = λ w h.
      spawn_all-WithinBudget E state w (fetch_due_outbox_entries w).1 (fetch_due_outbox_entries w).0
        h refl;
}

-- A round of the worker keeps every row within its budget of ten attempts: no row is tried more
-- than ten times, and one that was tried ten times is not pending.
pub round-WithinBudget : (E : Type 0) (state : AppState) → Keeps WithinBudget (round {E = E} state)
unfolding round
round-WithinBudget E state =
    Keeps-bind _ _ (search (keeps_rules, purge-WithinBudget))
      (λ _. fetch_and_spawn-WithinBudget E state)
