-- ===== src/Federation/Outbox/Tasks/Interleaved.antt =====
-- The budget of the outbox rows of src/federation/outbox.rs under every interleaving.
use hush_net_backend.Prelude.{
  Bool, false, ◌≡◌, refl, ap, ◌∙◌, subst, Option, none, some, List, [], ◌∷◌, ◌++◌, map, ltb,
  exists_where, exists_where-append, arith,
}
use hush_net_backend.Models.{FederationOutboxEntry, FederationNode, S2sMessagePayload, S2sAck}
use hush_net_backend.Store.{World, Result, ok, err, SqlError, ◌>>=◌, attempt}
use hush_net_backend.Store.Keeps.{Keeps, Keeps-at, keeps_rules}
use hush_net_backend.Store.Inversion.{bind_elim, gets_step, pure-eq-ok}
use hush_net_backend.Web.{AppState, ClientError}
use hush_net_backend.Repository.Federation.{get_federation_node}
use hush_net_backend.Repository.Federation.Outbox.{
  over_budget, WithinBudget, enqueue_outbox-WithinBudget, mark_delivered-WithinBudget,
  by_logical_id-WithinBudget, record_failure-WithinBudget,
}
use hush_net_backend.Federation.Client.{forward_messages}
use hush_net_backend.Federation.Client.Frames.{forward_messages-Keeps}
use hush_net_backend.Federation.Outbox.{client_of}
use hush_net_backend.Federation.Outbox.Budget.{
  exhausted, get-WithinBudget, fetch-WithinBudget, fetched-exhausted,
}
use hush_net_backend.Federation.Outbox.Tasks.{
  Task, fetched, located, marking, failing, after_lookup, look_up, after_answer, advance, list_of,
  Handler, queues, acknowledges, marks, leaves, Node, at, Step, polls, runs, handles, Steps, done,
  more,
}

-- a task that would try its row an eleventh time, or record that
abbrev spent : Task → Bool
spent (fetched entry) = exhausted entry
spent (located entry payload node) = exhausted entry
spent (marking entry) = false
spent (failing entry attempts) = ltb 10 attempts

abbrev NoneSpent : List Task → Type 0
NoneSpent tasks = exists_where spent tasks ≡ false

module _ (state : AppState) where
  look_up-WithinBudget :
      (entry : FederationOutboxEntry) (payload : Option S2sMessagePayload)
      → Keeps WithinBudget (look_up {E = SqlError} entry payload)
  look_up-WithinBudget entry none = search keeps_rules
  look_up-WithinBudget entry (some payload) = search (keeps_rules, get-WithinBudget, lookup_done)
    where
      lookup_done :
          (r : Result SqlError (Option FederationNode))
          → Keeps WithinBudget (after_lookup {E = SqlError} entry payload r)
      lookup_done (err e) = search keeps_rules
      lookup_done (ok none) = search keeps_rules
      lookup_done (ok (some node)) = search keeps_rules

  advance-WithinBudget :
      (task : Task) → spent task ≡ false → Keeps WithinBudget (advance {E = SqlError} state task)
  unfolding advance ◌>>=◌
  advance-WithinBudget (fetched entry) h = search (keeps_rules, look_up-WithinBudget)
  advance-WithinBudget (located entry payload node) h =
      search (keeps_rules, forward_messages-Keeps WithinBudget)
  advance-WithinBudget (marking entry) h = search (keeps_rules, mark_delivered-WithinBudget)
  advance-WithinBudget (failing entry n) h =
      search (keeps_rules, record_failure-WithinBudget entry.id n (ground (arith, h)))

  after_lookup-next :
      (entry : FederationOutboxEntry) (payload : S2sMessagePayload)
      (r : Result SqlError (Option FederationNode)) (w : World) {v : World} {next : Option Task}
      → exhausted entry ≡ false
      → after_lookup {E = SqlError} entry payload r w ≡ (ok next, v)
      → NoneSpent (list_of next)
  after_lookup-next entry payload (err e) w h k =
      subst (λ o. NoneSpent (list_of o)) (pure-eq-ok none k).0 refl
  after_lookup-next entry payload (ok none) w h k =
      subst (λ o. NoneSpent (list_of o)) (pure-eq-ok _ k).0 (ground (arith, h))
  after_lookup-next entry payload (ok (some node)) w h k =
      subst (λ o. NoneSpent (list_of o)) (pure-eq-ok _ k).0 (ground (arith, h))

  look_up-next :
      (entry : FederationOutboxEntry) (payload : Option S2sMessagePayload) (w : World) {v : World}
      {next : Option Task}
      → exhausted entry ≡ false
      → look_up {E = SqlError} entry payload w ≡ (ok next, v)
      → NoneSpent (list_of next)
  look_up-next entry none w h k = subst (λ o. NoneSpent (list_of o)) (pure-eq-ok _ k).0 refl
  look_up-next entry (some payload) w h k =
      bind_elim (attempt (get_federation_node entry.target_node_id)) _ k
        (λ r u asked rest. after_lookup-next entry payload r u h rest)

  after_answer-next :
      (entry : FederationOutboxEntry) (r : Result ClientError S2sAck)
      → exhausted entry ≡ false
      → NoneSpent (list_of (after_answer entry r))
  after_answer-next entry (ok ack) h = refl
  after_answer-next entry (err e) h = ground (arith, h)

  advance-next :
      (task : Task) (w : World) {v : World} {next : Option Task}
      → spent task ≡ false
      → advance {E = SqlError} state task w ≡ (ok next, v)
      → NoneSpent (list_of next)
  unfolding advance
  advance-next (fetched entry) w h k = look_up-next entry _ w h (gets_step _ _ k)
  advance-next (located entry payload node) w h k =
      bind_elim (attempt (forward_messages (client_of state) node.api_url payload)) _ k
        (λ r u sent rest.
          subst (λ o. NoneSpent (list_of o)) (pure-eq-ok _ rest).0 (after_answer-next entry r h))
  advance-next (marking entry) w h k =
      bind_elim _ _ k
        (λ r u marked rest. subst (λ o. NoneSpent (list_of o)) (pure-eq-ok _ rest).0 refl)
  advance-next (failing entry n) w h k =
      bind_elim _ _ k
        (λ r u marked rest. subst (λ o. NoneSpent (list_of o)) (pure-eq-ok _ rest).0 refl)

fetched-spent :
    (es : List FederationOutboxEntry)
    → exists_where exhausted es ≡ false
    → NoneSpent (map fetched es)
fetched-spent [] h = refl
fetched-spent (e ∷ es) h = ground (arith, h, fetched-spent es)

-- The rows are within their budget, and no task would go beyond it.
pub record Sound (n : Node) : Type 0 where
  pub within : WithinBudget n.world.db
  pub none_spent : NoneSpent n.tasks

Handler-WithinBudget : {w v : World} → Handler w v → WithinBudget w.db → WithinBudget v.db
Handler-WithinBudget (queues node l json w) h = (enqueue_outbox-WithinBudget node l json).at w h
Handler-WithinBudget (acknowledges l w) h = (by_logical_id-WithinBudget l).at w h
Handler-WithinBudget (marks id w) h = (mark_delivered-WithinBudget id).at w h
Handler-WithinBudget (leaves same) h = record {
  none_over = ap (exists_where over_budget) same ∙ h.none_over;
}

spent-append : (xs ys : List Task) → NoneSpent xs → NoneSpent ys → NoneSpent (xs ++ ys)
spent-append xs ys h k = exists_where-append spent xs ys ∙ rw (h, k) refl

spent-parts :
    (xs : List Task) (t : Task) (ys : List Task)
    → NoneSpent (xs ++ t ∷ ys)
    → NoneSpent xs × (spent t ≡ false) × NoneSpent ys
spent-parts xs t ys h = ground (arith, h, exists_where-append spent xs (t ∷ ys))

step-Sound : (state : AppState) {m n : Node} → Step state m n → Sound m → Sound n
step-Sound state (polls w v es tasks fetch) s = record {
  within = Keeps-at fetch-WithinBudget fetch s.within;
  none_spent =
      spent-append tasks (map fetched es) s.none_spent
        (fetched-spent es (fetched-exhausted w v es s.within fetch));
}
step-Sound state (runs w v before task later next run) s =
    let (b, t, l) = spent-parts before task later s.none_spent in
    record {
      within = Keeps-at (advance-WithinBudget state task t) run s.within;
      none_spent =
          spent-append before (list_of next ++ later) b
            (spent-append (list_of next) later (advance-next state task w t run) l);
    }
step-Sound state (handles tasks h) s = record {
  within = Handler-WithinBudget h s.within;
  none_spent = s.none_spent;
}

steps-Sound : (state : AppState) {m n : Node} → Steps state m n → Sound m → Sound n
steps-Sound state done s = s
steps-Sound state (more ms last) s = step-Sound state last (steps-Sound state ms s)

-- From a node that has no task yet, however the rounds of the worker, the calls of its tasks and the
-- handlers interleave, and however long a task holds the row that it was given, no row counts more
-- than ten attempts, and none whose count is ten is pending.
pub steps-WithinBudget :
    (state : AppState) (w : World) (n : Node)
    → WithinBudget w.db
    → Steps state (at w []) n
    → WithinBudget n.world.db
steps-WithinBudget state w n h steps =
    (steps-Sound state steps (record { within = h; none_spent = refl })).within
