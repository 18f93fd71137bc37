-- ===== src/Repository/Messages/Mailbox/Trace.antt =====
-- Any sequence of peers' inserts and of fetches, each in one step, with whatever else the node does
-- in between that leaves the messages alone.
use hush_net_backend.Prelude.{
  ℕ, ◌≤◌, true, false, ◌≡◌, refl, sym, ap, ◌∙◌, subst, List, [], ◌∷◌, ◌++◌, map, ◌==◌, exists_where,
  exists_where-append, Bool-cases, inl, inr, arith,
}
use hush_net_backend.Models.{Uuid, Devices}
use hush_net_backend.Store.{
  Db, World, Env, Notification, Call, Result, ok, err, SqlError, call_of, query, pure, continue,
  ◌>>=◌,
}
use hush_net_backend.Store.Runs.{Runs, Later, runs_rules}
use hush_net_backend.Store.Keeps.{Keeps, KeepsDb, Keeps-query, query-keeps_at, keeps_rules}
use hush_net_backend.Repository.Messages.{
  NewMessage, is_copy, stored, refers, federated_statement, insert_federated_message,
  select_statement, mark_statement, fetch_pending_messages,
}
use hush_net_backend.Repository.Messages.Mailbox.{
  Box, Op, puts, collects, Answer, Allows, slot_of, box_of, perform,
}
use hush_net_backend.Repository.Messages.Mailbox.Order.{
  rising, later_than, rising-append, rising-mark, later-mark, later_weaken,
}
use hush_net_backend.Repository.Messages.Mailbox.Refines.{perform-Allows}

-- The clock of the database does not go back.
abbrev pub ClockRises : Env → Type 0
ClockRises env = (i j : ℕ) → i ≤ j → env.db_now i ≤ env.db_now j

-- The rows stand in the order of their times, and none is later than the clock.
pub record Ordered (t : ℕ) (db : Db) : Type 0 where
  pub in_order : rising 0 db.messages ≡ true
  pub none_later : exists_where (later_than t) db.messages ≡ false

Ordered-weaken : (s t : ℕ) (db : Db) → s ≤ t → Ordered s db → Ordered t db
Ordered-weaken s t db l o = record {
  in_order = o.in_order;
  none_later = later_weaken s t db.messages l o.none_later;
}

stored-Ordered :
    (n : NewMessage) (c : Call) (db : Db) (notices : List Notification)
    → Ordered c.now db
    → Ordered c.now (record db { messages = db.messages ++ stored n c ∷ []; notified = notices })
stored-Ordered n c db notices o = record {
  in_order =
      rising-append 0 c.now db.messages (stored n c) (omega arith) (omega arith) o.none_later
        o.in_order;
  none_later =
      exists_where-append (later_than c.now) db.messages (stored n c ∷ [])
      ∙ ground (arith, o.none_later);
}

insert-Ordered :
    (n : NewMessage) (c : Call) (db : Db)
    → Ordered c.now db
    → Ordered c.now (federated_statement n c db).1
unfolding federated_statement
insert-Ordered n c db o =
    elim (Bool-cases (exists_where (is_copy n.logical_msg_id n.to_device_id) db.messages)) [
      | inl seen ↦ rw seen o
      | inr new ↦ rw new (elim (Bool-cases (exists_where (λ m. m.id == c.new_id) db.messages)) [
        | inl clash ↦ rw clash o
        | inr free ↦ rw free (elim (Bool-cases (refers n db)) [
          | inl known ↦ rw known (stored-Ordered n c db _ o)
          | inr dangling ↦ rw dangling o
        ])
      ])
    ]

mark-Ordered : (d : Uuid) (t : ℕ) → KeepsDb (Ordered t) (mark_statement d)
unfolding mark_statement
mark-Ordered d t c db o = record {
  in_order = rising-mark d c.now 0 db.messages ∙ o.in_order;
  none_later = later-mark d c.now t db.messages ∙ o.none_later;
}

select-Ordered : (d : Uuid) (t : ℕ) → KeepsDb (Ordered t) (select_statement d)
unfolding select_statement
select-Ordered d t c db o = o

fetch-Ordered : (device : Devices) (t : ℕ) → Keeps (Ordered t) (fetch_pending_messages device)
unfolding fetch_pending_messages
fetch-Ordered device t =
    search (keeps_rules, Keeps-query, mark-Ordered device.id t, select-Ordered device.id t) depth 12

-- The world `w` is in order by its own clock.
abbrev pub OrderedAt : World → Type 0
OrderedAt w = Ordered (call_of w).now w.db

same_world : (r : Result SqlError ℕ) (u : World) → (continue r (λ rows. pure (rows == 1)) u).1 ≡ u
unfolding ◌>>=◌
same_world (ok rows) u = refl
same_world (err e) u = refl

insert-at :
    (n : NewMessage) (w : World)
    → OrderedAt w
    → Ordered (call_of w).now (insert_federated_message n w).1.db
unfolding insert_federated_message ◌>>=◌
insert-at n w o =
    let t = (call_of w).now in
    subst (λ (u : World). Ordered t u.db) (sym (same_world (query (federated_statement n) w).0 _))
      (query-keeps_at (Ordered t) (federated_statement n) w (insert-Ordered n (call_of w) w.db o) o)

insert-Runs : (n : NewMessage) → Runs (insert_federated_message n)
unfolding insert_federated_message
insert-Runs n = search runs_rules

fetch-Runs : (device : Devices) → Runs (fetch_pending_messages device)
unfolding fetch_pending_messages
fetch-Runs device = search runs_rules depth 12

later-OrderedAt :
    (w v : World) → ClockRises w.env → Later w v → Ordered (call_of w).now v.db → OrderedAt v
later-OrderedAt w v clock l o =
    Ordered-weaken (call_of w).now (call_of v).now v.db
      (subst (λ (e : Env). w.env.db_now w.calls ≤ e.db_now v.calls) (sym l.same_env)
        (clock w.calls v.calls l.more_calls))
      o

perform-Later : (op : Op) (w : World) → Later w (perform op w).1
perform-Later (puts n) w = (insert-Runs n).at w
perform-Later (collects device) w = (fetch-Runs device).at w

perform-OrderedAt :
    (op : Op) (w : World) → ClockRises w.env → OrderedAt w → OrderedAt (perform op w).1
perform-OrderedAt (puts n) w clock o =
    later-OrderedAt w _ clock (perform-Later (puts n) w) (insert-at n w o)
perform-OrderedAt (collects device) w clock o =
    later-OrderedAt w _ clock (perform-Later (collects device) w)
      ((fetch-Ordered device (call_of w).now).at w o)

-- What happens between two worlds: the operations with their answers, in order, and in between
-- whatever leaves the messages alone.
pub data Happens : World → World → List (Op × Answer) → Type 0 where
  nothing : {w : World} → Happens w w []
  operates :
      {w v : World} {log : List (Op × Answer)} (op : Op)
      → Happens (perform op w).1 v log
      → Happens w v ((op, (perform op w).0) ∷ log)
  meanwhile :
      {w u v : World} {log : List (Op × Answer)}
      → Later w u
      → u.db.messages ≡ w.db.messages
      → Happens u v log
      → Happens w v log

-- A mailbox that gives these answers to these operations.
pub data Explains : Box → Box → List (Op × Answer) → Type 0 where
  silent : {b : Box} → Explains b b []
  then :
      {a b c : Box} {log : List (Op × Answer)} (op : Op) (answer : Answer)
      → Allows op a answer b
      → Explains b c log
      → Explains a c ((op, answer) ∷ log)

same-OrderedAt :
    (w u : World)
    → ClockRises w.env
    → Later w u
    → u.db.messages ≡ w.db.messages
    → OrderedAt w
    → OrderedAt u
same-OrderedAt w u clock l same o = later-OrderedAt w u clock l (record {
  in_order = ap (rising 0) same ∙ o.in_order;
  none_later = ap (exists_where (later_than (call_of w).now)) same ∙ o.none_later;
})

-- The table is a mailbox: whatever messages of peers were stored and whatever fetches were made that
-- nothing interrupted, with whatever answers, and whatever the node did in between that left the
-- messages alone, a mailbox that started with the letters of the table gives the same answers and ends
-- with the letters that the table ends with. The clock of the database does not go back, and letters of
-- the same second are handed out as they stand in the table.
pub Happens-Explains :
    {w v : World} {log : List (Op × Answer)}
    → ClockRises w.env
    → OrderedAt w
    → Happens w v log
    → Explains (box_of w) (box_of v) log
Happens-Explains clock o nothing = silent
Happens-Explains {w = w} clock o (operates op rest) =
    then op (perform op w).0 (perform-Allows op w o.in_order) (
      Happens-Explains (subst ClockRises (sym (perform-Later op w).same_env) clock)
        (perform-OrderedAt op w clock o) rest)
Happens-Explains {w} {v} {log} clock o (meanwhile {u = u} l same rest) =
    subst (λ b. Explains b (box_of v) log) (ap (map slot_of) same)
      (Happens-Explains (subst ClockRises (sym l.same_env) clock)
        (same-OrderedAt w u clock l same o) rest)
