-- ===== src/Repository/Messages/Mailbox/Refines.antt =====
-- insert_federated_message and fetch_pending_messages of src/repository/message_repository.rs do
-- what the mailbox does.
use hush_net_backend.Prelude.{
  ℕ, true, false, ◌≡◌, refl, sym, ap, ◌∙◌, subst, List, [], ◌∷◌, ◌++◌, map, some, ◌==◌,
  exists_where, select_where, update_where, order_by, Bool-cases, inl, inr,
}
use hush_net_backend.Models.{Devices, Message, MessageView}
use hush_net_backend.Store.{
  Db, World, Result, ok, err, SqlError, Call, Exec, call_of, query, pure, continue, ◌>>=◌,
}
use hush_net_backend.Store.Inversion.{
  Outcome, answers as runs, unsent, answer_lost, after, query-Outcome,
}
use hush_net_backend.Repository.Messages.{
  NewMessage, is_copy, is_waiting, message_view, stored, refers, append_message,
  federated_statement, insert_federated_message, select_statement, mark_statement,
  fetch_pending_messages,
}
use hush_net_backend.Repository.Messages.Mailbox.{
  Slot, Box, waits_for, Op, puts, collects, Answer, put_in, handed, failed, respond_to, Allows,
  answers, fails_before, fails_after, letter_of_view, slot_of, box_of, put_answer, collect_answer,
  perform,
}
use hush_net_backend.Repository.Messages.Mailbox.Order.{rising}
use hush_net_backend.Repository.Messages.Mailbox.Slots.{
  exists-holds, map_slot-append, select-slots, mark-slots, rising-select_waiting,
}

module _ (op : Op) (box : Box) where
  allowed : (a : Answer) (b : Box) → (a, b) ≡ respond_to op box → Allows op box a b
  allowed a b h = subst (λ x. Allows op box x.0 x.1) (sym h) answers

  carried_out : (b : Box) → b ≡ (respond_to op box).1 → Allows op box failed b
  carried_out b h = subst (Allows op box failed) (sym h) fails_after

  not_done : (b : Box) → b ≡ box → Allows op box failed b
  not_done b h = subst (Allows op box failed) (sym h) fails_before

module _ (n : NewMessage) where
  -- What the INSERT says and does: the answer of the mailbox, or an error and nothing.
  data Stated (db : Db) : Result SqlError ℕ × Db → Type 0 where
    took :
        (k : ℕ) (db' : Db)
        → (put_in (k == 1), map slot_of db'.messages)
          ≡ respond_to (puts n) (map slot_of db.messages)
        → Stated db (ok k, db')
    not_taken : (e : SqlError) → Stated db (err e, db)

  put_seen :
      (ms : List Message)
      → exists_where (is_copy n.logical_msg_id n.to_device_id) ms ≡ true
      → respond_to (puts n) (map slot_of ms) ≡ (put_in false, map slot_of ms)
  put_seen ms h = rw (exists-holds n.logical_msg_id n.to_device_id ms ∙ h) refl

  put_new :
      (c : Call) (ms : List Message)
      → exists_where (is_copy n.logical_msg_id n.to_device_id) ms ≡ false
      → respond_to (puts n) (map slot_of ms) ≡ (put_in true, map slot_of (ms ++ stored n c ∷ []))
  put_new c ms h =
      rw (exists-holds n.logical_msg_id n.to_device_id ms ∙ h, map_slot-append ms (stored n c)) refl

  append-Stated :
      (c : Call) (db : Db)
      → exists_where (is_copy n.logical_msg_id n.to_device_id) db.messages ≡ false
      → Stated db (append_message 1 n c db)
  append-Stated c db new = elim (Bool-cases (exists_where (λ m. m.id == c.new_id) db.messages)) [
    | inl clash ↦ rw clash (not_taken _)
    | inr free ↦ elim (Bool-cases (refers n db)) [
      | inl known ↦ rw (free, known) (took 1 _ (sym (put_new c db.messages new)))
      | inr dangling ↦ rw (free, dangling) (not_taken _)
    ]
  ]

  federated-Stated : (c : Call) (db : Db) → Stated db (federated_statement n c db)
  unfolding federated_statement
  federated-Stated c db =
      elim (Bool-cases (exists_where (is_copy n.logical_msg_id n.to_device_id) db.messages)) [
        | inl seen ↦ rw seen (took 0 db (sym (put_seen db.messages seen)))
        | inr new ↦ rw new (append-Stated c db new)
      ]

  -- the call, in the world `w`, once its statement has had the outcome `x`
  module _ (w : World) where
    after_insert :
        (x : Result SqlError ℕ × Db)
        → Stated w.db x
        → (u : World) → u.db ≡ x.1
        → Allows
            (puts n)
            (box_of w)
            (put_answer (continue x.0 (λ rows. pure (rows == 1)) u).0)
            (box_of (continue x.0 (λ rows. pure (rows == 1)) u).1)
    unfolding ◌>>=◌
    after_insert _ (took k db' h) u e =
        allowed (puts n) (box_of w) (put_in (k == 1)) (box_of u)
          (ap (λ (d : Db). (put_in (k == 1), map slot_of d.messages)) e ∙ h)
    after_insert _ (not_taken e') u e =
        not_done (puts n) (box_of w) (box_of u) (ap (λ (d : Db). map slot_of d.messages) e)

    lost_insert :
        (x : Result SqlError ℕ × Db)
        → Stated w.db x
        → Allows (puts n) (box_of w) failed (map slot_of x.1.messages)
    lost_insert _ (took k db' h) =
        carried_out (puts n) (box_of w) (map slot_of db'.messages)
          (ap (λ (x : Answer × Box). x.1) h)
    lost_insert _ (not_taken e) = fails_before

    put-Allows :
        {x : Result SqlError ℕ × World}
        → Outcome (federated_statement n) w x
        → Allows
            (puts n)
            (box_of w)
            (put_answer (continue x.0 (λ rows. pure (rows == 1)) x.1).0)
            (box_of (continue x.0 (λ rows. pure (rows == 1)) x.1).1)
    unfolding ◌>>=◌
    put-Allows runs =
        after_insert (federated_statement n (call_of w) w.db) (federated-Stated (call_of w) w.db)
          (after (federated_statement n) w) refl
    put-Allows unsent = fails_before
    put-Allows answer_lost =
        lost_insert (federated_statement n (call_of w) w.db) (federated-Stated (call_of w) w.db)

module _ (device : Devices) where
  abbrev views_at : World → List MessageView
  views_at w =
      map message_view (
        order_by (λ (m : Message). m.created_at)
          (select_where (is_waiting device.id) w.db.messages))

  -- the rows after the UPDATE
  abbrev marked : ℕ → List Message → List Message
  marked t ms = update_where (is_waiting device.id) (λ m. record m { delivered_at = some t }) ms

  -- what the mailbox hands out and keeps is what the two statements do
  collected :
      (w : World) (t : ℕ)
      → rising 0 w.db.messages ≡ true
      → (handed (map letter_of_view (views_at w)), map slot_of (marked t w.db.messages))
        ≡ respond_to (collects device) (box_of w)
  collected w t r =
      let box = map slot_of (marked t w.db.messages) in
      ap (λ ms. (handed (map letter_of_view (map message_view ms)), box))
        (rising-select_waiting device.id w.db.messages r)
      ∙ ap (λ ls. (handed ls, box)) (select-slots device.id w.db.messages)
      ∙ ap
          (λ b. (
            handed (
                map (λ (s : Slot). s.letter)
                  (select_where (waits_for device.id) (map slot_of w.db.messages))),
            b,
          ))
          (mark-slots device.id t w.db.messages)

  -- the second statement, in the world `u` after the first has answered
  mark-Allows :
      (w u : World)
      → u.db ≡ w.db
      → rising 0 w.db.messages ≡ true
      → {x : Result SqlError (Unit {0}) × World} → Outcome (mark_statement device.id) u x
      → Allows
          (collects device)
          (box_of w)
          (collect_answer (continue x.0 (λ _. pure (views_at w)) x.1).0)
          (box_of (continue x.0 (λ _. pure (views_at w)) x.1).1)
  unfolding mark_statement ◌>>=◌
  mark-Allows w u same r runs =
      allowed (collects device) (box_of w) (handed (map letter_of_view (views_at w)))
        (map slot_of (marked (call_of u).now u.db.messages))
        (ap
            (λ (d : Db). (
              handed (map letter_of_view (views_at w)),
              map slot_of (marked (call_of u).now d.messages),
            ))
            same
          ∙ collected w (call_of u).now r)
  mark-Allows w u same r unsent =
      not_done (collects device) (box_of w) (box_of u)
        (ap (λ (d : Db). map slot_of d.messages) same)
  mark-Allows w u same r answer_lost =
      carried_out (collects device) (box_of w) (map slot_of (marked (call_of u).now u.db.messages))
        (ap (λ (d : Db). map slot_of (marked (call_of u).now d.messages)) same
          ∙ ap (λ (x : Answer × Box). x.1) (collected w (call_of u).now r))

  abbrev then_mark : List MessageView → Exec SqlError (List MessageView)
  then_mark messages = query (mark_statement device.id) >>= λ _. pure messages

  select-Allows :
      (w : World)
      → rising 0 w.db.messages ≡ true
      → {x : Result SqlError (List MessageView) × World} → Outcome (select_statement device.id) w x
      → Allows
          (collects device)
          (box_of w)
          (collect_answer (continue x.0 then_mark x.1).0)
          (box_of (continue x.0 then_mark x.1).1)
  unfolding select_statement ◌>>=◌
  select-Allows w r runs =
      mark-Allows w (after (select_statement device.id) w) refl r
        (query-Outcome (mark_statement device.id) (after (select_statement device.id) w))
  select-Allows w r unsent = fails_before
  select-Allows w r answer_lost = fails_before

-- An operation on the database answers what the mailbox answers, and leaves in the table what the
-- mailbox then holds; where it fails, it has been carried out or not, and nothing between. The rows
-- stand in the order of their times.
pub perform-Allows :
    (op : Op) (w : World)
    → rising 0 w.db.messages ≡ true
    → Allows op (box_of w) (perform op w).0 (box_of (perform op w).1)
unfolding insert_federated_message fetch_pending_messages ◌>>=◌
perform-Allows (puts n) w r = put-Allows n w (query-Outcome (federated_statement n) w)
perform-Allows (collects device) w r =
    select-Allows device w r (query-Outcome (select_statement device.id) w)
