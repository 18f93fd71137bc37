-- ===== src/Repository/Messages/Copies.antt =====
-- The copies of messages, under the writes of src/repository/message_repository.rs.
use hush_net_backend.Prelude.{
  ℕ, ◌+◌, ◌≤◌, String, Bool, true, false, ◌≡◌, refl, sym, ap, subst, ◌∙◌, some, List, [], ◌∷◌, ◌++◌,
  ◌==◌, str_eq, count_where, exists_where, update_where, Bool-cases, if◌then◌else◌, inl, inr, arith,
}
use text.Mathlib.TextPositions.{eq_refl}
use hush_net_backend.Prelude.{&&-eq-true, ==_refl, eq_iff, ==_iff}
use hush_net_backend.Models.{Uuid, Devices, Message, OutgoingMessage, OutgoingMessagePayload}
use hush_net_backend.Store.{Db, Call}
use hush_net_backend.Store.Keeps.{Keeps, KeepsDb, Keeps-query, Keeps-bind, keeps_rules}
use hush_net_backend.Repository.Messages.{
  NewMessage, stored, is_copy, is_waiting, append_message, refers, insert_statement,
  insert_payloads, federated_statement, insert_federated_message, mark_statement, select_statement,
  fetch_pending_messages,
}

-- A device has at most one copy of a message.
pub record DistinctCopies (ms : List Message) : Type 0 where
  pub at_most :
      (logical_msg_id : String) (device_id : Uuid)
      → count_where (is_copy logical_msg_id device_id) ms ≤ 1

abbrev pub UniqueCopies : Db → Type 0
UniqueCopies db = DistinctCopies db.messages

count-append :
    (p : Message → Bool) (ms : List Message) (m : Message)
    → count_where p (ms ++ m ∷ []) ≡ count_where p ms + (if p m then 1 else 0)
count-append p [] m = ground arith
count-append p (x ∷ ms) m = ground (arith, count-append p ms m)

count-zero :
    (p : Message → Bool) (ms : List Message) → exists_where p ms ≡ false → count_where p ms ≡ 0
count-zero p [] h = refl
count-zero p (x ∷ ms) h = ground (arith, count-zero p ms)

-- Two keys of one message are the same key.
same_key :
    (l l' : String) (d d' : Uuid) (m : Message)
    → is_copy l d m ≡ true
    → is_copy l' d' m ≡ true
    → (l ≡ l') × (d ≡ d')
same_key l l' d d' m h k =
    let (h1, h2) = &&-eq-true (str_eq m.logical_msg_id l) (m.to_device_id == d) h in
    let (k1, k2) = &&-eq-true (str_eq m.logical_msg_id l') (m.to_device_id == d') k in
    (
      sym ((eq_iff m.logical_msg_id l).0 h1) ∙ (eq_iff m.logical_msg_id l').0 k1,
      sym ((==_iff m.to_device_id d).0 h2) ∙ (==_iff m.to_device_id d').0 k2,
    )

-- the new row has the key that the INSERT checked
pub stored-is_copy :
    (n : NewMessage) (c : Call) → is_copy n.logical_msg_id n.to_device_id (stored n c) ≡ true
stored-is_copy n c = ground (arith, eq_refl n.logical_msg_id, ==_refl n.to_device_id)

count_stored :
    (n : NewMessage) (c : Call) (ms : List Message) (l : String) (d : Uuid)
    → exists_where (is_copy n.logical_msg_id n.to_device_id) ms ≡ false
    → count_where (is_copy l d) ms ≤ 1
    → count_where (is_copy l d) (ms ++ stored n c ∷ []) ≤ 1
count_stored n c ms l d h u = elim (Bool-cases (is_copy l d (stored n c))) [
  | inl same ↦
      let (e1, e2) =
        same_key n.logical_msg_id l n.to_device_id d (stored n c) (stored-is_copy n c) same in
      let none_yet : count_where (is_copy l d) ms ≡ 0 = count-zero (is_copy l d) ms (
        subst (λ d. exists_where (is_copy l d) ms ≡ false) e2
          (subst (λ l. exists_where (is_copy l n.to_device_id) ms ≡ false) e1 h)) in
      subst (λ k. k ≤ 1)
        (sym (
          count-append (is_copy l d) ms (stored n c)
          ∙ ap (λ b. count_where (is_copy l d) ms + (if b then 1 else 0)) same))
        (omega (arith, none_yet))
  | inr other ↦
      subst (λ k. k ≤ 1)
        (sym (
          count-append (is_copy l d) ms (stored n c)
          ∙ ap (λ b. count_where (is_copy l d) ms + (if b then 1 else 0)) other))
        (omega (arith, u))
]

module _ {A : Type 0} where
  append-UniqueCopies :
      (a : A) (n : NewMessage) (c : Call) (db : Db)
      → exists_where (is_copy n.logical_msg_id n.to_device_id) db.messages ≡ false
      → UniqueCopies db
      → UniqueCopies (append_message a n c db).1
  append-UniqueCopies a n c db h u =
      elim (Bool-cases (exists_where (λ m. m.id == c.new_id) db.messages)) [
        | inl clash ↦ rw clash u
        | inr new ↦ rw new (elim (Bool-cases (refers n db)) [
          | inl refs ↦
              rw refs
                (record { at_most = λ l d. count_stored n c db.messages l d h (u.at_most l d) })
          | inr dangling ↦ rw dangling u
        ])
      ]

insert-UniqueCopies : (n : NewMessage) → KeepsDb UniqueCopies (insert_statement n)
unfolding insert_statement
insert-UniqueCopies n c db u =
    elim (Bool-cases (exists_where (is_copy n.logical_msg_id n.to_device_id) db.messages)) [
      | inl seen ↦ rw seen u
      | inr new ↦ rw new (append-UniqueCopies tt n c db new u)
    ]

federated-UniqueCopies : (n : NewMessage) → KeepsDb UniqueCopies (federated_statement n)
unfolding federated_statement
federated-UniqueCopies n c db u =
    elim (Bool-cases (exists_where (is_copy n.logical_msg_id n.to_device_id) db.messages)) [
      | inl seen ↦ rw seen u
      | inr new ↦ rw new (append-UniqueCopies 1 n c db new u)
    ]

-- the UPDATE leaves the keys alone
count-mark :
    (device_id : Uuid) (t : ℕ) (l' : String) (d : Uuid) (ms : List Message)
    → count_where
        (is_copy l' d)
        (update_where (is_waiting device_id) (λ m. record m { delivered_at = some t }) ms)
      ≡ count_where (is_copy l' d) ms
count-mark device_id t l' d [] = refl
count-mark device_id t l' d (m ∷ ms) = ground (arith, count-mark device_id t l' d ms)

mark-UniqueCopies : (device_id : Uuid) → KeepsDb UniqueCopies (mark_statement device_id)
unfolding mark_statement
mark-UniqueCopies device_id c db u = record {
  at_most =
      λ l d. subst (λ k. k ≤ 1) (sym (count-mark device_id c.now l d db.messages)) (u.at_most l d);
}

select-UniqueCopies : (device_id : Uuid) → KeepsDb UniqueCopies (select_statement device_id)
unfolding select_statement
select-UniqueCopies device_id c db u = u

pub insert_payloads-UniqueCopies :
    (from_device_id from_user_id : Uuid) (msg : OutgoingMessage) (ps : List OutgoingMessagePayload)
    → Keeps UniqueCopies (insert_payloads from_device_id from_user_id msg ps)
unfolding insert_payloads
insert_payloads-UniqueCopies from_device_id from_user_id msg [] = search keeps_rules
insert_payloads-UniqueCopies from_device_id from_user_id msg (p ∷ ps) =
    Keeps-bind _ _ (Keeps-query _ (insert-UniqueCopies _))
      (λ _. insert_payloads-UniqueCopies from_device_id from_user_id msg ps)

pub insert_federated_message-UniqueCopies :
    (n : NewMessage) → Keeps UniqueCopies (insert_federated_message n)
unfolding insert_federated_message
insert_federated_message-UniqueCopies n = search (keeps_rules, Keeps-query, federated-UniqueCopies)

pub fetch_pending-UniqueCopies :
    (device : Devices) → Keeps UniqueCopies (fetch_pending_messages device)
unfolding fetch_pending_messages
fetch_pending-UniqueCopies device =
    search (keeps_rules, Keeps-query, mark-UniqueCopies, select-UniqueCopies) depth 12
