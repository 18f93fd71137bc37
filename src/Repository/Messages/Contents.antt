-- ===== src/Repository/Messages/Contents.antt =====
-- What the rows hold that the inserts of src/repository/message_repository.rs add.
use hush_net_backend.Prelude.{
  String, true, false, ◌≡◌, sym, ap, ◌∙◌, ◌⊎◌, inl, inr, subst, List, [], ◌∷◌, ◌++◌, append-nil,
  append_assoc, Bool-cases, ◌||◌, ◌==◌, ==_iff, Bool-cases, &&-eq-true, ◌&&◌, Bool, exists_where,
  exists_where-append, AllOf, AnyOf, AllOf-append, AnyOf-append_right, arith,
}
use hush_net_backend.Models.{Message, S2sDevicePayload, S2sMessagePayload}
use hush_net_backend.Store.{Db, Call, ok}
use hush_net_backend.Store.Keeps.{Keeps, Keeps-query, Keeps-bind, keeps_rules}
use hush_net_backend.Repository.Messages.{
  NewMessage, is_copy, stored, refers, insert_statement, federated_statement,
  insert_federated_message,
}

-- what a row says, without its id and its times
abbrev pub letter_of : Message → NewMessage
letter_of m = record {
  logical_msg_id = m.logical_msg_id;
  chat_id = m.chat_id;
  from_user_id = m.from_user_id;
  from_device_id = m.from_device_id;
  to_user_id = m.to_user_id;
  to_device_id = m.to_device_id;
  header = m.header;
  ciphertext = m.ciphertext;
}

pub insert-appends :
    (n : NewMessage) (c : Call) (db : Db) {a : Unit {0}}
    → (insert_statement n c db).0 ≡ ok a
    → (insert_statement n c db).1.messages ≡ db.messages ++ stored n c ∷ []
unfolding insert_statement
insert-appends n c db h = ground (arith, h)

-- The row is for a device that the delivery names, and holds what the delivery says for it.
pub record Carries (payload : S2sMessagePayload) (m : Message) (e : S2sDevicePayload) : Type 0 where
  pub same_id : m.logical_msg_id ≡ payload.logical_msg_id
  pub same_sender : m.from_device_id ≡ payload.from_device_id
  pub same_device : m.to_device_id ≡ e.to_device_id
  pub same_header : m.header ≡ e.header
  pub same_ciphertext : m.ciphertext ≡ e.ciphertext

abbrev pub OfDelivery : S2sMessagePayload → Message → Type 0
OfDelivery payload m = AnyOf (Carries payload m) payload.payloads

-- `ms` is `old` with rows of the delivery behind it.
pub record Added (payload : S2sMessagePayload) (old ms : List Message) : Type 0 where
  pub added : List Message
  pub split : ms ≡ old ++ added
  pub held : AllOf (OfDelivery payload) added

pub Added-none : (payload : S2sMessagePayload) (old : List Message) → Added payload old old
Added-none payload old = record { added = []; split = sym (append-nil old); held = tt }

module _ (payload : S2sMessagePayload) (old : List Message) where
  stored-Added :
      (m : Message) (ms : List Message)
      → OfDelivery payload m
      → Added payload old ms
      → Added payload old (ms ++ m ∷ [])
  stored-Added m ms of a = record {
    added = a.added ++ m ∷ [];
    split = ap (λ l. l ++ m ∷ []) a.split ∙ append_assoc old a.added (m ∷ []);
    held = AllOf-append (OfDelivery payload) a.added (m ∷ []) a.held (of, tt);
  }

  statement-Added :
      (n : NewMessage) (c : Call) (db : Db)
      → OfDelivery payload (stored n c)
      → Added payload old db.messages
      → Added payload old (federated_statement n c db).1.messages
  unfolding federated_statement
  statement-Added n c db of a =
      elim (Bool-cases (exists_where (is_copy n.logical_msg_id n.to_device_id) db.messages)) [
        | inl seen ↦ rw seen a
        | inr new ↦ rw new (elim (Bool-cases (exists_where (λ m. m.id == c.new_id) db.messages)) [
          | inl clash ↦ rw clash a
          | inr free ↦ rw free (elim (Bool-cases (refers n db)) [
            | inl known ↦ rw known (stored-Added (stored n c) db.messages of a)
            | inr dangling ↦ rw dangling a
          ])
        ])
      ]

  pub insert_federated_message-Added :
      (n : NewMessage)
      → ((c : Call) → OfDelivery payload (stored n c))
      → Keeps (λ db. Added payload old db.messages) (insert_federated_message n)
  unfolding insert_federated_message
  insert_federated_message-Added n of =
      Keeps-bind _ _ (Keeps-query _ (λ c db a. statement-Added n c db (of c) a))
        (λ rows. search keeps_rules)

-- A device has its message: a row of the delivery for it, or one that was there before under the
-- same id, which the ON CONFLICT clause keeps.
abbrev pub Has : S2sMessagePayload → List Message → List Message → S2sDevicePayload → Type 0
Has payload old ms dev =
    (exists_where (is_copy payload.logical_msg_id dev.to_device_id) old ≡ true)
    ⊎ AnyOf (λ m. (m.to_device_id ≡ dev.to_device_id) × OfDelivery payload m) ms

module _ (payload : S2sMessagePayload) (old : List Message) (dev : S2sDevicePayload) where
  holds-copy :
      (added : List Message)
      → exists_where (is_copy payload.logical_msg_id dev.to_device_id) added ≡ true
      → AllOf (OfDelivery payload) added
      → AnyOf (λ m. (m.to_device_id ≡ dev.to_device_id) × OfDelivery payload m) added
  holds-copy [] h all = ground arith
  holds-copy (m ∷ added) h (here, rest) =
      elim (Bool-cases (is_copy payload.logical_msg_id dev.to_device_id m)) [
        | inl copy ↦ inl ((==_iff m.to_device_id dev.to_device_id).0 (&&-eq-true _ _ copy).1, here)
        | inr other ↦ inr (holds-copy added (ground (arith, h, other)) rest)
      ]

  copy-Has :
      (ms : List Message)
      → Added payload old ms
      → exists_where (is_copy payload.logical_msg_id dev.to_device_id) ms ≡ true
      → Has payload old ms dev
  copy-Has ms a h =
      elim (Bool-cases (exists_where (is_copy payload.logical_msg_id dev.to_device_id) old)) [
        | inl before ↦ inl before
        | inr new ↦ inr (
            subst (AnyOf (λ m. (m.to_device_id ≡ dev.to_device_id) × OfDelivery payload m))
              (sym a.split)
              (AnyOf-append_right _ old a.added (
                holds-copy a.added
                  (in_rest _ _ new (
                    sym (
                      exists_where-append (is_copy payload.logical_msg_id dev.to_device_id) old
                        a.added)
                    ∙ ap (exists_where (is_copy payload.logical_msg_id dev.to_device_id))
                        (sym a.split)
                    ∙ h))
                  a.held)))
      ]
    where
      in_rest : (x y : Bool) → x ≡ false → (x || y) ≡ true → y ≡ true
      in_rest x y h k = ground (arith, h, k)

-- Each of the devices has a copy.
abbrev pub all_stored : String → List S2sDevicePayload → List Message → Bool
all_stored l [] ms = true
all_stored l (dev ∷ devs) ms = exists_where (is_copy l dev.to_device_id) ms && all_stored l devs ms

-- each device of the list has its copy, so each has its message
pub all-Has :
    (payload : S2sMessagePayload) (old ms : List Message) (devs : List S2sDevicePayload)
    → Added payload old ms
    → all_stored payload.logical_msg_id devs ms ≡ true
    → AllOf (Has payload old ms) devs
all-Has payload old ms [] a h = tt
all-Has payload old ms (dev ∷ devs) a h =
    let (here, others) = &&-eq-true _ _ h in
    (copy-Has payload old dev ms a here, all-Has payload old ms devs a others)
