-- ===== src/Repository/Messages/Redelivered.antt =====
-- insert_federated_message of src/repository/message_repository.rs, when a message arrives again.
use hush_net_backend.Prelude.{
  ℕ, String, Bool, true, false, ◌≡◌, refl, sym, ap, ◌∙◌, subst, [], ◌∷◌, ◌==◌, exists_where,
  exists_where-append, arith,
}
use hush_net_backend.Models.{Uuid}
use hush_net_backend.Store.{Db, World, Result, ok, Call, SqlError, call_of}
use hush_net_backend.Store.Keeps.{Keeps, KeepsDb, Keeps-query, keeps_rules}
use hush_net_backend.Store.Inversion.{query_elim, pure-eq-ok}
use hush_net_backend.Repository.Messages.{
  NewMessage, stored, is_copy, federated_statement, insert_federated_message,
}
use hush_net_backend.Repository.Messages.Copies.{stored-is_copy}

-- A copy of the message for the device is stored.
abbrev pub HasCopy : String → Uuid → Db → Type 0
HasCopy l d db = exists_where (is_copy l d) db.messages ≡ true

federated-HasCopy :
    (l : String) (d : Uuid) (n : NewMessage) → KeepsDb (HasCopy l d) (federated_statement n)
unfolding federated_statement
federated-HasCopy l d n c db h =
    ground (arith, h, exists_where-append (is_copy l d) db.messages (stored n c ∷ []))

pub insert_federated_message-HasCopy :
    (l : String) (d : Uuid) (n : NewMessage) → Keeps (HasCopy l d) (insert_federated_message n)
unfolding insert_federated_message
insert_federated_message-HasCopy l d n = search (keeps_rules, Keeps-query, federated-HasCopy l d n)

federated-stores :
    (n : NewMessage) (c : Call) (db : Db) {r : ℕ}
    → (federated_statement n c db).0 ≡ ok r
    → HasCopy n.logical_msg_id n.to_device_id (federated_statement n c db).1
unfolding federated_statement
federated-stores n c db h = ground (
  arith,
  h,
  exists_where-append (is_copy n.logical_msg_id n.to_device_id) db.messages (stored n c ∷ []),
  stored-is_copy n c,
)

-- A call that returns leaves a copy behind.
pub insert_federated_message_stores :
    (n : NewMessage) (w v : World) (new : Bool)
    → insert_federated_message n w ≡ (ok new, v)
    → HasCopy n.logical_msg_id n.to_device_id v.db
unfolding insert_federated_message
insert_federated_message_stores n w v new e =
    query_elim (federated_statement n) _ e (λ rows said rest.
      subst (λ (x : World). HasCopy n.logical_msg_id n.to_device_id x.db)
        (pure-eq-ok (rows == 1) rest).1 (federated-stores n (call_of w) w.db said))

federated-seen :
    (n : NewMessage) (c : Call) (db : Db)
    → HasCopy n.logical_msg_id n.to_device_id db
    → federated_statement n c db ≡ (ok 0, db)
unfolding federated_statement
federated-seen n c db h = rw h refl

rows_of : {a b : ℕ} → ◌≡◌ {A = Result SqlError ℕ} (ok a) (ok b) → a ≡ b
rows_of h = ground arith

-- Where there is a copy, a call that returns says that nothing is new, and writes nothing.
pub insert_federated_message_seen :
    (n : NewMessage) (w v : World) (new : Bool)
    → HasCopy n.logical_msg_id n.to_device_id w.db
    → insert_federated_message n w ≡ (ok new, v)
    → (new ≡ false) × (v.db ≡ w.db)
unfolding insert_federated_message
insert_federated_message_seen n w v new h e =
    query_elim (federated_statement n) _ e (λ rows said rest.
      let same = federated-seen n (call_of w) w.db h in
      let (new', next) = pure-eq-ok (rows == 1) rest in
      (
        sym new'
            ∙ ap (λ k. k == 1)
                (sym (rows_of (sym (ap (λ (x : Result SqlError ℕ × Db). x.0) same) ∙ said))),
        ap (λ (x : World). x.db) (sym next) ∙ ap (λ (x : Result SqlError ℕ × Db). x.1) same,
      ))
