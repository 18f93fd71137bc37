-- ===== src/Repository/Messages.antt =====
-- src/repository/message_repository.rs
pub mod Redelivered
pub mod Untouched
pub mod Copies
pub mod Contents
pub mod Waiting
pub mod Mailbox
pub mod Lost
use hush_net_backend.Prelude.{
  ℕ, String, Bool, true, false, not, ◌&&◌, Option, none, some, List, [], ◌∷◌, ◌++◌, map, str_eq,
  ◌==◌, if◌then◌else◌, exists_where, select_where, update_where, order_by,
}
use hush_net_backend.Models.{
  Uuid, Value, Message, MessageView, OutgoingMessage, OutgoingMessagePayload, Devices,
}
use hush_net_backend.Store.{
  ◌>>=◌, ◌>>◌, Db, Notification, ok, err, Exec, Statement, Call, SqlError, unique_violation,
  foreign_key_violation, query, pure,
}
use hush_net_backend.Repository.Shadow.{user_exists, device_exists}

-- The columns that an INSERT INTO messages sets.
pub record NewMessage : Type 0 where
  pub logical_msg_id : String
  pub chat_id : Uuid
  pub from_user_id : Uuid
  pub from_device_id : Uuid
  pub to_user_id : Uuid
  pub to_device_id : Uuid
  pub header : Value
  pub ciphertext : String

-- UNIQUE (logical_msg_id, to_device_id)
abbrev pub is_copy : String → Uuid → Message → Bool
is_copy logical_msg_id to_device_id m =
    str_eq m.logical_msg_id logical_msg_id && m.to_device_id == to_device_id

-- the five foreign keys of the table
abbrev pub refers : NewMessage → Db → Bool
refers n db =
    exists_where (λ c. c.id == n.chat_id) db.chats
    && (user_exists n.from_user_id db
        && (device_exists n.from_device_id db
            && (user_exists n.to_user_id db && device_exists n.to_device_id db)))

abbrev pub stored : NewMessage → Call → Message
stored n c = record {
  id = c.new_id;
  logical_msg_id = n.logical_msg_id;
  chat_id = n.chat_id;
  from_user_id = n.from_user_id;
  from_device_id = n.from_device_id;
  to_user_id = n.to_user_id;
  to_device_id = n.to_device_id;
  header = n.header;
  ciphertext = n.ciphertext;
  delivered_at = none;
  read_at = none;
  created_at = c.now;
}

-- messages_notify_trigger
abbrev pub message_notice : Uuid → Notification
message_notice user_id = record {
  channel = "messages_channel";
  event_type = "message";
  user_id = user_id;
}

-- the INSERT behind the check of UNIQUE (logical_msg_id, to_device_id)
abbrev pub append_message : {A : Type 0} → A → NewMessage → Statement A
append_message a n c db =
    if exists_where (λ m. m.id == c.new_id) db.messages
    then (err unique_violation, db)
    else if not (refers n db)
    then (err foreign_key_violation, db)
    else (
      ok a,
      record db {
        messages = db.messages ++ stored n c ∷ [];
        notified = db.notified ++ message_notice n.to_user_id ∷ [];
      },
    )

unfoldable pub insert_statement : NewMessage → Statement (Unit {0})
insert_statement n c db =
    if exists_where (is_copy n.logical_msg_id n.to_device_id) db.messages
    then (err unique_violation, db)
    else append_message tt n c db

abbrev pub outgoing : Uuid → Uuid → OutgoingMessage → OutgoingMessagePayload → NewMessage
outgoing from_device_id from_user_id msg p = record {
  logical_msg_id = msg.logical_msg_id;
  chat_id = msg.chat_id;
  from_user_id = from_user_id;
  from_device_id = from_device_id;
  to_user_id = msg.to_user_id;
  to_device_id = p.to_device_id;
  header = p.header;
  ciphertext = p.ciphertext;
}

-- the loop over `msg.payloads`
unfoldable pub insert_payloads :
    Uuid → Uuid → OutgoingMessage → List OutgoingMessagePayload → Exec SqlError (Unit {0})
insert_payloads from_device_id from_user_id msg [] = pure tt
insert_payloads from_device_id from_user_id msg (p ∷ ps) = do
  query (insert_statement (outgoing from_device_id from_user_id msg p))
  insert_payloads from_device_id from_user_id msg ps

unfoldable pub insert_message : Uuid → Uuid → OutgoingMessage → Exec SqlError (Unit {0})
insert_message from_device_id from_user_id msg =
    insert_payloads from_device_id from_user_id msg msg.payloads

-- INSERT … ON CONFLICT (logical_msg_id, to_device_id) DO NOTHING, with the rows inserted
unfoldable pub federated_statement : NewMessage → Statement ℕ
federated_statement n c db =
    if exists_where (is_copy n.logical_msg_id n.to_device_id) db.messages
    then (ok 0, db)
    else append_message 1 n c db

unfoldable pub insert_federated_message : NewMessage → Exec SqlError Bool
insert_federated_message n = do rows ← query (federated_statement n); pure (rows == 1)

abbrev pub is_undelivered : Option ℕ → Bool
is_undelivered none = true
is_undelivered (some t) = false

-- to_device_id = $1 AND delivered_at IS NULL
abbrev pub is_waiting : Uuid → Message → Bool
is_waiting device_id m = m.to_device_id == device_id && is_undelivered m.delivered_at

abbrev pub message_view : Message → MessageView
message_view m = record {
  id = m.id;
  logical_msg_id = m.logical_msg_id;
  chat_id = some m.chat_id;
  from_user_id = some m.from_user_id;
  from_device_id = some m.from_device_id;
  header = m.header;
  ciphertext = m.ciphertext;
  created_at = some m.created_at;
}

unfoldable pub select_statement : Uuid → Statement (List MessageView)
select_statement device_id c db = (
  ok (
      map message_view
        (order_by (λ m. m.created_at) (select_where (is_waiting device_id) db.messages))),
  db,
)

unfoldable pub mark_statement : Uuid → Statement (Unit {0})
mark_statement device_id c db = (
  ok tt,
  record db {
    messages =
        update_where (is_waiting device_id) (λ m. record m { delivered_at = some c.now })
          db.messages;
  },
)

unfoldable pub fetch_pending_messages : Devices → Exec SqlError (List MessageView)
fetch_pending_messages device = do
  messages ← query (select_statement device.id)
  query (mark_statement device.id)
  pure messages
