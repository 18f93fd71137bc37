-- ===== src/Repository/Sessions.antt =====
-- src/repository/session_repository.rs
pub mod Chosen
use hush_net_backend.Prelude.{
  String, Bool, false, not, ◌&&◌, Option, none, some, List, [], ◌∷◌, ◌++◌, ◌==◌, leb, if◌then◌else◌,
  exists_where, find_where, select_where, update_where, delete_where,
}
use hush_net_backend.Models.{Uuid, Devices, Chat, PendingSession, Session}
use hush_net_backend.Store.{
  Db, Notification, ok, err, Exec, Statement, Call, SqlError, unique_violation,
  foreign_key_violation, check_violation, query, ◌>>=◌, pure,
}
use hush_net_backend.Repository.Shadow.{is_id, device_exists, insert_chat_statement}
use mathlib.Core.Option

abbrev pub has_device_id : Uuid → Devices → Bool
has_device_id id d = d.id == id

-- (SELECT user_id FROM devices WHERE id = $1)
abbrev pub user_of_device : Uuid → Db → Option Uuid
user_of_device id db =
    Option.map (λ (d : Devices). d.user_id) (find_where (has_device_id id) db.devices)

-- one notification for each user that a trigger has found
abbrev pub notices : String → String → Option Uuid → List Notification
notices channel event_type none = []
notices channel event_type (some user_id) =
    record { channel = channel; event_type = event_type; user_id = user_id } ∷ []

abbrev pub new_pending : Uuid → Uuid → String → String → String → String → Call → PendingSession
new_pending sender recipient ephemeral_pubkey sender_prekey_pub otpk_used ciphertext c = record {
  id = c.new_id;
  sender_device_id = sender;
  recipient_device_id = recipient;
  ephemeral_pubkey = ephemeral_pubkey;
  sender_prekey_pub = sender_prekey_pub;
  otpk_used = otpk_used;
  ciphertext = ciphertext;
  created_at = some c.now;
}

-- The only key of the table is its id, so ON CONFLICT DO NOTHING skips a repeated id alone.
unfoldable pub pending_statement :
    Uuid → Uuid → String → String → String → String → Statement (Unit {0})
pending_statement sender recipient ephemeral_pubkey sender_prekey_pub otpk_used ciphertext c db =
    if exists_where (λ p. p.id == c.new_id) db.pending_sessions
    then (ok tt, db)
    else if not (device_exists sender db && device_exists recipient db)
    then (err foreign_key_violation, db)
    else (
      ok tt,
      record db {
        pending_sessions =
            db.pending_sessions
            ++ new_pending sender recipient ephemeral_pubkey sender_prekey_pub otpk_used ciphertext
                c
              ∷ [];
        notified =
            db.notified
            ++ notices "pending_sessions_channel" "pending_session" (user_of_device recipient db);
      },
    )

unfoldable pub create_pending_session :
    Uuid → Uuid → String → String → String → String → Exec SqlError (Unit {0})
create_pending_session sender recipient ephemeral_pubkey sender_prekey_pub otpk_used ciphertext =
    query
      (pending_statement sender recipient ephemeral_pubkey sender_prekey_pub otpk_used ciphertext)

unfoldable pub get_pending_sessions : Devices → Exec SqlError (List PendingSession)
get_pending_sessions device =
    query (λ c db.
      (ok (select_where (λ p. p.recipient_device_id == device.id) db.pending_sessions), db))

abbrev pub is_owned : Uuid → Uuid → PendingSession → Bool
is_owned pending_id recipient p = p.id == pending_id && p.recipient_device_id == recipient

unfoldable pub get_pending_session_by_id : Uuid → Uuid → Exec SqlError (Option PendingSession)
get_pending_session_by_id pending_id recipient =
    query (λ c db. (ok (find_where (is_owned pending_id recipient) db.pending_sessions), db))

-- LEAST and GREATEST skip a NULL.
abbrev pub least : Option Uuid → Option Uuid → Option Uuid
least none b = b
least (some a) none = some a
least (some a) (some b) = if leb a b then some a else some b

abbrev pub greatest : Option Uuid → Option Uuid → Option Uuid
greatest none b = b
greatest (some a) none = some a
greatest (some a) (some b) = if leb a b then some b else some a

-- column = value, which a NULL on either side does not satisfy
abbrev pub equals : Option Uuid → Option Uuid → Bool
equals column none = false
equals column (some id) = is_id id column

abbrev pub joins : Option Uuid → Option Uuid → Chat → Bool
joins a b chat = equals chat.user_a a && equals chat.user_b b

unfoldable pub find_statement : Uuid → Uuid → Statement (Option Chat)
find_statement sender receiver c db = (
  ok (
      find_where
        (joins (least (user_of_device sender db) (user_of_device receiver db))
          (greatest (user_of_device sender db) (user_of_device receiver db)))
        db.chats),
  db,
)

-- the CHECK refuses a direct chat with a NULL
abbrev pub insert_chat : Option Uuid → Option Uuid → Statement Uuid
insert_chat none b c db = (err check_violation, db)
insert_chat (some a) none c db = (err check_violation, db)
insert_chat (some a) (some b) c db = insert_chat_statement a b c db

unfoldable pub chat_statement : Uuid → Uuid → Statement Uuid
chat_statement sender receiver c db =
    insert_chat (least (user_of_device sender db) (user_of_device receiver db))
      (greatest (user_of_device sender db) (user_of_device receiver db)) c db

abbrev pub or_create_chat : Uuid → Uuid → Option Chat → Exec SqlError Uuid
or_create_chat sender receiver (some chat) = pure chat.id
or_create_chat sender receiver none = query (chat_statement sender receiver)

unfoldable pub get_or_create_chat_id : Uuid → Uuid → Exec SqlError Uuid
get_or_create_chat_id sender receiver = do
  found ← query (find_statement sender receiver)
  or_create_chat sender receiver found

abbrev pub is_session : Uuid → Uuid → Session → Bool
is_session sender receiver s = s.sender_device_id == sender && s.receiver_device_id == receiver

abbrev pub new_session : Uuid → Uuid → Uuid → Call → Session
new_session chat_id sender receiver c = record {
  id = c.new_id;
  chat_id = chat_id;
  sender_device_id = sender;
  receiver_device_id = receiver;
  created_at = c.now;
  updated_at = c.now;
}

unfoldable pub session_statement : Uuid → Uuid → Uuid → Statement (Unit {0})
session_statement chat_id sender receiver c db =
    if exists_where (is_session sender receiver) db.sessions
    then (
      ok tt,
      record db {
        sessions =
            update_where (is_session sender receiver) (λ s. record s { updated_at = c.now })
              db.sessions;
      },
    )
    else if exists_where (λ s. s.id == c.new_id) db.sessions
    then (err unique_violation, db)
    else if not (
        exists_where (λ chat. chat.id == chat_id) db.chats
        && (device_exists sender db && device_exists receiver db))
    then (err foreign_key_violation, db)
    else (
      ok tt,
      record db {
        sessions = db.sessions ++ new_session chat_id sender receiver c ∷ [];
        notified =
            (db.notified ++ notices "sessions_channel" "session" (user_of_device receiver db))
            ++ notices "sessions_channel" "session" (user_of_device sender db);
      },
    )

unfoldable pub insert_or_update_session : Uuid → Uuid → Uuid → Exec SqlError (Unit {0})
insert_or_update_session chat_id sender receiver = query (session_statement chat_id sender receiver)

unfoldable pub delete_statement : Uuid → Statement (Unit {0})
delete_statement pending_id c db = (
  ok tt,
  record db { pending_sessions = delete_where (λ p. p.id == pending_id) db.pending_sessions },
)

unfoldable pub delete_pending_session : Uuid → Exec SqlError (Unit {0})
delete_pending_session pending_id = query (delete_statement pending_id)
