-- ===== src/Repository/Shadow.antt =====
-- src/repository/federation_repository.rs: shadow users and devices, direct chats, local users.
pub mod Chats
use hush_net_backend.Prelude.{
  String, Bool, true, false, not, ◌&&◌, Option, none, some, [], ◌∷◌, ◌++◌, str_eq, ◌==◌, ltb,
  if◌then◌else◌, exists_where, find_where, update_where,
}
use hush_net_backend.Models.{Uuid, UserRow, Devices, Chat, ChatType, direct, group, json_strings}
use hush_net_backend.Store.{
  ◌>>=◌, Db, Notification, ok, err, Exec, Statement, Call, SqlError, unique_violation,
  foreign_key_violation, check_violation, query, pure,
}
use mathlib.Core.Option

-- a nullable column equal to a value
abbrev pub is_id : Uuid → Option Uuid → Bool
is_id id none = false
is_id id (some x) = x == id

abbrev pub is_text : String → Option String → Bool
is_text s none = false
is_text s (some t) = str_eq t s

abbrev pub is_null : Option Uuid → Bool
is_null none = true
is_null (some x) = false

-- REFERENCES users(id), REFERENCES devices(id)
abbrev pub user_exists : Uuid → Db → Bool
user_exists id db = exists_where (λ u. u.id == id) db.users

abbrev pub device_exists : Uuid → Db → Bool
device_exists id db = exists_where (λ d. d.id == id) db.devices

abbrev pub has_address : String → UserRow → Bool
has_address address u = is_text address u.federated_address

-- the UPDATE of the ON CONFLICT clause, under UNIQUE (username)
abbrev rename_user : String → UserRow → Statement Uuid
rename_user username row c db =
    if exists_where (λ u. str_eq u.username username && not (u.id == row.id)) db.users
    then (err unique_violation, db)
    else (
      ok row.id,
      record db {
        users = update_where (λ u. u.id == row.id) (λ u. record u { username = username }) db.users;
      },
    )

abbrev insert_shadow_user : String → String → Uuid → Statement Uuid
insert_shadow_user username federated_address home_node_id c db =
    if exists_where (λ u. u.id == c.new_id) db.users
    then (err unique_violation, db)
    else if exists_where (λ u. str_eq u.username username) db.users
    then (err unique_violation, db)
    else if not (exists_where (λ n. n.id == home_node_id) db.federation_nodes)
    then (err foreign_key_violation, db)
    else (
      ok c.new_id,
      record db {
        users =
            db.users
            ++ record {
              id = c.new_id;
              username = username;
              created_at = c.now;
              home_node_id = some home_node_id;
              federated_address = some federated_address;
            }
              ∷ [];
      },
    )

unfoldable pub shadow_user_statement : String → String → Uuid → Statement Uuid
shadow_user_statement username federated_address home_node_id c db =
    elim (find_where (has_address federated_address) db.users) [
      | some row ↦ rename_user username row c db
      | none ↦ insert_shadow_user username federated_address home_node_id c db
    ]

unfoldable pub upsert_shadow_user : String → String → Uuid → Exec SqlError Uuid
upsert_shadow_user username federated_address home_node_id =
    query (shadow_user_statement username federated_address home_node_id)

abbrev pub device_notice : Uuid → Notification
device_notice user_id = record {
  channel = "devices_channel";
  event_type = "device";
  user_id = user_id;
}

abbrev pub same_device_key : Uuid → String → Devices → Bool
same_device_key user_id identity_pubkey d =
    d.user_id == user_id && str_eq d.identity_pubkey identity_pubkey

abbrev shadow_device : Uuid → Uuid → String → Call → Devices
shadow_device device_id user_id identity_pubkey c = record {
  id = device_id;
  user_id = user_id;
  identity_pubkey = identity_pubkey;
  prekey_pubkey = "";
  signed_prekey_pub = "";
  signed_prekey_sig = "";
  one_time_prekeys = json_strings [];
  device_label = none;
  push_token = none;
  last_seen = some c.now;
  created_at = some c.now;
}

unfoldable pub shadow_device_statement : Uuid → Uuid → String → Statement (Unit {0})
shadow_device_statement device_id user_id identity_pubkey c db =
    if device_exists device_id db
    then (ok tt, db)
    else if exists_where (same_device_key user_id identity_pubkey) db.devices
    then (err unique_violation, db)
    else if not (user_exists user_id db)
    then (err foreign_key_violation, db)
    else (
      ok tt,
      record db {
        devices = db.devices ++ shadow_device device_id user_id identity_pubkey c ∷ [];
        notified = db.notified ++ device_notice user_id ∷ [];
      },
    )

unfoldable pub upsert_shadow_device : Uuid → Uuid → String → Exec SqlError (Unit {0})
upsert_shadow_device device_id user_id identity_pubkey =
    query (shadow_device_statement device_id user_id identity_pubkey)

abbrev pub is_direct : ChatType → Bool
is_direct direct = true
is_direct group = false

abbrev pub is_direct_chat : Uuid → Uuid → Chat → Bool
is_direct_chat ua ub chat =
    is_id ua chat.user_a && (is_id ub chat.user_b && is_direct chat.chat_type)

abbrev pub direct_chat : Uuid → Uuid → Call → Chat
direct_chat ua ub c = record {
  id = c.new_id;
  chat_type = direct;
  user_a = some ua;
  user_b = some ub;
  name = none;
  owner_id = none;
  last_message_id = none;
  created_at = c.now;
  updated_at = c.now;
}

-- INSERT INTO chats of a direct chat. Since the CHECK orders the two users of each direct chat, the
-- unique index on LEAST and GREATEST is one on the two columns.
unfoldable pub insert_chat_statement : Uuid → Uuid → Statement Uuid
insert_chat_statement ua ub c db =
    if not (ltb ua ub)
    then (err check_violation, db)
    else if exists_where (λ chat. chat.id == c.new_id) db.chats
    then (err unique_violation, db)
    else if exists_where (is_direct_chat ua ub) db.chats
    then (err unique_violation, db)
    else if not (user_exists ua db && user_exists ub db)
    then (err foreign_key_violation, db)
    else (ok c.new_id, record db { chats = db.chats ++ direct_chat ua ub c ∷ [] })

unfoldable pub find_chat_statement : Uuid → Uuid → Statement (Option Chat)
find_chat_statement ua ub c db = (ok (find_where (is_direct_chat ua ub) db.chats), db)

abbrev pub or_insert_chat : Uuid → Uuid → Option Chat → Exec SqlError Uuid
or_insert_chat ua ub (some chat) = pure chat.id
or_insert_chat ua ub none = query (insert_chat_statement ua ub)

unfoldable pub ordered_chat : Uuid → Uuid → Exec SqlError Uuid
ordered_chat ua ub = do found ← query (find_chat_statement ua ub); or_insert_chat ua ub found

unfoldable pub get_or_create_direct_chat : Uuid → Uuid → Exec SqlError Uuid
get_or_create_direct_chat user_x user_y =
    if ltb user_x user_y then ordered_chat user_x user_y else ordered_chat user_y user_x

abbrev pub is_local_user : String → UserRow → Bool
is_local_user username u = str_eq u.username username && is_null u.home_node_id

unfoldable pub get_local_user_id_by_username : String → Exec SqlError (Option Uuid)
get_local_user_id_by_username username = query (λ c db.
    (ok (Option.map (λ (u : UserRow). u.id) (find_where (is_local_user username) db.users)), db))
