-- ===== src/Repository/Chats.antt =====
-- src/repository/chat_repository.rs
pub mod Listed
use hush_net_backend.Prelude.{
  String, Bool, ◌&&◌, ◌||◌, Option, none, some, List, [], map, ◌==◌, exists_where, find_where,
  select_where, order_by_desc, if◌then◌else◌,
}
use mathlib.Core.Option
use hush_net_backend.Models.{Uuid, Chat, ChatView, direct, group, UserRow, Devices}
use hush_net_backend.Store.{◌>>=◌, Db, ChatMember, Exec, ok, SqlError, Statement, query, pure}
use hush_net_backend.Repository.Shadow.{is_id}
use hush_net_backend.Repository.Sessions.{user_of_device}

-- CASE WHEN c.user_a = $1 THEN c.user_b ELSE c.user_a END
abbrev pub partner_of : Uuid → Chat → Option Uuid
partner_of user_id chat = if is_id user_id chat.user_a then chat.user_b else chat.user_a

-- the row of the partner, if there is one
abbrev pub partner_row : Option Uuid → Db → Option UserRow
partner_row none db = none
partner_row (some id) db = find_where (λ u. u.id == id) db.users

abbrev address_of_row : Option UserRow → Option String
address_of_row none = none
address_of_row (some u) = u.federated_address

abbrev pub chat_view : Uuid → Db → Chat → ChatView
chat_view user_id db chat = record {
  id = chat.id;
  chat_type = some chat.chat_type;
  partner_user_id = partner_of user_id chat;
  partner_username =
      Option.map (λ (u : UserRow). u.username) (partner_row (partner_of user_id chat) db);
  partner_federated_address = address_of_row (partner_row (partner_of user_id chat) db);
  name = chat.name;
  last_message_id = chat.last_message_id;
  updated_at = some chat.updated_at;
}

abbrev pub is_member : Uuid → Uuid → ChatMember → Bool
is_member chat_id user_id m = m.chat_id == chat_id && m.user_id == user_id

-- a direct chat with the user on either side, or a group with the user among its members
abbrev pub is_chat_of : Uuid → Db → Chat → Bool
is_chat_of user_id db chat = elim chat.chat_type [
  | direct ↦ is_id user_id chat.user_a || is_id user_id chat.user_b
  | group ↦ exists_where (is_member chat.id user_id) db.chat_members
]

abbrev pub chats_of : Option Uuid → Exec SqlError (List ChatView)
chats_of none = pure []
chats_of (some user_id) = query (λ c db. (
  ok (
      map (chat_view user_id db) (
        order_by_desc (λ (x : Chat). x.updated_at)
          (select_where (is_chat_of user_id db) db.chats))),
  db,
))

abbrev pub user_statement : Uuid → Statement (Option Uuid)
user_statement device_id c db = (ok (user_of_device device_id db), db)

unfoldable pub get_chats_for_device : Devices → Exec SqlError (List ChatView)
get_chats_for_device device = do user_id ← query (user_statement device.id); chats_of user_id
