-- ===== src/Repository/Messages/Untouched.antt =====
-- The messages, under the statements of a node-to-node delivery that come before they are stored.
use hush_net_backend.Prelude.{String, ◌≡◌, refl, sym, subst, Option, none, some, List, arith}
use hush_net_backend.Models.{Uuid, Message, Chat}
use hush_net_backend.Store.{Db, Statement, Call, query}
use hush_net_backend.Store.Keeps.{Keeps, Keeps-query, Keeps-bind, keeps_rules}
use hush_net_backend.Repository.Shadow.{
  shadow_user_statement, shadow_device_statement, insert_chat_statement, find_chat_statement,
  or_insert_chat, ordered_chat, upsert_shadow_user, upsert_shadow_device, get_or_create_direct_chat,
  get_local_user_id_by_username,
}

-- The statement leaves the table `messages` alone.
abbrev Untouched : {A : Type 0} → Statement A → Type 0
Untouched s = (c : Call) (db : Db) → (s c db).1.messages ≡ db.messages

shadow_user-Untouched :
    (name address : String) (node : Uuid) → Untouched (shadow_user_statement name address node)
unfolding shadow_user_statement
shadow_user-Untouched name address node c db = ground arith

shadow_device-Untouched :
    (id user : Uuid) (key : String) → Untouched (shadow_device_statement id user key)
unfolding shadow_device_statement
shadow_device-Untouched id user key c db = ground arith

insert_chat-Untouched : (a b : Uuid) → Untouched (insert_chat_statement a b)
unfolding insert_chat_statement
insert_chat-Untouched a b c db = ground arith

find_chat-Untouched : (a b : Uuid) → Untouched (find_chat_statement a b)
unfolding find_chat_statement
find_chat-Untouched a b c db = refl

module _ (Q : List Message → Type 0) where
  query-Keeps_of_Untouched :
      {A : Type 0} (s : Statement A) → Untouched s → Keeps (λ db. Q db.messages) (query s)
  query-Keeps_of_Untouched s u = Keeps-query s (λ c db q. subst Q (sym (u c db)) q)

  pub upsert_shadow_user-Keeps :
      (name address : String) (node : Uuid)
      → Keeps (λ db. Q db.messages) (upsert_shadow_user name address node)
  unfolding upsert_shadow_user
  upsert_shadow_user-Keeps name address node =
      query-Keeps_of_Untouched (shadow_user_statement name address node)
        (shadow_user-Untouched name address node)

  pub upsert_shadow_device-Keeps :
      (id user : Uuid) (key : String)
      → Keeps (λ db. Q db.messages) (upsert_shadow_device id user key)
  unfolding upsert_shadow_device
  upsert_shadow_device-Keeps id user key =
      query-Keeps_of_Untouched (shadow_device_statement id user key)
        (shadow_device-Untouched id user key)

  pub get_local_user_id-Keeps :
      (name : String) → Keeps (λ db. Q db.messages) (get_local_user_id_by_username name)
  unfolding get_local_user_id_by_username
  get_local_user_id-Keeps name = query-Keeps_of_Untouched _ (λ c db. refl)

  or_insert_chat-Keeps :
      (a b : Uuid) (o : Option Chat) → Keeps (λ db. Q db.messages) (or_insert_chat a b o)
  or_insert_chat-Keeps a b none =
      query-Keeps_of_Untouched (insert_chat_statement a b) (insert_chat-Untouched a b)
  or_insert_chat-Keeps a b (some chat) = search keeps_rules

  ordered_chat-Keeps : (a b : Uuid) → Keeps (λ db. Q db.messages) (ordered_chat a b)
  unfolding ordered_chat
  ordered_chat-Keeps a b =
      Keeps-bind _ _ (query-Keeps_of_Untouched (find_chat_statement a b) (find_chat-Untouched a b))
        (or_insert_chat-Keeps a b)

  pub direct_chat-Keeps : (x y : Uuid) → Keeps (λ db. Q db.messages) (get_or_create_direct_chat x y)
  unfolding get_or_create_direct_chat
  direct_chat-Keeps x y = search (keeps_rules, ordered_chat-Keeps)
