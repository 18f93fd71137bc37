-- ===== src/Repository/Chats/Listed.antt =====
-- Direct chats in the chat list of src/repository/chat_repository.rs.
use hush_net_backend.Prelude.{
  ℕ, ◌<◌, ◌⊎◌, lt→ltb, Bool, true, false, ◌&&◌, ◌||◌, ◌≡◌, refl, sym, ap, subst, ◌∙◌, Option, some,
  List, [], ◌∷◌, map, ◌==◌, ==_refl, &&-eq-true, ltb, exists_where, find_where, find_where_sound,
  select_where, order_by_desc, insert_by_desc, Bool-cases, if◌then◌else◌, inl, inr, arith,
}
use mathlib.Core.Option.{some-injective}
use hush_net_backend.Models.{Uuid, Chat, ChatView, Devices}
use hush_net_backend.Store.{Db, World, Exec, ok, SqlError}
use hush_net_backend.Store.Inversion.{query_elim, query-eq-ok, ok-injective, after}
use hush_net_backend.Repository.Shadow.{is_id, is_direct, is_direct_chat, get_or_create_direct_chat}
use hush_net_backend.Repository.Shadow.Chats.{in_order, direct_chat_ordered, ordered_chat-ChatIs}
use hush_net_backend.Repository.Sessions.{user_of_device}
use hush_net_backend.Repository.Chats.{
  chat_view, is_chat_of, chats_of, user_statement, get_chats_for_device,
}

module _ {A : Type 0} where
  exists-select :
      (p q r : A → Bool) (xs : List A) (x : A)
      → find_where r xs ≡ some x
      → p x ≡ true
      → q x ≡ true
      → exists_where q (select_where p xs) ≡ true
  exists-select p q r [] x h k l = ground arith
  exists-select p q r (y ∷ xs) x h k l = elim (Bool-cases (r y)) [
    | inl here ↦
        let same : y ≡ x =
          some-injective _ _ (sym (ap (λ b. if b then some y else find_where r xs) here) ∙ h) in
        ground (arith, ap p same ∙ k, ap q same ∙ l)
    | inr later ↦ ground (arith, exists-select p q r xs x, h, k, l, later)
  ]

  exists-insert :
      (q : A → Bool) (key : A → ℕ) (x : A) (xs : List A)
      → exists_where q (insert_by_desc key x xs) ≡ (q x || exists_where q xs)
  exists-insert q key x [] = refl
  exists-insert q key x (y ∷ xs) = ground (arith, exists-insert q key x xs)

  exists-order :
      (q : A → Bool) (key : A → ℕ) (xs : List A)
      → exists_where q (order_by_desc key xs) ≡ exists_where q xs
  exists-order q key [] = refl
  exists-order q key (x ∷ xs) =
      exists-insert q key x (order_by_desc key xs) ∙ ap (λ b. q x || b) (exists-order q key xs)

exists-map :
    {A B : Type 0} (q : B → Bool) (f : A → B) (xs : List A)
    → exists_where q (map f xs) ≡ exists_where (λ x. q (f x)) xs
exists-map q f [] = refl
exists-map q f (x ∷ xs) = ap (λ b. q (f x) || b) (exists-map q f xs)

-- the entry of a chat with the partner `y`
abbrev pub shows : Uuid → Uuid → ChatView → Bool
shows id y view = view.id == id && is_id y view.partner_user_id

-- the two sides of a direct chat
left_side :
    (a b : Uuid) (chat : Chat) (db : Db)
    → is_direct_chat a b chat ≡ true
    → (is_chat_of a db chat ≡ true) × (shows chat.id b (chat_view a db chat) ≡ true)
left_side a b chat db h =
    let (h1, h2) =
      &&-eq-true (is_id a chat.user_a) (is_id b chat.user_b && is_direct chat.chat_type) h in
    let (h3, h4) = &&-eq-true (is_id b chat.user_b) (is_direct chat.chat_type) h2 in
    (ground (arith, h1, h3, h4), ground (arith, h1, h3, h4, ==_refl chat.id))

right_side :
    (a b : Uuid) (chat : Chat) (db : Db)
    → ltb a b ≡ true
    → is_direct_chat a b chat ≡ true
    → (is_chat_of b db chat ≡ true) × (shows chat.id a (chat_view b db chat) ≡ true)
right_side a b chat db l h =
    let (h1, h2) =
      &&-eq-true (is_id a chat.user_a) (is_id b chat.user_b && is_direct chat.chat_type) h in
    let (h3, h4) = &&-eq-true (is_id b chat.user_b) (is_direct chat.chat_type) h2 in
    (ground (arith, h1, h3, h4, l), ground (arith, h1, h3, h4, l, ==_refl chat.id))

-- a chat of the user with a partner is among the entries
entry :
    (x y a b : Uuid) (db : Db) (chat : Chat)
    → find_where (is_direct_chat a b) db.chats ≡ some chat
    → (is_chat_of x db chat ≡ true) × (shows chat.id y (chat_view x db chat) ≡ true)
    → exists_where (shows chat.id y) (
        map
          (chat_view x db)
          (order_by_desc (λ (c : Chat). c.updated_at) (select_where (is_chat_of x db) db.chats)))
      ≡ true
entry x y a b db chat found (mine, shown) =
    exists-map (shows chat.id y) (chat_view x db)
      (order_by_desc (λ (c : Chat). c.updated_at) (select_where (is_chat_of x db) db.chats))
    ∙ exists-order (λ c. shows chat.id y (chat_view x db c)) (λ (c : Chat). c.updated_at)
        (select_where (is_chat_of x db) db.chats)
    ∙ exists-select (is_chat_of x db) (λ c. shows chat.id y (chat_view x db c)) (is_direct_chat a b)
        db.chats chat found mine shown

list-run :
    (d : Devices) (x : Uuid) (w v : World) (out : List ChatView)
    → user_of_device d.id w.db ≡ some x
    → get_chats_for_device d w ≡ (ok out, v)
    → out
      ≡ map
          (chat_view x w.db)
          (order_by_desc (λ (c : Chat). c.updated_at) (select_where (is_chat_of x w.db) w.db.chats))
unfolding get_chats_for_device
list-run d x w v out user e = query_elim (user_statement d.id) _ e (λ o said rest.
    let o' : o ≡ some x = sym (ok-injective said) ∙ user in
    sym (
      ok-injective
        (query-eq-ok _ (
          subst (λ (o : Option Uuid). chats_of o (after (user_statement d.id) w) ≡ (ok out, v)) o'
            rest)).0))

not_lt : (x y : ℕ) → y < x → ltb x y ≡ false
not_lt x y l = ground arith

pick_order :
    (x y : Uuid) (chat : Chat) (t : Bool)
    → ltb x y ≡ t
    → is_direct_chat (in_order x y).0 (in_order x y).1 chat ≡ true
    → is_direct_chat (if t then x else y) (if t then y else x) chat ≡ true
pick_order x y chat true l h =
    ap (λ (p : Uuid × Uuid). is_direct_chat p.0 p.1 chat) (sym (chosen l)) ∙ h
  where
    chosen : ltb x y ≡ true → in_order x y ≡ (x, y)
    chosen l = rw l refl
pick_order x y chat false l h =
    ap (λ (p : Uuid × Uuid). is_direct_chat p.0 p.1 chat) (sym (chosen l)) ∙ h
  where
    chosen : ltb x y ≡ false → in_order x y ≡ (y, x)
    chosen l = rw l refl

-- Once a direct chat of two users was found or created, the list of each of the two, fetched on any
-- of their devices, has it with the other user as the partner.
pub direct_chat_listed :
    (x y : Uuid) (d : Devices) (w v u : World) (id : Uuid) (out : List ChatView)
    → (x < y) ⊎ (y < x)
    → get_or_create_direct_chat x y w ≡ (ok id, v)
    → user_of_device d.id v.db ≡ some x
    → get_chats_for_device d v ≡ (ok out, u)
    → exists_where (shows id y) out ≡ true
direct_chat_listed x y d w v u id out apart made user listed =
    let (a, b) = in_order x y in
    let (chat, found, same) =
      ordered_chat-ChatIs a b w v
        (ap (λ (m : Exec SqlError Uuid). m w) (sym (direct_chat_ordered x y)) ∙ made) in
    subst (λ i. exists_where (shows i y) out ≡ true) same
      (subst (λ l. exists_where (shows chat.id y) l ≡ true) (sym (list-run d x v u out user listed))
        (entry x y a b v.db chat found
          (sides apart chat v.db (find_where_sound (is_direct_chat a b) v.db.chats found))))
  where
    sides :
        (x < y) ⊎ (y < x)
        → (chat : Chat) (db : Db) → is_direct_chat (in_order x y).0 (in_order x y).1 chat ≡ true
        → (is_chat_of x db chat ≡ true) × (shows chat.id y (chat_view x db chat) ≡ true)
    sides (inl l) chat db h = left_side x y chat db (pick_order x y chat true (lt→ltb x y l) h)
    sides (inr l) chat db h =
        right_side y x chat db (lt→ltb y x l) (pick_order x y chat false (not_lt x y l) h)
