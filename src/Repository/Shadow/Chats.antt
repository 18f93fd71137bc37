-- ===== src/Repository/Shadow/Chats.antt =====
-- Direct chats: get_or_create_direct_chat of src/repository/federation_repository.rs.
use hush_net_backend.Prelude.{
  false, ◌≡◌, refl, sym, ap, ◌∙◌, Option, none, some, [], ◌∷◌, ==_refl, ltb, exists_where,
  find_where, find_where-append, find_where-eq-none, exists_of_find_where-none, subst, Bool-cases,
  if◌then◌else◌, inl, inr, arith,
}
use hush_net_backend.Models.{Uuid, Chat}
use hush_net_backend.Store.{Db, World, Result, ok, Exec, Call, SqlError, call_of}
use hush_net_backend.Store.Inversion.{query_elim, query-eq-ok, pure-eq-ok, after}
use mathlib.Core.Option.{some-injective}
use hush_net_backend.Repository.Shadow.{
  is_direct_chat, direct_chat, insert_chat_statement, find_chat_statement, or_insert_chat,
  ordered_chat, get_or_create_direct_chat,
}

-- The direct chat of two users is `chat`.
abbrev pub ChatIs : Uuid → Uuid → Uuid → Db → Type 0
ChatIs a b id db =
    (chat : Chat) × (find_where (is_direct_chat a b) db.chats ≡ some chat) × (chat.id ≡ id)

inserted-ChatIs :
    (a b : Uuid) (c : Call) (db : Db) {id : Uuid}
    → exists_where (is_direct_chat a b) db.chats ≡ false
    → (insert_chat_statement a b c db).0 ≡ ok id
    → ChatIs a b id (insert_chat_statement a b c db).1
unfolding insert_chat_statement
inserted-ChatIs a b c db {id} h e = (
  direct_chat a b c,
  ground (
    arith,
    find_where-append (is_direct_chat a b) db.chats (direct_chat a b c ∷ []),
    find_where-eq-none (is_direct_chat a b) db.chats h,
    ==_refl a,
    ==_refl b,
  ),
  ground (arith, e),
)

result_of : {A : Type 0} {a b : A} → ◌≡◌ {A = Result SqlError A} (ok a) (ok b) → a ≡ b
result_of h = ground arith

module _ (a b : Uuid) (w v : World) where
  created-ChatIs :
      {id : Uuid} (found : Option Chat)
      → find_where (is_direct_chat a b) w.db.chats ≡ found
      → (u : World) → u.db ≡ w.db
      → or_insert_chat a b found u ≡ (ok id, v)
      → ChatIs a b id v.db
  created-ChatIs {id} none h u same e =
      let (said, next) = query-eq-ok (insert_chat_statement a b) e in
      subst (λ (x : World). ChatIs a b id x.db) (sym next)
        (inserted-ChatIs a b (call_of u) u.db
          (exists_of_find_where-none (is_direct_chat a b) u.db.chats (rw same h)) said)
  created-ChatIs (some chat) h u same e =
      let (said, next) = pure-eq-ok chat.id e in
      (
        chat,
        ap (λ (x : World). find_where (is_direct_chat a b) x.db.chats) (sym next)
            ∙ ap (λ (d : Db). find_where (is_direct_chat a b) d.chats) same
            ∙ h,
        said,
      )

  pub ordered_chat-ChatIs : {id : Uuid} → ordered_chat a b w ≡ (ok id, v) → ChatIs a b id v.db
  unfolding ordered_chat find_chat_statement
  ordered_chat-ChatIs e =
      query_elim (find_chat_statement a b) (or_insert_chat a b) e (λ found said rest.
        created-ChatIs found (result_of said) (after (find_chat_statement a b) w) refl rest)

  found_again :
      {id id' : Uuid} (found : Option Chat)
      → find_where (is_direct_chat a b) w.db.chats ≡ found
      → ChatIs a b id w.db
      → (u : World) → u.db ≡ w.db
      → or_insert_chat a b found u ≡ (ok id', v)
      → (id' ≡ id) × (v.db ≡ w.db)
  found_again none h (chat, found, i) u same e = ground (arith, h, found)
  found_again (some chat) h (chat', found, i) u same e =
      let (said, next) = pure-eq-ok chat.id e in
      (
        sym said ∙ ap (λ (c : Chat). c.id) (some-injective _ _ (sym h ∙ found)) ∙ i,
        ap (λ (x : World). x.db) (sym next) ∙ same,
      )

  ordered_chat_again :
      {id id' : Uuid}
      → ChatIs a b id w.db
      → ordered_chat a b w ≡ (ok id', v)
      → (id' ≡ id) × (v.db ≡ w.db)
  unfolding ordered_chat find_chat_statement
  ordered_chat_again is e =
      query_elim (find_chat_statement a b) (or_insert_chat a b) e (λ found said rest.
        found_again found (result_of said) is (after (find_chat_statement a b) w) refl rest)

-- the two users in the order of the columns
abbrev pub in_order : Uuid → Uuid → Uuid × Uuid
in_order x y = if ltb x y then (x, y) else (y, x)

pub direct_chat_ordered :
    (x y : Uuid) → get_or_create_direct_chat x y ≡ ordered_chat (in_order x y).0 (in_order x y).1
unfolding get_or_create_direct_chat
direct_chat_ordered x y = elim (Bool-cases (ltb x y)) [ inl h ↦ rw h refl | inr h ↦ rw h refl ]

in_order_comm : (x y : Uuid) → in_order x y ≡ in_order y x
in_order_comm x y = ground arith

pub get_or_create_direct_chat_comm :
    (x y : Uuid) → get_or_create_direct_chat x y ≡ get_or_create_direct_chat y x
get_or_create_direct_chat_comm x y =
    direct_chat_ordered x y
    ∙ ap (λ (p : Uuid × Uuid). ordered_chat p.0 p.1) (in_order_comm x y)
    ∙ sym (direct_chat_ordered y x)

-- Two users have one direct chat: once it was found or created for `x` and `y`, a later call that
-- returns, for `y` and `x`, gives the same chat and writes nothing.
pub direct_chat_stable :
    (x y : Uuid) (w v u : World) (id id' : Uuid)
    → get_or_create_direct_chat x y w ≡ (ok id, v)
    → get_or_create_direct_chat y x v ≡ (ok id', u)
    → (id' ≡ id) × (u.db ≡ v.db)
direct_chat_stable x y w v u id id' first second =
    let (a, b) = in_order x y in
    ordered_chat_again a b v u
      (ordered_chat-ChatIs a b w v
        (ap (λ (m : Exec SqlError Uuid). m w) (sym (direct_chat_ordered x y)) ∙ first))
      (ap (λ (m : Exec SqlError Uuid). m v)
          (sym (direct_chat_ordered x y) ∙ get_or_create_direct_chat_comm x y)
        ∙ second)
