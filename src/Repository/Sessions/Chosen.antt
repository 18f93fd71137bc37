-- ===== src/Repository/Sessions/Chosen.antt =====
-- get_or_create_chat_id of src/repository/session_repository.rs, run forward.
use hush_net_backend.Prelude.{
  ℕ, suc, true, false, ◌≡◌, refl, sym, ap, ◌∙◌, Option, none, some, List, [], ◌∷◌, ◌==◌, leb, ltb,
  ==_refl, Bool, Bool-cases, inl, inr, exists_where, exists_where-append, ◌++◌, find_where,
  exists_of_find_where-none, arith,
}
use hush_net_backend.Models.{Uuid, Chat}
use mathlib.Core.Path.{ap₂}
use hush_net_backend.Store.{Db, World, Result, ok, SqlError, Call, fine, call_of, query}
use hush_net_backend.Store.Inversion.{after, query_fine}
use hush_net_backend.Store.Forward.{bind_step, pure_run}
use hush_net_backend.Repository.Shadow.{
  user_exists, is_direct_chat, direct_chat, insert_chat_statement,
}
use hush_net_backend.Repository.Sessions.{
  user_of_device, least, greatest, joins, find_statement, insert_chat, chat_statement,
  or_create_chat, get_or_create_chat_id,
}

-- The chat `id` is in the tables, and the rest that a session needs is as before.
pub record ChatReady (id : Uuid) (w u : World) : Type 0 where
  pub stored : exists_where (λ chat. chat.id == id) u.db.chats ≡ true
  pub same_devices : u.db.devices ≡ w.db.devices
  pub same_sessions : u.db.sessions ≡ w.db.sessions
  pub same_env : u.env ≡ w.env

found-stored :
    (p : Chat → Bool) (chats : List Chat) (found : Chat)
    → find_where p chats ≡ some found
    → exists_where (λ chat. chat.id == found.id) chats ≡ true
found-stored p [] found h = ground arith
found-stored p (c ∷ chats) found h = ground (arith, found-stored p chats found, ==_refl c.id)

no_direct_chat :
    (a b : Uuid) (chats : List Chat)
    → exists_where (joins (some a) (some b)) chats ≡ false
    → exists_where (is_direct_chat a b) chats ≡ false
no_direct_chat a b [] h = refl
no_direct_chat a b (c ∷ chats) h = ground (arith, h, no_direct_chat a b chats)

-- a new direct chat of two users, the smaller id first
insert_run :
    (a b : Uuid) (c : Call) (db : Db)
    → ltb a b ≡ true
    → exists_where (λ chat. chat.id == c.new_id) db.chats ≡ false
    → exists_where (joins (some a) (some b)) db.chats ≡ false
    → user_exists a db ≡ true
    → user_exists b db ≡ true
    → insert_chat_statement a b c db
      ≡ (ok c.new_id, record db { chats = db.chats ++ direct_chat a b c ∷ [] })
unfolding insert_chat_statement
insert_run a b c db h1 h2 h3 h4 h5 = rw (h1, h2, no_direct_chat a b db.chats h3, h4, h5) refl

-- LEAST and GREATEST of two different users
abbrev InOrder : Uuid → Uuid → Db → Type 0
InOrder a b db =
    (lo : Uuid) × (hi : Uuid) × (least (some a) (some b) ≡ some lo)
    × (greatest (some a) (some b) ≡ some hi)
    × (ltb lo hi ≡ true)
    × (user_exists lo db ≡ true)
    × (user_exists hi db ≡ true)

in_order :
    (a b : Uuid) (db : Db)
    → (a == b) ≡ false
    → user_exists a db ≡ true
    → user_exists b db ≡ true
    → InOrder a b db
in_order a b db ne ha hb = elim (Bool-cases (leb a b)) [
  | inl le ↦ (a, b, rw le refl, rw le refl, ground (arith, le, ne), ha, hb)
  | inr gt ↦ (b, a, rw gt refl, rw gt refl, ground (arith, gt, ne), hb, ha)
]

-- What the two devices need for a direct chat of their owners.
pub record Owned (s r : Uuid) (db : Db) : Type 0 where
  pub a : Uuid
  pub b : Uuid
  pub sender_owner : user_of_device s db ≡ some a
  pub receiver_owner : user_of_device r db ≡ some b
  pub different : (a == b) ≡ false
  pub a_exists : user_exists a db ≡ true
  pub b_exists : user_exists b db ≡ true

-- the chat that find_statement looks for
abbrev chat_between : Uuid → Uuid → Db → Option Chat
chat_between s r db =
    find_where
      (joins (least (user_of_device s db) (user_of_device r db))
        (greatest (user_of_device s db) (user_of_device r db)))
      db.chats

module _ (s r : Uuid) where
  chat_statement_run :
      (c : Call) (db : Db)
      → Owned s r db
      → exists_where (λ chat. chat.id == c.new_id) db.chats ≡ false
      → chat_between s r db ≡ none
      → (chat : Chat) × (chat.id ≡ c.new_id)
        × (chat_statement s r c db ≡ (ok c.new_id, record db { chats = db.chats ++ chat ∷ [] }))
  unfolding chat_statement
  chat_statement_run c db o fresh absent =
      let (lo, hi, least_is, greatest_is, ordered, lo_exists, hi_exists) =
        in_order o.a o.b db o.different o.a_exists o.b_exists in
      let lows : least (user_of_device s db) (user_of_device r db) ≡ some lo =
        rw (o.sender_owner, o.receiver_owner) least_is in
      let highs : greatest (user_of_device s db) (user_of_device r db) ≡ some hi =
        rw (o.sender_owner, o.receiver_owner) greatest_is in
      let nobody : exists_where (joins (some lo) (some hi)) db.chats ≡ false =
        exists_of_find_where-none (joins (some lo) (some hi)) db.chats (
          ap (λ (x : Option Uuid × Option Uuid). find_where (joins x.0 x.1) db.chats)
            (sym (ap₂ (λ (x y : Option Uuid). (x, y)) lows highs))
          ∙ absent) in
      (
        direct_chat lo hi c,
        refl,
        ap₂ (λ (x y : Option Uuid). insert_chat x y c db) lows highs
            ∙ insert_run lo hi c db ordered fresh nobody lo_exists hi_exists,
      )

  or_create_run :
      (w u : World) (found : Option Chat)
      → chat_between s r w.db ≡ found
      → u ≡ after (find_statement s r) w
      → Owned s r w.db
      → exists_where (λ chat. chat.id == u.env.new_id u.calls) u.db.chats ≡ false
      → u.env.fault u.calls ≡ fine
      → (id : Uuid) × (v : World) × (or_create_chat s r found u ≡ (ok id, v)) × ChatReady id w v
  unfolding find_statement
  or_create_run w u (some chat) h same o fresh up = (
    chat.id,
    u,
    pure_run chat.id u,
    record {
      stored = rw same (found-stored _ w.db.chats chat h);
      same_devices = rw same refl;
      same_sessions = rw same refl;
      same_env = rw same refl;
    },
  )
  or_create_run w u none h same o fresh up =
      let owned : Owned s r u.db = rw same o in
      let absent : chat_between s r u.db ≡ none = rw same h in
      let (chat, ids, runs) = chat_statement_run (call_of u) u.db owned fresh absent in
      let v : World = record u {
        db = record u.db { chats = u.db.chats ++ chat ∷ [] };
        calls = suc u.calls;
      } in
      (
        u.env.new_id u.calls,
        v,
        query_fine (chat_statement s r) u up
            ∙ ap
                (λ (x : Result SqlError Uuid × Db).
                  (x.0, record u { db = x.1; calls = suc u.calls }))
                runs,
        record {
          stored =
              exists_where-append _ u.db.chats (chat ∷ [])
              ∙ ground (arith, ids, ==_refl (u.env.new_id u.calls));
          same_devices = rw same refl;
          same_sessions = rw same refl;
          same_env = rw same refl;
        },
      )

  -- The database answers with a chat of the two owners.
  pub get_or_create_chat_id_run :
      (w : World)
      → Owned s r w.db
      → exists_where (λ chat. chat.id == w.env.new_id (suc w.calls)) w.db.chats ≡ false
      → ((i : ℕ) → w.env.fault i ≡ fine)
      → (id : Uuid) × (v : World) × (get_or_create_chat_id s r w ≡ (ok id, v)) × ChatReady id w v
  unfolding get_or_create_chat_id find_statement
  get_or_create_chat_id_run w o fresh up =
      let (id, v, runs, ready) =
        or_create_run w (after (find_statement s r) w) (chat_between s r w.db) refl refl o fresh
          (up (suc w.calls)) in
      (
        id,
        v,
        bind_step (query (find_statement s r)) (or_create_chat s r)
              (query_fine (find_statement s r) w (up w.calls))
            ∙ runs,
        ready,
      )
