-- ===== src/Repository/Messages/Mailbox/Order.antt =====
-- The order of arrival: the rows of `messages` stand in the order of `created_at`, as long as the
-- clock of the database does not go back.
use hush_net_backend.Prelude.{
  ℕ, ◌≤◌, Bool, true, false, ◌&&◌, ◌≡◌, refl, ap, ◌∙◌, List, [], ◌∷◌, ◌++◌, leb, ltb, some,
  exists_where, select_where, update_where, insert_by, order_by, &&-eq-true, arith,
}
use hush_net_backend.Models.{Uuid, Message}
use hush_net_backend.Repository.Messages.{is_waiting}

-- The rows' times rise from `k` on.
abbrev pub rising : ℕ → List Message → Bool
rising k [] = true
rising k (m ∷ ms) = leb k m.created_at && rising m.created_at ms

-- a row that was stored after the time `t`
abbrev pub later_than : ℕ → Message → Bool
later_than t m = ltb t m.created_at

rising_weaken : (j k : ℕ) (ms : List Message) → j ≤ k → rising k ms ≡ true → rising j ms ≡ true
rising_weaken j k [] h r = refl
rising_weaken j k (m ∷ ms) h r = ground (arith, r)

pub rising-select :
    (p : Message → Bool) (k : ℕ) (ms : List Message)
    → rising k ms ≡ true
    → rising k (select_where p ms) ≡ true
rising-select p k [] r = refl
rising-select p k (m ∷ ms) r =
    ground
      (arith, r, rising-select p m.created_at ms, rising_weaken k m.created_at (select_where p ms))

insert_first :
    (m : Message) (ms : List Message)
    → rising m.created_at ms ≡ true
    → insert_by (λ (m : Message). m.created_at) m ms ≡ m ∷ ms
insert_first m [] r = refl
insert_first m (x ∷ xs) r = ground (arith, r)

-- ORDER BY created_at leaves such rows as they stand.
pub order_by-rising :
    (k : ℕ) (ms : List Message)
    → rising k ms ≡ true
    → order_by (λ (m : Message). m.created_at) ms ≡ ms
order_by-rising k [] r = refl
order_by-rising k (m ∷ ms) r =
    let (_, rest) = &&-eq-true _ _ r in
    ap (insert_by (λ (m : Message). m.created_at) m) (order_by-rising m.created_at ms rest)
    ∙ insert_first m ms rest

pub rising-append :
    (k t : ℕ) (ms : List Message) (m : Message)
    → k ≤ m.created_at
    → t ≤ m.created_at
    → exists_where (later_than t) ms ≡ false
    → rising k ms ≡ true
    → rising k (ms ++ m ∷ []) ≡ true
rising-append k t [] m h l a r = ground (arith, h)
rising-append k t (x ∷ xs) m h l a r = ground (arith, l, a, r, rising-append x.created_at t xs m)

pub rising-mark :
    (d : Uuid) (t k : ℕ) (ms : List Message)
    → rising k (update_where (is_waiting d) (λ m. record m { delivered_at = some t }) ms)
      ≡ rising k ms
rising-mark d t k [] = refl
rising-mark d t k (m ∷ ms) = ground (arith, rising-mark d t m.created_at ms)

pub later-mark :
    (d : Uuid) (t b : ℕ) (ms : List Message)
    → exists_where
        (later_than b)
        (update_where (is_waiting d) (λ m. record m { delivered_at = some t }) ms)
      ≡ exists_where (later_than b) ms
later-mark d t b [] = refl
later-mark d t b (m ∷ ms) = ground (arith, later-mark d t b ms)

pub later_weaken :
    (b c : ℕ) (ms : List Message)
    → b ≤ c
    → exists_where (later_than b) ms ≡ false
    → exists_where (later_than c) ms ≡ false
later_weaken b c [] h a = refl
later_weaken b c (m ∷ ms) h a = ground (arith, h, a, later_weaken b c ms h)
