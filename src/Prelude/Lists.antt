-- ===== src/Prelude/Lists.antt =====
-- Lists as SQL tables: Boolean selection, update and deletion of rows, and lists by native numbers.
use Prim.Native.Nat.{ℕ, zero, suc}
use mathlib.Core.Path.{◌≡◌, refl, ap}
use mathlib.Core.Bool.{Bool, true, false, ◌||◌, ◌&&◌}
use mathlib.Core.Logic.{◌⊎◌, inl, inr}
use mathlib.Core.Option.{Option, none, some}
use mathlib.Core.List.{List, [], ◌∷◌, ◌++◌, map}
use native.Mathlib.Omega.{arith}
use hush_net_backend.Prelude.Tests.{leb, Bool-cases, if◌then◌else◌}

module _ {ℓ} {A : Type ℓ} where
  abbrev pub length : List A → ℕ
  length [] = 0
  length (x ∷ xs) = suc (length xs)

  abbrev pub take : ℕ → List A → List A
  take zero xs = []
  take (suc n) [] = []
  take (suc n) (x ∷ xs) = x ∷ take n xs

  -- EXISTS (SELECT … WHERE p)
  abbrev pub exists_where : (A → Bool) → List A → Bool
  exists_where p [] = false
  exists_where p (x ∷ xs) = p x || exists_where p xs

  -- the first row of SELECT … WHERE p
  abbrev pub find_where : (A → Bool) → List A → Option A
  find_where p [] = none
  find_where p (x ∷ xs) = if p x then some x else find_where p xs

  -- SELECT … WHERE p
  abbrev pub select_where : (A → Bool) → List A → List A
  select_where p [] = []
  select_where p (x ∷ xs) = let rest = select_where p xs in if p x then x ∷ rest else rest

  -- DELETE … WHERE p
  abbrev pub delete_where : (A → Bool) → List A → List A
  delete_where p [] = []
  delete_where p (x ∷ xs) = let rest = delete_where p xs in if p x then rest else x ∷ rest

  -- UPDATE … SET f WHERE p
  abbrev pub update_where : (A → Bool) → (A → A) → List A → List A
  update_where p f [] = []
  update_where p f (x ∷ xs) = (if p x then f x else x) ∷ update_where p f xs

  abbrev pub count_where : (A → Bool) → List A → ℕ
  count_where p [] = 0
  count_where p (x ∷ xs) = let n = count_where p xs in if p x then suc n else n

  -- a stable insertion of `x` where `key` rises
  abbrev pub insert_by : (A → ℕ) → A → List A → List A
  insert_by key x [] = x ∷ []
  insert_by key x (y ∷ ys) =
      let rest = insert_by key x ys in if leb (key x) (key y) then x ∷ y ∷ ys else y ∷ rest

  -- ORDER BY key ASC
  abbrev pub order_by : (A → ℕ) → List A → List A
  order_by key [] = []
  order_by key (x ∷ xs) = insert_by key x (order_by key xs)

  abbrev pub insert_by_desc : (A → ℕ) → A → List A → List A
  insert_by_desc key x [] = x ∷ []
  insert_by_desc key x (y ∷ ys) =
      let rest = insert_by_desc key x ys in if leb (key y) (key x) then x ∷ y ∷ ys else y ∷ rest

  -- ORDER BY key DESC
  abbrev pub order_by_desc : (A → ℕ) → List A → List A
  order_by_desc key [] = []
  order_by_desc key (x ∷ xs) = insert_by_desc key x (order_by_desc key xs)

  pub exists_where-append :
      (p : A → Bool) (xs ys : List A)
      → exists_where p (xs ++ ys) ≡ (exists_where p xs || exists_where p ys)
  exists_where-append p [] ys = refl
  exists_where-append p (x ∷ xs) ys = ground (arith, exists_where-append p xs ys)

  pub exists_where_cong :
      (p q : A → Bool) (xs : List A) → ((a : A) → p a ≡ q a) → exists_where p xs ≡ exists_where q xs
  exists_where_cong p q [] h = refl
  exists_where_cong p q (x ∷ xs) h = ground (arith, exists_where_cong p q xs h, h x)

  pub find_where_sound :
      (p : A → Bool) (xs : List A) {a : A} → find_where p xs ≡ some a → p a ≡ true
  find_where_sound p [] h = ground arith
  find_where_sound p (x ∷ xs) {a} h = ground (arith, find_where_sound p xs {a = a})

  pub exists_of_find_where :
      (p : A → Bool) (xs : List A) {a : A} → find_where p xs ≡ some a → exists_where p xs ≡ true
  exists_of_find_where p [] h = ground arith
  exists_of_find_where p (x ∷ xs) {a} h = ground (arith, exists_of_find_where p xs {a = a})

  pub find_where-append :
      (p : A → Bool) (xs ys : List A)
      → find_where p (xs ++ ys)
        ≡ elim (find_where p xs) [ none ↦ find_where p ys | some a ↦ some a ]
  find_where-append p [] ys = refl
  find_where-append p (x ∷ xs) ys = ground (arith, find_where-append p xs ys)

  pub find_where-eq-none :
      (p : A → Bool) (xs : List A) → exists_where p xs ≡ false → find_where p xs ≡ none
  find_where-eq-none p [] h = refl
  find_where-eq-none p (x ∷ xs) h = ground (arith, find_where-eq-none p xs)

  pub exists_of_find_where-none :
      (p : A → Bool) (xs : List A) → find_where p xs ≡ none → exists_where p xs ≡ false
  exists_of_find_where-none p [] h = refl
  exists_of_find_where-none p (x ∷ xs) h = ground (arith, exists_of_find_where-none p xs)

  none-insert_by :
      (p : A → Bool) (key : A → ℕ) (x : A) (xs : List A)
      → p x ≡ false
      → exists_where p xs ≡ false
      → exists_where p (insert_by key x xs) ≡ false
  none-insert_by p key x [] h k = ground (arith, h)
  none-insert_by p key x (y ∷ ys) h k = ground (arith, h, k, none-insert_by p key x ys)

  -- sorting brings no row in
  pub none-order_by :
      (p : A → Bool) (key : A → ℕ) (xs : List A)
      → exists_where p xs ≡ false
      → exists_where p (order_by key xs) ≡ false
  none-order_by p key [] h = refl
  none-order_by p key (x ∷ xs) h =
      ground (arith, none-order_by p key xs, none-insert_by p key x (order_by key xs))

pub map-append {ℓ ℓ'} :
    {A : Type ℓ} {B : Type ℓ'} (f : A → B) (xs ys : List A)
    → map f (xs ++ ys) ≡ map f xs ++ map f ys
map-append f [] ys = refl
map-append f (x ∷ xs) ys = ap {B = List _} (λ zs. f x ∷ zs) (map-append f xs ys)

-- each element, and some element, has the property
abbrev pub AllOf {ℓ} : {A : Type ℓ} → (A → Type 0) → List A → Type 0
AllOf P [] = Unit {0}
AllOf P (x ∷ xs) = P x × AllOf P xs

abbrev pub AnyOf {ℓ} : {A : Type ℓ} → (A → Type 0) → List A → Type 0
AnyOf P [] = ⊥
AnyOf P (x ∷ xs) = P x ⊎ AnyOf P xs

pub AllOf-append {ℓ} :
    {A : Type ℓ} (P : A → Type 0) (xs ys : List A) → AllOf P xs → AllOf P ys → AllOf P (xs ++ ys)
AllOf-append P [] ys h k = k
AllOf-append P (x ∷ xs) ys (h, hs) k = (h, AllOf-append P xs ys hs k)

pub AnyOf-append_right {ℓ} :
    {A : Type ℓ} (P : A → Type 0) (xs ys : List A) → AnyOf P ys → AnyOf P (xs ++ ys)
AnyOf-append_right P [] ys h = h
AnyOf-append_right P (x ∷ xs) ys h = inr (AnyOf-append_right P xs ys h)

pub find_of_exists {ℓ} :
    {A : Type ℓ} (p : A → Bool) (xs : List A)
    → exists_where p xs ≡ true
    → (found : A) × (find_where p xs ≡ some found)
find_of_exists p [] h = ground arith
find_of_exists p (x ∷ xs) h = elim (Bool-cases (p x)) [
  | inl hit ↦ (x, rw hit refl)
  | inr miss ↦
      let (found, is) = find_of_exists p xs (ground (arith, h, miss)) in (found, rw miss is)
]

pub exists-select_where {ℓ} :
    {A : Type ℓ} (p q : A → Bool) (xs : List A)
    → exists_where p (select_where q xs) ≡ true
    → exists_where (λ x. q x && p x) xs ≡ true
exists-select_where p q [] h = h
exists-select_where p q (x ∷ xs) h = ground (arith, h, exists-select_where p q xs)
