-- ===== src/Prelude/Text.antt =====
-- Text as Rust's `str` treats it: searching for a character, slicing at a position, UTF-8 bytes.
-- A position counts characters; every position here comes from a search, so the slices are those of
-- the byte positions that Rust uses.
use Prim.Native.Char.{code}
use Prim.Native.Nat.{ℕ, zero, suc, ◌+◌, ◌/◌, ◌%◌}
use Prim.Native.String.{String}
use mathlib.Core.Bool.{Bool, true, false}
use mathlib.Core.Option
use mathlib.Core.Option.{Option, none, some}
use mathlib.Core.List.{List, [], ◌∷◌, ◌++◌}
use hush_net_backend.Prelude.Tests.{ltb, ◌==◌, if◌then◌else◌}

-- s.find(c), for a character with code `c`
abbrev pub find : ℕ → String → Option ℕ
find c String.[] = none
find c (String.◌∷◌ x s) =
    let rest = Option.map suc (find c s) in if code x == c then some 0 else rest

-- s.rfind(c)
abbrev pub rfind : ℕ → String → Option ℕ
rfind c String.[] = none
rfind c (String.◌∷◌ x s) = elim (rfind c s) [
  | some i ↦ some (suc i)
  | none ↦ if code x == c then some 0 else none
]

-- &s[..n]
abbrev pub slice_to : ℕ → String → String
slice_to zero s = String.[]
slice_to (suc n) String.[] = String.[]
slice_to (suc n) (String.◌∷◌ x s) = String.◌∷◌ x (slice_to n s)

-- &s[n..]
abbrev pub slice_from : ℕ → String → String
slice_from zero s = s
slice_from (suc n) String.[] = String.[]
slice_from (suc n) (String.◌∷◌ x s) = slice_from n s

-- whether a character with code `c` stands in the text
abbrev pub has : ℕ → String → Bool
has c String.[] = false
has c (String.◌∷◌ x s) = let rest = has c s in if code x == c then true else rest

abbrev utf8 : ℕ → List ℕ
utf8 c =
    if ltb c 0x80
    then c ∷ []
    else if ltb c 0x800
    then (0xc0 + c / 64) ∷ (0x80 + c % 64) ∷ []
    else if ltb c 0x10000
    then (0xe0 + c / 4096) ∷ (0x80 + c / 64 % 64) ∷ (0x80 + c % 64) ∷ []
    else (0xf0 + c / 262144) ∷ (0x80 + c / 4096 % 64) ∷ (0x80 + c / 64 % 64) ∷ (0x80 + c % 64) ∷ []

-- s.as_bytes()
unfoldable pub as_bytes : String → List ℕ
as_bytes String.[] = []
as_bytes (String.◌∷◌ x s) = utf8 (code x) ++ as_bytes s
