-- ===== src/Prelude/Decimal.antt =====
-- Decimal integers as Rust prints and parses them. An i64 is its bit pattern, a number below 2 ^ 64.
pub mod Range
pub mod RoundTrip
use Prim.Native.Char.{code}
use Prim.Native.String.{◌++◌}
use Prim.Native.Nat.{ℕ, zero, suc, ◌+◌, ◌-◌, ◌*◌, ◌/◌, ◌%◌, ◌^◌}
use Prim.Native.String.{String}
use mathlib.Core.Bool.{Bool, ◌&&◌}
use mathlib.Core.Option.{Option, none, some}
use hush_net_backend.Prelude.Tests.{leb, ltb, ◌==◌, if◌then◌else◌}

abbrev is_digit : ℕ → Bool
is_digit c = leb b'0' c && leb c b'9'

-- the digits of a number, read after the value `acc`
pub parse_digits : ℕ → String → Option ℕ
parse_digits acc String.[] = some acc
parse_digits acc (String.◌∷◌ x s) =
    let rest = parse_digits (acc * 10 + (code x - b'0')) s in
    if is_digit (code x) then rest else none

abbrev non_negative : Option ℕ → Option ℕ
non_negative none = none
non_negative (some n) = if ltb n (2 ^ 63) then some n else none

abbrev negative : Option ℕ → Option ℕ
negative none = none
negative (some n) = if leb n (2 ^ 63) then some ((2 ^ 64 - n) % 2 ^ 64) else none

-- digits, at least one
abbrev parse_some : String → Option ℕ
parse_some String.[] = none
parse_some (String.◌∷◌ x s) = parse_digits 0 (String.◌∷◌ x s)

-- s.parse::<i64>()
unfoldable pub parse_i64 : String → Option ℕ
unfolding parse_digits
parse_i64 String.[] = none
parse_i64 (String.◌∷◌ x s) =
    if code x == b'-'
    then negative (parse_some s)
    else if code x == b'+'
    then non_negative (parse_some s)
    else non_negative (parse_digits 0 (String.◌∷◌ x s))

abbrev digit : ℕ → String
digit zero = "0"
digit (suc zero) = "1"
digit (suc (suc zero)) = "2"
digit (suc (suc (suc zero))) = "3"
digit (suc (suc (suc (suc zero)))) = "4"
digit (suc (suc (suc (suc (suc zero))))) = "5"
digit (suc (suc (suc (suc (suc (suc zero)))))) = "6"
digit (suc (suc (suc (suc (suc (suc (suc zero))))))) = "7"
digit (suc (suc (suc (suc (suc (suc (suc (suc zero)))))))) = "8"
digit (suc (suc (suc (suc (suc (suc (suc (suc (suc n))))))))) = "9"

-- n.to_string(), for a number of at most `fuel` digits
unfoldable pub to_decimal : ℕ → ℕ → String
to_decimal zero n = ""
to_decimal (suc fuel) n =
    let front = to_decimal fuel (n / 10) in if ltb n 10 then digit n else front ++ digit (n % 10)

-- n.to_string() for a u64, whose 2 ^ 64 values have at most 20 digits
unfoldable pub u64_text : ℕ → String
u64_text n = to_decimal 20 n
