-- ===== src/Prelude/Decimal/Range.antt =====
-- A parsed i64 is a bit pattern of 64 bits.
use hush_net_backend.Prelude.Decimal.{parse_i64, parse_digits, non_negative, negative, parse_some}
use Prim.Native.Nat.{ℕ, ◌^◌, ◌<◌}
use Prim.Native.String.{String}
use mathlib.Core.Path.{◌≡◌}
use mathlib.Core.Option.{Option, none, some}
use native.Mathlib.Omega.{arith}

non_negative-lt : (o : Option ℕ) {n : ℕ} → non_negative o ≡ some n → n < 2 ^ 64
non_negative-lt none h = ground arith
non_negative-lt (some m) h = ground arith

negative-lt : (o : Option ℕ) {n : ℕ} → negative o ≡ some n → n < 2 ^ 64
negative-lt none h = ground arith
negative-lt (some m) h = ground arith

pub parse_i64-lt : (s : String) {n : ℕ} → parse_i64 s ≡ some n → n < 2 ^ 64
unfolding parse_i64
parse_i64-lt String.[] h = ground arith
parse_i64-lt (String.◌∷◌ x s) {n} h = ground (
  arith,
  negative-lt (parse_some s) {n = n},
  non_negative-lt (parse_some s) {n = n},
  non_negative-lt (parse_digits 0 (String.◌∷◌ x s)) {n = n},
)
