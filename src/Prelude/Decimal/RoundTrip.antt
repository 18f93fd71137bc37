-- ===== src/Prelude/Decimal/RoundTrip.antt =====
-- Parsing a printed number gives the number back.
use Prim.Native.Char.{code}
use Prim.Native.Nat.{ℕ, zero, suc, ◌+◌, ◌-◌, ◌*◌, ◌/◌, ◌%◌, ◌^◌, ◌<◌}
use Prim.Native.String.{String, ◌++◌}
use mathlib.Core.Path.{◌≡◌, refl, ap, ◌∙◌}
use mathlib.Core.Logic.{◌≢◌, inl, inr}
use mathlib.Core.Option.{some}
use native.Mathlib.Nat.{pow-suc}
use native.Mathlib.Omega.{arith}
use text.Mathlib.TextLemmas.{nil-append, cons-append, append-ne-nil_of_right_ne-nil}
use hush_net_backend.Prelude.Tests.{ltb, if◌then◌else◌, Bool-cases}
use hush_net_backend.Prelude.Decimal.{parse_digits, parse_i64, digit, to_decimal, u64_text}

parse_digits-append :
    (acc : ℕ) (s t : String) (n : ℕ)
    → parse_digits acc s ≡ some n
    → parse_digits acc (s ++ t) ≡ parse_digits n t
unfolding parse_digits
parse_digits-append acc String.[] t n h = rw nil-append (ground arith)
parse_digits-append acc (String.◌∷◌ x s) t n h =
    rw cons-append (ground (arith, parse_digits-append (acc * 10 + (code x - b'0')) s t n))

parse_digits-digit : (acc d : ℕ) → d < 10 → parse_digits acc (digit d) ≡ some (acc * 10 + d)
unfolding parse_digits
parse_digits-digit acc zero h = refl
parse_digits-digit acc (suc zero) h = refl
parse_digits-digit acc (suc (suc zero)) h = refl
parse_digits-digit acc (suc (suc (suc zero))) h = refl
parse_digits-digit acc (suc (suc (suc (suc zero)))) h = refl
parse_digits-digit acc (suc (suc (suc (suc (suc zero))))) h = refl
parse_digits-digit acc (suc (suc (suc (suc (suc (suc zero)))))) h = refl
parse_digits-digit acc (suc (suc (suc (suc (suc (suc (suc zero))))))) h = refl
parse_digits-digit acc (suc (suc (suc (suc (suc (suc (suc (suc zero)))))))) h = refl
parse_digits-digit acc (suc (suc (suc (suc (suc (suc (suc (suc (suc n))))))))) h =
    let e : n ≡ 0 = omega arith in rw e

digit-ne-nil : (d : ℕ) → digit d ≢ String.[]
digit-ne-nil zero e = cc
digit-ne-nil (suc zero) e = cc
digit-ne-nil (suc (suc zero)) e = cc
digit-ne-nil (suc (suc (suc zero))) e = cc
digit-ne-nil (suc (suc (suc (suc zero)))) e = cc
digit-ne-nil (suc (suc (suc (suc (suc zero))))) e = cc
digit-ne-nil (suc (suc (suc (suc (suc (suc zero)))))) e = cc
digit-ne-nil (suc (suc (suc (suc (suc (suc (suc zero))))))) e = cc
digit-ne-nil (suc (suc (suc (suc (suc (suc (suc (suc zero)))))))) e = cc
digit-ne-nil (suc (suc (suc (suc (suc (suc (suc (suc (suc n))))))))) e = cc

to_decimal_step :
    (f n : ℕ)
    → to_decimal (suc f) n ≡ (if ltb n 10 then digit n else to_decimal f (n / 10) ++ digit (n % 10))
unfolding to_decimal
to_decimal_step f n = refl

parse-to_decimal : (f n : ℕ) → n < 10 ^ f → parse_digits 0 (to_decimal f n) ≡ some n
parse-to_decimal zero n h = unfold to_decimal parse_digits in (let e : n ≡ 0 = omega arith in rw e)
parse-to_decimal (suc f) n h = elim (Bool-cases (ltb n 10)) [
  | inl short ↦
      rw (to_decimal_step, short) (parse_digits-digit 0 n (ground arith) ∙ ap some (omega arith))
  | inr long ↦
      rw (to_decimal_step, long)
        (parse_digits-append 0 (to_decimal f (n / 10)) (digit (n % 10)) (n / 10)
            (parse-to_decimal f (n / 10) (omega (arith, pow-suc 10 f)))
          ∙ parse_digits-digit (n / 10) (n % 10) (omega arith)
          ∙ ap some (omega arith))
]

to_decimal-ne-nil : (f n : ℕ) → to_decimal (suc f) n ≢ String.[]
to_decimal-ne-nil f n = elim (Bool-cases (ltb n 10)) [
  | inl short ↦ rw (to_decimal_step, short) (digit-ne-nil n)
  | inr long ↦
      rw (to_decimal_step, long)
        (append-ne-nil_of_right_ne-nil (to_decimal f (n / 10)) (digit-ne-nil (n % 10)))
]

-- Digits alone are read as a non-negative number.
parse_i64-digits :
    (s : String) (n : ℕ)
    → s ≢ String.[]
    → parse_digits 0 s ≡ some n
    → n < 2 ^ 63
    → parse_i64 s ≡ some n
unfolding parse_i64 parse_digits
parse_i64-digits String.[] n ne h l = absurd (ne refl)
parse_i64-digits (String.◌∷◌ x s) n ne h l = ground arith

pub parse_i64-u64_text : (n : ℕ) → n < 2 ^ 63 → parse_i64 (u64_text n) ≡ some n
unfolding u64_text
parse_i64-u64_text n l =
    parse_i64-digits (to_decimal 20 n) n (to_decimal-ne-nil 19 n)
      (parse-to_decimal 20 n (omega arith)) l
