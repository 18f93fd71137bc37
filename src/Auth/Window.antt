-- ===== src/Auth/Window.antt =====
-- The timestamp tests of src/middlewares: `(now - ts).abs() > limit` on i64, in a release build,
-- where `-` and `abs` wrap. An i64 is its bit pattern, a number below 2 ^ 64.
pub mod Bounds
use hush_net_backend.Prelude.{ℕ, ◌+◌, ◌-◌, ◌%◌, ◌^◌, Bool, ◌&&◌, ltb, if◌then◌else◌}

abbrev wrapping_sub : ℕ → ℕ → ℕ
wrapping_sub a b = (a + (2 ^ 64 - b)) % 2 ^ 64

-- i64::MIN stays itself
abbrev wrapping_abs : ℕ → ℕ
wrapping_abs a = if ltb a (2 ^ 63) then a else (2 ^ 64 - a) % 2 ^ 64

-- a > b, for a non-negative b
abbrev greater : ℕ → ℕ → Bool
greater a b = ltb a (2 ^ 63) && ltb b a

unfoldable pub outside_window : ℕ → ℕ → ℕ → Bool
outside_window limit now ts = greater (wrapping_abs (wrapping_sub now ts)) limit
