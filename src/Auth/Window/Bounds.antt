-- ===== src/Auth/Window/Bounds.antt =====
-- What the timestamp test lets through.
use hush_net_backend.Prelude.{ℕ, ◌+◌, ◌^◌, ◌≤◌, ◌<◌, ◌≡◌, ◌↔◌, ◌⊎◌, false, arith}
use hush_net_backend.Auth.Window.{outside_window}

-- |now − ts| ≤ limit, for the signed value of the bit pattern `ts`
abbrev pub Near : ℕ → ℕ → ℕ → Type 0
Near limit now ts = ((now ≤ ts + limit) × (ts ≤ now + limit)) ⊎ (now + 2 ^ 64 ≤ ts + limit)

inside-Near :
    (limit now ts : ℕ)
    → limit < 2 ^ 32
    → now < 2 ^ 62
    → ts < 2 ^ 64
    → outside_window limit now ts ≡ false
    → Near limit now ts ⊎ (ts ≡ now + 2 ^ 63)
unfolding outside_window
inside-Near limit now ts l n t h = ground arith

Near-inside :
    (limit now ts : ℕ)
    → limit < 2 ^ 32
    → now < 2 ^ 62
    → ts < 2 ^ 64
    → Near limit now ts ⊎ (ts ≡ now + 2 ^ 63)
    → outside_window limit now ts ≡ false
unfolding outside_window
Near-inside limit now ts l n t h = ground arith

-- The test passes exactly the timestamps within the limit of the clock, and the one that lies 2^63
-- seconds away, where the subtraction wraps to i64::MIN. The clock is below 2^62 and the
-- limit below 2^32.
pub window_iff :
    (limit now ts : ℕ)
    → limit < 2 ^ 32
    → now < 2 ^ 62
    → ts < 2 ^ 64
    → (outside_window limit now ts ≡ false) ↔ (Near limit now ts ⊎ (ts ≡ now + 2 ^ 63))
window_iff limit now ts l n t = (inside-Near limit now ts l n t, Near-inside limit now ts l n t)

-- Two readings of the clock that accept one timestamp are close.
pub window_spread :
    (limit now later ts : ℕ)
    → limit < 2 ^ 32
    → now < 2 ^ 62
    → later < 2 ^ 62
    → ts < 2 ^ 64
    → outside_window limit now ts ≡ false
    → outside_window limit later ts ≡ false
    → later ≤ now + limit + limit
window_spread limit now later ts l n m t h k =
    ground (arith, inside-Near limit now ts l n t h, inside-Near limit later ts l m t k)
