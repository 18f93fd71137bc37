-- ===== src/Repository/Federation/Backoff.antt =====
-- The backoff of record_outbox_failure in src/repository/federation_repository.rs.
use hush_net_backend.Prelude.{ℕ, zero, suc, ◌+◌, ◌≤◌, min, ◌≡◌, refl, ◌∙◌, arith}
use hush_net_backend.Repository.Federation.{backoff_secs}

-- ten seconds, doubled `n` times
abbrev pub doubled : ℕ → ℕ
doubled zero = 10
doubled (suc n) = let d = doubled n in d + d

abbrev pub schedule : ℕ → ℕ
schedule n = min (doubled n) 3600

doubled_large : (n : ℕ) → 3600 ≤ doubled (suc (suc (suc (suc (suc (suc (suc (suc (suc n)))))))))
doubled_large zero = omega arith
doubled_large (suc n) = omega (arith, doubled_large n)

the_min : (n : ℕ) → 12 ≤ n → min n 12 ≡ 12
the_min n h = omega arith

above : (n : ℕ) → 12 ≤ n → backoff_secs n ≡ 3600
unfolding backoff_secs
above n h = rw (the_min n h) refl

-- The clamp of the shift never shows: for each attempt count the wait is ten seconds doubled that
-- often, at most an hour.
pub backoff-schedule : (n : ℕ) → backoff_secs n ≡ schedule n
unfolding backoff_secs
backoff-schedule zero = refl
backoff-schedule (suc zero) = refl
backoff-schedule (suc (suc zero)) = refl
backoff-schedule (suc (suc (suc zero))) = refl
backoff-schedule (suc (suc (suc (suc zero)))) = refl
backoff-schedule (suc (suc (suc (suc (suc zero))))) = refl
backoff-schedule (suc (suc (suc (suc (suc (suc zero)))))) = refl
backoff-schedule (suc (suc (suc (suc (suc (suc (suc zero))))))) = refl
backoff-schedule (suc (suc (suc (suc (suc (suc (suc (suc zero)))))))) = refl
backoff-schedule (suc (suc (suc (suc (suc (suc (suc (suc (suc zero))))))))) = refl
backoff-schedule (suc (suc (suc (suc (suc (suc (suc (suc (suc (suc zero)))))))))) = refl
backoff-schedule (suc (suc (suc (suc (suc (suc (suc (suc (suc (suc (suc zero))))))))))) = refl
backoff-schedule (suc (suc (suc (suc (suc (suc (suc (suc (suc (suc (suc (suc n)))))))))))) =
    above _ (omega arith) ∙ omega (arith, doubled_large (suc (suc (suc n))))

-- The waits lie between ten seconds and an hour, and never get shorter.
pub backoff_bounds :
    (n : ℕ)
    → (10 ≤ backoff_secs n) × (backoff_secs n ≤ 3600) × (backoff_secs n ≤ backoff_secs (suc n))
backoff_bounds n = (
  omega (arith, backoff-schedule n, at_least n),
  omega (arith, backoff-schedule n),
  omega (arith, backoff-schedule n, backoff-schedule (suc n)),
)
  where
    at_least : (n : ℕ) → 10 ≤ doubled n
    at_least zero = omega arith
    at_least (suc n) = omega (arith, at_least n)
