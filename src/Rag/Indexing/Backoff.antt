-- ===== src/Rag/Indexing/Backoff.antt =====
-- `index_retry_countdown`: the bounds and the growth of the exponential backoff.
use native.Mathlib.Nat.{pow-suc}
use rag_service.Prelude.{ℕ, zero, suc, ◌*◌, ◌^◌, ◌≤◌, ◌<◌, min, ◌≡◌, refl, ap, arith, pos, some}
use rag_service.Rag.Indexing.{index_retry_countdown}

two_pow_pos : (n : ℕ) → 1 ≤ 2 ^ n
two_pow_pos zero = omega arith
two_pow_pos (suc n) = rw pow-suc (omega (arith, two_pow_pos n))

-- With a limit of at least one second, a countdown is given for every number of retries; it lies
-- between one second and the limit, and the next one is its double, cut at the limit.
pub countdown_doubles :
    (retries max_seconds : ℕ)
    → 0 < max_seconds
    → (c : ℕ) × (index_retry_countdown (pos retries) (pos max_seconds) ≡ some c)
      × (1 ≤ c)
      × (c ≤ max_seconds)
      × (index_retry_countdown (pos (suc retries)) (pos max_seconds)
          ≡ some (min (2 * c) max_seconds))
unfolding index_retry_countdown
countdown_doubles r zero h = elim h [ ]
countdown_doubles r (suc m) h =
    let p = two_pow_pos r in
    (min (2 ^ r) (suc m), refl, omega arith, omega arith, rw pow-suc (ap some (omega arith)))
