-- ===== src/Jobs/Backoff.antt =====
-- About `_backoff` of src/app/jobs/queue.py.
use smart_procurement_backen.Prelude.{ℕ, zero, suc, ◌*◌, ◌^◌, ◌≤◌, arith}
use native.Mathlib.Nat.{pow-suc}
use smart_procurement_backen.Jobs.{backoff}

pow-pos : (n : ℕ) → 1 ≤ 2 ^ n
pow-pos zero = omega arith
pow-pos (suc n) = rw pow-suc (omega (arith, pow-pos n))

-- One attempt more never shortens the delay, and at most doubles it.
pub backoff_step : (n : ℕ) → (backoff n ≤ backoff (suc n)) × (backoff (suc n) ≤ 2 * backoff n)
unfolding backoff
backoff_step n = rw pow-suc (omega arith, omega arith)

-- After the first failure the delay is at least ten seconds, and never more than an hour.
pub backoff_bounds : (n : ℕ) → 1 ≤ n → (10 ≤ backoff n) × (backoff n ≤ 3600)
unfolding backoff
backoff_bounds zero h = absurd (omega arith)
backoff_bounds (suc n) h = rw pow-suc (omega (arith, pow-pos n), omega arith)
