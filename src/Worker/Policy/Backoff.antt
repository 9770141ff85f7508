-- ===== src/Worker/Policy/Backoff.antt =====
-- `retryBackoffAt` of worker-failure-policy.ts: when the next attempt runs.
use data_dyna.Base.{ℕ, suc, zero, ◌+◌, ◌-◌, ◌*◌, ◌^◌, ◌≤◌, arith, coalesce}
use data_dyna.Worker.Types.{ClaimedWorkerJob}
use data_dyna.Worker.Policy.{
  WorkerFailurePolicyInput, at_least, at_most, base_seconds, max_seconds, retry_backoff_at,
}

one_le_pow : (n : ℕ) → 1 ≤ 2 ^ n
one_le_pow zero = omega arith
one_le_pow (suc n) = omega (arith, one_le_pow n)

pow_mono : (m n : ℕ) → m ≤ n → 2 ^ m ≤ 2 ^ n
pow_mono zero n h = one_le_pow n
pow_mono (suc m) zero h = omega arith
pow_mono (suc m) (suc n) h = omega (arith, pow_mono m n (omega arith))

at_most_mono : (a b c : ℕ) → b ≤ c → at_most a b ≤ at_most a c
at_most_mono a b c h = ground arith

mul_mono : (a b c : ℕ) → b ≤ c → a * b ≤ a * c
mul_mono zero b c h = omega arith
mul_mono (suc a) b c h = omega (arith, mul_mono a b c h)

at_least_low : (a b : ℕ) → a ≤ at_least a b
at_least_low a b = ground arith

at_most_bounds : (a b : ℕ) → 1 ≤ a → 1 ≤ b → (1 ≤ at_most a b) × (at_most a b ≤ a)
at_most_bounds a b h k = ground arith

-- A retry is put off by at least a second and by no more than the longest delay of the policy.
pub retry_backoff_bounds :
    (claimed : ClaimedWorkerJob) (now : ℕ) (policy : WorkerFailurePolicyInput)
    → (now + 1000 ≤ retry_backoff_at claimed now policy)
      × (retry_backoff_at claimed now policy ≤ now + max_seconds policy * 1000)
unfolding retry_backoff_at base_seconds max_seconds
retry_backoff_bounds claimed now policy =
    let n = claimed.job.attempt_count - 1 in
    let base_positive = at_least_low 1 (coalesce policy.retry_base_delay_seconds 30) in
    let base_fits =
      at_least_low (base_seconds policy) (coalesce policy.retry_max_delay_seconds 300) in
    let grows = mul_mono (base_seconds policy) 1 (2 ^ n) (one_le_pow n) in
    let (low, high) =
      at_most_bounds (max_seconds policy) (base_seconds policy * 2 ^ n) (omega arith)
        (omega arith) in
    (omega arith, omega arith)

-- At one time and under one policy, a job that has had more attempts is retried no earlier.
pub retry_backoff_mono :
    (few many : ClaimedWorkerJob) (now : ℕ) (policy : WorkerFailurePolicyInput)
    → few.job.attempt_count ≤ many.job.attempt_count
    → retry_backoff_at few now policy ≤ retry_backoff_at many now policy
unfolding retry_backoff_at
retry_backoff_mono few many now policy h =
    let powers = pow_mono (few.job.attempt_count - 1) (many.job.attempt_count - 1) (omega arith) in
    let delays = mul_mono (base_seconds policy) _ _ powers in
    omega (arith, at_most_mono (max_seconds policy) _ _ delays)
