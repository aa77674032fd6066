-- ===== src/Run/Delivery/Backoff.antt =====
-- dispatchBackoff of internal/run/service/pipeline_run.go, in nanoseconds over int64.
use software_distribution_pl.Common.{
  ℕ, zero, suc, ◌+◌, ◌-◌, ◌*◌, ◌^◌, ◌%◌, ◌<◌, ◌≡◌, refl, arith, ltb, min, if◌then◌else◌,
}

abbrev pub second : ℕ
second = 1_000_000_000

abbrev pub base_delay : ℕ
base_delay = 30 * second

abbrev pub max_delay : ℕ
max_delay = 300 * second

-- MaxDispatchAttempts.
abbrev pub max_dispatch_attempts : ℕ
max_dispatch_attempts = 10

-- 1 << uint(attempts - 1); for attempts = 0 the shift count wraps to 2 ^ 64 - 1.
shifted : ℕ → ℕ
shifted zero = 0
shifted (suc n) = 2 ^ n % 2 ^ 64

-- base * time.Duration(1 << uint(attempts - 1)), as the 64 bits of the product.
product_bits : ℕ → ℕ
unfolding shifted
product_bits attempts = base_delay * shifted attempts % 2 ^ 64

-- The time of the next attempt, a number of nanoseconds after `now`: bits from 2 ^ 63 on stand for
-- a negative duration, which the test against the maximum lets through.
unfoldable pub retry_at : ℕ → ℕ → ℕ
unfolding product_bits
retry_at now attempts =
    let d = product_bits attempts in
    if ltb d (2 ^ 63) then now + (if ltb max_delay d then max_delay else d) else now + d - 2 ^ 64

-- The wait before the next attempt is 30 s doubled for each attempt after the first and at most
-- 300 s, and its 64-bit product does not wrap, for one to ten attempts.
pub retry_at-eq :
    (now n : ℕ)
    → n < max_dispatch_attempts
    → retry_at now (suc n) ≡ now + min max_delay (base_delay * 2 ^ n)
unfolding retry_at
retry_at-eq now zero h = refl
retry_at-eq now (suc zero) h = refl
retry_at-eq now (suc (suc zero)) h = refl
retry_at-eq now (suc (suc (suc zero))) h = refl
retry_at-eq now (suc (suc (suc (suc zero)))) h = refl
retry_at-eq now (suc (suc (suc (suc (suc zero))))) h = refl
retry_at-eq now (suc (suc (suc (suc (suc (suc zero)))))) h = refl
retry_at-eq now (suc (suc (suc (suc (suc (suc (suc zero))))))) h = refl
retry_at-eq now (suc (suc (suc (suc (suc (suc (suc (suc zero)))))))) h = refl
retry_at-eq now (suc (suc (suc (suc (suc (suc (suc (suc (suc zero))))))))) h = refl
retry_at-eq now (suc (suc (suc (suc (suc (suc (suc (suc (suc (suc n)))))))))) h =
    absurd (omega arith)
