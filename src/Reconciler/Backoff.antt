-- ===== src/Reconciler/Backoff.antt =====
-- `retryDelay` of backend/internal/service/cache_truth.go: the delay before the next attempt.
use Prim.Native.Nat.{◌-◌, ◌/◌}
use yun_chat.Prelude.{ℕ, zero, suc, ◌*◌, ◌^◌, ◌≤◌, ◌<◌, ◌≡◌, arith, ltb, unless, if◌then◌else◌}
use yun_chat.Reconciler.{Options, doubled, retry_loop, retry_delay}

-- From a delay that has reached the maximum on, doubling changes nothing.
shift : (n delay : ℕ) → delay * 2 * 2 ^ n ≡ delay * 2 ^ suc n
shift n delay = grind arith

growing : (n delay : ℕ) → delay ≤ delay * 2 ^ n
growing zero delay = omega arith
growing (suc n) delay = omega (arith, growing n (delay * 2), shift n delay)

-- The smaller of the two.
abbrev pub capped : ℕ → ℕ → ℕ
capped max delay = if ltb max delay then max else delay

doubled_small : (delay : ℕ) → delay < 9_223_372_036_854_775_808 → doubled delay ≡ delay * 2
unfolding doubled
doubled_small delay h = omega (arith, h)

pub retry_loop-eq-capped :
    (max rounds delay : ℕ)
    → max < 9_223_372_036_854_775_808
    → delay < 9_223_372_036_854_775_808
    → retry_loop max rounds delay ≡ capped max (delay * 2 ^ rounds)
unfolding retry_loop
retry_loop-eq-capped max zero delay h k = ground arith
retry_loop-eq-capped max (suc rounds) delay h k =
    unless (ltb (max / 2) delay)
      (λ big.
        ground
          (arith, big, growing (suc rounds) delay, growing rounds (delay * 2), shift rounds delay))
      (λ small. ground (
        arith,
        small,
        retry_loop-eq-capped max rounds (delay * 2) h (ground (arith, small)),
        growing (suc rounds) delay,
        shift rounds delay,
        doubled_small delay (ground (arith, small)),
      ))

-- For a base and a maximum that are int64s and not negative, the delay after the n-th attempt is the base
-- doubled n - 1 times in the natural numbers, cut off at the maximum: the loop leaves before a doubling
-- would turn the int64 negative, whatever the number of attempts.
pub retry_delay-eq-capped :
    (o : Options) (attempt : ℕ)
    → o.max_backoff < 9_223_372_036_854_775_808
    → o.retry_base < 9_223_372_036_854_775_808
    → retry_delay o attempt ≡ capped o.max_backoff (o.retry_base * 2 ^ (attempt - 1))
unfolding retry_delay
retry_delay-eq-capped o attempt h k =
    retry_loop-eq-capped o.max_backoff (attempt - 1) o.retry_base h k
