-- ===== src/Worker/Backoff/Bounds.antt =====
-- internal/worker/worker.go: calculateExponentialBackoff.
use native.Mathlib.Nat.{mul-le-mul_left, pow-le-pow_right}
use native.Mathlib.Decide.{dec_lt}
use taskqueue_go.Prelude.{ℕ, suc, ◌-◌, ◌*◌, ◌^◌, ◌≤◌, ◌<◌, ◌≡◌, arith, if◌then◌else◌, ltb}
use taskqueue_go.Prelude.Int.{pos}
use taskqueue_go.Prelude.Int64.{mul64, wrap64-pos, mul64-pos, mul64-zero}
use taskqueue_go.Worker.Backoff.{Config, shift_one, calculate_exponential_backoff}

shift_one-small : (n : ℕ) → 2 ^ n < 2 ^ 63 → n < 64 → shift_one n ≡ pos (2 ^ n)
unfolding shift_one
shift_one-small n h k = ground (arith, wrap64-pos (2 ^ n) h)

pow_large : (n : ℕ) → 64 ≤ n → 2 ^ 64 ≤ 2 ^ n
pow_large n h = pow-le-pow_right {n = 2} (omega arith) {i = 64} {j = n} h

shifted :
    (n base : ℕ)
    → 0 < base
    → 2 ^ n * base < 2 ^ 63
    → mul64 (shift_one n) (pos base) ≡ pos (2 ^ n * base)
shifted n base positive fits =
    let one = mul-le-mul_left {m = 1} {n = base} (2 ^ n) positive in
    rw (shift_one-small n (omega (arith, one)) (few one)) (mul64-pos (2 ^ n) base fits)
  where
    few : 2 ^ n * 1 ≤ 2 ^ n * base → n < 64
    few one = elim (dec_lt n 64) [
      | yes h ↦ h
      | no h ↦ absurd (omega (arith, one, pow_large n (omega arith)))
    ]

-- From the second attempt on, the delay is base * 2^(attempt - 1), cut off at the greatest delay,
-- as long as the base is positive and that product is a Duration.
pub calculate_exponential_backoff-exact :
    (c : Config) (base cap a : ℕ)
    → c.retry_base_delay ≡ pos base
    → c.retry_max_delay ≡ pos cap
    → 0 < base
    → 2 ^ suc a * base < 2 ^ 63
    → calculate_exponential_backoff c (pos (suc (suc a)))
      ≡ (if ltb cap (2 ^ suc a * base) then pos cap else pos (2 ^ suc a * base))
unfolding calculate_exponential_backoff
calculate_exponential_backoff-exact c base cap a is_base is_cap positive fits =
    rw (is_base, is_cap) (ground (arith, shifted (suc (suc a) - 1) base))

-- From the 65th attempt on there is no delay at all, where the greatest delay is not negative.
pub calculate_exponential_backoff-zero :
    (c : Config) (cap a : ℕ)
    → c.retry_max_delay ≡ pos cap
    → 64 ≤ a
    → calculate_exponential_backoff c (pos (suc a)) ≡ pos 0
unfolding calculate_exponential_backoff shift_one
calculate_exponential_backoff-zero c cap a is_cap late =
    rw is_cap (ground (arith, mul64-zero c.retry_base_delay))
