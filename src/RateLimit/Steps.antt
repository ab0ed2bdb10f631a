-- ===== src/RateLimit/Steps.antt =====
-- internal/ratelimit/limiter.go: what one run of the script does to a bucket that holds whole
-- numbers, for a window of at least a second and a clock that has not gone back.
use Prim.Native.Nat.{min}
use taskqueue_go.Prelude.{
  ℕ, suc, ◌+◌, ◌-◌, ◌*◌, ◌/◌, ◌≤◌, ◌≡◌, Option, none, some, if◌then◌else◌, arith, leb,
}
use taskqueue_go.Prelude.Int.{ℤ, pos, pos-+ℤ-pos, pos-*ℤ-pos, pos--ℤ-pos}
use taskqueue_go.RateLimit.Script.{finite, Bucket, refilled, token_bucket_script, minimum}

-- A bucket with t tokens, last looked at in second l; its key lives for two windows.
abbrev pub holding : ℕ → ℕ → ℕ → Option Bucket
holding w t l = some (record { tokens = finite (pos t); last_refill = pos l; ttl = pos (w * 2) })

-- The tokens at hand in second n: those left and those that the time since has brought, but no
-- more than the burst size.
abbrev pub available : ℕ → ℕ → ℕ → ℕ → ℕ → ℕ → ℕ
available w limit burst t l n = min burst (t + (n - l) * limit / w)

minimum-pos : (b a : ℕ) → minimum (pos b) (finite (pos a)) ≡ finite (pos (min b a))
minimum-pos b a = ground arith

pub refilled-holding :
    (w limit burst t l n : ℕ)
    → l ≤ n
    → refilled (pos n) (pos (suc w)) (pos limit) (pos burst) (holding (suc w) t l)
      ≡ finite (pos (available (suc w) limit burst t l n))
unfolding refilled
refilled-holding w limit burst t l n h =
    rw (pos--ℤ-pos n l h, pos-*ℤ-pos (n - l) limit, pos-+ℤ-pos t ((n - l) * limit / suc w))
      (minimum-pos burst (t + (n - l) * limit / suc w))

pub refilled-none :
    (w limit burst n : ℕ)
    → refilled (pos n) (pos (suc w)) (pos limit) (pos burst) none ≡ finite (pos burst)
unfolding refilled
refilled-none w limit burst n =
    rw
      (
        pos--ℤ-pos n n (omega arith),
        pos-*ℤ-pos (n - n) limit,
        pos-+ℤ-pos burst ((n - n) * limit / suc w),
      )
      (ground arith)

-- What the script answers and leaves, from the tokens at hand.
abbrev pub decided : ℕ → ℕ → ℕ → ℕ → ℤ × Option Bucket
decided w n r have =
    if leb r have then (pos 1, holding w (have - r) n) else (pos 0, holding w have n)

decide-pos :
    (w limit burst n r have : ℕ) (b : Option Bucket)
    → refilled (pos n) (pos (suc w)) (pos limit) (pos burst) b ≡ finite (pos have)
    → token_bucket_script (pos n) (pos (suc w)) (pos limit) (pos burst) (pos r) b
      ≡ decided (suc w) n r have
unfolding token_bucket_script
decide-pos w limit burst n r have b e =
    rw e (ground (arith, pos-*ℤ-pos (suc w) 2, pos--ℤ-pos have r))

pub script-holding :
    (w limit burst t l n r : ℕ)
    → l ≤ n
    → token_bucket_script
        (pos n)
        (pos (suc w))
        (pos limit)
        (pos burst)
        (pos r)
        (holding (suc w) t l)
      ≡ decided (suc w) n r (available (suc w) limit burst t l n)
script-holding w limit burst t l n r h =
    decide-pos w limit burst n r _ _ (refilled-holding w limit burst t l n h)

pub script-none :
    (w limit burst n r : ℕ)
    → token_bucket_script (pos n) (pos (suc w)) (pos limit) (pos burst) (pos r) none
      ≡ decided (suc w) n r burst
script-none w limit burst n r =
    decide-pos w limit burst n r burst none (refilled-none w limit burst n)
