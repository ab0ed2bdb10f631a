-- ===== src/RateLimit/Subsecond.antt =====
-- internal/ratelimit/limiter.go: a window of less than a second. int64(Window.Seconds()) is then 0,
-- the script divides by zero, and EXPIRE with 0 deletes the key at once.
use native.Mathlib.Nat.{div-eq_of_lt}
use taskqueue_go.Prelude.{ℕ, ◌<◌, ◌≡◌, refl, none, arith, leb, ok, if◌then◌else◌}
use taskqueue_go.Prelude.Int.{ℤ, pos, ◌-ℤ◌, int_laws, zero-*ℤ}
use taskqueue_go.GoTime.{Time, unix, whole_seconds}
use taskqueue_go.RateLimit.Script.{finite, refilled, token_bucket_script}
use taskqueue_go.RateLimit.{Limiter, answered, allow_n}

sub_self : (a : ℤ) → a -ℤ a ≡ pos 0
sub_self a = omega int_laws

refilled-zero : (now limit burst : ℤ) → refilled now (pos 0) limit burst none ≡ finite burst
unfolding refilled
refilled-zero now limit burst = rw (sub_self now, zero-*ℤ limit) refl

script-zero :
    (now limit : ℤ) (burst n : ℕ)
    → token_bucket_script now (pos 0) limit (pos burst) (pos n) none
      ≡ (if leb n burst then pos 1 else pos 0, none)
unfolding token_bucket_script
script-zero now limit burst n =
    rw (refilled-zero now limit (pos burst), zero-*ℤ (pos 2)) (ground arith)

-- With a window of less than a second and an empty bucket, a request is allowed, at any time,
-- exactly when it is for no more than the burst size, and the bucket is empty again: nothing that
-- was granted counts against what follows.
pub subsecond_unlimited :
    {Client : Type 0} (l : Limiter Client) (window burst : ℕ) (now : Time) (n : ℕ)
    → l.config.window ≡ pos window
    → window < 1_000_000_000
    → l.config.burst_size ≡ pos burst
    → allow_n l answered now (pos n) none ≡ (ok (leb n burst), none)
unfolding allow_n whole_seconds
subsecond_unlimited l window burst now n e short f =
    rw (e, f, div-eq_of_lt short, script-zero (unix now) l.config.limit burst n) (ground arith)
