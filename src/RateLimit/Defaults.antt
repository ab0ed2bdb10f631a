-- ===== src/RateLimit/Defaults.antt =====
-- internal/ratelimit/limiter.go: NewLimiter.
use text.Mathlib.TextEquality.{eq_iff}
use taskqueue_go.GoTime.{second}
use taskqueue_go.Prelude.{◌+◌, ◌<◌, ◌^◌, ◌≡◌, ◌≢◌, some, arith, ok, ◌==◌, if◌then◌else◌}
use taskqueue_go.Prelude.Int.{ℤ, pos, pos_part, negsuc, leb_ℤ, ◌<ℤ◌}
use taskqueue_go.Prelude.Int64.{add64, add64-pos}
use taskqueue_go.RateLimit.{Config, Limiter, with_defaults, new_limiter}

-- What NewLimiter makes of a configuration.
pub record IsConfigured {Client : Type 0} (l : Limiter Client) : Type 0 where
  pub has_prefix : l.config.key_prefix ≢ ""
  pub limit_positive : pos 0 <ℤ l.config.limit
  pub window_positive : pos 0 <ℤ l.config.window
  pub burst_positive : pos 0 <ℤ l.config.burst_size

add64_positive : (a : ℤ) → pos 0 <ℤ a → pos_part a + 50 < 2 ^ 63 → pos 0 <ℤ add64 a (pos 50)
add64_positive (pos n) h fits = rw (add64-pos n 50 fits) (omega arith)
add64_positive (negsuc n) h fits = absurd (omega arith)

module _ {Client : Type 0} (c : Config Client) where
  limit_part : (with_defaults c).limit ≡ (if leb_ℤ c.limit (pos 0) then pos 100 else c.limit)
  unfolding with_defaults
  limit_part = ground arith

  window_part : (with_defaults c).window ≡ (if leb_ℤ c.window (pos 0) then second else c.window)
  unfolding with_defaults
  window_part = ground arith

  burst_part : (with_defaults c).burst_size ≡ (
      if leb_ℤ c.burst_size (pos 0) then add64 (with_defaults c).limit (pos 50) else c.burst_size)
  unfolding with_defaults
  burst_part = ground arith

  prefix_part :
      (with_defaults c).key_prefix
      ≡ (if c.key_prefix == "" then "taskqueue:ratelimit" else c.key_prefix)
  unfolding with_defaults
  prefix_part = ground arith

  with_defaults_positive :
      pos_part c.limit + 50 < 2 ^ 63
      → (pos 0 <ℤ (with_defaults c).limit)
        × (pos 0 <ℤ (with_defaults c).window)
        × (pos 0 <ℤ (with_defaults c).burst_size)
  with_defaults_positive fits =
      rw (burst_part, limit_part, window_part)
        (ground (arith, add64_positive c.limit, add64_positive (pos 100)))

-- A limiter that NewLimiter returns has a key prefix, and a positive limit, window and burst size,
-- if the limit plus 50 is an int.
pub new_limiter-IsConfigured :
    {Client : Type 0} (c : Config Client) (l : Limiter Client)
    → pos_part c.limit + 50 < 2 ^ 63
    → new_limiter (some c) ≡ ok l
    → IsConfigured l
unfolding new_limiter
new_limiter-IsConfigured c l fits e =
    ground (arith, with_defaults_positive c fits, prefix_part c, eq_iff "taskqueue:ratelimit" "")
