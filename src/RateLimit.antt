-- ===== src/RateLimit.antt =====
-- internal/ratelimit/limiter.go: the limiter's Go side. The token bucket's script is in Script.
-- The key is one and the same for all calls of a limiter, so its value is the whole state; what
-- else Redis holds is untouched.
pub mod Script
pub mod Defaults
pub mod Steps
pub mod Bound
pub mod Starvation
pub mod Subsecond
pub mod Tests
use taskqueue_go.Prelude.{
  ◌<>◌, Bool, true, false, Option, none, some, String, if◌then◌else◌, ◌==◌, Result, ok, err,
  Failure,
}
use taskqueue_go.Prelude.Int.{ℤ, pos, ◌+ℤ◌, ◌*ℤ◌, leb_ℤ, eqb_ℤ}
use taskqueue_go.Prelude.Int64.{add64}
use taskqueue_go.GoTime.{Time, Duration, second, unix, whole_seconds, zero_time}
use Script.{LuaNumber, finite, nan, plus_infinity, minus_infinity, Bucket, token_bucket_script}

-- `Client` is the type of *redis.Client, which the limiter only hands on.
pub record Config (Client : Type 0) : Type 0 where
  pub redis_client : Option Client
  pub key_prefix : String
  pub limit : ℤ  -- int
  pub window : Duration
  pub burst_size : ℤ  -- int

pub record Limiter (Client : Type 0) : Type 0 where
  pub client : Client
  pub config : Config Client

-- How a call of Redis ends: it is carried out and answered, it is not carried out, or it is
-- carried out and the answer is lost.
pub data Transport : Type 0 where
  answered : Transport
  refused lost : String → Transport

abbrev reply : Transport → ℤ → Result Bool
reply answered r = ok (eqb_ℤ r (pos 1))
reply (refused e) r = err ("failed to execute rate limit check: " <> e)
reply (lost e) r = err ("failed to execute rate limit check: " <> e)

abbrev pub carried_out {ℓ} : {A : Type ℓ} → Transport → A → A → A
carried_out answered before after = after
carried_out (refused e) before after = before
carried_out (lost e) before after = after

abbrev failure : Transport → Failure
failure answered = none
failure (refused e) = some e
failure (lost e) = some e

module _ {Client : Type 0} where
  -- The defaults that NewLimiter writes into its argument.
  abbrev default_prefix : Config Client → Config Client
  default_prefix c =
      if c.key_prefix == "" then record c { key_prefix = "taskqueue:ratelimit" } else c

  abbrev default_limit : Config Client → Config Client
  default_limit c = if leb_ℤ c.limit (pos 0) then record c { limit = pos 100 } else c

  abbrev default_window : Config Client → Config Client
  default_window c = if leb_ℤ c.window (pos 0) then record c { window = second } else c

  abbrev default_burst : Config Client → Config Client
  default_burst c =
      if leb_ℤ c.burst_size (pos 0) then record c { burst_size = add64 c.limit (pos 50) } else c

  unfoldable pub with_defaults : Config Client → Config Client
  with_defaults c = default_burst (default_window (default_limit (default_prefix c)))

  abbrev connect : Config Client → Option Client → Result (Limiter Client)
  connect c none = err "redis client cannot be nil"
  connect c (some client) = ok (record { client = client; config = with_defaults c })

  unfoldable pub new_limiter : Option (Config Client) → Result (Limiter Client)
  new_limiter none = err "config cannot be nil"
  new_limiter (some c) = connect c c.redis_client

  abbrev pub key : Limiter Client → String
  key l = l.config.key_prefix <> ":global"

  -- AllowN at the clock's reading `now`. The script answers with an integer, so the test of the
  -- answer's type never fails.
  unfoldable pub allow_n :
      Limiter Client → Transport → Time → ℤ → Option Bucket → Result Bool × Option Bucket
  allow_n l t now n b =
      let (r, b') =
        token_bucket_script (unix now) (whole_seconds l.config.window) l.config.limit
          l.config.burst_size n b in
      if leb_ℤ n (pos 0) then (ok true, b) else (reply t r, carried_out t b b')

  unfoldable pub allow :
      Limiter Client → Transport → Time → Option Bucket → Result Bool × Option Bucket
  unfolding allow_n
  allow l t now b = allow_n l t now (pos 1) b

  -- Reset deletes the key.
  unfoldable pub reset : Limiter Client → Transport → Option Bucket → Failure × Option Bucket
  reset l t b = (failure t, carried_out t b none)

pub record Stats : Type 0 where
  pub limit : ℤ
  pub burst_size : ℤ
  pub window : Duration
  pub available_tokens : ℤ
  pub last_refill : Time

-- strconv.ParseInt of a stored number's text; 0 stays where there is none.
abbrev parsed_tokens : LuaNumber → ℤ
parsed_tokens (finite t) = t
parsed_tokens _ = pos 0

abbrev stored_tokens : Option Bucket → ℤ
stored_tokens none = pos 0
stored_tokens (some b) = parsed_tokens b.tokens

-- time.Unix(t, 0), or the zero Time that the field starts with.
abbrev stored_refill : Option Bucket → Time
stored_refill none = zero_time
stored_refill (some b) = (b.last_refill +ℤ pos 62_135_596_800) *ℤ pos 1_000_000_000

unfoldable pub stats : {Client : Type 0} → Limiter Client → Transport → Option Bucket → Result Stats
stats l (refused e) b = err ("failed to get rate limiter stats: " <> e)
stats l (lost e) b = err ("failed to get rate limiter stats: " <> e)
stats l answered b = ok (record {
  limit = l.config.limit;
  burst_size = l.config.burst_size;
  window = l.config.window;
  available_tokens = stored_tokens b;
  last_refill = stored_refill b;
})
