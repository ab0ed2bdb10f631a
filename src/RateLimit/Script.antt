-- ===== src/RateLimit/Script.antt =====
-- internal/ratelimit/limiter.go: tokenBucketScript, the Lua script that Redis runs as one step.
-- Lua's numbers are doubles: the model is exact while whole numbers stay below 2^53, and has the
-- values that a division by zero gives.
use taskqueue_go.Prelude.{zero, suc, Bool, true, false, Option, none, some, if◌then◌else◌}
use taskqueue_go.Prelude.Int.{ℤ, pos, negsuc, ◌+ℤ◌, ◌-ℤ◌, ◌*ℤ◌, floor_div_ℕ, ltb_ℤ, leb_ℤ}

pub data LuaNumber : Type 0 where
  finite : ℤ → LuaNumber
  nan plus_infinity minus_infinity : LuaNumber

-- The hash at the limiter's key.
pub record Bucket : Type 0 where
  pub tokens : LuaNumber
  pub last_refill : ℤ
  pub ttl : ℤ  -- the seconds that EXPIRE gave it

-- x / 0
abbrev pub by_zero : ℤ → LuaNumber
by_zero (pos zero) = nan
by_zero (pos (suc n)) = plus_infinity
by_zero (negsuc n) = minus_infinity

-- math.floor(x / y)
unfoldable pub floor_div : ℤ → ℤ → LuaNumber
floor_div x (pos zero) = by_zero x
floor_div x (pos (suc y)) = finite (floor_div_ℕ x (suc y))
floor_div x (negsuc y) = finite (floor_div_ℕ (pos 0 -ℤ x) (suc y))

-- x + y where x is a stored count
abbrev pub plus : LuaNumber → LuaNumber → LuaNumber
plus (finite a) (finite b) = finite (a +ℤ b)
plus (finite a) b = b
plus nan b = nan
plus plus_infinity minus_infinity = nan
plus plus_infinity nan = nan
plus plus_infinity b = plus_infinity
plus minus_infinity plus_infinity = nan
plus minus_infinity nan = nan
plus minus_infinity b = minus_infinity

-- math.min(b, x): b stays unless x is less, which a NaN is not.
abbrev pub minimum : ℤ → LuaNumber → LuaNumber
minimum b (finite a) = if ltb_ℤ a b then finite a else finite b
minimum b nan = finite b
minimum b plus_infinity = finite b
minimum b minus_infinity = minus_infinity

-- x >= r
abbrev pub at_least : LuaNumber → ℤ → Bool
at_least (finite a) r = leb_ℤ r a
at_least nan r = false
at_least plus_infinity r = true
at_least minus_infinity r = false

-- x - r
abbrev pub minus : LuaNumber → ℤ → LuaNumber
minus (finite a) r = finite (a -ℤ r)
minus x r = x

-- tonumber(current[1]) or burst_size
abbrev pub stored_or : ℤ → Option Bucket → LuaNumber
stored_or burst_size none = finite burst_size
stored_or burst_size (some b) = b.tokens

-- tonumber(current[2]) or now
abbrev pub refilled_or : ℤ → Option Bucket → ℤ
refilled_or now none = now
refilled_or now (some b) = b.last_refill

-- HMSET and EXPIRE: a time to live that is not positive deletes the key.
abbrev pub store : LuaNumber → ℤ → ℤ → Option Bucket
store tokens now ttl =
    if ltb_ℤ (pos 0) ttl
    then some (record { tokens = tokens; last_refill = now; ttl = ttl })
    else none

-- The tokens at hand when the request is looked at.
unfoldable pub refilled : ℤ → ℤ → ℤ → ℤ → Option Bucket → LuaNumber
unfolding floor_div
refilled now window limit burst_size current =
    let elapsed = now -ℤ refilled_or now current in
    let tokens_to_add = floor_div (elapsed *ℤ limit) window in
    minimum burst_size (plus (stored_or burst_size current) tokens_to_add)

unfoldable pub token_bucket_script : ℤ → ℤ → ℤ → ℤ → ℤ → Option Bucket → ℤ × Option Bucket
token_bucket_script now window limit burst_size requested current =
    let tokens = refilled now window limit burst_size current in
    if at_least tokens requested
    then (pos 1, store (minus tokens requested) now (window *ℤ pos 2))
    else (pos 0, store tokens now (window *ℤ pos 2))
