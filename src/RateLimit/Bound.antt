-- ===== src/RateLimit/Bound.antt =====
-- internal/ratelimit/limiter.go: how much a limiter grants in a stretch of time, over any sequence
-- of AllowN calls and of expiries of the key.
use native.Mathlib.Nat.{le_trans, mul-le-mul_right}
use taskqueue_go.Prelude.{
  ℕ, suc, ◌+◌, ◌-◌, ◌*◌, ◌/◌, ◌≤◌, ◌<◌, ◌≡◌, ◌⊎◌, inl, inr, refl, ap, Bool, true, false, Option,
  none, List, [], ◌∷◌, if◌then◌else◌, arith, leb, Result, ok, Bool-cases,
}
use taskqueue_go.Prelude.Int.{pos, pos--ℤ-pos}
use taskqueue_go.GoTime.{Time, unix, whole_seconds}
use taskqueue_go.RateLimit.Script.{Bucket, token_bucket_script}
use taskqueue_go.RateLimit.Steps.{holding, available, decided, script-holding, script-none}
use taskqueue_go.RateLimit.{Limiter, answered, allow_n}

-- The clock at a second of the Unix epoch.
abbrev pub at : ℕ → Time
at s = pos ((s + 62_135_596_800) * 1_000_000_000)

pub unix-at : (s : ℕ) → unix (at s) ≡ pos s
unfolding unix
unix-at s =
    rw
      (pos--ℤ-pos ((s + 62_135_596_800) * 1_000_000_000 / 1_000_000_000) 62_135_596_800
        (omega arith))
      (ap pos (omega arith))

-- A limiter whose window is w seconds and at least one, with a limit and a burst size that are
-- not negative.
pub record IsTuned {Client : Type 0} (l : Limiter Client) (w limit burst : ℕ) : Type 0 where
  pub window_positive : 0 < w
  pub has_window : whole_seconds l.config.window ≡ pos w
  pub has_limit : l.config.limit ≡ pos limit
  pub has_burst : l.config.burst_size ≡ pos burst

-- The bucket holds t tokens as of second l: it says so, or it is empty and counts as full.
abbrev pub Holds : ℕ → ℕ → Option Bucket → ℕ → ℕ → Type 0
Holds w burst b t l = ((b ≡ holding w t l) × (t ≤ burst)) ⊎ ((b ≡ none) × (t ≡ burst))

abbrev pub answer : ℕ → ℕ → ℕ → ℕ → Result Bool × Option Bucket
answer w n r have =
    if leb r have then (ok true, holding w (have - r) n) else (ok false, holding w have n)

refill_le : (w limit t g : ℕ) → 0 < w → (t + g * limit / w) * w ≤ t * w + g * limit
refill_le w limit t g h = grind arith

available-le :
    (w limit burst t l n : ℕ) → 0 < w → available w limit burst t l n * w ≤ t * w + (n - l) * limit
available-le w limit burst t l n h =
    le_trans
      (mul-le-mul_right {m = available w limit burst t l n} {n = t + (n - l) * limit / w} w
        (omega arith))
      (refill_le w limit t (n - l) h)

pub decided-answer :
    {Client : Type 0} (l : Limiter Client) (w limit burst : ℕ)
    → IsTuned l w limit burst
    → (b : Option Bucket) (n r have : ℕ) → 0 < r
    → token_bucket_script (pos n) (pos w) (pos limit) (pos burst) (pos r) b ≡ decided w n r have
    → allow_n l answered (at n) (pos r) b ≡ answer w n r have
unfolding allow_n
decided-answer l w limit burst tuned b n r have k e =
    rw (unix-at n, tuned.has_window, tuned.has_limit, tuned.has_burst, e) (ground arith)

module _ {Client : Type 0} (l : Limiter Client) (w limit burst : ℕ)
    (tuned : IsTuned l (suc w) limit burst) where
  -- One call: what it has at hand is no more than the burst size and than the time has brought.
  pub step :
      (b : Option Bucket) (t last n r : ℕ)
      → Holds (suc w) burst b t last
      → last ≤ n
      → 0 < r
      → (have : ℕ) × (have ≤ burst)
        × (have * suc w ≤ t * suc w + (n - last) * limit)
        × (allow_n l answered (at n) (pos r) b ≡ answer (suc w) n r have)
  step b t last n r (inl (same, fits)) h k = (
    available (suc w) limit burst t last n,
    omega arith,
    available-le (suc w) limit burst t last n (omega arith),
    decided-answer l (suc w) limit burst tuned b n r _ k
        (rw same (script-holding w limit burst t last n r h)),
  )
  step b t last n r (inr (empty, full)) h k = (
    burst,
    omega arith,
    grind arith,
    decided-answer l (suc w) limit burst tuned b n r _ k (rw empty (script-none w limit burst n r)),
  )

-- What happens to the key: a request for r tokens in a second, or Redis lets it expire.
pub data Event : Type 0 where
  request : ℕ → ℕ → Event
  expiry : ℕ → Event

abbrev pub granted : Result Bool → ℕ → ℕ
granted (ok true) r = r
granted _ r = 0

-- The tokens that a sequence of events grants.
unfoldable pub total_granted : {Client : Type 0} → Limiter Client → List Event → Option Bucket → ℕ
total_granted l [] b = 0
total_granted l (expiry s ∷ es) b = total_granted l es none
total_granted l (request s r ∷ es) b =
    let (res, b') = allow_n l answered (at s) (pos r) b in granted res r + total_granted l es b'

-- The events are in order of time and end by second e, each request is for at least one token, and
-- the key expires no sooner than two windows after its last use.
abbrev pub Possible : ℕ → ℕ → ℕ → List Event → Type 0
Possible w last e [] = last ≤ e
Possible w last e (request s r ∷ es) = (last ≤ s) × (0 < r) × Possible w s e es
Possible w last e (expiry s ∷ es) = (last + w * 2 ≤ s) × Possible w s e es

Possible-le : (w last e : ℕ) (es : List Event) → Possible w last e es → last ≤ e
Possible-le w last e [] p = p
Possible-le w last e (request s r ∷ es) (a, k, p) = omega (arith, Possible-le w s e es p)
Possible-le w last e (expiry s ∷ es) (a, p) = omega (arith, Possible-le w s e es p)

-- Time adds up.
spent_then_left :
    (limit a b c : ℕ) → a ≤ b → b ≤ c → (b - a) * limit + (c - b) * limit ≡ (c - a) * limit
spent_then_left limit a b c h k = grind arith

request_bound :
    (w limit t have got rest left last s e : ℕ)
    → last ≤ s
    → s ≤ e
    → have * w ≤ t * w + (s - last) * limit
    → got + left ≤ have
    → rest * w ≤ left * w + (e - s) * limit
    → (got + rest) * w ≤ t * w + (e - last) * limit
request_bound w limit t have got rest left last s e h k p q r =
    omega
      (arith, spent_then_left limit last s e h k, mul-le-mul_right {m = got + left} {n = have} w q)

-- An expired bucket is full again; two windows would have filled it as well.
expiry_bound :
    (w limit burst t rest last s e : ℕ)
    → burst ≤ limit * 2
    → last + w * 2 ≤ s
    → s ≤ e
    → rest * w ≤ burst * w + (e - s) * limit
    → rest * w ≤ t * w + (e - last) * limit
expiry_bound w limit burst t rest last s e fits h k r = omega (
  arith,
  spent_then_left limit last s e (omega arith) k,
  mul-le-mul_right {m = burst} {n = limit * 2} w fits,
  mul-le-mul_right {m = w * 2} {n = s - last} limit (omega arith),
)

module _ {Client : Type 0} (l : Limiter Client) (w limit burst : ℕ)
    (tuned : IsTuned l (suc w) limit burst) (fits : burst ≤ limit * 2) where
  -- Over any sequence of requests and expiries in order of time, the tokens granted from second
  -- `last` to second `e` are at most those that the bucket held, and `limit` for each window in
  -- between. The window is of whole seconds and at least one, the burst size at most twice the
  -- limit, each request is for a token or more, is answered, and the key expires no sooner than
  -- two windows after its last use.
  pub granted_bound :
      (es : List Event) (b : Option Bucket) (t last e : ℕ)
      → Holds (suc w) burst b t last
      → Possible (suc w) last e es
      → total_granted l es b * suc w ≤ t * suc w + (e - last) * limit
  unfolding total_granted
  granted_bound [] b t last e holds p = omega arith
  granted_bound (expiry s ∷ es) b t last e holds (a, p) =
      expiry_bound (suc w) limit burst t _ last s e fits a (Possible-le (suc w) s e es p)
        (granted_bound es none burst s e (inr (refl, refl)) p)
  granted_bound (request s r ∷ es) b t last e holds (a, k, p) =
      let (have, small, paid, eq) = step l w limit burst tuned b t last s r holds a k in
      let inside = Possible-le (suc w) s e es p in
      rw eq (elim (Bool-cases (leb r have)) [
        | inl served ↦ rw served (
            request_bound (suc w) limit t have r _ (have - r) last s e a inside paid (ground arith)
              (granted_bound es (holding (suc w) (have - r) s) (have - r) s e
                (inl (refl, omega arith)) p))
        | inr denied ↦ rw denied (
            request_bound (suc w) limit t have 0 _ have last s e a inside paid (omega arith)
              (granted_bound es (holding (suc w) have s) have s e (inl (refl, small)) p))
      ])
