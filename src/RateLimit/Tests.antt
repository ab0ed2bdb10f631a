-- ===== src/RateLimit/Tests.antt =====
-- internal/ratelimit/limiter.go: runs, and the theorems at concrete data.
use taskqueue_go.Prelude.{
  ◌≡◌, ◌+◌, ◌-◌, ◌*◌, ◌≤◌, refl, none, some, [], ◌∷◌, List, arith, ok, leb, inr,
}
use taskqueue_go.Prelude.Int.{pos}
use taskqueue_go.GoTime.{whole_seconds}
use taskqueue_go.RateLimit.{Config, Limiter, answered, allow_n}
use taskqueue_go.RateLimit.Steps.{holding}
use taskqueue_go.RateLimit.Bound.{IsTuned, Event, request, expiry, total_granted, at, granted_bound}
use taskqueue_go.RateLimit.Starvation.{Dense-starves}
use taskqueue_go.RateLimit.Subsecond.{subsecond_unlimited}

abbrev per_minute : Limiter (Unit {0})
per_minute = record {
  client = tt;
  config = record {
    redis_client = some tt;
    key_prefix = "k";
    limit = pos 30;
    window = pos 60_000_000_000;
    burst_size = pos 3;
  };
}

per_minute-IsTuned : IsTuned per_minute 60 30 3
unfolding whole_seconds
per_minute-IsTuned = record {
  window_positive = omega arith;
  has_window = refl;
  has_limit = refl;
  has_burst = refl;
}

-- The key expires between the second and the third request.
abbrev events : List Event
events = request 100 2 ∷ request 101 2 ∷ expiry 300 ∷ request 300 3 ∷ []

granted_bound_example : total_granted per_minute events none * 60 ≤ 3 * 60 + (300 - 100) * 30
granted_bound_example =
    granted_bound per_minute 59 30 3 per_minute-IsTuned (omega arith) events none 3 100 300
      (inr (refl, refl)) (omega arith)

-- One poll a second for three seconds; half a token comes in each time, and is lost.
abbrev polls : List Event
polls = request 101 1 ∷ request 102 1 ∷ request 103 1 ∷ []

Dense-starves_example : total_granted per_minute polls (holding 60 0 100) ≤ 0
Dense-starves_example =
    Dense-starves per_minute 59 30 3 per_minute-IsTuned polls 0 100 (omega arith) (omega arith)

abbrev half_second : Limiter (Unit {0})
half_second = record per_minute {
  config = record {
    redis_client = some tt;
    key_prefix = "k";
    limit = pos 1;
    window = pos 500_000_000;
    burst_size = pos 5;
  };
}

subsecond_unlimited_example :
    allow_n half_second answered (at 100) (pos 5) none ≡ (ok (leb 5 5), none)
subsecond_unlimited_example =
    subsecond_unlimited half_second 500_000_000 5 (at 100) 5 refl (omega arith) refl

abbrev empty : Config (Unit {0})
empty = record {
  redis_client = some tt;
  key_prefix = "";
  limit = pos 0;
  window = pos 0;
  burst_size = pos 0;
}
