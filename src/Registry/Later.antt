-- ===== src/Registry/Later.antt =====
-- internal/models/task.go, for the intervals that internal/storage/registry.go accepts: a task does not
-- fall due at once.
use taskqueue_go.Prelude.{
  ◌≡◌, ◌∙◌, refl, subst, arith, ℕ, zero, suc, ◌+◌, ◌*◌, ◌-◌, ◌/◌, ◌%◌, ◌<◌, ◌≤◌, ◌^◌, ◌⊎◌, inl, inr,
  none, some, Option, false,
}
use taskqueue_go.Prelude.Int.{ℤ, pos, negsuc, pos_part, ◌<ℤ◌, ◌≤ℤ◌}
use taskqueue_go.GoTime.{Calendar}
use taskqueue_go.GoTime.Zone.{day_ns, DayCount, IsFixedZone}
use taskqueue_go.Models.Task.{TaskInterval, TimeOfDay, next_execution, is_due}
use taskqueue_go.Models.Task.Hourly.{hour_ns, next_hourly-pos}
use taskqueue_go.Models.Task.Zoned.{
  zone_of, next_execution-hours, next_execution-daily, next_execution-weekly,
  next_execution-monthly,
}
use taskqueue_go.Models.Task.Daily.{next_daily-Later}
use taskqueue_go.Models.Task.Weekly.{next_weekly-Later}
use taskqueue_go.Models.Task.Monthly.{next_monthly-Later}
use taskqueue_go.Registry.Valid.{IsInterval, IsTimeOfDay}

-- A positive value, and a time of day, as naturals.
positive_value : (x : ℤ) → pos 0 <ℤ x → (v : ℕ) × (x ≡ pos (suc v))
positive_value (pos zero) h = absurd (omega arith)
positive_value (pos (suc v)) h = (v, refl)
positive_value (negsuc n) h = absurd (omega arith)

abbrev Clock : Option TimeOfDay → Type 0
Clock at =
    (at ≡ none) ⊎ ((h : ℕ) × (m : ℕ) × (at ≡ some (record { hour_of_day = pos h; minute = pos m })))

natural : (x : ℤ) → pos 0 ≤ℤ x → (n : ℕ) × (x ≡ pos n)
natural (pos n) h = (n, refl)
natural (negsuc n) h = absurd (omega arith)

IsTimeOfDay-Clock : (at : Option TimeOfDay) → IsTimeOfDay at → Clock at
IsTimeOfDay-Clock none valid = inl refl
IsTimeOfDay-Clock (some tod) (low, high, low', high') =
    let (h, hours) = natural tod.hour_of_day low in
    let (m, minutes) = natural tod.minute low' in inr (h, m, rw (← hours, ← minutes) refl)

module _ (D : DayCount) (cal : Calendar) (ti : TaskInterval) (t l east west : ℕ)
    (zone : IsFixedZone D cal (zone_of cal ti (pos t)) east west) (is_local : l + west ≡ t + east)
    (late : east ≤ l / day_ns * day_ns + west) (late_utc : west ≤ t - t % day_ns + east)
    (near : east ≤ day_ns) (valid : IsInterval ti)
    (fits : pos_part ti.value * hour_ns < 2 ^ 63) where
  -- The next execution, as an instant after the last one.
  next_execution-later : (u : ℕ) × (next_execution cal ti (pos t) ≡ pos u) × (t < u)
  next_execution-later =
      let (v, value) = positive_value ti.value valid.positive in
      let small : suc v * hour_ns < 2 ^ 63 =
        subst (λ x. pos_part x * hour_ns < 2 ^ 63) value fits in
      let clock = IsTimeOfDay-Clock ti.at_time valid.at_clock in
      elim valid.known [
        | inl hourly ↦ (
          _,
          next_execution-hours cal ti (pos t) hourly
              ∙ next_hourly-pos cal ti t v value (omega arith),
          omega arith,
        )
        | inr (inl daily) ↦
            let (u, e, after) =
              next_daily-Later D cal _ east west zone t l is_local late ti (suc v) value
                (omega arith) clock in
            (u, next_execution-daily cal ti (pos t) daily ∙ e, after)
        | inr (inr (inl weekly)) ↦
            let (u, e, after) =
              next_weekly-Later D cal _ east west zone t l (t - t % day_ns + east - west) is_local
                (omega arith) near ti (suc v) value (omega arith) (omega arith) clock in
            (u, next_execution-weekly cal ti (pos t) weekly ∙ e, after)
        | inr (inr (inr monthly)) ↦
            let (u, e, after) =
              next_monthly-Later D cal _ east west zone t l is_local ti (suc v) value (omega arith)
                clock in
            (u, next_execution-monthly cal ti (pos t) monthly ∙ e, after)
      ]

  -- A task with an interval that the registry accepts is not due at the very time of its last execution,
  -- in a zone without changes of the clock. The offset is
  -- at most a day, the local day does not begin before the zero time, and the value's hours fit a
  -- Duration.
  pub is_due-at_once : is_due cal ti (pos t) (pos t) ≡ false
  unfolding is_due
  is_due-at_once = let (u, e, after) = next_execution-later in rw e (ground arith)
