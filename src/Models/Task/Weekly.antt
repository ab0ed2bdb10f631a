-- ===== src/Models/Task/Weekly.antt =====
-- internal/models/task.go: weekly intervals in a zone without changes of the clock.
use taskqueue_go.Prelude.{
  ◌≡◌, ◌∙◌, ap, arith, ℕ, suc, ◌+◌, ◌*◌, ◌-◌, ◌/◌, ◌%◌, ◌<◌, ◌≤◌, ◌^◌, ◌⊎◌, inl, inr, none, some,
  ltb, if◌then◌else◌,
}
use taskqueue_go.Prelude.Int.{pos}
use taskqueue_go.Prelude.Int64.{mul64, mul64-pos}
use taskqueue_go.GoTime.{Calendar, truncate}
use taskqueue_go.GoTime.Zone.{day_ns, clock_ns, DayCount, IsFixedZone}
use taskqueue_go.Models.Task.{
  interval_type_weekly, next_execution, TaskInterval, add_date, at_time_on, next_weekly,
}
use taskqueue_go.Models.Task.Zoned.{zone_of, next_execution-weekly, add_date-days, at_time_on-day}

module _ (D : DayCount) (cal : Calendar) (loc : cal.Location) (east west : ℕ)
    (zone : IsFixedZone D cal loc east west) (t l l' : ℕ) (is_local : l + west ≡ t + east)
    (at_utc_midnight : l' + west ≡ t - t % day_ns + east) (near : east ≤ day_ns) (ti : TaskInterval)
    (v : ℕ) (value : ti.value ≡ pos v) (positive : 1 ≤ v) (fits : 7 * v < 2 ^ 63) where
  -- A week, v times, from midnight UTC on.
  abbrev weeks_on : ℕ
  weeks_on = t - t % day_ns + 7 * v * day_ns

  next_weekly_lem : next_weekly cal loc ti (pos t) ≡ at_time_on cal loc ti.at_time (pos weeks_on)
  unfolding next_weekly truncate
  next_weekly_lem =
      ap
        (λ days.
          at_time_on cal loc ti.at_time (add_date cal loc (pos (t - t % day_ns)) (pos 0) days))
        (ap (mul64 (pos 7)) value ∙ mul64-pos 7 v fits)
      ∙ ap (at_time_on cal loc ti.at_time)
          (add_date-days D cal loc east west zone (t - t % day_ns) l' (7 * v) at_utc_midnight)

  next_weekly-time :
      (h m : ℕ)
      → ti.at_time ≡ some (record { hour_of_day = pos h; minute = pos m })
      → (u : ℕ) × (next_weekly cal loc ti (pos t) ≡ pos u)
        × ((l' / day_ns + 7 * v) * day_ns + clock_ns h m 0 0 + west ≡ u + east)
  next_weekly-time h m at =
      let u = (l' / day_ns + 7 * v) * day_ns + clock_ns h m 0 0 + west - east in
      (
        u,
        next_weekly_lem
            ∙ ap (λ tod. at_time_on cal loc tod (pos weeks_on)) at
            ∙ at_time_on-day D cal loc east west zone weeks_on (l' + 7 * v * day_ns) h m u
                (omega arith) (omega arith),
        omega arith,
      )

  pub next_weekly-Later :
      (ti.at_time ≡ none)
        ⊎ ((h : ℕ) × (m : ℕ) × (ti.at_time ≡ some (record { hour_of_day = pos h; minute = pos m })))
      → (u : ℕ) × (next_weekly cal loc ti (pos t) ≡ pos u) × (t < u)
  next_weekly-Later (inl at) = (
    weeks_on,
    next_weekly_lem ∙ ap (λ tod. at_time_on cal loc tod (pos weeks_on)) at,
    omega arith,
  )
  next_weekly-Later (inr (h, m, at)) =
      let (u, e, lands) = next_weekly-time h m at in (u, e, omega arith)

module _ (D : DayCount) (cal : Calendar) (loc : cal.Location) (east : ℕ)
    (zone : IsFixedZone D cal loc east 0) where
  -- In a zone without changes of the clock that is ahead of UTC by less than a day, a weekly interval
  -- of v weeks falls due at its time of day on the day that is v weeks after the day of the last
  -- execution, where that was no earlier in its local day than midnight UTC is; otherwise it falls
  -- due a day too early, on another weekday.
  pub next_execution-weekday :
      (ti : TaskInterval) (t l v h m : ℕ)
      → ti.type ≡ interval_type_weekly
      → zone_of cal ti (pos t) ≡ loc
      → ti.value ≡ pos v
      → 1 ≤ v
      → 7 * v < 2 ^ 63
      → ti.at_time ≡ some (record { hour_of_day = pos h; minute = pos m })
      → l ≡ t + east
      → east < day_ns
      → (u : ℕ) × (k : ℕ) × (next_execution cal ti (pos t) ≡ pos u)
        × (k * day_ns + clock_ns h m 0 0 ≡ u + east)
        × ((if ltb (l % day_ns) east then suc k else k) ≡ l / day_ns + 7 * v)
  next_execution-weekday ti t l v h m weekly here value positive fits at is_local near =
      let l' = t - t % day_ns + east in
      let (u, e, lands) =
        next_weekly-time D cal loc east 0 zone t l l' (omega arith) (omega arith) (omega arith) ti v
          value positive fits h m at in
      (
        u,
        l' / day_ns + 7 * v,
        next_execution-weekly cal ti (pos t) weekly
            ∙ ap (λ z. next_weekly cal z ti (pos t)) here
            ∙ e,
        omega (arith, lands),
        ground arith,
      )
