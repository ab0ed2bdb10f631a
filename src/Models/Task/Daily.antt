-- ===== src/Models/Task/Daily.antt =====
-- internal/models/task.go: daily intervals in a zone without changes of the clock.
use taskqueue_go.Prelude.{
  ◌≡◌, ◌∙◌, ap, arith, ℕ, ◌+◌, ◌*◌, ◌-◌, ◌/◌, ◌<◌, ◌≤◌, ◌⊎◌, none, some, Option, ◌&&◌,
  if◌then◌else◌, ltb, eqb, Bool-cases, inl, inr,
}
use taskqueue_go.Prelude.Int.{pos, ltb_ℤ, eqb_ℤ}
use taskqueue_go.GoTime.{Time, Calendar}
use taskqueue_go.GoTime.Zone.{day_ns, clock_ns, DayCount, IsFixedZone}
use taskqueue_go.Models.Task.{
  TaskInterval, TimeOfDay, interval_type_daily, add_date, at_time_on, today_or, next_daily,
  next_execution,
}
use taskqueue_go.Models.Task.Zoned.{zone_of, next_execution-daily, add_date-days, at_time_on-day}

module _ (D : DayCount) (cal : Calendar) (loc : cal.Location) (east west : ℕ)
    (zone : IsFixedZone D cal loc east west) (t l : ℕ) (is_local : l + west ≡ t + east)
    (late : east ≤ l / day_ns * day_ns + west) where
  -- An instant later than t.
  abbrev pub Later : Time → Type 0
  Later next = (u : ℕ) × (next ≡ pos u) × (t < u)

  -- The instant at which the local day begins.
  abbrev midnight : ℕ
  midnight = l / day_ns * day_ns + west - east

  abbrev time : ℕ → ℕ → Option TimeOfDay
  time h m = some (record { hour_of_day = pos h; minute = pos m })

  at_midnight : at_time_on cal loc (time 0 0) (pos t) ≡ pos midnight
  at_midnight = at_time_on-day D cal loc east west zone t l 0 0 midnight is_local (omega arith)

  days_on : (v : ℕ) → add_date cal loc (pos midnight) (pos 0) (pos v) ≡ pos (midnight + v * day_ns)
  days_on v = add_date-days D cal loc east west zone midnight (l / day_ns * day_ns) v (omega arith)

  at_time_after :
      (v h m : ℕ)
      → at_time_on cal loc (time h m) (pos (midnight + v * day_ns))
        ≡ pos (midnight + v * day_ns + clock_ns h m 0 0)
  at_time_after v h m =
      at_time_on-day D cal loc east west zone (midnight + v * day_ns) ((l / day_ns + v) * day_ns) h
        m _ (omega arith) (omega arith)

  today : (h m : ℕ) → at_time_on cal loc (time h m) (pos t) ≡ pos (midnight + clock_ns h m 0 0)
  today h m = at_time_on-day D cal loc east west zone t l h m _ is_local (omega arith)

  module _ (ti : TaskInterval) (v : ℕ) (value : ti.value ≡ pos v) where
    next_daily_lem :
        next_daily cal loc ti (pos t)
        ≡ today_or cal loc ti
            (pos t)
            ti.at_time
            (at_time_on cal loc ti.at_time (pos (midnight + v * day_ns)))
    unfolding next_daily
    next_daily_lem =
        ap (λ next. today_or cal loc ti (pos t) ti.at_time (at_time_on cal loc ti.at_time next))
          (ap (λ days. add_date cal loc (at_time_on cal loc (time 0 0) (pos t)) (pos 0) days) value
            ∙ ap (λ start. add_date cal loc start (pos 0) (pos v)) at_midnight
            ∙ days_on v)

    chosen :
        (h m next : ℕ)
        → today_or cal loc ti (pos t) (time h m) (pos next) ≡ (
            if eqb v 1 && ltb t (midnight + clock_ns h m 0 0)
            then pos (midnight + clock_ns h m 0 0)
            else pos next)
    chosen h m next =
        ap (λ (day : Time). if eqb_ℤ ti.value (pos 1) && ltb_ℤ (pos t) day then day else pos next)
          (today h m)
        ∙ rw value (ground arith)

    next_daily-time :
        (h m : ℕ)
        → ti.at_time ≡ time h m
        → next_daily cal loc ti (pos t) ≡ (
            if eqb v 1 && ltb t (midnight + clock_ns h m 0 0)
            then pos (midnight + clock_ns h m 0 0)
            else pos (midnight + v * day_ns + clock_ns h m 0 0))
    next_daily-time h m at =
        next_daily_lem
        ∙ ap
            (λ tod.
              today_or cal loc ti (pos t) tod
                (at_time_on cal loc tod (pos (midnight + v * day_ns))))
            at
        ∙ ap (today_or cal loc ti (pos t) (time h m)) (at_time_after v h m)
        ∙ chosen h m (midnight + v * day_ns + clock_ns h m 0 0)

    next_daily-midnight :
        ti.at_time ≡ none → next_daily cal loc ti (pos t) ≡ pos (midnight + v * day_ns)
    next_daily-midnight at =
        next_daily_lem
        ∙ ap
            (λ tod.
              today_or cal loc ti (pos t) tod
                (at_time_on cal loc tod (pos (midnight + v * day_ns))))
            at

    every_day :
        (h m : ℕ)
        → ti.at_time ≡ time h m
        → v ≡ 1
        → clock_ns h m 0 0 < day_ns
        → (u : ℕ) × (k : ℕ) × (next_daily cal loc ti (pos t) ≡ pos u)
          × (t < u)
          × (u ≤ t + day_ns)
          × (k * day_ns + clock_ns h m 0 0 + west ≡ u + east)
    every_day h m at once clock = elim (Bool-cases (ltb t (midnight + clock_ns h m 0 0))) [
      | inl to_come ↦ (
        midnight + clock_ns h m 0 0,
        l / day_ns,
        next_daily-time h m at ∙ ground arith,
        ground arith,
        omega arith,
        omega arith,
      )
      | inr passed ↦
          let missed : midnight + clock_ns h m 0 0 ≤ t = ground arith in
          (
            midnight + v * day_ns + clock_ns h m 0 0,
            l / day_ns + v,
            next_daily-time h m at ∙ ground arith,
            omega arith,
            omega arith,
            omega arith,
          )
    ]

    pub next_daily-Later :
        1 ≤ v
        → (ti.at_time ≡ none) ⊎ ((h : ℕ) × (m : ℕ) × (ti.at_time ≡ time h m))
        → Later (next_daily cal loc ti (pos t))
    next_daily-Later positive (inl at) =
        (midnight + v * day_ns, next_daily-midnight at, omega arith)
    next_daily-Later positive (inr (h, m, at)) =
        elim (Bool-cases (eqb v 1 && ltb t (midnight + clock_ns h m 0 0))) [
          | inl to_come ↦
              (midnight + clock_ns h m 0 0, next_daily-time h m at ∙ ground arith, ground arith)
          | inr passed ↦ (
            midnight + v * day_ns + clock_ns h m 0 0,
            next_daily-time h m at ∙ ground arith,
            omega arith,
          )
        ]

    -- In a zone without changes of the clock, an interval of one day falls due at the first instant after
    -- the last execution at which its time of day comes. The local day
    -- of the last execution does not begin before the zero time, which leaves out the zero time itself,
    -- and so a task that was never run, in a zone ahead of UTC.
    pub next_execution-every_day :
        (h m : ℕ)
        → ti.type ≡ interval_type_daily
        → zone_of cal ti (pos t) ≡ loc
        → ti.at_time ≡ time h m
        → v ≡ 1
        → clock_ns h m 0 0 < day_ns
        → (u : ℕ) × (k : ℕ) × (next_execution cal ti (pos t) ≡ pos u)
          × (t < u)
          × (u ≤ t + day_ns)
          × (k * day_ns + clock_ns h m 0 0 + west ≡ u + east)
    next_execution-every_day h m daily here at once clock =
        let (u, k, e, after, within, shown) = every_day h m at once clock in
        (
          u,
          k,
          next_execution-daily cal ti (pos t) daily
              ∙ ap (λ z. next_daily cal z ti (pos t)) here
              ∙ e,
          after,
          within,
          shown,
        )
