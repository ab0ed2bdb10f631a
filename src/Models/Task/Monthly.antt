-- ===== src/Models/Task/Monthly.antt =====
-- internal/models/task.go: monthly intervals in a zone without changes of the clock.
pub mod Days
use native.Mathlib.Nat.{add-zero, add-suc}
use taskqueue_go.Prelude.{
  ◌≡◌, ◌∙◌, refl, ap, arith, ℕ, zero, suc, ◌+◌, ◌*◌, ◌-◌, ◌/◌, ◌<◌, ◌≤◌, ◌⊎◌, inl, inr, none, some,
  ltb, Bool-cases, if◌then◌else◌,
}
use taskqueue_go.Prelude.Int.{pos, ◌+ℤ◌, pos-+ℤ-pos}
use taskqueue_go.GoTime.{Time, Civil, Calendar}
use taskqueue_go.GoTime.Zone.{day_ns, clock_ns, civil_of, DayCount, IsDate, Reads, IsFixedZone}
use taskqueue_go.Models.Task.{
  TaskInterval, interval_type_monthly, add_date, at_time_on, next_monthly, next_execution,
}
use taskqueue_go.Models.Task.Zoned.{zone_of, next_execution-monthly, day_of, at_time_on-day}
use taskqueue_go.Models.Task.Monthly.Days.{day_number-from, month_mono, month_for, same_or_next}

module _ (D : DayCount) (cal : Calendar) (loc : cal.Location) (east west : ℕ)
    (zone : IsFixedZone D cal loc east west) (t l : ℕ) (is_local : l + west ≡ t + east)
    (ti : TaskInterval) (v : ℕ) (value : ti.value ≡ pos v) (positive : 1 ≤ v) where
  open D use {day_number}

  -- The date of the last execution.
  abbrev pub last : Reads D cal loc t l
  last = zone.civil_reads t l is_local

  day-le-31 : last.day ≤ 31
  day-le-31 = omega (
    arith,
    last.is_date.in_month,
    day_number-from D last.year last.month last.day last.is_date.day_positive,
    D.month_short last.year last.month last.is_date.year_positive last.is_date.month_positive,
  )

  -- The day v months on, as AddDate counts it, and the one that time.Date makes of it.
  abbrev counted : ℕ
  counted = day_number last.year (last.month + v) last.day

  abbrev pub due_day : ℕ
  due_day = day_number last.year (month_for D last.year (last.month + v) last.day) last.day

  later_month : (m : ℕ) → suc last.month ≤ m → l / day_ns < day_number last.year m last.day
  later_month m h =
      let grows =
        month_mono D last.year (suc last.month) (m - suc last.month) last.is_date.year_positive
          (omega arith) in
      let at : day_number last.year (suc last.month + (m - suc last.month)) 1
          ≡ day_number last.year m 1 =
        ap (λ x. day_number last.year x 1) (omega arith) in
      omega (
        arith,
        grows,
        at,
        day_of D cal loc east west zone last,
        last.is_date.in_month,
        day_number-from D last.year m last.day last.is_date.day_positive,
        last.is_date.day_positive,
      )

  counted_later : l / day_ns < counted
  counted_later = later_month (last.month + v) (omega arith)

  pub due_day-later : l / day_ns < due_day
  due_day-later = later_month (month_for D last.year (last.month + v) last.day) (ground arith)

  abbrev shifted_at : ℕ
  shifted_at = t + (counted - l / day_ns) * day_ns

  add_date-months : add_date cal loc (pos t) (pos v) (pos 0) ≡ pos shifted_at
  unfolding add_date
  add_date-months =
      let moved : Civil → Civil =
        λ c. record c { month = c.month +ℤ pos v; day = c.day +ℤ pos 0 } in
      let same_day : pos last.day +ℤ pos 0 ≡ pos last.day =
        pos-+ℤ-pos last.day 0 ∙ ap pos (omega arith) in
      let on : moved (
            civil_of last.year last.month last.day last.hours last.minutes last.seconds
              last.nanoseconds)
          ≡ civil_of last.year (last.month + v) last.day last.hours last.minutes last.seconds
              last.nanoseconds =
        rw (same_day, pos-+ℤ-pos) refl in
      ap (λ c. cal.date c loc) (ap moved last.reads ∙ on)
      ∙ zone.date-civil_of last.year (last.month + v) last.day last.hours last.minutes last.seconds
          last.nanoseconds shifted_at last.is_date.year_positive
          (omega (arith, last.is_date.month_positive)) last.is_date.day_positive
          (omega (arith, last.is_local, last.in_day, counted_later))

  abbrev midnight : ℕ
  midnight = due_day * day_ns + west - east

  shifted : Reads D cal loc shifted_at (l + (counted - l / day_ns) * day_ns)
  shifted =
      zone.civil_reads shifted_at (l + (counted - l / day_ns) * day_ns) (omega (arith, is_local))

  lands : day_number shifted.year shifted.month last.day ≡ due_day
  lands =
      same_or_next D last.year (last.month + v) last.day shifted.year shifted.month shifted.day
        last.is_date.year_positive (omega (arith, last.is_date.month_positive))
        last.is_date.day_positive day-le-31 shifted.is_date
        (day_of D cal loc east west zone shifted ∙ omega (arith, counted_later))

  date-midnight : cal.date (civil_of shifted.year shifted.month last.day 0 0 0 0) loc ≡ pos midnight
  date-midnight =
      zone.date-civil_of shifted.year shifted.month last.day 0 0 0 0 midnight
        shifted.is_date.year_positive shifted.is_date.month_positive last.is_date.day_positive
        (omega (arith, lands, due_day-later, is_local))

  next_monthly_lem : next_monthly cal loc ti (pos t) ≡ at_time_on cal loc ti.at_time (pos midnight)
  unfolding next_monthly
  next_monthly_lem =
      let on : Civil → Civil → Time = λ c f. at_time_on cal loc ti.at_time (
        cal.date
          (record {
            year = c.year;
            month = c.month;
            day = f.day;
            hours = pos 0;
            minutes = pos 0;
            seconds = pos 0;
            nanoseconds = pos 0;
          })
          loc) in
      ap
        (λ months.
          on (cal.civil loc (add_date cal loc (pos t) months (pos 0))) (cal.civil loc (pos t)))
        value
      ∙ ap (λ u. on (cal.civil loc u) (cal.civil loc (pos t))) add_date-months
      ∙ ap (λ c. on c (cal.civil loc (pos t))) shifted.reads
      ∙ ap
          (on (
            civil_of shifted.year shifted.month shifted.day shifted.hours shifted.minutes
              shifted.seconds shifted.nanoseconds))
          last.reads
      ∙ ap (at_time_on cal loc ti.at_time) date-midnight

  pub next_monthly-time :
      (h m : ℕ)
      → ti.at_time ≡ some (record { hour_of_day = pos h; minute = pos m })
      → (u : ℕ) × (next_monthly cal loc ti (pos t) ≡ pos u)
        × (due_day * day_ns + clock_ns h m 0 0 + west ≡ u + east)
  next_monthly-time h m at =
      let u = due_day * day_ns + clock_ns h m 0 0 + west - east in
      (
        u,
        next_monthly_lem
            ∙ ap (λ tod. at_time_on cal loc tod (pos midnight)) at
            ∙ at_time_on-day D cal loc east west zone midnight (due_day * day_ns) h m u
                (omega (arith, due_day-later, is_local)) (omega (arith, due_day-later, is_local)),
        omega (arith, due_day-later, is_local),
      )

  pub next_monthly-Later :
      (ti.at_time ≡ none)
        ⊎ ((h : ℕ) × (m : ℕ) × (ti.at_time ≡ some (record { hour_of_day = pos h; minute = pos m })))
      → (u : ℕ) × (next_monthly cal loc ti (pos t) ≡ pos u) × (t < u)
  next_monthly-Later (inl at) = (
    midnight,
    next_monthly_lem ∙ ap (λ tod. at_time_on cal loc tod (pos midnight)) at,
    omega (arith, due_day-later, is_local),
  )
  next_monthly-Later (inr (h, m, at)) =
      let (u, e, on) = next_monthly-time h m at in
      (u, e, omega (arith, due_day-later, is_local, on))

  -- In a zone without changes of the clock, a monthly interval of v months falls due at its time of day
  -- on the day of the month of the last execution, v months on; where that month has no such day, it
  -- falls due in the month after it, so that a month is passed over.
  pub next_execution-day_of_month :
      (h m : ℕ)
      → ti.type ≡ interval_type_monthly
      → zone_of cal ti (pos t) ≡ loc
      → ti.at_time ≡ some (record { hour_of_day = pos h; minute = pos m })
      → (u : ℕ) × (next_execution cal ti (pos t) ≡ pos u)
        × (day_number last.year
                  (if ltb
                      (day_number last.year (last.month + v) last.day)
                      (day_number last.year (suc (last.month + v)) 1)
                    then last.month + v
                    else suc (last.month + v))
                  last.day
                * day_ns
              + clock_ns h m 0 0
              + west
            ≡ u + east)
  next_execution-day_of_month h m monthly here at =
      let (u, e, on) = next_monthly-time h m at in
      (
        u,
        next_execution-monthly cal ti (pos t) monthly
            ∙ ap (λ z. next_monthly cal z ti (pos t)) here
            ∙ e,
        on,
      )
