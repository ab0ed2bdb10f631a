-- ===== src/Models/Task/Zoned.antt =====
-- internal/models/task.go: what the steps of NextExecution do in a zone without changes of the clock.
use text.Mathlib.TextEquality.{eq_iff}
use taskqueue_go.Prelude.{◌≡◌, ◌∙◌, refl, ap, arith, ℕ, ◌+◌, ◌*◌, ◌/◌, some}
use taskqueue_go.Prelude.Int.{pos, ◌+ℤ◌, pos-+ℤ-pos}
use taskqueue_go.GoTime.{Time, Calendar, Civil}
use taskqueue_go.GoTime.Zone.{day_ns, clock_ns, civil_of, DayCount, Reads, IsFixedZone}
use taskqueue_go.Models.Task.{
  TaskInterval, interval_type_hourly, interval_type_daily, interval_type_weekly,
  interval_type_monthly, next_hourly, next_daily, next_weekly, next_monthly, next_execution,
  location_or_utc, add_date, at_time_on,
}

-- The switch of NextExecution.
module _ (cal : Calendar) (ti : TaskInterval) (from : Time) where
  abbrev pub zone_of : cal.Location
  zone_of = location_or_utc cal (cal.load_location ti.timezone)

  pub next_execution-hours :
      ti.type ≡ interval_type_hourly → next_execution cal ti from ≡ next_hourly cal ti from
  unfolding next_execution
  next_execution-hours e = ground arith

  pub next_execution-daily :
      ti.type ≡ interval_type_daily → next_execution cal ti from ≡ next_daily cal zone_of ti from
  unfolding next_execution
  next_execution-daily e = ground (arith, eq_iff "daily" "hourly")

  pub next_execution-weekly :
      ti.type ≡ interval_type_weekly → next_execution cal ti from ≡ next_weekly cal zone_of ti from
  unfolding next_execution
  next_execution-weekly e = ground (arith, eq_iff "weekly" "hourly", eq_iff "weekly" "daily")

  pub next_execution-monthly :
      ti.type ≡ interval_type_monthly
      → next_execution cal ti from ≡ next_monthly cal zone_of ti from
  unfolding next_execution
  next_execution-monthly e =
      ground (arith, eq_iff "monthly" "hourly", eq_iff "monthly" "daily", eq_iff "monthly" "weekly")

module _ (D : DayCount) (cal : Calendar) (loc : cal.Location) (east west : ℕ)
    (zone : IsFixedZone D cal loc east west) where
  open D use {day_number}

  -- The local day of an instant.
  pub day_of : {t l : ℕ} (r : Reads D cal loc t l) → day_number r.year r.month r.day ≡ l / day_ns
  day_of r = omega (arith, r.is_local, r.in_day)

  -- AddDate by days keeps the time of day.
  pub add_date-days :
      (t l k : ℕ)
      → l + west ≡ t + east
      → add_date cal loc (pos t) (pos 0) (pos k) ≡ pos (t + k * day_ns)
  unfolding add_date
  add_date-days t l k is_local =
      let r = zone.civil_reads t l is_local in
      let moved : Civil → Civil =
        λ c. record c { month = c.month +ℤ pos 0; day = c.day +ℤ pos k } in
      let same_month : pos r.month +ℤ pos 0 ≡ pos r.month =
        pos-+ℤ-pos r.month 0 ∙ ap pos (omega arith) in
      let counted : moved (civil_of r.year r.month r.day r.hours r.minutes r.seconds r.nanoseconds)
          ≡ civil_of r.year r.month (r.day + k) r.hours r.minutes r.seconds r.nanoseconds =
        rw (same_month, pos-+ℤ-pos) refl in
      ap (λ c. cal.date c loc) (ap moved r.reads ∙ counted)
      ∙ zone.date-civil_of r.year r.month (r.day + k) r.hours r.minutes r.seconds r.nanoseconds
          (t + k * day_ns) r.is_date.year_positive r.is_date.month_positive
          (omega (arith, r.is_date.day_positive))
          (omega
            (arith, r.is_local, D.day_number-add r.year r.month r.day k r.is_date.day_positive))

  -- time.Date at the local day of an instant and a time of day.
  pub at_time_on-day :
      (t l h m u : ℕ)
      → l + west ≡ t + east
      → l / day_ns * day_ns + clock_ns h m 0 0 + west ≡ u + east
      → at_time_on cal loc (some (record { hour_of_day = pos h; minute = pos m })) (pos t) ≡ pos u
  at_time_on-day t l h m u is_local lands =
      let r = zone.civil_reads t l is_local in
      ap
        (λ (c : Civil).
          cal.date
            (record {
              year = c.year;
              month = c.month;
              day = c.day;
              hours = pos h;
              minutes = pos m;
              seconds = pos 0;
              nanoseconds = pos 0;
            })
            loc)
        r.reads
      ∙ zone.date-civil_of r.year r.month r.day h m 0 0 u r.is_date.year_positive
          r.is_date.month_positive r.is_date.day_positive (omega (arith, day_of r, lands))
