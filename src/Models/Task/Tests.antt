-- ===== src/Models/Task/Tests.antt =====
-- internal/models/task.go: the theorems in the calendar of package time.
use taskqueue_go.Prelude.{
  ◌≡◌, ◌↔◌, refl, true, none, ℕ, suc, ◌+◌, ◌*◌, ◌/◌, ◌%◌, ◌<◌, ◌≤◌, some, arith, if◌then◌else◌, ltb,
  string_dec,
}
use taskqueue_go.Prelude.Int.{pos, ◌+ℤ◌, ◌*ℤ◌}
use taskqueue_go.Prelude.Int64.{mul64, wrap64}
use taskqueue_go.GoTime.{truncate}
use taskqueue_go.GoTime.Zone.{day_ns, clock_ns}
use taskqueue_go.GoTime.Gregorian.{calendar, calendar-IsFixedZone, civil_at, date_at}
use taskqueue_go.GoTime.Gregorian.Months.{gregorian, day_number, days_before, month_of}
use taskqueue_go.Models.Task.{
  TaskInterval, is_due, next_execution, add_date, next_daily, next_weekly, next_monthly,
}
use taskqueue_go.Models.Task.Hourly.{hour_ns, is_due-hourly}
use taskqueue_go.Models.Task.Daily.{next_execution-every_day}
use taskqueue_go.Models.Task.Weekly.{next_execution-weekday}
use taskqueue_go.Models.Task.Monthly.{due_day, next_execution-day_of_month}

abbrev hour : ℕ
hour = 3_600_000_000_000

-- Every day, week or month at half past nine.
abbrev at_half_past_nine : TaskInterval
at_half_past_nine = record {
  type = "daily";
  value = pos 1;
  timezone = "UTC";
  at_time = some (record { hour_of_day = pos 9; minute = pos 30 });
}

abbrev weekly : TaskInterval
weekly = record at_half_past_nine { type = "weekly"; timezone = "Asia/Tokyo" }

abbrev monthly : TaskInterval
monthly = record at_half_past_nine { type = "monthly" }

-- From ten o'clock, the next day.
tomorrow :
    next_execution calendar at_half_past_nine (pos (10 * hour)) ≡ pos (day_ns + clock_ns 9 30 0 0)
unfolding next_execution next_daily add_date civil_at date_at day_number days_before month_of
    string_dec ◌+ℤ◌
tomorrow = refl

-- From January 31, a month on is March 31.
february_left_out :
    next_execution calendar monthly (pos (30 * day_ns)) ≡ pos (89 * day_ns + clock_ns 9 30 0 0)
unfolding next_execution next_monthly add_date civil_at date_at day_number days_before month_of
    string_dec ◌+ℤ◌
february_left_out = refl

-- In Tokyo, from eight o'clock on the 13th day, 15 hours before the UTC day ends: six days on, not seven.
six_days :
    next_execution calendar weekly (pos (11 * day_ns + 23 * hour))
    ≡ pos (18 * day_ns + 30 * 60_000_000_000)
unfolding next_execution next_weekly add_date civil_at date_at day_number days_before month_of
    string_dec ◌+ℤ◌ mul64 wrap64 truncate ◌*ℤ◌
six_days = refl

next_execution-every_day_example :
    (u : ℕ) × (k : ℕ) × (next_execution calendar at_half_past_nine (pos (10 * hour)) ≡ pos u)
    × (10 * hour < u)
    × (u ≤ 10 * hour + day_ns)
    × (k * day_ns + clock_ns 9 30 0 0 + 0 ≡ u + 0)
unfolding string_dec
next_execution-every_day_example =
    next_execution-every_day gregorian calendar (0, 0) 0 0 (calendar-IsFixedZone 0 0) (10 * hour)
      (10 * hour) refl (omega arith) at_half_past_nine 1 refl 9 30 refl refl refl refl (omega arith)

next_execution-weekday_example :
    (u : ℕ) × (k : ℕ) × (next_execution calendar weekly (pos (11 * day_ns + 23 * hour)) ≡ pos u)
    × (k * day_ns + clock_ns 9 30 0 0 ≡ u + 9 * hour)
    × ((if ltb ((11 * day_ns + 32 * hour) % day_ns) (9 * hour) then suc k else k)
        ≡ (11 * day_ns + 32 * hour) / day_ns + 7 * 1)
unfolding string_dec
next_execution-weekday_example =
    next_execution-weekday gregorian calendar (9 * hour, 0) (9 * hour)
      (calendar-IsFixedZone (9 * hour) 0) weekly (11 * day_ns + 23 * hour) (11 * day_ns + 32 * hour)
      1 9 30 refl refl refl (omega arith) (omega arith) refl refl (omega arith)

next_execution-day_of_month_example :
    (u : ℕ) × (next_execution calendar monthly (pos (30 * day_ns)) ≡ pos u)
    × (due_day gregorian calendar
              (0, 0)
              0
              0
              (calendar-IsFixedZone 0 0)
              (30 * day_ns)
              (30 * day_ns)
              refl
              monthly
              1
              refl
              (omega arith)
            * day_ns
          + clock_ns 9 30 0 0
          + 0
        ≡ u + 0)
unfolding string_dec
next_execution-day_of_month_example =
    next_execution-day_of_month gregorian calendar (0, 0) 0 0 (calendar-IsFixedZone 0 0)
      (30 * day_ns) (30 * day_ns) refl monthly 1 refl (omega arith) 9 30 refl refl refl

abbrev every_two_hours : TaskInterval
every_two_hours = record { type = "hourly"; value = pos 2; timezone = "UTC"; at_time = none }

is_due-hourly_example :
    (is_due calendar every_two_hours (pos (10 * hour + 7)) (pos (12 * hour)) ≡ true)
    ↔ (((10 * hour + 7) / hour_ns + 2) * hour_ns ≤ 12 * hour)
is_due-hourly_example =
    is_due-hourly calendar every_two_hours (10 * hour + 7) 1 (12 * hour) refl refl (omega arith)
