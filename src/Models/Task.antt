-- ===== src/Models/Task.antt =====
-- internal/models/task.go: task types and when they fall due.
pub mod Hourly
pub mod Zoned
pub mod Daily
pub mod Weekly
pub mod Monthly
pub mod Tests
use taskqueue_go.Prelude.{
  ℕ, Bool, true, false, ◌&&◌, ◌||◌, Option, none, some, String, if◌then◌else◌, ◌==◌,
}
use taskqueue_go.Prelude.Int.{ℤ, pos, ◌+ℤ◌, ltb_ℤ, eqb_ℤ}
use taskqueue_go.Prelude.Int64.{add64, sub64, mul64}
use taskqueue_go.Prelude.Dict.{Dict}
use taskqueue_go.GoTime.{Time, Duration, Civil, Calendar, hour, after, equal, add, truncate}

-- A string type; a value read from a file may be any text.
abbrev pub IntervalType : Type 0
IntervalType = String

abbrev pub interval_type_hourly : IntervalType
interval_type_hourly = "hourly"

abbrev pub interval_type_daily : IntervalType
interval_type_daily = "daily"

abbrev pub interval_type_weekly : IntervalType
interval_type_weekly = "weekly"

abbrev pub interval_type_monthly : IntervalType
interval_type_monthly = "monthly"

pub record TimeOfDay : Type 0 where
  pub hour_of_day : ℤ
  pub minute : ℤ

pub record TaskInterval : Type 0 where
  pub type : IntervalType
  pub value : ℤ  -- int
  pub timezone : String
  pub at_time : Option TimeOfDay

pub record TaskConfig : Type 0 where
  pub endpoint : String
  pub method : String
  pub headers : Dict String
  pub max_duration : Duration

pub record TaskType : Type 0 where
  pub id : String
  pub name : String
  pub description : String
  pub interval : TaskInterval
  pub timeout : Duration
  pub retries : ℤ  -- int
  pub config : TaskConfig

-- time.Date(year, month, day, hour, minute, 0, 0, loc)
abbrev clock_on : ℤ → ℤ → ℤ → ℤ → ℤ → Civil
clock_on year month day hours minutes = record {
  year = year;
  month = month;
  day = day;
  hours = hours;
  minutes = minutes;
  seconds = pos 0;
  nanoseconds = pos 0;
}

module _ (cal : Calendar) where
  open cal use {Location, utc, load_location, civil, date}

  -- loc, err := time.LoadLocation(tz); if err != nil { loc = time.UTC }
  abbrev location_or_utc : Option Location → Location
  location_or_utc none = utc
  location_or_utc (some loc) = loc

  -- t.AddDate(0, months, days); the sums do not wrap, as Go's do for a number of months or days near
  -- 2 ^ 63.
  unfoldable pub add_date : Location → Time → ℤ → ℤ → Time
  add_date loc t months days =
      let c = civil loc t in date (record c { month = c.month +ℤ months; day = c.day +ℤ days }) loc

  -- The day of an instant, at a time of day where there is one.
  abbrev at_time_on : Location → Option TimeOfDay → Time → Time
  at_time_on loc none next = next
  at_time_on loc (some tod) next =
      let c = civil loc next in date (clock_on c.year c.month c.day tod.hour_of_day tod.minute) loc

  unfoldable pub next_hourly : TaskInterval → Time → Time
  next_hourly ti from =
      let next = add (truncate from 3_600_000_000_000) hour in
      if ltb_ℤ (pos 1) ti.value then add next (mul64 (sub64 ti.value (pos 1)) hour) else next

  -- The daily case's last test: the same day, if the time of day is still to come.
  abbrev today_or : Location → TaskInterval → Time → Option TimeOfDay → Time → Time
  today_or loc ti from none next = next
  today_or loc ti from (some tod) next =
      let c = civil loc from in
      let today = date (clock_on c.year c.month c.day tod.hour_of_day tod.minute) loc in
      if eqb_ℤ ti.value (pos 1) && after today from then today else next

  unfoldable pub next_daily : Location → TaskInterval → Time → Time
  unfolding add_date
  next_daily loc ti from =
      let c = civil loc from in
      let midnight = date (clock_on c.year c.month c.day (pos 0) (pos 0)) loc in
      let next = at_time_on loc ti.at_time (add_date loc midnight (pos 0) ti.value) in
      today_or loc ti from ti.at_time next

  unfoldable pub next_weekly : Location → TaskInterval → Time → Time
  unfolding add_date
  next_weekly loc ti from =
      let day = truncate from 86_400_000_000_000 in
      at_time_on loc ti.at_time (add_date loc day (pos 0) (mul64 (pos 7) ti.value))

  unfoldable pub next_monthly : Location → TaskInterval → Time → Time
  unfolding add_date
  next_monthly loc ti from =
      let c = civil loc (add_date loc from ti.value (pos 0)) in
      let same_day = (civil loc from).day in
      let next = date (clock_on c.year c.month same_day (pos 0) (pos 0)) loc in
      at_time_on loc ti.at_time next

  unfoldable pub next_execution : TaskInterval → Time → Time
  unfolding next_hourly next_daily next_weekly next_monthly
  next_execution ti from =
      let loc = location_or_utc (load_location ti.timezone) in
      if ti.type == interval_type_hourly
      then next_hourly ti from
      else if ti.type == interval_type_daily
      then next_daily loc ti from
      else if ti.type == interval_type_weekly
      then next_weekly loc ti from
      else if ti.type == interval_type_monthly
      then next_monthly loc ti from
      else add from hour

  unfoldable pub is_due : TaskInterval → Time → Time → Bool
  is_due ti last_execution now =
      let next = next_execution ti last_execution in after now next || equal now next
