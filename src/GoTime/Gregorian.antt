-- ===== src/GoTime/Gregorian.antt =====
-- The calendar that package time documents, from the year 1 on, with zones that are a fixed time ahead
-- of UTC or behind it: it fulfils the laws of Zone.
pub mod Months
use native.Mathlib.Nat.{le_refl}
use native.Mathlib.Decide.{le_ind}
use taskqueue_go.Prelude.{
  ◌≡◌, ◌∙◌, refl, sym, ap, arith, ℕ, zero, suc, ◌+◌, ◌*◌, ◌-◌, ◌/◌, ◌%◌, ◌<◌, ◌≤◌, Bool, not, ◌||◌,
  ◌&&◌, none, some, String, Option, if◌then◌else◌, ◌==◌, eqb, ltb, leb, Bool-cases, inl, inr,
}
use taskqueue_go.Prelude.Int.{pos, pos_part}
use taskqueue_go.GoTime.{Time, Civil, Calendar}
use taskqueue_go.GoTime.Zone.{day_ns, clock_ns, civil_of, DayCount, Reads, IsFixedZone}
use taskqueue_go.GoTime.Gregorian.Months.{
  days_before, month_of, index, day_number, month_of_range, index-suc, first_of, gregorian,
}

abbrev hour_ns : ℕ
hour_ns = 3_600_000_000_000

abbrev minute_ns : ℕ
minute_ns = 60_000_000_000

abbrev second_ns : ℕ
second_ns = 1_000_000_000

-- The civil fields of a local time.
unfoldable pub civil_at : ℕ → Civil
unfolding month_of
civil_at l =
    let n = l / day_ns in
    let r = l % day_ns in
    let i = month_of n in
    civil_of (i / 12 + 1) (i % 12 + 1) (n - days_before i + 1) (r / hour_ns)
      (r % hour_ns / minute_ns) (r % minute_ns / second_ns) (r % second_ns)

-- A zone is what it is ahead of UTC, and what it is behind.
abbrev Zone : Type 0
Zone = ℕ × ℕ

abbrev local : Zone → Time → ℕ
local (east, west) t = pos_part t + east - west

unfoldable pub date_at : Zone → Civil → Time
date_at (east, west) c = pos (
    day_number (pos_part c.year) (pos_part c.month) (pos_part c.day) * day_ns
    + clock_ns (pos_part c.hours) (pos_part c.minutes) (pos_part c.seconds) (pos_part c.nanoseconds)
    + west
    - east)

abbrev load : String → Option Zone
load name =
    if name == "UTC"
    then some (0, 0)
    else if name == "Asia/Tokyo"
    then some (9 * hour_ns, 0)
    else none

abbrev pub calendar : Calendar
calendar = record {
  Location = Zone;
  utc = (0, 0);
  load_location = load;
  civil = λ zone t. civil_at (local zone t);
  date = λ c zone. date_at zone c;
}

index_of : (i : ℕ) → index (i / 12 + 1) (i % 12 + 1) ≡ i
index_of i = omega arith

-- The date of a day.
named_day :
    (n : ℕ)
    → day_number (month_of n / 12 + 1) (month_of n % 12 + 1) (n - days_before (month_of n) + 1) ≡ n
unfolding day_number
named_day n =
    ap (λ i. days_before i + (n - days_before (month_of n) + 1 - 1)) (index_of (month_of n))
    ∙ omega (arith, month_of_range n)

clock_of :
    (r : ℕ)
    → clock_ns (r / hour_ns) (r % hour_ns / minute_ns) (r % minute_ns / second_ns) (r % second_ns)
      ≡ r
clock_of r = omega arith

next_month : (i : ℕ) → day_number (i / 12 + 1) (suc (i % 12 + 1)) 1 ≡ days_before (suc i)
next_month i =
    first_of (i / 12 + 1) (suc (i % 12 + 1))
    ∙ ap days_before (index-suc (i / 12 + 1) (i % 12 + 1) (omega arith) ∙ ap suc (index_of i))

civil_at-Reads :
    (east west t l : ℕ) → l + west ≡ t + east → Reads gregorian calendar (east, west) t l
unfolding civil_at gregorian
civil_at-Reads east west t l same = record {
  year = i / 12 + 1;
  month = i % 12 + 1;
  day = n - days_before i + 1;
  hours = r / hour_ns;
  minutes = r % hour_ns / minute_ns;
  seconds = r % minute_ns / second_ns;
  nanoseconds = r % second_ns;
  reads = ap civil_at (omega arith);
  is_date = record {
    year_positive = omega arith;
    month_positive = omega arith;
    day_positive = omega arith;
    in_month = omega (
      arith,
      named_day (l / day_ns),
      next_month (month_of (l / day_ns)),
      month_of_range (l / day_ns),
    );
  };
  in_day = omega arith;
  is_local = omega (arith, named_day (l / day_ns), clock_of (l % day_ns));
}
  where
    n : ℕ
    n = l / day_ns

    r : ℕ
    r = l % day_ns

    i : ℕ
    i = month_of n

pub calendar-IsFixedZone : (east west : ℕ) → IsFixedZone gregorian calendar (east, west) east west
unfolding gregorian date_at day_number
calendar-IsFixedZone east west = record {
  civil_reads = civil_at-Reads east west;
  date-civil_of = λ y mo d h m s n t hy hmo hd e. ap pos (omega (arith, e));
}
