-- ===== src/GoTime/Zone.antt =====
-- What package time documents of time.Date and of a Time's civil fields in a zone without changes of
-- the clock, such as UTC: the laws that theorems on daily, weekly and monthly intervals name.
use taskqueue_go.Prelude.{ℕ, suc, ◌+◌, ◌*◌, ◌<◌, ◌≤◌, ◌≡◌}
use taskqueue_go.Prelude.Int.{pos}
use taskqueue_go.GoTime.{Civil, Calendar}

abbrev pub day_ns : ℕ
day_ns = 86_400_000_000_000

-- The time of day in nanoseconds.
abbrev pub clock_ns : ℕ → ℕ → ℕ → ℕ → ℕ
clock_ns h m s n = h * 3_600_000_000_000 + m * 60_000_000_000 + s * 1_000_000_000 + n

abbrev pub civil_of : ℕ → ℕ → ℕ → ℕ → ℕ → ℕ → ℕ → Civil
civil_of y mo d h m s n = record {
  year = pos y;
  month = pos mo;
  day = pos d;
  hours = pos h;
  minutes = pos m;
  seconds = pos s;
  nanoseconds = pos n;
}

-- Days are counted in local time from that of the zero Time; a month, or a day, that is past the end
-- of the year, or of the month, counts on.
pub record DayCount : Type 0 where
  pub day_number : ℕ → ℕ → ℕ → ℕ
  pub day_number-add : (y m d k : ℕ) → 1 ≤ d → day_number y m (d + k) ≡ day_number y m d + k
  pub month_long : (y m : ℕ) → 1 ≤ y → 1 ≤ m → day_number y m 1 + 28 ≤ day_number y (suc m) 1
  pub month_short : (y m : ℕ) → 1 ≤ y → 1 ≤ m → day_number y (suc m) 1 ≤ day_number y m 1 + 31
  pub same_month :
      (y m d y' m' d' e : ℕ)
      → 1 ≤ y
      → 1 ≤ m
      → 1 ≤ d
      → 1 ≤ y'
      → 1 ≤ m'
      → 1 ≤ d'
      → day_number y m d < day_number y (suc m) 1
      → day_number y' m' d' < day_number y' (suc m') 1
      → day_number y' m' d' ≡ day_number y m d
      → day_number y' m' e ≡ day_number y m e

-- A date that there is: the day is one of its month.
pub record IsDate (D : DayCount) (y m d : ℕ) : Type 0 where
  pub year_positive : 1 ≤ y
  pub month_positive : 1 ≤ m
  pub day_positive : 1 ≤ d
  pub in_month : D.day_number y m d < D.day_number y (suc m) 1

-- The civil fields of an instant whose local time is `l` nanoseconds from the first local day on.
pub record Reads (D : DayCount) (cal : Calendar) (loc : cal.Location) (t l : ℕ) : Type 0 where
  pub year : ℕ
  pub month : ℕ
  pub day : ℕ
  pub hours : ℕ
  pub minutes : ℕ
  pub seconds : ℕ
  pub nanoseconds : ℕ
  pub reads : cal.civil loc (pos t) ≡ civil_of year month day hours minutes seconds nanoseconds
  pub is_date : IsDate D year month day
  pub in_day : clock_ns hours minutes seconds nanoseconds < day_ns
  pub is_local :
      D.day_number year month day * day_ns + clock_ns hours minutes seconds nanoseconds ≡ l

-- A zone that is `east` nanoseconds ahead of UTC, or `west` behind it.
pub record IsFixedZone (D : DayCount) (cal : Calendar) (loc : cal.Location) (east west : ℕ)
    : Type 0 where
  pub civil_reads : (t l : ℕ) → l + west ≡ t + east → Reads D cal loc t l
  pub date-civil_of :
      (y mo d h m s n t : ℕ)
      → 1 ≤ y
      → 1 ≤ mo
      → 1 ≤ d
      → D.day_number y mo d * day_ns + clock_ns h m s n + west ≡ t + east
      → cal.date (civil_of y mo d h m s n) loc ≡ pos t
