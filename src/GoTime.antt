-- ===== src/GoTime.antt =====
-- The part of Go's package time that the program uses. A time.Time is its instant, in nanoseconds
-- from the zero Time (midnight, January 1, year 1, UTC); its location is passed beside it. A
-- time.Duration is an int64 of nanoseconds.
pub mod Zone
pub mod Gregorian
use taskqueue_go.Prelude.{ℕ, ◌-◌, ◌%◌, ◌^◌, Bool, String, Option, if◌then◌else◌}
use taskqueue_go.Prelude.Int.{ℤ, pos, negsuc, ◌+ℤ◌, ◌-ℤ◌, ltb_ℤ, eqb_ℤ, quot_ℕ, floor_div_ℕ}

abbrev pub Time : Type 0
Time = ℤ

abbrev pub Duration : Type 0
Duration = ℤ

abbrev pub second : Duration
second = pos 1_000_000_000

abbrev pub hour : Duration
hour = pos 3_600_000_000_000

-- The zero Time.
abbrev pub zero_time : Time
zero_time = pos 0

abbrev pub before : Time → Time → Bool
before t u = ltb_ℤ t u

abbrev pub after : Time → Time → Bool
after t u = ltb_ℤ u t

abbrev pub equal : Time → Time → Bool
equal t u = eqb_ℤ t u

-- t.Add(d): a Time counts seconds in an int64, so it does not wrap for the years in use.
abbrev pub add : Time → Duration → Time
add t d = t +ℤ d

-- t.Sub(u), which saturates at the ends of int64.
unfoldable pub sub : Time → Time → Duration
sub t u =
    let d = t -ℤ u in
    if ltb_ℤ d (pos (2 ^ 63))
    then if ltb_ℤ d (negsuc (2 ^ 63 - 1)) then negsuc (2 ^ 63 - 1) else d
    else pos (2 ^ 63 - 1)

-- t.Truncate(d) for a positive d: down to a multiple of d from the zero Time. For an instant
-- before the zero Time the remainder is taken to be non-negative, as Go's is.
unfoldable pub truncate : Time → ℕ → Time
truncate (pos n) d = pos (n - n % d)
truncate (negsuc n) d = negsuc n -ℤ pos (d - 1 - n % d)

-- t.Unix(): whole seconds from 1970.
unfoldable pub unix : Time → ℤ
unix t = floor_div_ℕ t 1_000_000_000 -ℤ pos 62_135_596_800

-- int64(d.Seconds()): towards zero. (The float64 is exact to the second below 2^52 ns.)
unfoldable pub whole_seconds : Duration → ℤ
whole_seconds d = quot_ℕ d 1_000_000_000

-- What time.Date takes and t.Date(), t.Clock() give.
pub record Civil : Type 0 where
  pub year : ℤ
  pub month : ℤ
  pub day : ℤ
  pub hours : ℤ
  pub minutes : ℤ
  pub seconds : ℤ
  pub nanoseconds : ℤ

-- The time zone database and the calendar of package time.
pub record Calendar : Type 1 where
  pub Location : Type 0
  pub utc : Location
  pub load_location : String → Option Location
  -- t.In(loc).Date() and t.In(loc).Clock()
  pub civil : Location → Time → Civil
  -- time.Date, which normalises values out of range
  pub date : Civil → Location → Time
