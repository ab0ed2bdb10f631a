-- ===== src/Registry/Valid.antt =====
-- internal/storage/registry.go: what a task definition must be, and that validateTask accepts
-- those and no others.
use text.Mathlib.TextEquality.{eq_iff}
use taskqueue_go.Prelude.{
  ◌≡◌, ◌≢◌, ◌⊎◌, ◌↔◌, refl, sym, ap, subst, Option, none, some, Result, ok, err, arith,
}
use taskqueue_go.Prelude.Int.{pos, ◌≤ℤ◌, ◌<ℤ◌}
use taskqueue_go.Models.Task.{
  TaskType, TaskInterval, TimeOfDay, interval_type_hourly, interval_type_daily,
  interval_type_weekly, interval_type_monthly,
}
use taskqueue_go.Registry.Validate.{
  validate_task, validate_interval, validate_at_time, default_timezone, default_method,
  default_duration,
}

abbrev pub IsTimeOfDay : Option TimeOfDay → Type 0
IsTimeOfDay none = Unit {0}
IsTimeOfDay (some t) =
    (pos 0 ≤ℤ t.hour_of_day)
    × (t.hour_of_day ≤ℤ pos 23)
    × (pos 0 ≤ℤ t.minute)
    × (t.minute ≤ℤ pos 59)

-- An interval of one of the four types, with a positive value and a time of day that a clock shows.
pub record IsInterval (i : TaskInterval) : Type 0 where
  pub known :
      (i.type ≡ interval_type_hourly)
      ⊎ (i.type ≡ interval_type_daily)
      ⊎ (i.type ≡ interval_type_weekly)
      ⊎ (i.type ≡ interval_type_monthly)
  pub positive : pos 0 <ℤ i.value
  pub at_clock : IsTimeOfDay i.at_time

-- A task as a file may give it.
pub record IsAcceptable (t : TaskType) : Type 0 where
  pub has_id : t.id ≢ ""
  pub has_name : t.name ≢ ""
  pub timeout_positive : pos 0 <ℤ t.timeout
  pub retries_nonneg : pos 0 ≤ℤ t.retries
  pub has_interval : IsInterval t.interval
  pub has_endpoint : t.config.endpoint ≢ ""

-- A task as the registry keeps it: acceptable, with its defaults filled in.
pub record IsValidTask (t : TaskType) : Type 0 where
  pub acceptable : IsAcceptable t
  pub has_timezone : t.interval.timezone ≢ ""
  pub has_method : t.config.method ≢ ""
  pub duration_positive : pos 0 <ℤ t.config.max_duration

validate_at_time_iff : (t : Option TimeOfDay) → (validate_at_time t ≡ ok tt) ↔ IsTimeOfDay t
validate_at_time_iff none = (λ e. tt, λ h. refl)
validate_at_time_iff (some t) = (λ e. ground arith, λ h. ground arith)

validate_interval-ok :
    (i : TaskInterval) → IsInterval i → validate_interval i ≡ ok (default_timezone i)
unfolding validate_interval
validate_interval-ok i v = ground (arith, (validate_at_time_iff i.at_time).1 v.at_clock)

validate_interval-inv :
    (i j : TaskInterval) → validate_interval i ≡ ok j → IsInterval i × (j ≡ default_timezone i)
unfolding validate_interval
validate_interval-inv i j e = (
  record {
    known = ground arith;
    positive = ground arith;
    at_clock = (validate_at_time_iff i.at_time).0 (ground arith);
  },
  ground arith,
)

-- The task with its defaults.
abbrev pub filled : TaskType → TaskType
filled t = record t {
  interval = default_timezone t.interval;
  config = default_duration t (default_method t.config);
}

validate_task-ok : (t : TaskType) → IsAcceptable t → validate_task t ≡ ok (filled t)
unfolding validate_task
validate_task-ok t h =
    rw (validate_interval-ok t.interval h.has_interval, validate_task) (ground arith)

invert :
    (t u : TaskType) (r : Result TaskInterval)
    → validate_interval t.interval ≡ r
    → validate_task t ≡ ok u
    → IsAcceptable t × (u ≡ filled t)
unfolding validate_task
invert t u (err x) same e = ground arith
invert t u (ok j) same e =
    let (interval, is_default) = validate_interval-inv t.interval j same in
    (
      record {
        has_id = ground arith;
        has_name = ground arith;
        timeout_positive = ground arith;
        retries_nonneg = ground arith;
        has_interval = interval;
        has_endpoint = ground arith;
      },
      ground arith,
    )

-- The registry accepts a task exactly when its texts are there, its timeout is positive, its
-- retries are not negative and its interval is one that a clock has.
pub validate_task_iff :
    (t : TaskType) → ((u : TaskType) × (validate_task t ≡ ok u)) ↔ IsAcceptable t
validate_task_iff t = (λ (u, e). (invert t u _ refl e).0, λ h. (filled t, validate_task-ok t h))

pub validate_task-filled : (t u : TaskType) → validate_task t ≡ ok u → u ≡ filled t
validate_task-filled t u e = (invert t u _ refl e).1

filled-IsValidTask : (t : TaskType) → IsAcceptable t → IsValidTask (filled t)
filled-IsValidTask t h = record {
  acceptable = record {
    has_id = h.has_id;
    has_name = h.has_name;
    timeout_positive = h.timeout_positive;
    retries_nonneg = h.retries_nonneg;
    has_interval = ground (arith, h.has_interval);
    has_endpoint = ground (arith, h.has_endpoint);
  };
  has_timezone = ground (arith, eq_iff "UTC" "");
  has_method = ground (arith, eq_iff "POST" "");
  duration_positive = ground (arith, h.timeout_positive);
}

-- A task that passes is kept valid, its defaults filled in, and under the identifier it came with.
pub validate_task-IsValidTask :
    (t u : TaskType) → validate_task t ≡ ok u → IsValidTask u × (u.id ≡ t.id)
validate_task-IsValidTask t u e =
    let (acceptable, is_filled) = invert t u _ refl e in
    (subst IsValidTask (sym is_filled) (filled-IsValidTask t acceptable), ap (λ v. v.id) is_filled)
