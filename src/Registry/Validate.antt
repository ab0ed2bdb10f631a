-- ===== src/Registry/Validate.antt =====
-- internal/storage/registry.go: validateTask and validateInterval. Both fill in defaults in the
-- task that they are given, so they return it. `int_text` is a number's text in a message.
use taskqueue_go.Prelude.{
  ◌<>◌, Bool, true, false, ◌||◌, Option, none, some, String, if◌then◌else◌, ◌==◌, Result, ok, err,
  ◌>>=◌, ◌>>◌, wrap,
}
use taskqueue_go.Prelude.Int.{pos, ltb_ℤ, leb_ℤ}
use taskqueue_go.Prelude.Text.{int_text}
use taskqueue_go.Models.Task.{
  TaskType, TaskInterval, TaskConfig, TimeOfDay, IntervalType, interval_type_hourly,
  interval_type_daily, interval_type_weekly, interval_type_monthly,
}

-- `if test { return fmt.Errorf(message) }`
abbrev pub reject_if : Bool → String → Result (Unit {0})
reject_if true message = err message
reject_if false message = ok tt

abbrev pub is_known : IntervalType → Bool
is_known type =
    type == interval_type_hourly
    || type == interval_type_daily
    || type == interval_type_weekly
    || type == interval_type_monthly

abbrev pub validate_at_time : Option TimeOfDay → Result (Unit {0})
validate_at_time none = ok tt
validate_at_time (some t) = do
  reject_if (ltb_ℤ t.hour_of_day (pos 0) || ltb_ℤ (pos 23) t.hour_of_day)
      ("invalid hour: " <> int_text t.hour_of_day)
  reject_if (ltb_ℤ t.minute (pos 0) || ltb_ℤ (pos 59) t.minute)
      ("invalid minute: " <> int_text t.minute)

abbrev pub default_timezone : TaskInterval → TaskInterval
default_timezone i = if i.timezone == "" then record i { timezone = "UTC" } else i

unfoldable pub validate_interval : TaskInterval → Result TaskInterval
validate_interval i = do
  if is_known i.type then ok tt else err ("invalid interval type: " <> i.type)
  reject_if (leb_ℤ i.value (pos 0)) "interval value must be positive"
  validate_at_time i.at_time
  ok (default_timezone i)

abbrev pub default_method : TaskConfig → TaskConfig
default_method c = if c.method == "" then record c { method = "POST" } else c

abbrev pub default_duration : TaskType → TaskConfig → TaskConfig
default_duration t c =
    if leb_ℤ c.max_duration (pos 0) then record c { max_duration = t.timeout } else c

unfoldable pub validate_task : TaskType → Result TaskType
validate_task t = do
  reject_if (t.id == "") "task ID is required"
  reject_if (t.name == "") "task name is required"
  reject_if (leb_ℤ t.timeout (pos 0)) "task timeout must be positive"
  reject_if (ltb_ℤ t.retries (pos 0)) "task retries cannot be negative"
  interval ← wrap (λ e. "invalid interval: " <> e) (validate_interval t.interval)
  reject_if (t.config.endpoint == "") "task endpoint is required"
  ok (record t { interval = interval; config = default_duration t (default_method t.config) })
