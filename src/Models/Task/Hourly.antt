-- ===== src/Models/Task/Hourly.antt =====
-- internal/models/task.go: hourly intervals.
use taskqueue_go.Prelude.{◌≡◌, ◌↔◌, arith, ℕ, suc, ◌+◌, ◌*◌, ◌-◌, ◌/◌, ◌%◌, ◌^◌, ◌<◌, ◌≤◌, true}
use taskqueue_go.Prelude.Int.{pos, pos-+ℤ-pos}
use taskqueue_go.Prelude.Int64.{mul64-pos, sub64-pos}
use taskqueue_go.GoTime.{Calendar, truncate}
use taskqueue_go.Models.Task.{
  TaskInterval, interval_type_hourly, next_hourly, next_execution, is_due,
}

abbrev pub hour_ns : ℕ
hour_ns = 3_600_000_000_000

pub next_hourly-pos :
    (cal : Calendar) (ti : TaskInterval) (n v : ℕ)
    → ti.value ≡ pos (suc v)
    → v * hour_ns < 2 ^ 63
    → next_hourly cal ti (pos n) ≡ pos (n - n % hour_ns + hour_ns + v * hour_ns)
unfolding next_hourly truncate
next_hourly-pos cal ti n v e h = rw (e) (
    ground (
      arith,
      sub64-pos (suc v) 1,
      mul64-pos (suc v - 1) hour_ns,
      pos-+ℤ-pos (n - n % hour_ns) hour_ns,
      pos-+ℤ-pos (n - n % hour_ns + hour_ns) (v * hour_ns),
    ))

-- An hourly interval of v hours falls due at the v-th full hour after the last execution, for
-- executions from the zero time on and for values whose hours fit a Duration.
pub next_execution-hourly :
    (cal : Calendar) (ti : TaskInterval) (n v : ℕ)
    → ti.type ≡ interval_type_hourly
    → ti.value ≡ pos (suc v)
    → v * hour_ns < 2 ^ 63
    → next_execution cal ti (pos n) ≡ pos ((n / hour_ns + suc v) * hour_ns)
unfolding next_execution
next_execution-hourly cal ti n v t e h = ground (arith, next_hourly-pos cal ti n v e h)

-- An hourly task of v + 1 hours is due exactly from the (v + 1)-th full hour after the last execution
-- on, for times from the zero time on, where v hours fit a Duration.
pub is_due-hourly :
    (cal : Calendar) (ti : TaskInterval) (n v m : ℕ)
    → ti.type ≡ interval_type_hourly
    → ti.value ≡ pos (suc v)
    → v * hour_ns < 2 ^ 63
    → (is_due cal ti (pos n) (pos m) ≡ true) ↔ ((n / hour_ns + suc v) * hour_ns ≤ m)
unfolding is_due
is_due-hourly cal ti n v m t e h =
    rw (next_execution-hourly cal ti n v t e h) (λ d. ground arith, λ d. ground arith)
