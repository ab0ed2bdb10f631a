-- ===== src/Scheduler/Tick.antt =====
-- internal/scheduler/scheduler.go: what a whole tick pushes and writes.
pub mod Served
pub mod Repeated
pub mod Tests
use mathlib.Core.List.{Perm}
use mathlib.Core.List.Perm
use taskqueue_go.Prelude.{
  ℕ, ◌≡◌, ◌∙◌, ◌*◌, ◌^◌, ◌<◌, ◌<>◌, refl, sym, ap, subst, Bool, true, false, Option, none, some,
  List, [], ◌∷◌, map, String, if◌then◌else◌, ◌==◌, arith, string_dec, Result, ok, err, ◌>>=◌, wrap,
  Failure, length, All,
}
use taskqueue_go.Prelude.Int.{ℤ, pos}
use taskqueue_go.GoTime.{Time, Calendar, truncate}
use taskqueue_go.Models.Job.{Job, new_queue_message}
use taskqueue_go.Models.Task.{TaskType, is_due}
use taskqueue_go.RateLimit.{answered}
use taskqueue_go.Queue.Backend.{MessageQueue, Codec}
use taskqueue_go.Queue.{Client, push, send}
use taskqueue_go.Registry.{get_all}
use taskqueue_go.Distributor.{
  TaskToSchedule, Draw, estimate_distribution_time, push_jobs, distribute_tasks,
}
use taskqueue_go.Distributor.Slots.{IsRandom, interval_ns}
use taskqueue_go.Queue.Sending.{SentAll}
use taskqueue_go.Distributor.Jobs.{to_send, task_key, job_key, IsPlanned, distribute_tasks_lem}
use taskqueue_go.UserStore.Commands.{Redis, Formats, is_in}
use taskqueue_go.Scheduler.Keys.{TextKeys, IsTextKeys}
use taskqueue_go.Scheduler.{
  Scheduler, Calls, Draws, lead, find_all, find_due_tasks, last_execution, last_exec_key,
  schedule_found, then_update, update_from, update_last_executions, check_and_schedule_tasks,
}
use taskqueue_go.Scheduler.Update.{type_of, get-update_last_executions}

-- A time that is written reads back to the second, from a text that is not empty.
pub record ReadsBack (F : Formats) (t : Time) : Type 0 where
  pub to_second : F.parse_time (F.format_time t) ≡ some (truncate t 1_000_000_000)
  pub not_empty : (F.format_time t == "") ≡ false

module _ (K : TextKeys) (cal : Calendar) (F : Formats) (R : Redis) (Q : MessageQueue) (J : Codec)
    (sch : Scheduler Q.Queue) (c : Calls) (d : Draws) (s : R.State) (k k' : K.State) (q : Q.State)
    (leads : lead K sch c k ≡ (ok true, k')) where
  -- What the tick finds.
  abbrev pub found : List TaskToSchedule
  found = find_all K cal F R c d.now k' s (get_all sch.registry)

  abbrev pub ticked : Failure × K.State × Q.State
  ticked = check_and_schedule_tasks K cal F R Q J sch c d s k q

  abbrev pub keys_after : K.State
  keys_after = (update_last_executions K c (F.format_time d.now) found k').1

  distributed :
      (tasks : List TaskToSchedule) (q' : Q.State)
      → distribute_tasks Q J sch.distributor d.shuffle d.int63n d.draw tasks d.now q ≡ (none, q')
      → schedule_found K cal F R Q J sch c d tasks k' q
        ≡ (none, (update_last_executions K c (F.format_time d.now) tasks k').1, q')
  unfolding distribute_tasks update_last_executions update_from
  distributed [] q' e = ap (λ (r : Failure × Q.State). (none, k', r.1)) e
  distributed (task ∷ tasks) q' e = ap (then_update K cal F R Q J c d.now (task ∷ tasks) k') e

  -- What a tick sends.
  pub ticked_sent :
      Perm (d.shuffle found) found
      → IsRandom d.int63n
      → length found * interval_ns sch.distributor.distribution_window (length found) < 2 ^ 63
      → (jobs : List (Draw × Job)) × (ticked.0 ≡ none)
        × SentAll Q J sch.distributor.queue_client (map to_send jobs) q ticked.2
        × Perm (map job_key jobs) (map task_key found)
        × All
            (IsPlanned d.now
              (estimate_distribution_time sch.distributor.distribution_window (pos (length found))))
            jobs
  unfolding check_and_schedule_tasks
  ticked_sent perm random fits =
      let (jobs, q', e, sent, same, planned) =
        distribute_tasks_lem Q J sch.distributor d.shuffle d.int63n d.draw found d.now q perm random
          fits in
      let done : ticked ≡ (none, keys_after, q') = rw leads (distributed found q' e) in
      (
        jobs,
        ap (λ (r : Failure × K.State × Q.State). r.0) done,
        subst (SentAll Q J sch.distributor.queue_client (map to_send jobs) q)
            (sym (ap (λ (r : Failure × K.State × Q.State). r.2) done)) sent,
        same,
        planned,
      )

  distribute_tasks-none :
      (tasks : List TaskToSchedule)
      → distribute_tasks Q J sch.distributor d.shuffle d.int63n d.draw tasks d.now q
        ≡ (none, (distribute_tasks Q J sch.distributor d.shuffle d.int63n d.draw tasks d.now q).1)
  unfolding distribute_tasks
  distribute_tasks-none [] = refl
  distribute_tasks-none (task ∷ tasks) = refl

  pub ticked_keys : ticked.1 ≡ keys_after
  unfolding check_and_schedule_tasks
  ticked_keys = rw leads (
      ap (λ (r : Failure × K.State × Q.State). r.1)
        (distributed found _ (distribute_tasks-none found)))

  -- What a tick writes.
  abbrev pub Stamps : Type 0
  Stamps =
      (id : String)
      → K.get ("taskqueue:schedule:" <> id) ticked.1 ≡ (
          if is_in id (map type_of found)
          then some (F.format_time d.now)
          else K.get ("taskqueue:schedule:" <> id) k')

  ticked-Stamps : IsTextKeys K → ((id : String) → c.set_last id ≡ answered) → Stamps
  ticked-Stamps laws set id =
      ap (K.get (last_exec_key id)) ticked_keys
      ∙ get-update_last_executions K laws c set (F.format_time d.now) id found k'

  -- If the instance leads, then a tick sends the queue in turn, whether or not it has refused those
  -- before, one first attempt for each task that it finds and no other, each to be executed within
  -- the estimated time, writes the time as the last execution of the task types of all tasks found
  -- and of no others, and reports no error. Redis carries out the writes, the shuffle is a
  -- permutation, the jitter is drawn from its range, and the window is such that its intervals fit a
  -- Duration.
  pub check_and_schedule_tasks_lem :
      IsTextKeys K
      → ((id : String) → c.set_last id ≡ answered)
      → Perm (d.shuffle found) found
      → IsRandom d.int63n
      → length found * interval_ns sch.distributor.distribution_window (length found) < 2 ^ 63
      → (jobs : List (Draw × Job)) × (ticked.0 ≡ none)
        × Stamps
        × SentAll Q J sch.distributor.queue_client (map to_send jobs) q ticked.2
        × Perm (map job_key jobs) (map task_key found)
        × All
            (IsPlanned d.now
              (estimate_distribution_time sch.distributor.distribution_window (pos (length found))))
            jobs
  check_and_schedule_tasks_lem laws set perm random fits =
      let (jobs, fine, sent, same, planned) = ticked_sent perm random fits in
      (jobs, fine, ticked-Stamps laws set, sent, same, planned)

  -- A task type of which a tick found a task is found again no sooner than it falls due after the
  -- tick, in whole seconds. The instance leads, Redis carries out what it is asked, and a time that
  -- is written as RFC 3339 text reads back to the second.
  pub not_scheduled_again :
      (c' : Calls) (later : Time) (s' : R.State) (task : TaskType)
      → IsTextKeys K
      → ((id : String) → c.set_last id ≡ answered)
      → c'.get_last task.id ≡ answered
      → ReadsBack F d.now
      → is_in task.id (map type_of found) ≡ true
      → is_due cal task.interval (truncate d.now 1_000_000_000) later ≡ false
      → find_due_tasks K cal F R c' later ticked.1 s' task ≡ ok []
  unfolding find_due_tasks
  not_scheduled_again c' later s' task laws set got texts listed early =
      let written : K.get (last_exec_key task.id) ticked.1 ≡ some (F.format_time d.now) =
        rw
          (
            ticked_keys,
            get-update_last_executions K laws c set (F.format_time d.now) task.id found k',
            listed,
          )
          refl in
      rw (got, written, texts.not_empty, texts.to_second, early) refl

  module _
      (down : (text : String) (x : Q.State)
        → (e : String) × (Q.push_message sch.distributor.queue_client.queue
              sch.distributor.queue_client.queue_name text x
            ≡ (some e, x))) where
    unsent : (r : Result String) (x : Q.State) → (send Q J sch.distributor.queue_client r x).1 ≡ x
    unsent (ok text) x = ap (λ (p : Failure × Q.State). p.1) (down text x).1
    unsent (err e) x = refl

    unpushed :
        (jobs : List (Draw × Job)) (x : Q.State)
        → push_jobs Q J sch.distributor.queue_client jobs x ≡ x
    unfolding push_jobs push
    unpushed [] x = refl
    unpushed ((draw, job) ∷ jobs) x =
        rw (unsent (J.marshal (new_queue_message draw.message_uuid job "scheduler" (pos 0))) x)
          (unpushed jobs x)

    undistributed :
        (tasks : List TaskToSchedule)
        → distribute_tasks Q J sch.distributor d.shuffle d.int63n d.draw tasks d.now q ≡ (none, q)
    unfolding distribute_tasks
    undistributed [] = refl
    undistributed (task ∷ tasks) = ap (λ (x : Q.State). (none, x)) (unpushed _ q)

    -- While the queue takes no message, a tick of the leading instance leaves the queue as it was,
    -- and yet reports no error and writes the time as the last execution of the task types that it
    -- found: their tasks are not made up for. Redis carries out the writes.
    pub check_and_schedule_tasks_down :
        IsTextKeys K
        → ((id : String) → c.set_last id ≡ answered)
        → (ticked.0 ≡ none) × Stamps × (ticked.2 ≡ q)
    unfolding check_and_schedule_tasks
    check_and_schedule_tasks_down laws set =
        let done : ticked ≡ (none, keys_after, q) =
          rw leads (distributed found q (undistributed found)) in
        (
          ap (λ (r : Failure × K.State × Q.State). r.0) done,
          ticked-Stamps laws set,
          ap (λ (r : Failure × K.State × Q.State). r.2) done,
        )
