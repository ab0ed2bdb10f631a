-- ===== src/Scheduler/Tick/Repeated.antt =====
-- internal/scheduler/scheduler.go: a tick that cannot write the last executions, as when the program ends
-- while it is under way.
use mathlib.Core.List.{Perm}
use taskqueue_go.Prelude.{
  ◌≡◌, ◌∙◌, ◌*◌, ◌^◌, ◌<◌, refl, ap, true, none, List, [], ◌∷◌, map, String, arith, ok, length,
}
use taskqueue_go.GoTime.{Calendar}
use taskqueue_go.Models.Job.{Job}
use taskqueue_go.RateLimit.{refused}
use taskqueue_go.Queue.Backend.{MessageQueue, Codec}
use taskqueue_go.Registry.{get_all}
use taskqueue_go.Distributor.{TaskToSchedule, Draw}
use taskqueue_go.Distributor.Slots.{IsRandom, interval_ns}
use taskqueue_go.Queue.Sending.{SentAll}
use taskqueue_go.Distributor.Jobs.{to_send, task_key, job_key}
use taskqueue_go.UserStore.Commands.{Redis, Formats}
use taskqueue_go.Scheduler.Keys.{TextKeys}
use taskqueue_go.Scheduler.{
  Scheduler, Calls, Draws, lead, find_all, update_from, update_last_executions,
}
use taskqueue_go.Scheduler.Tick.{found, ticked, ticked_keys, ticked_sent}

module _ (K : TextKeys) (c : Calls) (stamp e : String)
    (cut_off : (id : String) → c.set_last id ≡ refused e) where
  unwritten :
      (seen : List String) (tasks : List TaskToSchedule) (k : K.State)
      → update_from K c stamp seen tasks k ≡ k
  unfolding update_from
  unwritten seen [] k = refl
  unwritten seen (task ∷ tasks) k =
      rw (cut_off task.task_type.id)
        (ground (arith, unwritten seen tasks k, unwritten (task.task_type.id ∷ seen) tasks k))

module _ (K : TextKeys) (cal : Calendar) (F : Formats) (R : Redis) (Q : MessageQueue) (J : Codec)
    (sch : Scheduler Q.Queue) (c : Calls) (d : Draws) (s : R.State) (k k' : K.State) (q : Q.State)
    (leads : lead K sch c k ≡ (ok true, k')) where
  abbrev tasks : List TaskToSchedule
  tasks = found K cal F R Q J sch c d s k k' q leads

  -- If Redis refuses to write the last executions, then a tick of an instance that leads reports no error
  -- and sends the queue a job for each task that it finds, and at the same time the same tasks are
  -- found again, to be sent a second time. The shuffle is a permutation, the jitter is drawn from its
  -- range, and the window's intervals fit a Duration.
  pub found_again :
      (e : String)
      → ((id : String) → c.set_last id ≡ refused e)
      → Perm (d.shuffle tasks) tasks
      → IsRandom d.int63n
      → length tasks * interval_ns sch.distributor.distribution_window (length tasks) < 2 ^ 63
      → (jobs : List (Draw × Job)) × ((ticked K cal F R Q J sch c d s k k' q leads).0 ≡ none)
        × SentAll Q J sch.distributor.queue_client
            (map to_send jobs)
            q
            (ticked K cal F R Q J sch c d s k k' q leads).2
        × Perm (map job_key jobs) (map task_key tasks)
        × (find_all K cal F R c d.now
              (ticked K cal F R Q J sch c d s k k' q leads).1
              s
              (get_all sch.registry)
            ≡ tasks)
  unfolding update_last_executions
  found_again e cut_off perm random fits =
      let (jobs, fine, sent, same, planned) =
        ticked_sent K cal F R Q J sch c d s k k' q leads perm random fits in
      let kept : (ticked K cal F R Q J sch c d s k k' q leads).1 ≡ k' =
        ticked_keys K cal F R Q J sch c d s k k' q leads
        ∙ unwritten K c (F.format_time d.now) e cut_off [] tasks k' in
      (
        jobs,
        fine,
        sent,
        same,
        ap (λ keys. find_all K cal F R c d.now keys s (get_all sch.registry)) kept,
      )
