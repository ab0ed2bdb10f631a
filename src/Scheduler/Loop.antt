-- ===== src/Scheduler/Loop.antt =====
-- internal/scheduler/scheduler.go: New, and the loop of Start, which calls checkAndScheduleTasks on each
-- tick until its context is done.
pub mod Election
pub mod Skips
pub mod Once
pub mod Tests
use taskqueue_go.Prelude.{
  Bool, true, false, Option, none, some, List, [], ◌∷◌, ◌++◌, String, if◌then◌else◌, Result, ok,
  err, Failure,
}
use taskqueue_go.Prelude.Int.{pos, ltb_ℤ}
use taskqueue_go.GoTime.{Calendar}
use taskqueue_go.Queue.Backend.{MessageQueue, Codec}
use taskqueue_go.Queue.{Client}
use taskqueue_go.Registry.{TaskRegistry, get_all}
use taskqueue_go.UserStore.Commands.{Redis, Formats}
use taskqueue_go.Distributor
use taskqueue_go.Distributor.{TaskToSchedule}
use taskqueue_go.Scheduler.Keys.{TextKeys}
use taskqueue_go.Scheduler.{
  Config, Scheduler, Calls, Draws, lead, find_all, check_and_schedule_tasks,
}

unfoldable pub new : {Queue : Type 0} → Config → Client Queue → TaskRegistry → Scheduler Queue
new config queue_client registry = record {
  config = config;
  registry = registry;
  distributor = Distributor.new config.distribution_window queue_client;
  leader_key = "taskqueue:scheduler:leader";
}

module _ (K : TextKeys) (R : Redis) (Q : MessageQueue) where
  -- What comes while the loop waits: the context is done, a tick, with the user store as it is then,
  -- or others change the keys and the queue.
  pub data Event : Type 0 where
    cancelled : String → Event
    ticked : Calls → Draws → R.State → Event
    elsewhere : (K.State → K.State) → (Q.State → Q.State) → Event

module _ (K : TextKeys) (cal : Calendar) (F : Formats) (R : Redis) (Q : MessageQueue) (J : Codec)
    (sch : Scheduler Q.Queue) where
  -- The keys and the queue after a tick; its error is logged.
  abbrev pub after_tick : Calls → Draws → R.State → K.State → Q.State → K.State × Q.State
  after_tick c d s k q =
      let (failure, k', q') = check_and_schedule_tasks K cal F R Q J sch c d s k q in (k', q')

  -- The loop; an error is that of the context.
  unfoldable pub loop : List (Event K R Q) → K.State → Q.State → Failure × K.State × Q.State
  loop [] k q = (none, k, q)
  loop (cancelled e ∷ events) k q = (some e, k, q)
  loop (ticked c d s ∷ events) k q = loop events (after_tick c d s k q).0 (after_tick c d s k q).1
  loop (elsewhere f g ∷ events) k q = loop events (f k) (g q)

  -- Start; time.NewTicker panics for an interval that is not positive.
  unfoldable pub start :
      List (Event K R Q) → K.State → Q.State → Option (Failure × K.State × Q.State)
  start events k q =
      if ltb_ℤ (pos 0) sch.config.check_interval then some (loop events k q) else none

  -- The tasks that a tick finds, where it leads.
  abbrev pub tick_found : Calls → Draws → R.State → Result Bool × K.State → List TaskToSchedule
  tick_found c d s (ok true, k) = find_all K cal F R c d.now k s (get_all sch.registry)
  tick_found c d s (ok false, k) = []
  tick_found c d s (err e, k) = []

  -- The tasks that the ticks of a run find.
  unfoldable pub all_found : List (Event K R Q) → K.State → Q.State → List TaskToSchedule
  all_found [] k q = []
  all_found (cancelled e ∷ events) k q = []
  all_found (ticked c d s ∷ events) k q =
      tick_found c d s (lead K sch c k)
      ++ all_found events (after_tick c d s k q).0 (after_tick c d s k q).1
  all_found (elsewhere f g ∷ events) k q = all_found events (f k) (g q)
