-- ===== src/Cmd/Scheduler/Started.antt =====
-- cmd/scheduler/main.go: what holds once main has started the scheduler.
use taskqueue_go.Prelude.{
  ◌≡◌, ◌<>◌, ◌∙◌, ap, sym, subst, refl, none, String, Result, ok, err, ◌>>=◌, wrap, >>=-eq-ok,
  wrap-eq-ok, arith,
}
use taskqueue_go.Queue.{Client}
use taskqueue_go.Registry.{TaskRegistry}
use taskqueue_go.Distributor
use taskqueue_go.Scheduler.{Scheduler}
use taskqueue_go.Scheduler.Loop
use taskqueue_go.Cmd.{Outside, ready, load_config, redis_options, make_queue, load_tasks}
use taskqueue_go.Cmd.Steps.{connected-inv, HoldsTasks, loaded-HoldsTasks}
use taskqueue_go.Cmd.Scheduler.{
  Config, SchedulerSection, Service, scheduler_config, connect_all, finish, set_up,
}

-- The settings of a scheduler are those of the file.
pub record Follows {Queue : Type 0} (c : SchedulerSection) (sch : Scheduler Queue) : Type 0 where
  pub check_interval : sch.config.check_interval ≡ c.check_interval
  pub batch_size : sch.config.batch_size ≡ c.batch_size
  pub distribution_window : sch.config.distribution_window ≡ c.distribution_window
  pub leader_election_ttl : sch.config.leader_election_ttl ≡ c.leader_election_ttl
  pub enable_leader_election : sch.config.enable_leader_election ≡ c.enable_leader_election
  pub spread_over : sch.distributor.distribution_window ≡ c.distribution_window
  pub leader_key : sch.leader_key ≡ "taskqueue:scheduler:leader"

new-Follows :
    {Queue : Type 0} (c : SchedulerSection) (client : Client Queue) (registry : TaskRegistry)
    → Follows c (Loop.new (scheduler_config c) client registry)
unfolding Loop.new Distributor.new
new-Follows c client registry = record {
  check_interval = refl;
  batch_size = refl;
  distribution_window = refl;
  leader_election_ttl = refl;
  enable_leader_election = refl;
  spread_over = refl;
  leader_key = refl;
}

module _ {Connection Redis : Type 0} (o : Outside Connection Redis) where
  finish-inv :
      (r : Result (Service Connection Redis)) (service : Service Connection Redis)
      → finish o r ≡ ready service
      → r ≡ ok service
  finish-inv (err x) service e = absurd (ground arith)
  finish-inv (ok made) service e = ground arith

  -- If main gets as far as to start its servers, then Redis has answered and the file of its settings was
  -- read, and the scheduler follows each of these settings, has the key taskqueue:scheduler:leader and
  -- a registry that holds the tasks of the file of tasks, the last one of each identifier, validated.
  pub set_up-HoldsTasks :
      (parse : String → Result Config) (config_file : String) (service : Service Connection Redis)
      → set_up o parse config_file ≡ ready service
      → (cfg : Config) × (load_config o.read_file parse config_file ≡ ok cfg)
        × (o.ping service.redis_client ≡ none)
        × Follows cfg.scheduler service.scheduler
        × HoldsTasks o service.scheduler.registry
  unfolding set_up connect_all Loop.new
  set_up-HoldsTasks parse config_file service e =
      let succeeds : (wrap (λ e. "Failed to load configuration: " <> e)
              (load_config o.read_file parse config_file)
            >>= connect_all o)
          ≡ ok service =
        finish-inv _ service e in
      let (cfg, read, e') =
        >>=-eq-ok (connect_all o) (wrap _ (load_config o.read_file parse config_file)) succeeds in
      let (answers, opened) =
        connected-inv (o.ping (o.new_redis (redis_options cfg.redis))) _ service e' in
      let (queue, made_queue, e'') = >>=-eq-ok _ (make_queue o cfg.queue) opened in
      let (registry, kept, made) = >>=-eq-ok _ (load_tasks o) e'' in
      let client : o.new_redis (redis_options cfg.redis) ≡ service.redis_client = ground arith in
      (
        cfg,
        wrap-eq-ok _ _ read,
        ap o.ping (sym client) ∙ answers,
        subst (Follows cfg.scheduler) (ground arith) (new-Follows cfg.scheduler queue registry),
        loaded-HoldsTasks o service.scheduler.registry (ground (arith, kept)),
      )
