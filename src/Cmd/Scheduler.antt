-- ===== src/Cmd/Scheduler.antt =====
-- cmd/scheduler/main.go: from the configuration file to the scheduler. What is logged on the way is
-- left out, but for the error before os.Exit(1). The user store keeps nothing but the connection to
-- Redis, which is the service's redis_client.
pub mod Started
pub mod Shutdown
pub mod Tests
use taskqueue_go.Prelude.{◌<>◌, Bool, Option, some, String, Result, ok, err, ◌>>=◌, ◌>>◌, wrap}
use taskqueue_go.Prelude.Int.{ℤ}
use taskqueue_go.GoTime.{Duration}
use taskqueue_go.Queue.{Client, new_client}
use taskqueue_go.Registry.{TaskRegistry, new_task_registry, load_from_file}
use taskqueue_go.Scheduler
use taskqueue_go.Scheduler.{Scheduler}
use taskqueue_go.Scheduler.Loop
use taskqueue_go.Cmd.{
  ServerSection, RedisSection, QueueSection, LoggingSection, MetricsSection, HealthSection,
  redis_options, queue_config, Logger, setup_logging, HttpServer, health_server, metrics_server,
  Outside, load_config, SetUp, exited, ready, connected, make_queue, load_tasks,
}

pub record SchedulerSection : Type 0 where
  pub check_interval : Duration
  pub batch_size : ℤ  -- int
  pub distribution_window : Duration
  pub leader_election_ttl : Duration
  pub enable_leader_election : Bool

pub record Config : Type 0 where
  pub server : ServerSection
  pub redis : RedisSection
  pub queue : QueueSection
  pub scheduler : SchedulerSection
  pub logging : LoggingSection
  pub metrics : MetricsSection
  pub health : HealthSection

abbrev pub scheduler_config : SchedulerSection → Scheduler.Config
scheduler_config c = record {
  check_interval = c.check_interval;
  batch_size = c.batch_size;
  distribution_window = c.distribution_window;
  leader_election_ttl = c.leader_election_ttl;
  enable_leader_election = c.enable_leader_election;
}

-- What main has made when it starts its servers and the scheduler.
pub record Service (Connection Redis : Type 0) : Type 0 where
  pub logger : Logger
  pub redis_client : Redis
  pub scheduler : Scheduler Connection
  pub health : HttpServer
  pub metrics : Option HttpServer
  pub shutdown_timeout : Duration

module _ {Connection Redis : Type 0} (o : Outside Connection Redis) where
  abbrev assemble : Config → Client Connection → TaskRegistry → Service Connection Redis
  assemble cfg queue registry = record {
    logger = setup_logging cfg.logging;
    redis_client = o.new_redis (redis_options cfg.redis);
    scheduler = Loop.new (scheduler_config cfg.scheduler) queue registry;
    health = health_server cfg.health;
    metrics = metrics_server cfg.metrics;
    shutdown_timeout = cfg.server.shutdown_timeout;
  }

  -- The steps that may fail, after the configuration file is read.
  unfoldable pub connect_all : Config → Result (Service Connection Redis)
  connect_all cfg = do
    connected (o.ping (o.new_redis (redis_options cfg.redis)))
    queue ← make_queue o cfg.queue
    registry ← load_tasks o
    ok (assemble cfg queue registry)

  abbrev pub finish : Result (Service Connection Redis) → SetUp (Service Connection Redis)
  finish (err e) = exited e
  finish (ok service) = ready service

  -- main, up to where it starts its servers; `parse` is yaml.Unmarshal at Config.
  unfoldable pub set_up : (String → Result Config) → String → SetUp (Service Connection Redis)
  set_up parse config_file = finish (
      wrap (λ e. "Failed to load configuration: " <> e) (load_config o.read_file parse config_file)
      >>= connect_all)
