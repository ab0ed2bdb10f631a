-- ===== src/Cmd/Worker.antt =====
-- cmd/worker/main.go: from the configuration file to the pool of workers. What is logged on the way
-- is left out, but for the error before os.Exit(1).
pub mod Started
pub mod Shutdown
pub mod Tests
use taskqueue_go.Prelude.{ℕ, ◌<>◌, Option, none, some, String, Result, ok, err, ◌>>=◌, ◌>>◌, wrap}
use taskqueue_go.Prelude.Int.{ℤ, pos}
use taskqueue_go.GoTime.{Duration}
use taskqueue_go.RateLimit
use taskqueue_go.RateLimit.{Limiter, new_limiter}
use taskqueue_go.Queue.{Client, new_client}
use taskqueue_go.Registry.{TaskRegistry, new_task_registry, load_from_file}
use taskqueue_go.Worker.{Pool}
use taskqueue_go.Worker.Backoff
use taskqueue_go.Worker.Lifecycle
use taskqueue_go.Cmd.{
  ServerSection, RedisSection, QueueSection, LoggingSection, MetricsSection, HealthSection,
  RedisOptions, redis_options, queue_config, Logger, setup_logging, HttpServer, health_server,
  metrics_server, Outside, load_config, SetUp, exited, panicked, ready, connected, make_queue,
  load_tasks,
}

pub record WorkerSection : Type 0 where
  pub pool_size : ℤ  -- int
  pub poll_interval : Duration
  pub max_job_timeout : Duration
  pub retry_delay : Duration
  pub max_retries : ℤ  -- int

pub record RateLimitSection : Type 0 where
  pub redis_addr : String
  pub redis_password : String
  pub redis_db : ℤ  -- int
  pub key_prefix : String
  pub limit : ℤ  -- int
  pub window : Duration
  pub burst_size : ℤ  -- int

pub record ExecutionSection : Type 0 where
  pub timeout : Duration
  pub retry_backoff : String
  pub retry_base_delay : Duration
  pub retry_max_delay : Duration

pub record Config : Type 0 where
  pub server : ServerSection
  pub redis : RedisSection
  pub queue : QueueSection
  pub worker : WorkerSection
  pub rate_limit : RateLimitSection
  pub execution : ExecutionSection
  pub logging : LoggingSection
  pub metrics : MetricsSection
  pub health : HealthSection

abbrev pub limiter_options : RateLimitSection → RedisOptions
limiter_options c = record {
  addr = c.redis_addr;
  password = c.redis_password;
  db = c.redis_db;
  max_retries = pos 0;
  dial_timeout = pos 0;
  read_timeout = pos 0;
  write_timeout = pos 0;
}

abbrev pub limiter_config : {Redis : Type 0} → Redis → RateLimitSection → RateLimit.Config Redis
limiter_config client c = record {
  redis_client = some client;
  key_prefix = c.key_prefix;
  limit = c.limit;
  window = c.window;
  burst_size = c.burst_size;
}

abbrev pub pool_config : Config → Backoff.Config
pool_config cfg = record {
  pool_size = cfg.worker.pool_size;
  poll_interval = cfg.worker.poll_interval;
  max_job_timeout = cfg.worker.max_job_timeout;
  retry_delay = cfg.worker.retry_delay;
  max_retries = cfg.worker.max_retries;
  execution_timeout = cfg.execution.timeout;
  retry_backoff = cfg.execution.retry_backoff;
  retry_base_delay = cfg.execution.retry_base_delay;
  retry_max_delay = cfg.execution.retry_max_delay;
}

-- What main has made when it starts its servers and the pool.
pub record Service (Connection Redis : Type 0) : Type 0 where
  pub logger : Logger
  pub redis_client : Redis
  pub limiter_client : Redis
  pub pool : Pool Connection Redis
  pub health : HttpServer
  pub metrics : Option HttpServer
  pub shutdown_timeout : Duration

module _ {Connection Redis : Type 0} (o : Outside Connection Redis) where
  abbrev assemble :
      Config → Client Connection → Limiter Redis → TaskRegistry → Service Connection Redis
  assemble cfg queue limiter registry = record {
    logger = setup_logging cfg.logging;
    redis_client = o.new_redis (redis_options cfg.redis);
    limiter_client = o.new_redis (limiter_options cfg.rate_limit);
    pool = record {
      config = pool_config cfg;
      queue_client = queue;
      rate_limiter = limiter;
      registry = registry;
    };
    health = health_server cfg.health;
    metrics = metrics_server cfg.metrics;
    shutdown_timeout = cfg.server.shutdown_timeout;
  }

  abbrev pub make_limiter : Config → Result (Limiter Redis)
  make_limiter cfg =
      wrap (λ e. "Failed to create rate limiter: " <> e)
        (new_limiter
          (some (limiter_config (o.new_redis (limiter_options cfg.rate_limit)) cfg.rate_limit)))

  -- The steps that may fail, after the configuration file is read.
  unfoldable pub connect_all : Config → Result (Service Connection Redis)
  connect_all cfg = do
    connected (o.ping (o.new_redis (redis_options cfg.redis)))
    queue ← make_queue o cfg.queue
    limiter ← make_limiter cfg
    registry ← load_tasks o
    ok (assemble cfg queue limiter registry)

  -- worker.New panics for a negative size; otherwise there are so many workers to be launched.
  abbrev pub with_workers :
      Service Connection Redis
      → Option (ℕ × Lifecycle.State)
      → SetUp ((ℕ × Lifecycle.State) × Service Connection Redis)
  with_workers service none = panicked
  with_workers service (some workers) = ready (workers, service)

  abbrev pub finish :
      Result (Service Connection Redis) → SetUp ((ℕ × Lifecycle.State) × Service Connection Redis)
  finish (err e) = exited e
  finish (ok service) = with_workers service (Lifecycle.new service.pool.config)

  -- main, up to where it starts its servers; `parse` is yaml.Unmarshal at Config.
  unfoldable pub set_up :
      (String → Result Config) → String → SetUp ((ℕ × Lifecycle.State) × Service Connection Redis)
  set_up parse config_file = finish (
      wrap (λ e. "Failed to load configuration: " <> e) (load_config o.read_file parse config_file)
      >>= connect_all)
