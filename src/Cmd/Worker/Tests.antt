-- ===== src/Cmd/Worker/Tests.antt =====
-- cmd/worker/main.go: the theorems at one start-up.
use taskqueue_go.Prelude.{
  ℕ, ◌≡◌, refl, none, some, [], ◌∷◌, String, Result, ok, err, string_dec, true, false,
}
use taskqueue_go.Prelude.Int.{pos, negsuc, pos_part}
use taskqueue_go.Prelude.Dict.{insert}
use taskqueue_go.Prelude.Text.{int_text}
use taskqueue_go.Models.Job.{Job}
use taskqueue_go.RateLimit
use taskqueue_go.RateLimit.{new_limiter}
use taskqueue_go.Queue
use taskqueue_go.Queue.{new_client, backend_config}
use taskqueue_go.Registry.{new_task_registry, load_from_file, read_tasks, store_tasks}
use taskqueue_go.Registry.Definition.{to_task}
use taskqueue_go.Registry.Validate.{validate_task, validate_interval}
use taskqueue_go.Registry.Tests.{def, kept}
use taskqueue_go.Worker.Lifecycle
use taskqueue_go.Cmd.{Outside, exited, panicked, level_of, level_info, setup_logging, load_config}
use taskqueue_go.Cmd.Worker.{Config, Service, pool_config, connect_all, set_up}

abbrev pub outside : Outside (Unit {0}) (Unit {0})
outside = record {
  read_file = λ path. ok "text";
  parse_tasks = λ text. ok (def ∷ []);
  new_redis = λ options. tt;
  ping = λ client. none;
  connect = λ config. ok tt;
}

abbrev pub settings : Config
settings = record {
  server = record {
    port = pos 8080;
    read_timeout = pos 30_000_000_000;
    write_timeout = pos 30_000_000_000;
    shutdown_timeout = pos 10_000_000_000;
  };
  redis = record {
    addr = "localhost:6379";
    password = "";
    db = pos 0;
    max_retries = pos 3;
    dial_timeout = pos 5_000_000_000;
    read_timeout = pos 3_000_000_000;
    write_timeout = pos 3_000_000_000;
  };
  queue = record {
    redis_addr = "localhost:6379";
    redis_password = "";
    redis_db = pos 0;
    queue_name = "jobs";
    max_retries = pos 3;
    default_visibility = pos 30_000_000_000;
    dead_letter_queue = "dlq";
  };
  worker = record {
    pool_size = pos 2;
    poll_interval = pos 1_000_000_000;
    max_job_timeout = pos 0;
    retry_delay = pos 30_000_000_000;
    max_retries = pos 3;
  };
  rate_limit = record {
    redis_addr = "localhost:6379";
    redis_password = "";
    redis_db = pos 0;
    key_prefix = "k";
    limit = pos 100;
    window = pos 1_000_000_000;
    burst_size = pos 150;
  };
  execution = record {
    timeout = pos 30_000_000_000;
    retry_backoff = "exponential";
    retry_base_delay = pos 1_000_000_000;
    retry_max_delay = pos 300_000_000_000;
  };
  logging = record { level = "loud"; format = "json"; output = "stdout" };
  metrics = record { enabled = false; port = pos 9091; path = "/metrics" };
  health = record { port = pos 8082; path = "/health" };
}

abbrev parse : String → Result Config
parse text = ok settings

abbrev pub service : Service (Unit {0}) (Unit {0})
service = record {
  logger = record { level = level_info; json = true };
  redis_client = tt;
  limiter_client = tt;
  pool = record {
    config = pool_config settings;
    queue_client = record {
      queue = tt;
      cfg = record {
        redis_addr = "localhost:6379";
        redis_password = "";
        redis_db = pos 0;
        queue_name = "jobs";
        max_retries = pos 3;
        default_visibility = pos 30_000_000_000;
        dead_letter_queue = "dlq";
      };
      queue_name = "jobs";
    };
    rate_limiter = record {
      client = tt;
      config = record {
        redis_client = some tt;
        key_prefix = "k";
        limit = pos 100;
        window = pos 1_000_000_000;
        burst_size = pos 150;
      };
    };
    registry = record { tasks = ("sync", kept def) ∷ []; file_path = "config/tasks.yaml" };
  };
  health = record { addr = ":8082"; pattern_path = "/health"; body = "OK" };
  metrics = none;
  shutdown_timeout = pos 10_000_000_000;
}

abbrev limit_of : Result Config → ℕ
limit_of (ok c) = pos_part c.rate_limit.limit
limit_of (err x) = 0

-- Nothing but the first failure is told.
not_connected :
    set_up
      (record outside { ping = λ client. some "refused"; connect = λ config. err "down" })
      parse
      "config/worker.yaml"
    ≡ exited "Failed to connect to Redis: refused"
unfolding set_up load_config connect_all
not_connected = refl

-- A negative pool size is not refused.
negative_size :
    set_up outside
      (λ text. ok (record settings { worker = record settings.worker { pool_size = negsuc 0 } }))
      "config/worker.yaml"
    ≡ panicked
unfolding set_up load_config connect_all new_client Queue.with_defaults backend_config new_limiter
    RateLimit.with_defaults load_from_file new_task_registry read_tasks store_tasks validate_task
    validate_interval to_task setup_logging level_of int_text string_dec Lifecycle.new insert
negative_size = refl
