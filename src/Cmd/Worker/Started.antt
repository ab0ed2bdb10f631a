-- ===== src/Cmd/Worker/Started.antt =====
-- cmd/worker/main.go: what holds once main has started the pool, and of the jobs that it runs then.
use taskqueue_go.Prelude.{
  ℕ, ◌+◌, ◌<◌, ◌^◌, ◌≡◌, refl, sym, ap, ◌∙◌, Option, none, some, String, Result, ok, err, wrap,
  >>=-eq-ok, wrap-eq-ok, arith,
}
use taskqueue_go.Prelude.Int.{ℤ, pos, negsuc, pos_part}
use taskqueue_go.Models.Job.{Job}
use taskqueue_go.RateLimit.Defaults.{IsConfigured, new_limiter-IsConfigured}
use taskqueue_go.Worker.Lifecycle
use taskqueue_go.Worker.Backoff
use taskqueue_go.Cmd.Steps.{connected-inv, load_config-inv, HoldsTasks, loaded-HoldsTasks}
use taskqueue_go.Cmd.{Outside, ready, load_config, redis_options}
use taskqueue_go.Cmd.Worker.{
  Config, Service, pool_config, make_queue, make_limiter, load_tasks, connect_all, with_workers,
  finish, set_up,
}

new-inv :
    (size : ℤ) (n : ℕ) (s : Lifecycle.State)
    → Lifecycle.sized size ≡ some (n, s)
    → (size ≡ pos n) × (s ≡ Lifecycle.initial)
new-inv (pos m) n s e = (ground arith, ground arith)
new-inv (negsuc m) n s e = absurd (ground arith)

module _ {Connection Redis : Type 0} (o : Outside Connection Redis) where
  -- A pool that is ready for work: its settings are the file's, Redis
  -- has answered, the rate limiter has settings it can
  -- work with, every task is valid and under its own identifier, and the tasks are those of the
  -- file of tasks, the last one of each identifier.
  pub record IsReady (cfg : Config) (n : ℕ) (service : Service Connection Redis) : Type 0 where
    pub configured : service.pool.config ≡ pool_config cfg
    pub answers : o.ping service.redis_client ≡ none
    pub size : cfg.worker.pool_size ≡ pos n
    pub limited : IsConfigured service.pool.rate_limiter
    pub holds : HoldsTasks o service.pool.registry

  connect_all-inv :
      (cfg : Config) (service : Service Connection Redis)
      → connect_all o cfg ≡ ok service
      → (make_limiter o cfg ≡ ok service.pool.rate_limiter)
        × (load_tasks o ≡ ok service.pool.registry)
        × (service.pool.config ≡ pool_config cfg)
        × (o.ping service.redis_client ≡ none)
  unfolding connect_all
  connect_all-inv cfg service e =
      let (answers, opened) =
        connected-inv (o.ping (o.new_redis (redis_options cfg.redis))) _ service e in
      let (queue, connected_queue, e') = >>=-eq-ok _ (make_queue o cfg.queue) opened in
      let (limiter, limited, e'') = >>=-eq-ok _ (make_limiter o cfg) e' in
      let (registry, kept, made) = >>=-eq-ok _ (load_tasks o) e'' in
      (
        ground (arith, limited),
        ground (arith, kept),
        ground arith,
        let client : o.new_redis (redis_options cfg.redis) ≡ service.redis_client = ground arith in
            ap o.ping (sym client) ∙ answers,
      )

  finish-inv :
      (r : Result (Service Connection Redis)) (n : ℕ) (s : Lifecycle.State)
      (service : Service Connection Redis)
      → finish o r ≡ ready ((n, s), service)
      → (r ≡ ok service) × (service.pool.config.pool_size ≡ pos n) × (s ≡ Lifecycle.initial)
  unfolding Lifecycle.new
  finish-inv (err x) n s service e = absurd (ground arith)
  finish-inv (ok made) n s service e =
      sized_inv made (Lifecycle.sized made.pool.config.pool_size) refl e
    where
      sized_inv :
          (made : Service Connection Redis) (x : Option (ℕ × Lifecycle.State))
          → Lifecycle.sized made.pool.config.pool_size ≡ x
          → with_workers o made x ≡ ready ((n, s), service)
          → (ok made ≡ ok service)
            × (service.pool.config.pool_size ≡ pos n)
            × (s ≡ Lifecycle.initial)
      sized_inv made none h e = absurd (ground arith)
      sized_inv made (some (m, t)) h e =
          let same : made ≡ service = ground arith in
          let (size, fresh) = new-inv made.pool.config.pool_size n s (ground arith) in
          (ap ok same, ground arith, fresh)

  -- If main gets as far as to start its servers, then the file of its settings was read, and the pool
  -- is ready for work, with no worker launched yet. The limit of each file, plus 50, is an int.
  pub set_up-IsReady :
      (parse : String → Result Config) (config_file : String) (n : ℕ) (s : Lifecycle.State)
      (service : Service Connection Redis)
      → ((text : String) (cfg : Config)
          → parse text ≡ ok cfg
          → pos_part cfg.rate_limit.limit + 50 < 2 ^ 63)
      → set_up o parse config_file ≡ ready ((n, s), service)
      → (cfg : Config) × (load_config o.read_file parse config_file ≡ ok cfg)
        × IsReady cfg n service
        × (s ≡ Lifecycle.initial)
  unfolding set_up
  set_up-IsReady parse config_file n s service fits e =
      let (succeeds, size, fresh) = finish-inv _ n s service e in
      let (cfg, read, e') =
        >>=-eq-ok (connect_all o) (wrap _ (load_config o.read_file parse config_file)) succeeds in
      let (limited, kept, configured, answers) = connect_all-inv cfg service e' in
      let loads = wrap-eq-ok _ (load_config o.read_file parse config_file) read in
      let (text, got, parsed) = load_config-inv o.read_file parse config_file cfg loads in
      (
        cfg,
        loads,
        record {
          configured = configured;
          answers = answers;
          size = ap Backoff.Config.pool_size (sym configured) ∙ size;
          limited =
              new_limiter-IsConfigured _ service.pool.rate_limiter (fits text cfg parsed)
                (wrap-eq-ok _ _ limited);
          holds = loaded-HoldsTasks o service.pool.registry kept;
        },
        fresh,
      )
