-- ===== src/Daemon/Boot.antt =====
-- The start of main in cmd/goboxd/main.go, up to the server and the worker that it sets off.
pub mod Succeeds
pub mod Started
use code_sandbox.Prelude.{
  ◌≡◌, refl, Bool, Option, none, some, [], if◌then◌else◌, ℤ, pos, ◌*ℤ◌, Bytes, bytes_eq, Result, ok,
  err,
}
use code_sandbox.Host.{Out, done, panicked}
use code_sandbox.Config.{Config, load}
use code_sandbox.Registry.{Registry, DirError, Files, new, load_dir}
use code_sandbox.Executor.Run.{Engine, new_engine}
use code_sandbox.Worker.Setup.{Worker, new_worker}
use code_sandbox.Daemon.Sweep.{Disk, Swept, sweep_stale_jobs}

-- What the start asks of the machine.
pub record Machine : Type 0 where
  pub getenv : Bytes → Bytes
  pub num_cpu : ℤ
  pub mkdir_all : Bytes → Option Bytes
  pub disk : Disk
  pub files : Files
  pub load_aws : Bytes → Option Bytes

-- os.Exit(1), with the error that is logged.
pub data Exit : Type 0 where
  mkdir_root_failed : Bytes → Exit
  load_languages_failed : DirError → Exit
  worker_failed : Bytes → Exit

-- The daemon that is left; without a queue there is no worker.
pub record Daemon : Type 0 where
  pub cfg : Config
  pub swept : Swept
  pub reg : Registry
  pub engine : Engine
  pub worker : Option Worker

-- time.Hour
abbrev pub max_job_age : ℤ
max_job_age = pos 3_600_000_000_000

module _ (m : Machine) (cfg : Config) (swept : Swept) (reg : Registry) where
  -- The worker was made, or could not be.
  unfoldable pub with_worker : Engine → Result Bytes Worker → Result Exit Daemon
  with_worker e (err x) = err (worker_failed x)
  with_worker e (ok w) =
      ok (record { cfg = cfg; swept = swept; reg = reg; engine = e; worker = some w })

  unfoldable pub start_worker : Engine → Result Exit Daemon
  unfolding with_worker
  start_worker e =
      if bytes_eq cfg.sqs_queue_url []
      then ok (record { cfg = cfg; swept = swept; reg = reg; engine = e; worker = none })
      else with_worker e (
          new_worker m.getenv m.load_aws cfg.sqs_queue_url cfg.redis_addr cfg.redis_password
            cfg.redis_tls cfg.sqs_workers)

  unfoldable pub with_engine : Out Engine → Out (Result Exit Daemon)
  unfolding start_worker
  with_engine panicked = panicked
  with_engine (done e) = done (start_worker e)

  unfoldable pub with_languages : Option DirError → Out (Result Exit Daemon)
  unfolding with_engine
  with_languages (some e) = done (err (load_languages_failed e))
  with_languages none = with_engine (new_engine cfg)

module _ (m : Machine) where
  unfoldable pub with_root : Config → Option Bytes → Out (Result Exit Daemon)
  unfolding with_languages
  with_root cfg (some e) = done (err (mkdir_root_failed e))
  with_root cfg none =
      let swept = sweep_stale_jobs m.disk cfg.job_root max_job_age in
      let (reg, failure) = load_dir m.files new cfg.languages_dir in
      with_languages m cfg swept reg failure

  -- main, up to ListenAndServe
  unfoldable pub boot : Out (Result Exit Daemon)
  unfolding with_root
  boot = let cfg = load m.getenv m.num_cpu in with_root cfg (m.mkdir_all cfg.job_root)
