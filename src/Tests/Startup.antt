-- ===== src/Tests/Startup.antt =====
-- A start of the daemon on a machine where nothing is set, and what it reports.
use code_sandbox.Prelude.{
  In, ℤ, pos, ◌*ℤ◌, ◌+ℤ◌, ◌-ℤ◌, ◌<ℤ◌, ◌≡◌, ◌↔◌, inl, refl, none, some, Option, List, [], ◌∷◌, arith,
  int64, Bytes, codes, bytes_eq, Result, ok,
}
use code_sandbox.Strings.{has_suffix, has_prefix}
use code_sandbox.Strings.Paths.{join_path}
use code_sandbox.Host.{done}
use code_sandbox.Config.{load}
use code_sandbox.Dict.{keys}
use code_sandbox.Registry.{names, new, load_dir, validate}
use code_sandbox.Executor.Types.{Request}
use code_sandbox.Executor.Run.{idle, new_engine, capacity}
use code_sandbox.Api.Sessions.{serve_all, AllWelcome}
use code_sandbox.Api.{status_ok}
use code_sandbox.Api.Status.{Diagnosis, readyz}
use code_sandbox.Api.Status.Ready.{LanguagesRunnable, readyz-Runnable}
use code_sandbox.Daemon.Sweep.{Disk, JobEntry, sweep_stale_jobs}
use code_sandbox.Daemon.Sweep.Stale.{removable, OfStale, sweep_stale_jobs-removals}
use code_sandbox.Daemon.Boot.{Machine, Daemon, max_job_age, boot}
use code_sandbox.Daemon.Boot.Succeeds.{IsBootable}
use code_sandbox.Daemon.Boot.Started.{IsStarted, boot-IsStarted, boot-AllWelcome}
use code_sandbox.Tests.Data.{host, cfg, files, registry, request}
use code_sandbox.Tests.Requests.{registry-IsLoaded}

abbrev left_overs : List JobEntry
left_overs =
    record { name = codes "job-1"; mod_time = some (pos 5) }
    ∷ record { name = codes "notes"; mod_time = some (pos 5) }
    ∷ record { name = codes "job-2"; mod_time = none }
    ∷ []

abbrev disk : Disk
disk = record {
  read_dir = λ dir. ok left_overs;
  now = pos 3_600_000_000_006;
  remove_all = λ path. none;
}

sweep_stale_jobs-removals_example :
    (In (codes "/jobs/job-1") (sweep_stale_jobs disk (codes "/jobs") max_job_age).removals
      ↔ OfStale disk (codes "/jobs") max_job_age (codes "/jobs/job-1") left_overs)
    × ((sweep_stale_jobs disk (codes "/jobs") max_job_age).removed
        ≡ removable disk (sweep_stale_jobs disk (codes "/jobs") max_job_age).removals)
sweep_stale_jobs-removals_example =
    sweep_stale_jobs-removals disk (codes "/jobs") max_job_age left_overs (codes "/jobs/job-1") refl

sweep_test :
    sweep_stale_jobs disk (codes "/jobs") max_job_age
    ≡ record { removals = codes "/jobs/job-1" ∷ []; removed = 1 }
unfolding sweep_stale_jobs has_prefix join_path bytes_eq ◌-ℤ◌
sweep_test = refl

abbrev unset : Bytes → Bytes
unset key = []

abbrev machine : Machine
machine = record {
  getenv = unset;
  num_cpu = pos 4;
  mkdir_all = λ path. none;
  disk = disk;
  files = files;
  load_aws = λ region. none;
}

abbrev daemon : Daemon
daemon = record {
  cfg = load unset (pos 4);
  swept = sweep_stale_jobs disk (codes "/tmp/goboxd") max_job_age;
  reg = (load_dir files new (codes "/etc/goboxd/languages")).0;
  engine = idle;
  worker = none;
}

booted : boot machine ≡ done (ok daemon)
unfolding boot load load_dir has_suffix validate new_engine int64 bytes_eq capacity ◌*ℤ◌ ◌+ℤ◌
booted = refl

boot-IsStarted_example :
    (IsBootable machine → (d : Daemon) × (boot machine ≡ done (ok d)))
    × ((d : Daemon) → boot machine ≡ done (ok d) → IsBootable machine × IsStarted machine d)
boot-IsStarted_example = boot-IsStarted machine

can_boot : IsBootable machine
unfolding load load_dir has_suffix validate int64 bytes_eq capacity ◌*ℤ◌ ◌+ℤ◌
can_boot = record {
  root_made = refl;
  languages_load = refl;
  can_queue = omega arith;
  can_poll = inl refl;
}

is_started : IsStarted machine daemon
is_started = ((boot-IsStarted machine).1 daemon booted).1

capacity-pos : pos 0 <ℤ capacity daemon.cfg
unfolding capacity load int64 ◌+ℤ◌ ◌*ℤ◌ bytes_eq
capacity-pos = omega arith

-- Stands for the JSON decoder.
abbrev decode : ℤ → Bytes → Result Bytes Request
decode limit body = ok request

boot-AllWelcome_example :
    AllWelcome decode host daemon.cfg daemon.reg
      ([] ∷ [] ∷ [])
      (serve_all decode host daemon.cfg daemon.reg ([] ∷ [] ∷ []) daemon.engine []).0
boot-AllWelcome_example =
    boot-AllWelcome machine daemon decode host [] ([] ∷ [] ∷ []) booted refl capacity-pos

readyz-Runnable_example :
    (d : Diagnosis) × (readyz (λ path. none) cfg registry ≡ done d)
    × (◌≡◌ {A = Option Bytes} d.nsjail none)
    × (keys d.languages ≡ names registry)
    × ((d.code ≡ status_ok)
        ↔ ((◌≡◌ {A = Option Bytes} none none) × LanguagesRunnable (λ path. none) registry))
readyz-Runnable_example = readyz-Runnable (λ path. none) registry registry-IsLoaded cfg
