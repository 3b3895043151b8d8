-- ===== src/Api/Status.antt =====
-- The handlers of internal/api/api.go that report on the daemon: healthz, readyz, info and metrics.
-- os.Stat is a parameter: its error for a path, if there is one.
pub mod Ready
pub mod Metrics
use code_sandbox.Prelude.{
  ℕ, ◌≡◌, refl, Bool, true, false, ◌&&◌, Option, none, some, List, [], ◌∷◌, if◌then◌else◌, ℤ, Bytes,
  codes,
}
use code_sandbox.Host.{Out, done, panicked}
use code_sandbox.Config.{Config}
use code_sandbox.Dict.{Dict}
use code_sandbox.Registry.{Phase, Language, Registry, get, names}
use code_sandbox.Executor.Stats.{StatsSnapshot, snapshot}
use code_sandbox.Executor.Run.{Engine}
use code_sandbox.Api.{Code, status_ok, status_service_unavailable}

-- What readyz writes: nsjail's error, and for each language the program that is missing, if any.
pub record Diagnosis : Type 0 where
  pub code : Code
  pub nsjail : Option Bytes
  pub languages : Dict (Option Bytes)

-- The compiler of a compiled language, and the interpreter of any other.
unfoldable pub probe_with : Phase → Option Phase → Bytes
probe_with run none = run.command
probe_with run (some build) = build.command

-- lang.Run.Command is read first: a nil run phase is a panic
unfoldable pub probe : Option Phase → Option Phase → Out Bytes
unfolding probe_with
probe none build = panicked
probe (some run) build = done (probe_with run build)

-- A name that the registry has not gives the zero Language, whose run phase is nil.
unfoldable pub probe_found : Option Language → Out Bytes
unfolding probe
probe_found none = panicked
probe_found (some lang) = probe lang.run lang.build

unfoldable pub is_none {ℓ} : {A : Type ℓ} → Option A → Bool
is_none none = true
is_none (some a) = false

-- "missing: " and the probe, or "ok"
unfoldable pub missing : Bytes → Option Bytes → Option Bytes
missing path none = none
missing path (some e) = some path

unfoldable pub all_found : Dict (Option Bytes) → Bool
unfolding is_none
all_found [] = true
all_found ((k, o) ∷ d) = is_none o && all_found d

module _ (stat : Bytes → Option Bytes) where
  -- One round of the loop, before the rest.
  unfoldable pub diagnose :
      Bytes → Out Bytes → Out (Dict (Option Bytes)) → Out (Dict (Option Bytes))
  unfolding missing
  diagnose name (done path) (done d) = done ((name, missing path (stat path)) ∷ d)
  diagnose name panicked rest = panicked
  diagnose name (done path) panicked = panicked

  unfoldable pub diagnose_all : Registry → List Bytes → Out (Dict (Option Bytes))
  unfolding diagnose probe_found
  diagnose_all reg [] = done []
  diagnose_all reg (name ∷ rest) =
      diagnose name (probe_found (get reg name)) (diagnose_all reg rest)

  unfoldable pub ready_code : Bool → Code
  ready_code healthy = if healthy then status_ok else status_service_unavailable

  unfoldable pub diagnosis : Option Bytes → Out (Dict (Option Bytes)) → Out Diagnosis
  unfolding ready_code all_found
  diagnosis nsjail panicked = panicked
  diagnosis nsjail (done d) =
      done (record {
        code = ready_code (is_none nsjail && all_found d);
        nsjail = nsjail;
        languages = d;
      })

  -- readyz
  unfoldable pub readyz : Config → Registry → Out Diagnosis
  unfolding diagnosis diagnose_all names
  readyz cfg reg = diagnosis (stat cfg.nsjail_path) (diagnose_all reg (names reg))

-- healthz
unfoldable pub healthz : Code × Bytes
healthz = (status_ok, codes "ok")

pub record Info : Type 0 where
  pub nsjail_path : Bytes
  pub languages : List Bytes
  pub max_concurrency : ℤ
  pub max_source_bytes : ℤ
  pub max_output_bytes : ℤ
  pub max_test_cases : ℤ

-- info, less the versions
unfoldable pub info : Config → Registry → Info
unfolding names
info cfg reg = record {
  nsjail_path = cfg.nsjail_path;
  languages = names reg;
  max_concurrency = cfg.max_concurrency;
  max_source_bytes = cfg.max_source_bytes;
  max_output_bytes = cfg.max_output_bytes;
  max_test_cases = cfg.max_test_cases;
}

-- metrics: Executor.Stats, of the states of the executor at the copy of the ring and at the loads of the
-- total, of the rejected calls and of the calls in flight
unfoldable pub metrics : Config → Engine → Engine → Engine → Engine → Out StatsSnapshot
metrics cfg copied e1 e2 e3 =
    snapshot copied.stats e1.stats.total e2.stats.rejected e3.stats.in_flight cfg.max_concurrency
      cfg.queue_depth
