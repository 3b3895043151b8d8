-- ===== src/Executor/Phases/Limits.antt =====
-- The sandbox runs that the phases start, and the results that they return.
use code_sandbox.Prelude.{
  ◌*ℤ◌, int64, pos, arith, leb_ℤ, if◌then◌else◌, ◌≡◌, refl, sym, subst, ◌⊎◌, inl, inr, Option, none,
  some, List, [], ◌∷◌, ℤ, ◌≤ℤ◌, Bytes,
}
use code_sandbox.Host.{Host, Event, clock_read, process_ran}
use code_sandbox.Host.Runs.{Runs, Runs-pure, Runs-bind}
use code_sandbox.Config.{Config}
use code_sandbox.Registry.{Phase, Language}
use code_sandbox.Sandbox.{RunSpec, process_of}
use code_sandbox.Sandbox.Total.{run-Runs}
use code_sandbox.Executor.Types.{TestCase, SandboxError, RunError, IsHostError}
use code_sandbox.Sandbox.Exit.{Outcome}
use code_sandbox.Executor.Checks.{effective}
use code_sandbox.Executor.Checks.Laws.{TestsWithin}
use code_sandbox.Executor.Phases.{
  duration_s, build_time, build_spec, run_spec, build_result, test_result, compare_result,
  run_build, run_phase, run_one, run_test, run_tests,
}
use code_sandbox.Executor.Phases.Statuses.{
  Says, AllSay, IsRunStatus, test_result-IsRunStatus, compare_result-status,
}

-- There is no error, or one of the host.
abbrev pub HostFailure : Option RunError → Type 0
HostFailure none = Unit {0}
HostFailure (some e) = IsHostError e

build_result-HostFailure : (a : Outcome × Option SandboxError) → HostFailure (build_result a).1
unfolding build_result
build_result-HostFailure (res, none) = tt
build_result-HostFailure (res, some e) = tt

-- The limit itself, or a positive amount that is no more.
abbrev pub IsWithin : ℤ → ℤ → Type 0
IsWithin limit x = (x ≡ limit) ⊎ ((pos 1 ≤ℤ x) × (x ≤ℤ limit))

effective-IsWithin : (limit x : ℤ) → x ≤ℤ limit → IsWithin limit (effective limit x)
unfolding effective
effective-IsWithin limit x h = ground arith

-- Nanoseconds, as an int64.
abbrev pub nanoseconds : ℤ → ℤ
nanoseconds s = int64 (s *ℤ 1_000_000_000)

-- The time of a build is that of its phase, or 30 seconds if that is not positive.
abbrev pub IsBuildTime : Phase → ℤ → Type 0
IsBuildTime phase t =
    ((pos 1 ≤ℤ nanoseconds phase.time_limit_s) × (t ≡ nanoseconds phase.time_limit_s))
    ⊎ ((nanoseconds phase.time_limit_s ≤ℤ pos 0) × (t ≡ pos 30_000_000_000))

positive-or-default :
    (z : ℤ)
    → ((pos 1 ≤ℤ z) × ((if leb_ℤ z (pos 0) then pos 30_000_000_000 else z) ≡ z))
      ⊎ ((z ≤ℤ pos 0) × ((if leb_ℤ z (pos 0) then pos 30_000_000_000 else z) ≡ pos 30_000_000_000))
positive-or-default z = ground arith

build_time-IsBuildTime : (phase : Phase) → IsBuildTime phase (build_time phase)
unfolding build_time duration_s
build_time-IsBuildTime phase = positive-or-default (nanoseconds phase.time_limit_s)

module _ (cfg : Config) (lang : Language) (job_dir : Bytes) where
  -- A build runs the build phase's command within its limits.
  pub record IsBuild (spec : RunSpec) : Type 0 where
    pub phase : Phase
    pub is_phase : lang.build ≡ some phase
    pub command : spec.command ≡ phase.command
    pub wall_time : IsBuildTime phase spec.wall_time
    pub memory : spec.memory_kb ≡ phase.memory_kb
    pub processes : spec.max_processes ≡ phase.max_processes

  -- A run of the program is given the time and the memory of the run phase, or a positive amount that
  -- is no more, whatever the request asks for.
  pub record IsRun (spec : RunSpec) : Type 0 where
    pub phase : Phase
    pub is_phase : lang.run ≡ some phase
    pub command : spec.command ≡ phase.command
    pub seconds : ℤ
    pub wall_time : spec.wall_time ≡ nanoseconds seconds
    pub seconds_within : IsWithin phase.time_limit_s seconds
    pub memory_within : IsWithin phase.memory_kb spec.memory_kb
    pub processes : spec.max_processes ≡ phase.max_processes

  pub record IsConfined (spec : RunSpec) : Type 0 where
    pub nsjail : spec.nsjail_path ≡ cfg.nsjail_path
    pub directory : spec.cwd ≡ job_dir
    pub user : spec.uid ≡ cfg.jail_uid
    pub group : spec.gid ≡ cfg.jail_gid
    pub output : spec.max_output ≡ cfg.max_output_bytes
    pub limits : IsBuild spec ⊎ IsRun spec

  build_spec-IsConfined :
      (phase : Phase) (flags : List Bytes)
      → lang.build ≡ some phase
      → IsConfined (build_spec cfg lang phase job_dir flags)
  unfolding build_spec
  build_spec-IsConfined phase flags e = record {
    nsjail = refl;
    directory = refl;
    user = refl;
    group = refl;
    output = refl;
    limits = inl (record {
      phase = phase;
      is_phase = e;
      command = refl;
      wall_time = build_time-IsBuildTime phase;
      memory = refl;
      processes = refl;
    });
  }

  run_spec-IsConfined :
      (phase : Phase) (flags : List Bytes) (stdin : Bytes) (tl mem : ℤ)
      → lang.run ≡ some phase
      → tl ≤ℤ phase.time_limit_s
      → mem ≤ℤ phase.memory_kb
      → IsConfined (run_spec cfg lang phase job_dir flags stdin tl mem)
  unfolding run_spec
  run_spec-IsConfined phase flags stdin tl mem e ht hm = record {
    nsjail = refl;
    directory = refl;
    user = refl;
    group = refl;
    output = refl;
    limits = inr (record {
      phase = phase;
      is_phase = e;
      command = refl;
      seconds = effective phase.time_limit_s tl;
      wall_time = unfold duration_s in refl;
      seconds_within = effective-IsWithin phase.time_limit_s tl ht;
      memory_within = effective-IsWithin phase.memory_kb mem hm;
      processes = refl;
    });
  }

  module _ {P : Event → Type 0} (host : Host) (clock : P clock_read)
      (launches : (spec : RunSpec) → IsConfined spec → P (process_ran (process_of spec))) where
    pub run_build-Runs :
        (phase : Phase) (flags : List Bytes)
        → lang.build ≡ some phase
        → Runs P (λ r. HostFailure r.1) (run_build host cfg lang job_dir phase flags)
    unfolding run_build
    run_build-Runs phase flags e =
        Runs-bind
          (run-Runs host (build_spec cfg lang phase job_dir flags) clock
            (launches _ (build_spec-IsConfined phase flags e)))
          λ answer _. Runs-pure (build_result answer) (build_result-HostFailure answer)

    module _ (phase : Phase) (is_run : lang.run ≡ some phase) (flags : List Bytes) where
      pub run_one-Runs :
          (stdin : Bytes) (tl mem : ℤ)
          → tl ≤ℤ phase.time_limit_s
          → mem ≤ℤ phase.memory_kb
          → Runs P (λ tr. IsRunStatus tr.status) (run_one host cfg lang job_dir flags stdin tl mem)
      unfolding run_one run_phase
      run_one-Runs stdin tl mem ht hm =
          subst
            (λ o.
              Runs P (λ tr. IsRunStatus tr.status)
                (run_phase host cfg lang job_dir o flags stdin tl mem))
            (sym is_run)
            (Runs-bind
              (run-Runs host (run_spec cfg lang phase job_dir flags stdin tl mem) clock
                (launches _ (run_spec-IsConfined phase flags stdin tl mem is_run ht hm)))
              λ answer _. Runs-pure (test_result answer) (test_result-IsRunStatus answer))

      run_test-Runs :
          (tc : TestCase)
          → tc.time_limit_s ≤ℤ phase.time_limit_s
          → tc.memory_kb ≤ℤ phase.memory_kb
          → Runs P
              (λ tr. Says tr.status tr.stdout tc.expected_output)
              (run_test host cfg lang job_dir flags tc)
      unfolding run_test
      run_test-Runs tc ht hm =
          Runs-bind (run_one-Runs tc.input tc.time_limit_s tc.memory_kb ht hm)
            λ tr h. Runs-pure (compare_result tc tr) (compare_result-status tc tr h)

      pub run_tests-Runs :
          (tcs : List TestCase)
          → TestsWithin phase.time_limit_s phase.memory_kb tcs
          → Runs P (AllSay tcs) (run_tests host cfg lang job_dir flags tcs)
      unfolding run_tests
      run_tests-Runs [] h = Runs-pure [] tt
      run_tests-Runs (tc ∷ tcs) h =
          Runs-bind (run_test-Runs tc h.0 h.1) λ tr says.
            Runs-bind (run_tests-Runs tcs h.2) λ trs all. Runs-pure (tr ∷ trs) (says, all)
