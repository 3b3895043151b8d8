-- ===== src/Tests/Requests.antt =====
-- A request, a submitted job, and calls that interleave.
use code_sandbox.Prelude.{
  FitsInt64, int64, ℤ, ◌+ℤ◌, pos, ◌≡◌, ◌≤ℤ◌, refl, ◌↔◌, ◌⊎◌, inl, true, some, [], ◌∷◌, arith, Bytes,
  Result, codes, bytes_eq, ok,
}
use code_sandbox.Strings.Paths.{join_path}
use code_sandbox.Strings.Paths.Beneath.{Placed}
use code_sandbox.Executor.Run.Placement.{check-Placed}
use code_sandbox.Executor.Run.{job_dir_of}
use code_sandbox.Host.{done}
use code_sandbox.Strings.{has_suffix}
use code_sandbox.Dict.{insert}
use code_sandbox.Executor.Checks.{safe_name, filter_flags, allows, bound_overrides}
use code_sandbox.Registry.{validate, Registry, get, new, load_dir}
use code_sandbox.Registry.Loading.{IsLoaded, load_dir-new-IsLoaded}
use code_sandbox.Executor.Checks.{safe_name, filter_flags, allows, bound_overrides}
use code_sandbox.Executor.Stats.Window.{new_stats-Holds}
use code_sandbox.Executor.Run.Passing.{IsAccepted, Passes, run-IsAccepted_iff}
use code_sandbox.Executor.Run.{
  Answer, run, capacity, idle, engine_of, new_engine, has_room, check, run_request,
}
use code_sandbox.Executor.Run.Acceptance.{IsAcceptable, check_iff}
use code_sandbox.Executor.Run.Cleanup.{Accepted, Refused, run_request_outcome}
use code_sandbox.Executor.Run.Whole.{Ended, run_ends}
use code_sandbox.Executor.Run.Overrides.{with_limits, run_request-with_limits}
use code_sandbox.Executor.Admission.{Pool, start, send, count, enter, Reach, here, next}
use code_sandbox.Executor.Admission.Books.{IsConsistent, Reach-IsConsistent}
use code_sandbox.Executor.Admission.Full.{Reach-active}
use code_sandbox.Worker.Handling.{handle_message}
use code_sandbox.Worker.Jobs.{Job, request_with}
use code_sandbox.Worker.Empty.{Crashed, WasRun, handle_message-submit_empty}
use code_sandbox.Tests.Data.{
  host, cfg, python, files, registry, two_and_three, request, job, message,
}

pub registry-IsLoaded : IsLoaded registry
registry-IsLoaded = load_dir-new-IsLoaded files (codes "/langs")

run_request_outcome_example :
    Accepted host cfg registry request [] ⊎ Refused host cfg registry request []
run_request_outcome_example = run_request_outcome host cfg registry request [] registry-IsLoaded

run_ends_example : Ended host cfg registry request idle [] []
run_ends_example = run_ends host cfg registry request idle [] [] registry-IsLoaded new_stats-Holds

check_iff_example :
    (check cfg registry request ≡ done (ok python))
    ↔ ((get registry request.language ≡ some python) × IsAcceptable cfg python request)
check_iff_example = check_iff cfg registry python request

pub new_engine_lem : new_engine cfg ≡ done idle
unfolding new_engine engine_of capacity int64 ◌+ℤ◌
new_engine_lem = refl

idle-has_room : has_room cfg idle ≡ true
unfolding capacity int64 ◌+ℤ◌
idle-has_room = refl

-- A call that has been admitted and counted.
pub one_call : (q : Pool) × Reach cfg (start idle) q × (q.running ≡ 1)
one_call =
    let a = next here (send idle-has_room) in
    let b = next a (count 0 refl) in (_, next b (enter 0 refl), refl)

Reach-IsConsistent_example : IsConsistent cfg one_call.0
Reach-IsConsistent_example = Reach-IsConsistent cfg idle one_call.0 new_engine_lem one_call.1

sum_fits : FitsInt64 (cfg.max_concurrency +ℤ cfg.queue_depth)
unfolding ◌+ℤ◌
sum_fits = record { below = omega arith; above = omega arith }

Reach-active_example : (q : Pool) × Reach cfg (start idle) q × (q.running ≡ 3)
unfolding ◌+ℤ◌
Reach-active_example = Reach-active cfg idle 3 new_engine_lem sum_fits (omega arith)

module _ (t m : ℤ) (t_fits : t ≤ℤ pos 5) (m_fits : m ≤ℤ pos 65536) where
  with_limits-IsAcceptable : IsAcceptable cfg python (with_limits request t m)
  unfolding safe_name
  with_limits-IsAcceptable = record {
    source_fits = omega arith;
    tests_fit = omega arith;
    names_safe = (refl, inl refl);
    build_flags = tt;
    run_flags = (inl refl, tt);
    limits = (t_fits, m_fits, (omega arith, omega arith, tt));
  }

abbrev only_python : Registry
only_python = record { languages = (codes "py", python) ∷ [] }

python_registered : get only_python request.language ≡ some python
unfolding get bytes_eq
python_registered = refl

run_request-with_limits_example :
    run_request host cfg only_python (with_limits request (pos 3) (pos 2048))
    ≡ run_request host cfg only_python request
run_request-with_limits_example =
    run_request-with_limits host cfg python request (pos 3) (pos 2048) two_and_three [] refl
      only_python python_registered
      (with_limits-IsAcceptable (pos 2) (pos 1024) (omega arith) (omega arith))
      (with_limits-IsAcceptable (pos 3) (pos 2048) (omega arith) (omega arith))

load_dir-new-IsLoaded_example : IsLoaded (load_dir files new (codes "/langs")).0
load_dir-new-IsLoaded_example = load_dir-new-IsLoaded files (codes "/langs")

run-IsAccepted_iff_example :
    (a : Answer) × ((run host cfg registry request idle []).0 ≡ done a)
    × (IsAccepted a ↔ Passes request a)
run-IsAccepted_iff_example =
    run-IsAccepted_iff host cfg registry request idle [] [] two_and_three [] registry-IsLoaded
      new_stats-Holds refl

abbrev empty_job : Job
empty_job = record job { test_cases = [] }

abbrev decode_empty_job : Bytes → Result Bytes Job
decode_empty_job body = ok empty_job

handle_message-submit_empty_example :
    (a : Answer) × ((run host cfg registry (request_with empty_job []) idle []).0 ≡ done a)
    × (Crashed empty_job (handle_message decode_empty_job host cfg registry message idle [])
        ↔ WasRun a)
handle_message-submit_empty_example =
    handle_message-submit_empty decode_empty_job host cfg registry message empty_job idle [] []
      (codes "7") registry-IsLoaded new_stats-Holds refl refl (λ e. cc) (λ e. cc) refl refl

accepts_python : check cfg registry request ≡ done (ok python)
unfolding check validate get load_dir has_suffix bytes_eq new insert safe_name filter_flags allows
    bound_overrides
accepts_python = refl

check-Placed_example :
    Placed cfg.job_root
      (job_dir_of cfg (codes "42"))
      python.source_file
      (join_path (job_dir_of cfg (codes "42")) python.source_file)
check-Placed_example =
    check-Placed cfg registry python request (codes "42") accepts_python (λ e. cc e)
      ((λ e. cc e), ((λ e. cc e), tt))
