-- ===== src/Executor/Run/Checking.antt =====
-- The checks of Executor.Run in internal/executor/executor.go, from the lookup of the language to the
-- limits that the request asks for.
use code_sandbox.Prelude.{
  not, ◌&&◌, Option, none, some, List, [], if◌then◌else◌, pos, ltb_ℤ, Bytes, bytes_eq, length,
  Result, ok, err,
}
use code_sandbox.Host.{Out, done, panicked}
use code_sandbox.Config.{Config}
use code_sandbox.Registry.{Phase, Language, Registry, get}
use code_sandbox.Executor.Types.{
  Request, RunError, unknown_language, source_too_large, too_many_tests, unsafe_source_file,
  unsafe_artifact,
}
use code_sandbox.Executor.Checks.{safe_name, filter_flags, bound_overrides}

-- `if err != nil { return ..., err }`, going on with a otherwise
abbrev pub unless {ℓ} : {A : Type ℓ} → Option RunError → A → Result RunError A
unless none a = ok a
unless (some e) a = err e

-- filterFlags, if the phase is there
unfoldable pub phase_flags : Option Phase → List Bytes → Option RunError
phase_flags none user = none
phase_flags (some phase) user = filter_flags user phase.allowed_flags

-- boundOverrides of the language; a nil run phase is a panic
unfoldable pub check_overrides : Option Phase → Language → Request → Out (Result RunError Language)
check_overrides none lang req = panicked
check_overrides (some phase) lang req = done (unless (bound_overrides phase req) lang)

unfoldable pub check_run_flags :
    Option RunError → Language → Request → Out (Result RunError Language)
unfolding check_overrides
check_run_flags (some e) lang req = done (err e)
check_run_flags none lang req = check_overrides lang.run lang req

unfoldable pub check_build_flags :
    Option RunError → Language → Request → Out (Result RunError Language)
unfolding check_run_flags phase_flags
check_build_flags (some e) lang req = done (err e)
check_build_flags none lang req = check_run_flags (phase_flags lang.run req.run_flags) lang req

-- The artifact may be empty; it is looked at only if it is not.
unfoldable pub unsafe_name : Language → Option RunError
unsafe_name lang =
    if not (safe_name lang.source_file)
    then some unsafe_source_file
    else if not (bytes_eq lang.artifact []) && not (safe_name lang.artifact)
    then some unsafe_artifact
    else none

unfoldable pub check_language : Config → Language → Request → Out (Result RunError Language)
unfolding unsafe_name check_build_flags phase_flags
check_language cfg lang req =
    if ltb_ℤ cfg.max_source_bytes (pos (length req.source))
    then done (err source_too_large)
    else if ltb_ℤ cfg.max_test_cases (pos (length req.test_cases))
    then done (err too_many_tests)
    else elim (unsafe_name lang) [
      | some e ↦ done (err e)
      | none ↦ check_build_flags (phase_flags lang.build req.build_flags) lang req
    ]

unfoldable pub check_found : Config → Option Language → Request → Out (Result RunError Language)
unfolding check_language
check_found cfg none req = done (err unknown_language)
check_found cfg (some lang) req = check_language cfg lang req

-- The checks of Run, in its order, up to the creation of the job directory.
unfoldable pub check : Config → Registry → Request → Out (Result RunError Language)
unfolding check_found
check cfg reg req = check_found cfg (get reg req.language) req
