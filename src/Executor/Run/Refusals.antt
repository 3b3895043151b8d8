-- ===== src/Executor/Run/Refusals.antt =====
-- The errors with which the checks of Run refuse a request.
use code_sandbox.Prelude.{◌≡◌, subst, Option, none, some, List, arith, Bytes, Result, ok, err}
use code_sandbox.Host.{Out, done, panicked}
use code_sandbox.Config.{Config}
use code_sandbox.Registry.{Phase, Language, Registry, get}
use code_sandbox.Executor.Types.{Request, RunError, IsRequestError}
use code_sandbox.Executor.Checks.{bound_overrides}
use code_sandbox.Executor.Checks.Refusals.{Refusal, filter_flags-Refusal, bound_overrides-Refusal}
use code_sandbox.Executor.Run.{
  phase_flags, check_overrides, check_run_flags, check_build_flags, unsafe_name, check_language,
  check_found, check, unless,
}

abbrev Refuses : Out (Result RunError Language) → Type 0
Refuses (done (err e)) = IsRequestError e
Refuses (done (ok l)) = Unit {0}
Refuses panicked = Unit {0}

phase_flags-Refusal : (phase : Option Phase) (user : List Bytes) → Refusal (phase_flags phase user)
unfolding phase_flags
phase_flags-Refusal none user = tt
phase_flags-Refusal (some phase) user = filter_flags-Refusal user phase.allowed_flags

unsafe_name-Refusal : (lang : Language) → Refusal (unsafe_name lang)
unfolding unsafe_name
unsafe_name-Refusal lang = ground arith

unless-Refuses :
    (o : Option RunError) (lang : Language) → Refusal o → Refuses (done (unless o lang))
unless-Refuses none lang h = tt
unless-Refuses (some e) lang h = h

check_overrides-Refuses :
    (phase : Option Phase) (lang : Language) (req : Request)
    → Refuses (check_overrides phase lang req)
unfolding check_overrides
check_overrides-Refuses none lang req = tt
check_overrides-Refuses (some phase) lang req =
    unless-Refuses (bound_overrides phase req) lang (bound_overrides-Refusal phase req)

check_run_flags-Refuses :
    (o : Option RunError) (lang : Language) (req : Request)
    → Refusal o
    → Refuses (check_run_flags o lang req)
unfolding check_run_flags
check_run_flags-Refuses none lang req h = check_overrides-Refuses lang.run lang req
check_run_flags-Refuses (some e) lang req h = h

check_build_flags-Refuses :
    (o : Option RunError) (lang : Language) (req : Request)
    → Refusal o
    → Refuses (check_build_flags o lang req)
unfolding check_build_flags
check_build_flags-Refuses none lang req h =
    check_run_flags-Refuses (phase_flags lang.run req.run_flags) lang req
      (phase_flags-Refusal lang.run req.run_flags)
check_build_flags-Refuses (some e) lang req h = h

check_language-Refuses :
    (cfg : Config) (lang : Language) (req : Request) → Refuses (check_language cfg lang req)
unfolding check_language
check_language-Refuses cfg lang req = ground (
  arith,
  unsafe_name-Refusal lang,
  check_build_flags-Refuses (phase_flags lang.build req.build_flags) lang req
      (phase_flags-Refusal lang.build req.build_flags),
)

check_found-Refuses :
    (cfg : Config) (found : Option Language) (req : Request) → Refuses (check_found cfg found req)
unfolding check_found
check_found-Refuses cfg none req = tt
check_found-Refuses cfg (some lang) req = check_language-Refuses cfg lang req

-- A refusal names a fault of the request or of its language.
pub check-IsRequestError :
    (cfg : Config) (reg : Registry) (req : Request) (e : RunError)
    → check cfg reg req ≡ done (err e)
    → IsRequestError e
unfolding check
check-IsRequestError cfg reg req e h =
    subst Refuses h (check_found-Refuses cfg (get reg req.language) req)
