-- ===== src/Executor/Run/Acceptance.antt =====
-- Which requests Run executes, stated without the order of its checks.
use code_sandbox.Prelude.{
  ◌≡◌, ◌≢◌, ◌↔◌, refl, sym, ap, subst, ◌⊎◌, true, Option, none, some, List, [], arith, pos, ◌≤ℤ◌,
  Bytes, bytes_eq_iff, length, ok,
}
use code_sandbox.Host.{done, panicked}
use code_sandbox.Config.{Config}
use code_sandbox.Registry.{Phase, Language, Registry, get, validate}
use code_sandbox.Registry.Loading.{IsLoaded}
use code_sandbox.Executor.Types.{Request, RunError}
use code_sandbox.Executor.Checks.{safe_name}
use code_sandbox.Executor.Checks.Laws.{AllIn, filter_flags_iff, TestsWithin, bound_overrides_iff}
use code_sandbox.Executor.Run.{
  phase_flags, check_overrides, check_run_flags, check_build_flags, unsafe_name, check_language,
  check_found, check,
}

-- Every flag is allowed by the phase, if there is one.
abbrev pub FlagsAllowed : Option Phase → List Bytes → Type 0
FlagsAllowed none flags = Unit {0}
FlagsAllowed (some phase) flags = AllIn flags phase.allowed_flags

-- There is a run phase, and the request's limits and those of its test cases are within its own.
abbrev pub LimitsWithin : Option Phase → Request → Type 0
LimitsWithin none req = ⊥
LimitsWithin (some phase) req =
    (req.time_limit_s ≤ℤ phase.time_limit_s)
    × (req.memory_kb ≤ℤ phase.memory_kb)
    × TestsWithin phase.time_limit_s phase.memory_kb req.test_cases

abbrev pub NamesSafe : Language → Type 0
NamesSafe lang =
    (safe_name lang.source_file ≡ true) × ((lang.artifact ≡ []) ⊎ (safe_name lang.artifact ≡ true))

pub record IsAcceptable (cfg : Config) (lang : Language) (req : Request) : Type 0 where
  pub source_fits : pos (length req.source) ≤ℤ cfg.max_source_bytes
  pub tests_fit : pos (length req.test_cases) ≤ℤ cfg.max_test_cases
  pub names_safe : NamesSafe lang
  pub build_flags : FlagsAllowed lang.build req.build_flags
  pub run_flags : FlagsAllowed lang.run req.run_flags
  pub limits : LimitsWithin lang.run req

unsafe_name_iff : (lang : Language) → (unsafe_name lang ≡ none) ↔ NamesSafe lang
unfolding unsafe_name
unsafe_name_iff lang = ground (arith, bytes_eq_iff lang.artifact [])

phase_flags_iff :
    (phase : Option Phase) (flags : List Bytes)
    → (phase_flags phase flags ≡ none) ↔ FlagsAllowed phase flags
unfolding phase_flags
phase_flags_iff none flags = ((λ h. tt), (λ h. refl))
phase_flags_iff (some phase) flags = filter_flags_iff flags phase.allowed_flags

check_overrides_iff :
    (phase : Option Phase) (lang l : Language) (req : Request)
    → (check_overrides phase lang req ≡ done (ok l)) ↔ ((lang ≡ l) × LimitsWithin phase req)
unfolding check_overrides
check_overrides_iff none lang l req = ((λ h. cc), (λ h. elim h.1 [ ]))
check_overrides_iff (some phase) lang l req = ground (arith, bound_overrides_iff phase req)

check_run_flags_iff :
    (e : Option RunError) (lang l : Language) (req : Request)
    → (check_run_flags e lang req ≡ done (ok l))
      ↔ ((e ≡ none) × (lang ≡ l) × LimitsWithin lang.run req)
unfolding check_run_flags
check_run_flags_iff none lang l req = ground (arith, check_overrides_iff lang.run lang l req)
check_run_flags_iff (some e) lang l req = ((λ h. cc), (λ h. cc))

check_build_flags_iff :
    (e : Option RunError) (lang l : Language) (req : Request)
    → (check_build_flags e lang req ≡ done (ok l))
      ↔ ((e ≡ none) × FlagsAllowed lang.run req.run_flags × (lang ≡ l) × LimitsWithin lang.run req)
unfolding check_build_flags
check_build_flags_iff none lang l req = ground (
  arith,
  check_run_flags_iff (phase_flags lang.run req.run_flags) lang l req,
  phase_flags_iff lang.run req.run_flags,
)
check_build_flags_iff (some e) lang l req = ((λ h. cc), (λ h. cc))

check_language_iff :
    (cfg : Config) (lang l : Language) (req : Request)
    → (check_language cfg lang req ≡ done (ok l)) ↔ ((lang ≡ l) × IsAcceptable cfg lang req)
unfolding check_language
check_language_iff cfg lang l req = ground (
  arith,
  unsafe_name_iff lang,
  phase_flags_iff lang.build req.build_flags,
  check_build_flags_iff (phase_flags lang.build req.build_flags) lang l req,
)

check_found_iff :
    (cfg : Config) (found : Option Language) (lang : Language) (req : Request)
    → (check_found cfg found req ≡ done (ok lang))
      ↔ ((found ≡ some lang) × IsAcceptable cfg lang req)
unfolding check_found
check_found_iff cfg none lang req = ((λ h. cc), (λ h. cc h.0))
check_found_iff cfg (some l) lang req = (
  λ h.
      let (e, a) = (check_language_iff cfg l lang req).0 h in
      (ap some e, subst (λ x. IsAcceptable cfg x req) e a),
  λ h.
      let e : l ≡ lang = cc h.0 in
      (check_language_iff cfg l lang req).1 (e, subst (λ x. IsAcceptable cfg x req) (sym e) h.1),
)

-- Run goes on to execute a request exactly when its language is registered, source and tests are
-- within the configured sizes, the language's file names are safe, each flag is allowed by its
-- phase, there is a run phase, and no time or memory limit passes that of the run phase.
pub check_iff :
    (cfg : Config) (reg : Registry) (lang : Language) (req : Request)
    → (check cfg reg req ≡ done (ok lang))
      ↔ ((get reg req.language ≡ some lang) × IsAcceptable cfg lang req)
unfolding check
check_iff cfg reg lang req = check_found_iff cfg (get reg req.language) lang req

pub validate-run-ne-none : (l : Language) → validate l ≡ none → l.run ≢ none
unfolding validate
validate-run-ne-none l h = ground arith

check_overrides-ne-panicked :
    (phase : Option Phase) (lang : Language) (req : Request)
    → phase ≢ none
    → check_overrides phase lang req ≢ panicked
unfolding check_overrides
check_overrides-ne-panicked none lang req h = λ e. h refl
check_overrides-ne-panicked (some phase) lang req h = λ e. cc

check_language-ne-panicked :
    (cfg : Config) (lang : Language) (req : Request)
    → lang.run ≢ none
    → check_language cfg lang req ≢ panicked
unfolding check_language check_run_flags
check_language-ne-panicked cfg lang req h =
    ground (arith, check_overrides-ne-panicked lang.run lang req)

check_found-ne-panicked :
    (cfg : Config) (found : Option Language) (req : Request)
    → ((l : Language) → found ≡ some l → l.run ≢ none)
    → check_found cfg found req ≢ panicked
unfolding check_found
check_found-ne-panicked cfg none req h = λ e. cc
check_found-ne-panicked cfg (some l) req h = check_language-ne-panicked cfg l req (h l refl)

-- With a registry whose languages have passed `validate`, no request makes the checks panic.
pub check-ne-panicked :
    (cfg : Config) (reg : Registry) (req : Request) → IsLoaded reg → check cfg reg req ≢ panicked
unfolding check
check-ne-panicked cfg reg req loaded =
    check_found-ne-panicked cfg (get reg req.language) req
      λ l e. validate-run-ne-none l (loaded.at_name req.language l e).1
