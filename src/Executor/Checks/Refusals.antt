-- ===== src/Executor/Checks/Refusals.antt =====
-- The errors of filterFlags and boundOverrides are faults of the request.
use code_sandbox.Prelude.{ℕ, ◌+◌, Option, none, some, List, [], ◌∷◌, arith, ℤ, Bytes}
use code_sandbox.Registry.{Phase}
use code_sandbox.Executor.Types.{TestCase, Request, RunError, IsRequestError}
use code_sandbox.Executor.Checks.{filter_flags, bound_tests, bound_overrides}

abbrev pub Refusal : Option RunError → Type 0
Refusal none = Unit {0}
Refusal (some e) = IsRequestError e

pub filter_flags-Refusal : (user allowed : List Bytes) → Refusal (filter_flags user allowed)
unfolding filter_flags
filter_flags-Refusal [] allowed = tt
filter_flags-Refusal (u ∷ user) allowed = ground (arith, filter_flags-Refusal user allowed)

bound_tests-Refusal : (t m : ℤ) (i : ℕ) (tcs : List TestCase) → Refusal (bound_tests t m i tcs)
unfolding bound_tests
bound_tests-Refusal t m i [] = tt
bound_tests-Refusal t m i (tc ∷ tcs) = ground (arith, bound_tests-Refusal t m (i + 1) tcs)

pub bound_overrides-Refusal : (run : Phase) (req : Request) → Refusal (bound_overrides run req)
unfolding bound_overrides
bound_overrides-Refusal run req =
    ground (arith, bound_tests-Refusal run.time_limit_s run.memory_kb 0 req.test_cases)
