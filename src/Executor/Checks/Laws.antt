-- ===== src/Executor/Checks/Laws.antt =====
-- What the checks of a request accept.
use code_sandbox.Prelude.{
  In, ℕ, ◌+◌, ◌≡◌, ◌↔◌, refl, true, none, List, [], ◌∷◌, arith, ℤ, ◌≤ℤ◌, Bytes, bytes_eq_iff,
}
use code_sandbox.Registry.{Phase}
use code_sandbox.Executor.Types.{TestCase, Request}
use code_sandbox.Executor.Checks.{allows, filter_flags, bound_tests, bound_overrides}

allows_iff : (allowed : List Bytes) (u : Bytes) → (allows allowed u ≡ true) ↔ In u allowed
unfolding allows
allows_iff [] u = ((λ h. cc), (λ h. elim h [ ]))
allows_iff (a ∷ allowed) u = ground (arith, bytes_eq_iff a u, allows_iff allowed u)

abbrev pub AllIn : List Bytes → List Bytes → Type 0
AllIn [] allowed = Unit {0}
AllIn (u ∷ user) allowed = In u allowed × AllIn user allowed

-- filterFlags accepts a list of flags exactly when each one is among the allowed ones.
pub filter_flags_iff :
    (user allowed : List Bytes) → (filter_flags user allowed ≡ none) ↔ AllIn user allowed
unfolding filter_flags
filter_flags_iff [] allowed = ((λ h. tt), (λ h. refl))
filter_flags_iff (u ∷ user) allowed =
    ground (arith, allows_iff allowed u, filter_flags_iff user allowed)

-- No test case asks for more than the maxima.
abbrev pub TestsWithin : ℤ → ℤ → List TestCase → Type 0
TestsWithin max_t max_m [] = Unit {0}
TestsWithin max_t max_m (tc ∷ tcs) =
    (tc.time_limit_s ≤ℤ max_t) × (tc.memory_kb ≤ℤ max_m) × TestsWithin max_t max_m tcs

bound_tests_iff :
    (max_t max_m : ℤ) (i : ℕ) (tcs : List TestCase)
    → (bound_tests max_t max_m i tcs ≡ none) ↔ TestsWithin max_t max_m tcs
unfolding bound_tests
bound_tests_iff max_t max_m i [] = ((λ h. tt), (λ h. refl))
bound_tests_iff max_t max_m i (tc ∷ tcs) = ground (arith, bound_tests_iff max_t max_m (i + 1) tcs)

-- boundOverrides accepts a request exactly when neither the request nor any of its test cases asks
-- for more time or memory than the language's run phase allows.
pub bound_overrides_iff :
    (run : Phase) (req : Request)
    → (bound_overrides run req ≡ none) ↔ (
        (req.time_limit_s ≤ℤ run.time_limit_s)
        × (req.memory_kb ≤ℤ run.memory_kb)
        × TestsWithin run.time_limit_s run.memory_kb req.test_cases)
unfolding bound_overrides
bound_overrides_iff run req =
    ground (arith, bound_tests_iff run.time_limit_s run.memory_kb 0 req.test_cases)
