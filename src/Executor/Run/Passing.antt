-- ===== src/Executor/Run/Passing.antt =====
-- What the overall status "accepted" says of the tests.
use code_sandbox.Prelude.{
  ◌≡◌, ◌↔◌, refl, ap, sym, ◌∙◌, subst, inl, inr, none, some, List, [], ◌∷◌, map, arith, ℤ,
}
use code_sandbox.Host.{Host, Trace, done}
use code_sandbox.Config.{Config}
use code_sandbox.Registry.{Registry}
use code_sandbox.Registry.Loading.{IsLoaded}
use code_sandbox.Executor.Types.{
  Status, accepted, not_executed, TestCase, TestResult, Request, is_accepted,
}
use code_sandbox.Executor.Output.{output_exact, compare_output}
use code_sandbox.Executor.Stats.Window.{Holds}
use code_sandbox.Executor.Phases.{rollup_tests, only_status}
use code_sandbox.Executor.Phases.Statuses.{Says, AllSay}
use code_sandbox.Executor.Run.{Answer, Engine, run}
use code_sandbox.Executor.Run.Answers.{IsAnswered, TestsOf}
use code_sandbox.Executor.Run.Whole.{run_ends}

-- There is one result for each test case: it is accepted, and its output matches the expected one.
abbrev pub AllPass : List TestCase → List TestResult → Type 0
AllPass [] [] = Unit {0}
AllPass [] (tr ∷ trs) = ⊥
AllPass (tc ∷ tcs) [] = ⊥
AllPass (tc ∷ tcs) (tr ∷ trs) =
    (tr.status ≡ accepted)
    × (compare_output tr.stdout tc.expected_output ≡ output_exact)
    × AllPass tcs trs

rollup_tests_cons :
    (tr : TestResult) (trs : List TestResult)
    → (rollup_tests (tr ∷ trs) ≡ accepted)
      ↔ ((tr.status ≡ accepted) × (rollup_tests trs ≡ accepted))
unfolding rollup_tests is_accepted
rollup_tests_cons tr trs = ground arith

Says-exact :
    (s : Status) (tr : TestResult) (tc : TestCase)
    → s ≡ accepted
    → Says s tr.stdout tc.expected_output
    → compare_output tr.stdout tc.expected_output ≡ output_exact
Says-exact s tr tc e h = subst (λ x. Says x tr.stdout tc.expected_output) e h

rollup_tests_iff :
    (tcs : List TestCase) (trs : List TestResult)
    → AllSay tcs trs
    → (rollup_tests trs ≡ accepted) ↔ AllPass tcs trs
unfolding rollup_tests
rollup_tests_iff [] [] h = ((λ e. tt), (λ e. refl))
rollup_tests_iff [] (tr ∷ trs) h = elim h [ ]
rollup_tests_iff (tc ∷ tcs) [] h = elim h [ ]
rollup_tests_iff (tc ∷ tcs) (tr ∷ trs) h =
    ground
      (arith, rollup_tests_cons tr trs, rollup_tests_iff tcs trs h.1, Says-exact tr.status tr tc)

-- The answer has no error and the status accepted.
abbrev pub IsAccepted : Answer → Type 0
IsAccepted (resp, o) = (o ≡ none) × (resp.status ≡ accepted)

abbrev pub Passes : Request → Answer → Type 0
Passes req (resp, o) = (o ≡ none) × AllPass req.test_cases resp.tests

NotBuilt-fails :
    (tc : TestCase) (tcs : List TestCase)
    → ¬ AllPass (tc ∷ tcs) (map (λ c. only_status not_executed) (tc ∷ tcs))
NotBuilt-fails tc tcs h = cc h.0

well_formed_iff :
    (req : Request) (tc : TestCase) (tcs : List TestCase) (a : Answer)
    → req.test_cases ≡ tc ∷ tcs
    → IsAnswered req a
    → IsAccepted a ↔ Passes req a
well_formed_iff req tc tcs (resp, some e) q h = ((λ x. cc x.0), (λ x. cc x.0))
well_formed_iff req tc tcs (resp, none) q (inl n) = (
  λ x. cc (x.1, n.0),
  λ x. absurd (
      NotBuilt-fails tc tcs (
        subst (λ l. AllPass l (map (λ c. only_status not_executed) l)) q
          (subst (AllPass req.test_cases) n.1 x.1))),
)
well_formed_iff req tc tcs (resp, none) q (inr j) =
    let says = subst (λ l. TestsOf l resp.tests) q j.1 in
    let (to, from) = rollup_tests_iff (tc ∷ tcs) resp.tests says in
    (
      λ x. (refl, subst (λ l. AllPass l resp.tests) (sym q) (to (sym j.0 ∙ x.1))),
      λ x. (refl, j.0 ∙ from (subst (λ l. AllPass l resp.tests) q x.1)),
    )

-- On any host, a call of Run for a request with test cases returns, and its answer has the status
-- accepted and no error exactly when it has no error and there is a result for each test case, in
-- their order, that is accepted and whose output matches the expected one.
pub run-IsAccepted_iff :
    (host : Host) (cfg : Config) (reg : Registry) (req : Request) (e : Engine) (tr : Trace)
    (history : List ℤ) (tc : TestCase) (tcs : List TestCase)
    → IsLoaded reg
    → Holds history e.stats
    → req.test_cases ≡ tc ∷ tcs
    → (a : Answer) × ((run host cfg reg req e tr).0 ≡ done a) × (IsAccepted a ↔ Passes req a)
run-IsAccepted_iff host cfg reg req e tr history tc tcs loaded h q =
    let ended = run_ends host cfg reg req e tr history loaded h in
    (
      ended.answer,
      ap (λ p. p.0) ended.returned,
      well_formed_iff req tc tcs ended.answer q ended.well_formed,
    )
