-- ===== src/Worker/Results.antt =====
-- responseToMap of internal/worker/worker.go, and the downgrade of playground runs before it.
use code_sandbox.Prelude.{
  suc, ◌≤◌, ◌≡◌, ◌↔◌, refl, ap, ◌∙◌, Option, none, some, List, [], ◌∷◌, map, arith, Bytes, length,
}
use native.Mathlib.Decide.{dec_le}
use code_sandbox.Host.{Out, done, panicked}
use code_sandbox.Executor.Types.{
  Status, TestCase, Request, TestResult, BuildPhase, Response, downgrade,
}

-- One entry of "tests": the result, with "stdin" and "expectedOutput" of its test case.
pub record TestEntry : Type 0 where
  pub result : TestResult
  pub stdin : Bytes
  pub expected_output : Bytes

-- The map; an absent key is `none`.
pub record ResultMap : Type 0 where
  pub status : Status
  pub build : Option BuildPhase
  pub tests : Option (List TestEntry)

unfoldable pub cons_entry : TestEntry → Out (List TestEntry) → Out (List TestEntry)
cons_entry x (done xs) = done (x ∷ xs)
cons_entry x panicked = panicked

-- The loop over resp.Tests. req.TestCases[i] panics past the end.
unfoldable pub entries : List TestCase → List TestResult → Out (List TestEntry)
unfolding cons_entry
entries tcs [] = done []
entries [] (t ∷ ts) = panicked
entries (tc ∷ tcs) (t ∷ ts) =
    cons_entry (record { result = t; stdin = tc.input; expected_output = tc.expected_output })
      (entries tcs ts)

unfoldable pub with_tests : Response → Out (List TestEntry) → Out ResultMap
with_tests resp (done []) = done (record { status = resp.status; build = resp.build; tests = none })
with_tests resp (done (x ∷ xs)) =
    done (record { status = resp.status; build = resp.build; tests = some (x ∷ xs) })
with_tests resp panicked = panicked

-- responseToMap
unfoldable pub response_to_map : Request → Response → Out ResultMap
unfolding entries with_tests
response_to_map req resp = with_tests resp (entries req.test_cases resp.tests)

unfoldable pub downgrade_result : TestResult → TestResult
unfolding downgrade
downgrade_result t = record t { status = downgrade t.status }

-- `if job.Type == "run"` of handleMessage
unfoldable pub downgrade_response : Response → Response
unfolding downgrade downgrade_result
downgrade_response resp = record resp {
  status = downgrade resp.status;
  tests = map downgrade_result resp.tests;
}

-- There is an entry for each result if there are as many test cases.
pub entries_done :
    (tcs : List TestCase) (ts : List TestResult)
    → length ts ≤ length tcs
    → (xs : List TestEntry) × (entries tcs ts ≡ done xs)
unfolding entries
entries_done tcs [] h = ([], refl)
entries_done [] (t ∷ ts) h = absurd (omega arith)
entries_done (tc ∷ tcs) (t ∷ ts) h =
    let (xs, e) = entries_done tcs ts (omega arith) in (_ ∷ xs, ap (cons_entry _) e)

-- The loop panics if there are more results than test cases.
entries_short :
    (tcs : List TestCase) (ts : List TestResult)
    → suc (length tcs) ≤ length ts
    → entries tcs ts ≡ panicked
unfolding entries
entries_short tcs [] h = absurd (omega arith)
entries_short [] (t ∷ ts) h = refl
entries_short (tc ∷ tcs) (t ∷ ts) h = ap (cons_entry _) (entries_short tcs ts (omega arith))

pub response_to_map_short :
    (req : Request) (resp : Response)
    → suc (length req.test_cases) ≤ length resp.tests
    → response_to_map req resp ≡ panicked
unfolding response_to_map with_tests
response_to_map_short req resp h = ap (with_tests resp) (entries_short req.test_cases resp.tests h)

with_tests_done :
    (resp : Response) (xs : List TestEntry) → (m : ResultMap) × (with_tests resp (done xs) ≡ done m)
unfolding with_tests
with_tests_done resp [] = (_, refl)
with_tests_done resp (x ∷ xs) = (_, refl)

pub response_to_map_done :
    (req : Request) (resp : Response)
    → length resp.tests ≤ length req.test_cases
    → (m : ResultMap) × (response_to_map req resp ≡ done m)
unfolding response_to_map
response_to_map_done req resp h =
    let (xs, e) = entries_done req.test_cases resp.tests h in
    let (m, q) = with_tests_done resp xs in (m, ap (with_tests resp) e ∙ q)

-- responseToMap panics exactly when there are more results than test cases.
pub response_to_map-panicked_iff :
    (req : Request) (resp : Response)
    → (response_to_map req resp ≡ panicked) ↔ (suc (length req.test_cases) ≤ length resp.tests)
response_to_map-panicked_iff req resp = (
  λ h. elim (dec_le (length resp.tests) (length req.test_cases)) [
    | yes fits ↦ let (m, e) = response_to_map_done req resp fits in cc (e, h)
    | no over ↦ omega arith
  ],
  response_to_map_short req resp,
)
