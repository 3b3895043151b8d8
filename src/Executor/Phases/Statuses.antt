-- ===== src/Executor/Phases/Statuses.antt =====
-- What the statuses of test results mean.
use code_sandbox.Prelude.{
  ◌≢◌, ◌≡◌, refl, ap, ◌∙◌, ◌⊎◌, inl, inr, true, false, Option, none, some, List, [], ◌∷◌, arith,
  Bytes,
}
use code_sandbox.Sandbox.Exit.{Outcome}
use code_sandbox.Executor.Types.{
  Status, accepted, wrong_output, output_whitespace_mismatch, time_exceeded, memory_exceeded,
  runtime_error, build_failed, not_executed, internal_error, unset, TestCase, TestResult,
  SandboxError, is_accepted,
}
use code_sandbox.Executor.Output.{
  OutputCmp, output_exact, output_whitespace_only, output_mismatch, compare_output,
}
use code_sandbox.Executor.Phases.{run_status, test_result, judge, compare_result}

-- What a status says of a run that produced this output, where this output was expected.
abbrev pub Says : Status → Bytes → Bytes → Type 0
Says accepted out expected = compare_output out expected ≡ output_exact
Says wrong_output out expected = compare_output out expected ≡ output_mismatch
Says output_whitespace_mismatch out expected = compare_output out expected ≡ output_whitespace_only
Says time_exceeded out expected = Unit
Says memory_exceeded out expected = Unit
Says runtime_error out expected = Unit
Says internal_error out expected = Unit
Says _ out expected = ⊥

-- A status that a comparison gives.
abbrev pub IsVerdict : Status → Type 0
IsVerdict accepted = Unit
IsVerdict wrong_output = Unit
IsVerdict output_whitespace_mismatch = Unit
IsVerdict _ = ⊥

-- A status that a run can have before its output is compared.
abbrev pub IsRunStatus : Status → Type 0
IsRunStatus accepted = Unit
IsRunStatus time_exceeded = Unit
IsRunStatus memory_exceeded = Unit
IsRunStatus runtime_error = Unit
IsRunStatus internal_error = Unit
IsRunStatus _ = ⊥

run_status-IsRunStatus : (res : Outcome) → IsRunStatus (run_status res)
unfolding run_status
run_status-IsRunStatus res = ground arith

pub test_result-IsRunStatus :
    (r : Outcome × Option SandboxError) → IsRunStatus (test_result r).status
unfolding test_result
test_result-IsRunStatus (res, some e) = tt
test_result-IsRunStatus (res, none) = run_status-IsRunStatus res

judge-Says :
    (tr : TestResult) (expected : Bytes) (c : OutputCmp)
    → compare_output tr.stdout expected ≡ c
    → tr.status ≡ accepted
    → Says (judge tr c).status tr.stdout expected
unfolding judge
judge-Says tr expected output_exact e a = rw a e
judge-Says tr expected output_whitespace_only e a = e
judge-Says tr expected output_mismatch e a = e

judge-stdout : (tr : TestResult) (c : OutputCmp) → (judge tr c).stdout ≡ tr.stdout
unfolding judge
judge-stdout tr output_exact = refl
judge-stdout tr output_whitespace_only = refl
judge-stdout tr output_mismatch = refl

status-cases :
    (s : Status)
    → IsRunStatus s
    → (s ≡ accepted) ⊎ ((is_accepted s ≡ false) × ((out expected : Bytes) → Says s out expected))
unfolding is_accepted
status-cases accepted h = inl refl
status-cases time_exceeded h = inr (refl, λ out expected. tt)
status-cases memory_exceeded h = inr (refl, λ out expected. tt)
status-cases runtime_error h = inr (refl, λ out expected. tt)
status-cases internal_error h = inr (refl, λ out expected. tt)
status-cases wrong_output h = elim h [ ]
status-cases output_whitespace_mismatch h = elim h [ ]
status-cases build_failed h = elim h [ ]
status-cases not_executed h = elim h [ ]
status-cases unset h = elim h [ ]

is_accepted_accepted : is_accepted accepted ≡ true
unfolding is_accepted
is_accepted_accepted = refl

pub compare_result-status :
    (tc : TestCase) (tr : TestResult)
    → IsRunStatus tr.status
    → Says (compare_result tc tr).status (compare_result tc tr).stdout tc.expected_output
unfolding compare_result
compare_result-status tc tr h = elim (status-cases tr.status h) [
  | inl e ↦
      let c = compare_output tr.stdout tc.expected_output in
      rw (ap is_accepted e ∙ is_accepted_accepted)
        (rw (judge-stdout tr c) (judge-Says tr tc.expected_output c refl e))
  | inr (e, says) ↦ rw e (says tr.stdout tc.expected_output)
]

is_accepted-true : (s : Status) → s ≡ accepted → is_accepted s ≡ true
is_accepted-true s e = ap is_accepted e ∙ is_accepted_accepted

is_accepted-false : (s : Status) → s ≢ accepted → is_accepted s ≡ false
unfolding is_accepted
is_accepted-false s h = ground arith

-- What the comparison makes of an accepted run: only the status is changed, to the verdict.
abbrev pub IsJudged : TestCase → TestResult → TestResult → Type 0
IsJudged tc tr tr' =
    (tr' ≡ record tr { status = tr'.status })
    × (IsVerdict tr'.status × Says tr'.status tr.stdout tc.expected_output)

judge-IsJudged :
    (tc : TestCase) (tr : TestResult) (c : OutputCmp)
    → compare_output tr.stdout tc.expected_output ≡ c
    → tr.status ≡ accepted
    → IsJudged tc tr (judge tr c)
unfolding judge
judge-IsJudged tc tr output_exact e a = (refl, rw a (tt, e))
judge-IsJudged tc tr output_whitespace_only e a = (refl, (tt, e))
judge-IsJudged tc tr output_mismatch e a = (refl, (tt, e))

-- runTest's comparison: a run that is not accepted is left as it is, and one that is accepted gets, as
-- its status alone, the verdict that compareOutput gives on its output.
pub compare_result-Says :
    (tc : TestCase) (tr : TestResult)
    → (tr.status ≢ accepted → compare_result tc tr ≡ tr)
      × (tr.status ≡ accepted → IsJudged tc tr (compare_result tc tr))
unfolding compare_result
compare_result-Says tc tr = (
  λ h. rw (is_accepted-false tr.status h),
  λ e.
      rw (is_accepted-true tr.status e)
        (judge-IsJudged tc tr (compare_output tr.stdout tc.expected_output) refl e),
)

-- Each result says what its own test case's output compares to.
abbrev pub AllSay : List TestCase → List TestResult → Type 0
AllSay [] [] = Unit {0}
AllSay [] (tr ∷ trs) = ⊥
AllSay (tc ∷ tcs) [] = ⊥
AllSay (tc ∷ tcs) (tr ∷ trs) = Says tr.status tr.stdout tc.expected_output × AllSay tcs trs
