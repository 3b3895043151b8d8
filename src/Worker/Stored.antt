-- ===== src/Worker/Stored.antt =====
-- What responseToMap of internal/worker/worker.go makes of an answer of the executor.
use code_sandbox.Prelude.{
  ◌≡◌, ◌≢◌, refl, sym, ap, ◌∙◌, subst, ◌⊎◌, inl, inr, Bool, true, false, Bool-cases, none, some,
  List, [], ◌∷◌, map, arith, bytes_eq, length, length-map,
}
use code_sandbox.Host.{done}
use code_sandbox.Executor.Types.{
  Status, accepted, wrong_output, output_whitespace_mismatch, not_executed, TestCase, Request,
  TestResult, Response, downgrade,
}
use code_sandbox.Executor.Phases.{only_status}
use code_sandbox.Executor.Phases.Statuses.{Says, AllSay}
use code_sandbox.Executor.Run.Answers.{IsAnswered, TestsOf}
use code_sandbox.Worker.Jobs.{Job, run_kind}
use code_sandbox.Worker.Results.{
  TestEntry, ResultMap, cons_entry, entries, with_tests, response_to_map, downgrade_result,
  downgrade_response,
}
use code_sandbox.Worker.Handling.{stored_response}

-- What a result of the executor says of its test case.
abbrev pub Tells : TestCase → TestResult → Type 0
Tells tc t = (t.status ≡ not_executed) ⊎ Says t.status t.stdout tc.expected_output

abbrev AllTell : List TestCase → List TestResult → Type 0
AllTell [] [] = Unit {0}
AllTell (tc ∷ tcs) (t ∷ ts) = Tells tc t × AllTell tcs ts
AllTell [] (t ∷ ts) = ⊥
AllTell (tc ∷ tcs) [] = ⊥

-- The status that is stored for a run, which expects no output: a verdict on the output that is not
-- accepted becomes accepted, and any other status is kept.
abbrev pub Played : Status → Status → Type 0
Played wrong_output s' = s' ≡ accepted
Played output_whitespace_mismatch s' = s' ≡ accepted
Played s s' = s' ≡ s

-- The stored status and the executor's. The first argument tells that the job is a run.
abbrev pub KeepsStatus : Bool → Status → Status → Type 0
KeepsStatus true s s' = Played s s'
KeepsStatus false s s' = s' ≡ s

-- The stored result is the executor's, but for the status of a run.
abbrev pub Keeps : Bool → TestResult → TestResult → Type 0
Keeps b t t' = (t' ≡ record t { status = t'.status }) × KeepsStatus b t.status t'.status

abbrev AllKeep : Bool → List TestResult → List TestResult → Type 0
AllKeep b [] [] = Unit {0}
AllKeep b (t ∷ ts) (t' ∷ ts') = Keeps b t t' × AllKeep b ts ts'
AllKeep b [] (t' ∷ ts') = ⊥
AllKeep b (t ∷ ts) [] = ⊥

-- One entry for each test case, in order, with its input, its expected output and what is stored of
-- the executor's result for it, whose status is true of its output.
abbrev pub AllEntries : Bool → List TestCase → List TestResult → List TestEntry → Type 0
AllEntries b (tc ∷ tcs) (t ∷ ts) (x ∷ xs) =
    (x.stdin ≡ tc.input)
    × (x.expected_output ≡ tc.expected_output)
    × Keeps b t x.result
    × Tells tc t
    × AllEntries b tcs ts xs
AllEntries b [] [] [] = Unit {0}
AllEntries b (tc ∷ tcs) (t ∷ ts) [] = ⊥
AllEntries b (tc ∷ tcs) [] xs = ⊥
AllEntries b [] (t ∷ ts) xs = ⊥
AllEntries b [] [] (x ∷ xs) = ⊥

-- The map reports the response to the job's request.
pub record IsReport (job : Job) (req : Request) (resp : Response) (m : ResultMap) : Type 0 where
  pub status : KeepsStatus (bytes_eq job.kind run_kind) resp.status m.status
  pub build : m.build ≡ resp.build
  pub rows : List TestEntry
  pub tests : m.tests ≡ some rows
  pub in_order : AllEntries (bytes_eq job.kind run_kind) req.test_cases resp.tests rows

not_run-AllTell : (tcs : List TestCase) → AllTell tcs (map (λ tc. only_status not_executed) tcs)
not_run-AllTell [] = tt
not_run-AllTell (tc ∷ tcs) = (inl refl, not_run-AllTell tcs)

AllSay-AllTell : (tcs : List TestCase) (ts : List TestResult) → AllSay tcs ts → AllTell tcs ts
AllSay-AllTell [] [] h = tt
AllSay-AllTell [] (t ∷ ts) h = h
AllSay-AllTell (tc ∷ tcs) [] h = h
AllSay-AllTell (tc ∷ tcs) (t ∷ ts) (h, hs) = (inr h, AllSay-AllTell tcs ts hs)

TestsOf-AllTell :
    (tcs : List TestCase) (ts : List TestResult) → tcs ≢ [] → TestsOf tcs ts → AllTell tcs ts
TestsOf-AllTell [] ts ne h = absurd (ne refl)
TestsOf-AllTell (tc ∷ tcs) ts ne h = AllSay-AllTell (tc ∷ tcs) ts h

downgrade-Played : (s : Status) → Played s (downgrade s)
unfolding downgrade
downgrade-Played s = ground arith

downgrade-AllKeep : (ts : List TestResult) → AllKeep true ts (map downgrade_result ts)
unfolding downgrade_result
downgrade-AllKeep [] = tt
downgrade-AllKeep (t ∷ ts) = ((refl, downgrade-Played t.status), downgrade-AllKeep ts)

same-AllKeep : (ts : List TestResult) → AllKeep false ts ts
same-AllKeep [] = tt
same-AllKeep (t ∷ ts) = ((refl, refl), same-AllKeep ts)

answered-AllTell :
    (req : Request) (resp : Response)
    → req.test_cases ≢ []
    → IsAnswered req (resp, none)
    → AllTell req.test_cases resp.tests
answered-AllTell req resp ne (inl n) =
    subst (AllTell req.test_cases) (sym n.1) (not_run-AllTell req.test_cases)
answered-AllTell req resp ne (inr j) = TestsOf-AllTell req.test_cases resp.tests ne j.1

stored-AllKeep :
    (job : Job) (resp : Response)
    → AllKeep (bytes_eq job.kind run_kind) resp.tests (stored_response job resp).tests
unfolding stored_response downgrade_response
stored-AllKeep job resp = elim (Bool-cases (bytes_eq job.kind run_kind)) [
  | inl e ↦ rw e (downgrade-AllKeep resp.tests)
  | inr e ↦ rw e (same-AllKeep resp.tests)
]

stored-status :
    (job : Job) (resp : Response)
    → KeepsStatus (bytes_eq job.kind run_kind) resp.status (stored_response job resp).status
unfolding stored_response downgrade_response
stored-status job resp = elim (Bool-cases (bytes_eq job.kind run_kind)) [
  | inl e ↦ rw e (downgrade-Played resp.status)
  | inr e ↦ rw e refl
]

stored-build : (job : Job) (resp : Response) → (stored_response job resp).build ≡ resp.build
unfolding stored_response downgrade_response
stored-build job resp = elim (Bool-cases (bytes_eq job.kind run_kind)) [
  | inl e ↦ rw e
  | inr e ↦ rw e
]

pub length-stored :
    (job : Job) (resp : Response) → length (stored_response job resp).tests ≡ length resp.tests
unfolding stored_response downgrade_response
length-stored job resp = elim (Bool-cases (bytes_eq job.kind run_kind)) [
  | inl e ↦ rw e (length-map resp.tests _)
  | inr e ↦ rw e
]

entries-AllEntries :
    (b : Bool) (tcs : List TestCase) (ts ts' : List TestResult)
    → AllTell tcs ts
    → AllKeep b ts ts'
    → (xs : List TestEntry) × (entries tcs ts' ≡ done xs) × AllEntries b tcs ts xs
unfolding entries
entries-AllEntries b [] [] [] h k = ([], refl, tt)
entries-AllEntries b [] [] (t' ∷ ts') h k = elim k [ ]
entries-AllEntries b [] (t ∷ ts) ts' h k = elim h [ ]
entries-AllEntries b (tc ∷ tcs) [] ts' h k = elim h [ ]
entries-AllEntries b (tc ∷ tcs) (t ∷ ts) [] h k = elim k [ ]
entries-AllEntries b (tc ∷ tcs) (t ∷ ts) (t' ∷ ts') (h, hs) (k, ks) =
    let (xs, e, all) = entries-AllEntries b tcs ts ts' hs ks in
    (_, ap (cons_entry _) e ∙ unfold cons_entry in refl, (refl, refl, k, h, all))

with_tests-rows :
    (b : Bool) (tcs : List TestCase) (ts : List TestResult) (resp : Response) (xs : List TestEntry)
    → tcs ≢ []
    → AllEntries b tcs ts xs
    → with_tests resp (done xs)
      ≡ done (record { status = resp.status; build = resp.build; tests = some xs })
unfolding with_tests
with_tests-rows b [] ts resp xs ne h = absurd (ne refl)
with_tests-rows b (tc ∷ tcs) [] resp xs ne h = elim h [ ]
with_tests-rows b (tc ∷ tcs) (t ∷ ts) resp [] ne h = elim h [ ]
with_tests-rows b (tc ∷ tcs) (t ∷ ts) resp (x ∷ xs) ne h = refl

-- For a request with test cases the map is made, and it reports the answer.
pub response_to_map-IsReport :
    (job : Job) (req : Request) (resp : Response)
    → req.test_cases ≢ []
    → IsAnswered req (resp, none)
    → (m : ResultMap) × (response_to_map req (stored_response job resp) ≡ done m)
      × (m.status ≡ (stored_response job resp).status)
      × IsReport job req resp m
unfolding response_to_map
response_to_map-IsReport job req resp ne h =
    let b = bytes_eq job.kind run_kind in
    let stored = stored_response job resp in
    let (xs, e, all) =
      entries-AllEntries b req.test_cases resp.tests stored.tests (answered-AllTell req resp ne h)
        (stored-AllKeep job resp) in
    (
      _,
      ap (with_tests stored) e ∙ with_tests-rows b req.test_cases resp.tests stored xs ne all,
      refl,
      record {
        status = stored-status job resp;
        build = stored-build job resp;
        rows = xs;
        tests = refl;
        in_order = all;
      },
    )
