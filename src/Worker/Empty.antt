-- ===== src/Worker/Empty.antt =====
-- handleMessage on a submission without test cases.
use code_sandbox.Prelude.{
  suc, ◌≤◌, ◌≡◌, ◌≢◌, ◌↔◌, refl, sym, ap, ◌∙◌, subst, inl, inr, Bool, true, false, none, some, List,
  [], ◌∷◌, map, arith, ℤ, Bytes, bytes_eq, bytes_eq_iff, length, Result, ok,
}
use code_sandbox.Host.{Host, Out, Trace, done}
use code_sandbox.Config.{Config}
use code_sandbox.Registry.{Registry}
use code_sandbox.Registry.Loading.{IsLoaded}
use code_sandbox.Executor.Types.{Status, build_failed, TestResult, Request, Response, is_accepted}
use code_sandbox.Executor.Stats.Window.{Holds}
use code_sandbox.Executor.Phases.{rollup_tests}
use code_sandbox.Executor.Phases.Statuses.{IsRunStatus}
use code_sandbox.Executor.Run.{Answer, Engine, run}
use code_sandbox.Executor.Run.Answers.{IsAnswered, TestsOf}
use code_sandbox.Executor.Run.Whole.{run_ends}
use code_sandbox.Worker.Jobs.{Job, submit_kind, build_request, cases_of, request_with}
use code_sandbox.Worker.Results.{response_to_map_done, response_to_map_short}
use code_sandbox.Worker.Handling.{
  Message, Action, Handled, write_status, running, stored_response, finish_map, conclude, after_run,
  with_request, handle_message,
}
use code_sandbox.Worker.Stored.{length-stored}
use code_sandbox.Worker.Outcome.{handle_request}

bytes_eq-nil : (s : Bytes) → s ≢ [] → bytes_eq s [] ≡ false
bytes_eq-nil s h = ground (arith, bytes_eq_iff s [])

build_request-submit :
    (job : Job)
    → job.source_code ≢ []
    → job.language ≢ []
    → job.kind ≡ submit_kind
    → job.test_cases ≡ []
    → build_request job ≡ ok (request_with job [])
unfolding build_request cases_of bytes_eq
build_request-submit job s l k e =
    rw (bytes_eq-nil job.source_code s, bytes_eq-nil job.language l, k, e) refl

-- The executor went through to the run, or failed.
abbrev pub WasRun : Answer → Type 0
WasRun (resp, o) = (o ≡ none) × (resp.status ≢ build_failed)

-- The goroutine ended in a panic, having only marked the job as running.
abbrev pub Crashed : Job → Handled → Type 0
Crashed job r = (r.returned ≡ false) × (r.actions ≡ write_status job.job_id running ∷ [])

one_result-ne-build_failed :
    (tr : TestResult) → IsRunStatus tr.status → rollup_tests (tr ∷ []) ≢ build_failed
unfolding rollup_tests is_accepted
one_result-ne-build_failed tr h = λ e. go tr.status h (ground arith)
  where
    go : (s : Status) → IsRunStatus s → s ≢ build_failed
    go s h = λ e. subst IsRunStatus e h

module _ (msg : Message) (job : Job) (req : Request) where
  conclude_short :
      (resp : Response)
      → suc (length req.test_cases) ≤ length resp.tests
      → conclude msg job req (done (resp, none)) ≡ (false, [])
  unfolding conclude finish_map
  conclude_short resp h =
      ap (finish_map msg job req (stored_response job resp)) (
        response_to_map_short req (stored_response job resp)
          (omega (arith, length-stored job resp)))

  conclude-none :
      (resp : Response) → resp.tests ≡ [] → (conclude msg job req (done (resp, none))).0 ≡ true
  unfolding conclude finish_map
  conclude-none resp e =
      let n : length (stored_response job resp).tests ≡ 0 =
        length-stored job resp ∙ ap (length {0}) e in
      let (m, q) = response_to_map_done req (stored_response job resp) (omega (arith, n)) in
      ap (λ r. (finish_map msg job req (stored_response job resp) r).0) q

  -- How the steps after exec.Run end when there is no test case.
  conclude-WasRun :
      (a : Answer)
      → req.test_cases ≡ []
      → IsAnswered req a
      → (conclude msg job req (done a) ≡ (false, [])) ↔ WasRun a
  conclude-WasRun (resp, some x) q h = unfold conclude in ((λ y. cc y), (λ y. cc y.0))
  conclude-WasRun (resp, none) q (inl n) = (
    λ y. let c = conclude-none resp (n.1 ∙ ap (map _) q) in cc (ap (λ p. p.0) y, c),
    λ y. absurd (y.1 n.0),
  )
  conclude-WasRun (resp, none) q (inr j) =
      let (tr, t, s) = subst (λ l. TestsOf l resp.tests) q j.1 in
      (
        λ y. (refl, λ b. one_result-ne-build_failed tr s (ap rollup_tests (sym t) ∙ sym j.0 ∙ b)),
        λ y. conclude_short resp (omega (arith, ap (length {0}) t, ap (length {0}) q)),
      )

crashed_iff :
    (w : Action) (c : Bool × List Action) → ((c.0 ≡ false) × (w ∷ c.1 ≡ w ∷ [])) ↔ (c ≡ (false, []))
crashed_iff w (b, as') = ((λ h. cc (h.0, h.1)), (λ h. (ap (λ p. p.0) h, ap (λ p. w ∷ p.1) h)))

after_run-Crashed :
    (decode_job : Bytes → Result Bytes Job) (host : Host) (cfg : Config) (reg : Registry)
    (msg : Message) (job : Job) (req : Request) (r : Out Answer × Engine × Trace) (a : Answer)
    (e : Engine) (tr : Trace)
    → r ≡ (done a, e, tr)
    → (conclude msg job req (done a) ≡ (false, [])) ↔ WasRun a
    → Crashed job (after_run decode_job host cfg reg msg job req r) ↔ WasRun a
after_run-Crashed decode_job host cfg reg msg job req r a e tr q h =
    subst (λ x. Crashed job (after_run decode_job host cfg reg msg job req x) ↔ WasRun a) (sym q)
      (unfold after_run in
        let c = crashed_iff (write_status job.job_id running) (conclude msg job req (done a)) in
        ((λ x. h.0 (c.0 x)), (λ x. c.1 (h.1 x))))

-- A submission with a source and a language but without test cases ends the process, with RUNNING
-- as the last status and the message still in the queue, exactly when the executor returned no
-- error and the build, if there is one, went well.
pub handle_message-submit_empty :
    (decode_job : Bytes → Result Bytes Job) (host : Host) (cfg : Config) (reg : Registry)
    (msg : Message) (job : Job) (e : Engine) (tr : Trace) (history : List ℤ) (body : Bytes)
    → IsLoaded reg
    → Holds history e.stats
    → msg.body ≡ some body
    → decode_job body ≡ ok job
    → job.source_code ≢ []
    → job.language ≢ []
    → job.kind ≡ submit_kind
    → job.test_cases ≡ []
    → (a : Answer) × ((run host cfg reg (request_with job []) e tr).0 ≡ done a)
      × (Crashed job (handle_message decode_job host cfg reg msg e tr) ↔ WasRun a)
handle_message-submit_empty decode_job host cfg reg msg job e tr history body loaded h b d s l k n =
    let req = request_with job [] in
    let ended = run_ends host cfg reg req e tr history loaded h in
    let r =
      handle_request decode_job host cfg reg msg job e tr body b d
      ∙ ap (with_request decode_job host cfg reg msg job e tr) (build_request-submit job s l k n) in
    (
      ended.answer,
      ap (λ p. p.0) ended.returned,
      subst (λ x. Crashed job x ↔ WasRun ended.answer) (sym r)
          (unfold with_request in
            after_run-Crashed decode_job host cfg reg msg job req (run host cfg reg req e tr)
              ended.answer _ _ (ended.returned)
              (conclude-WasRun msg job req ended.answer refl ended.well_formed)),
    )
