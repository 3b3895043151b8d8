-- ===== src/Executor/Run/Cleanup.antt =====
-- The whole of Run between its bookkeeping calls: every request is answered, and whatever happens
-- the job directory is gone in the end.
use code_sandbox.Prelude.{
  ◌≡◌, refl, sym, ap, ◌∙◌, subst, ◌⊎◌, inl, inr, Option, none, some, ◌∷◌, Bytes, Result, ok, err,
}
use code_sandbox.Host.{
  Host, Trace, Out, done, panicked, uuid_made, dir_made, dir_not_made, dir_removed, ◌>>=◌, pure,
  make_uuid, mkdir_all, dir_event, then_remove,
}
use code_sandbox.Host.Runs.{Grown, RunsAt, Runs}
use code_sandbox.Config.{Config}
use code_sandbox.Registry.{Phase, Language, Registry, get}
use code_sandbox.Registry.Loading.{IsLoaded}
use code_sandbox.Executor.Types.{Request, RunError, IsRequestError}
use code_sandbox.Executor.Run.{
  Answer, failure, check, job_dir_of, in_job_dir, made_dir, execute, checked, run_request,
}
use code_sandbox.Executor.Run.Acceptance.{IsAcceptable, LimitsWithin, check_iff, check-ne-panicked}
use code_sandbox.Executor.Run.Refusals.{check-IsRequestError}
use code_sandbox.Executor.Run.Answers.{IsWellFormed, InJob, in_job_dir-Runs}

-- What an execution adds to the trace: the job directory could not be made, or it was made, used
-- only as InJob says, and removed at the end.
pub data Lifecycle (cfg : Config) (lang : Language) (req : Request) (dir : Bytes) (tr : Trace)
    : Trace → Type 0 where
  refused : Lifecycle cfg lang req dir tr (dir_not_made dir ∷ uuid_made ∷ tr)
  removed :
      {tr' : Trace}
      → Grown (InJob cfg lang req dir) (dir_made dir ∷ uuid_made ∷ tr) tr'
      → Lifecycle cfg lang req dir tr (dir_removed dir ∷ tr')

-- The code returned this answer and left this trace.
pub record Executed (host : Host) (cfg : Config) (lang : Language) (req : Request) (tr : Trace)
    (r : Out Answer × Trace) : Type 0 where
  pub answer : Answer
  pub trace : Trace
  pub returned : r ≡ (done answer, trace)
  pub well_formed : IsWellFormed req answer
  pub lifecycle : Lifecycle cfg lang req (job_dir_of cfg (host.new_uuid tr)) tr trace

has_phase : (o : Option Phase) (req : Request) → LimitsWithin o req → (p : Phase) × (o ≡ some p)
has_phase none req h = elim h [ ]
has_phase (some p) req h = (p, refl)

module _ (host : Host) (cfg : Config) (lang : Language) (req : Request) (tr : Trace) where
  after_removal :
      (r : Out Answer × Trace)
      → RunsAt
          (InJob cfg lang req (job_dir_of cfg (host.new_uuid tr)))
          (IsWellFormed req)
          (dir_made (job_dir_of cfg (host.new_uuid tr)) ∷ uuid_made ∷ tr)
          r
      → Executed host cfg lang req tr (then_remove (job_dir_of cfg (host.new_uuid tr)) r)
  unfolding then_remove
  after_removal (done a, tr') h = record {
    answer = a;
    trace = _;
    returned = refl;
    well_formed = h.0;
    lifecycle = removed h.1;
  }
  after_removal (panicked, tr') h = elim h [ ]

  execute_lem :
      IsAcceptable cfg lang req → Executed host cfg lang req tr (execute host cfg lang req tr)
  unfolding execute ◌>>=◌ make_uuid mkdir_all
  execute_lem acceptable =
      let (phase, is_run) = has_phase lang.run req acceptable.limits in
      let limits = subst (λ o. LimitsWithin o req) is_run acceptable.limits in
      go (host.mkdir_all (uuid_made ∷ tr) (job_dir_of cfg (host.new_uuid tr)))
        (in_job_dir-Runs host cfg lang (job_dir_of cfg (host.new_uuid tr)) req phase is_run limits)
    where
      go :
          (o : Option Bytes)
          → Runs
              (InJob cfg lang req (job_dir_of cfg (host.new_uuid tr)))
              (IsWellFormed req)
              (in_job_dir host cfg lang (job_dir_of cfg (host.new_uuid tr)) req)
          → Executed host cfg lang req tr (
              made_dir host cfg lang req
                (job_dir_of cfg (host.new_uuid tr))
                o
                (dir_event (job_dir_of cfg (host.new_uuid tr)) o ∷ uuid_made ∷ tr))
      go none h = unfold made_dir dir_event in after_removal _ (h.at _)
      go (some e) h =
          unfold made_dir dir_event pure in
          record {
            answer = _;
            trace = _;
            returned = refl;
            well_formed = (refl, refl, tt);
            lifecycle = refused;
          }

-- Run was refused: no language accepts the request, the answer is an error, and the host was not
-- touched.
pub record Refused (host : Host) (cfg : Config) (reg : Registry) (req : Request) (tr : Trace)
    : Type 0 where
  pub error : RunError
  pub refusal : IsRequestError error
  pub returned : run_request host cfg reg req tr ≡ (done (failure error), tr)
  pub unacceptable :
      (lang : Language) → get reg req.language ≡ some lang → ¬ IsAcceptable cfg lang req

pub record Accepted (host : Host) (cfg : Config) (reg : Registry) (req : Request) (tr : Trace)
    : Type 0 where
  pub lang : Language
  pub registered : get reg req.language ≡ some lang
  pub acceptable : IsAcceptable cfg lang req
  pub executed : Executed host cfg lang req tr (run_request host cfg reg req tr)

-- With a loaded registry every request is answered, on any host and without a panic. Either it is
-- acceptable: then the answer is well formed, and the job directory, if it could be made, is removed
-- at the end. In between each process is started with the limits of its phase: a build with the
-- phase's time, or 30 seconds if that is not positive, and a test with the phase's time and memory,
-- or a positive amount that is no more. The seconds become nanoseconds of an int64. Or it is not: then the answer is an error and nothing
-- was done to the host.
pub run_request_outcome :
    (host : Host) (cfg : Config) (reg : Registry) (req : Request) (tr : Trace)
    → IsLoaded reg
    → Accepted host cfg reg req tr ⊎ Refused host cfg reg req tr
unfolding run_request
run_request_outcome host cfg reg req tr loaded = go (check cfg reg req) refl
  where
    go :
        (c : Out (Result RunError Language))
        → check cfg reg req ≡ c
        → Accepted host cfg reg req tr ⊎ Refused host cfg reg req tr
    go panicked e = absurd (check-ne-panicked cfg reg req loaded e)
    go (done (err x)) e = inr (record {
      error = x;
      refusal = check-IsRequestError cfg reg req x e;
      returned = ap (λ c. checked host cfg req c tr) e ∙ (unfold checked pure in refl);
      unacceptable = λ lang g a. let q = sym e ∙ (check_iff cfg reg lang req).1 (g, a) in cc q;
    })
    go (done (ok lang)) e =
        let (g, a) = (check_iff cfg reg lang req).0 e in
        inl (record {
          lang = lang;
          registered = g;
          acceptable = a;
          executed =
              subst (λ c. Executed host cfg lang req tr (checked host cfg req c tr)) (sym e)
                (unfold checked in execute_lem host cfg lang req tr a);
        })
