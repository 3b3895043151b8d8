-- ===== src/Worker/Outcome.antt =====
-- How the handling of a message ends.
use code_sandbox.Prelude.{◌≡◌, refl, ap, ◌∙◌, true, none, some, ◌∷◌, Bytes, Result, ok, err}
use code_sandbox.Dict.{Dict}
use code_sandbox.Host.{Host, Trace, Out, done}
use code_sandbox.Config.{Config}
use code_sandbox.Registry.{Registry}
use code_sandbox.Executor.Types.{Request, Response, RunError}
use code_sandbox.Executor.Run.{Answer, Engine, run}
use code_sandbox.Worker.Stored.{IsReport}
use code_sandbox.Worker.Jobs.{Job, JobError, build_request}
use code_sandbox.Worker.Results.{ResultMap}
use code_sandbox.Worker.Handling.{
  Message, Action, Handled, delete_message, write_status, write_error, write_result, running,
  of_job, of_run, redis_status, with_request, with_job, with_body, handle_message,
}

-- The last write before the message is deleted: what it tells of the job, where the executor answers
-- a request as given.
pub data IsFinal (job : Job) (answers : Request → Out Answer) : Action → Type 0 where
  failed_job :
      (x : JobError)
      → build_request job ≡ err x
      → IsFinal job answers (write_error job.job_id (of_job x))
  failed_run :
      (req : Request) (resp : Response) (x : RunError)
      → build_request job ≡ ok req
      → answers req ≡ done (resp, some x)
      → IsFinal job answers (write_error job.job_id (of_run x))
  finished :
      (req : Request) (resp : Response) (m : ResultMap)
      → build_request job ≡ ok req
      → answers req ≡ done (resp, none)
      → IsReport job req resp m
      → IsFinal job answers (write_result job.job_id (redis_status m.status) m)

module _ (decode_job : Bytes → Result Bytes Job) (host : Host) (cfg : Config) (reg : Registry) where
  pub handle_request :
      (msg : Message) (job : Job) (e : Engine) (tr : Trace) (body : Bytes)
      → msg.body ≡ some body
      → decode_job body ≡ ok job
      → handle_message decode_job host cfg reg msg e tr
        ≡ with_request decode_job host cfg reg msg job e tr (build_request job)
  unfolding handle_message
  handle_request msg job e tr body b d =
      ap (with_body decode_job host cfg reg msg e tr) b
      ∙ (unfold with_body in ap (with_job decode_job host cfg reg msg e tr) d)
      ∙ (unfold with_job in refl)

  -- The handler returned, having marked the job as running, made one final write, and deleted the
  -- message.
  abbrev pub Ends : Message → Job → Engine → Trace → Handled → Type 0
  Ends msg job e tr r =
      (x : Action) × IsFinal job (λ req. (run host cfg reg req e tr).0) x
      × (r.returned ≡ true)
      × (r.actions ≡ write_status job.job_id running ∷ x ∷ delete_message msg)
