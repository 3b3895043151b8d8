-- ===== src/Worker/Handling.antt =====
-- handleMessage of internal/worker/worker.go.
use code_sandbox.Prelude.{
  Bool, true, false, Option, none, some, List, [], ◌∷◌, if◌then◌else◌, Bytes, bytes_eq, Result, ok,
  err,
}
use code_sandbox.Host.{Host, Trace, Out, done, panicked}
use code_sandbox.Config.{Config}
use code_sandbox.Registry.{Registry}
use code_sandbox.Executor.Types.{Status, time_exceeded, Request, Response, RunError}
use code_sandbox.Executor.Run.{Answer, Engine, run}
use code_sandbox.Worker.Jobs.{Job, JobError, run_kind, build_request}
use code_sandbox.Worker.Results.{ResultMap, response_to_map, downgrade_response}

-- types.Message
pub record Message : Type 0 where
  pub body : Option Bytes
  pub receipt_handle : Option Bytes

-- The values of the "status" field.
pub data RedisStatus : Type 0 where
  running error_status done_status timeout_status : RedisStatus

-- The "error" field. Its text is never empty, so it is written whenever there is an error.
pub data ErrorText : Type 0 where
  of_job : JobError → ErrorText
  of_run : RunError → ErrorText

-- writeRedis: the fields of the hash job:{jobId}, but for the time stamp
pub record RedisWrite : Type 0 where
  pub job_id : Bytes
  pub status : RedisStatus
  pub result : Option ResultMap
  pub error : Option ErrorText

pub data Action : Type 0 where
  wrote : RedisWrite → Action
  deleted : Bytes → Action

-- deleteMessage
unfoldable pub delete_message : Message → List Action
delete_message msg = elim msg.receipt_handle [ none ↦ [] | some handle ↦ deleted handle ∷ [] ]

abbrev pub write_status : Bytes → RedisStatus → Action
write_status id s = wrote (record { job_id = id; status = s; result = none; error = none })

abbrev pub write_error : Bytes → ErrorText → Action
write_error id e =
    wrote (record { job_id = id; status = error_status; result = none; error = some e })

abbrev pub write_result : Bytes → RedisStatus → ResultMap → Action
write_result id s m = wrote (record { job_id = id; status = s; result = some m; error = none })

-- How the goroutine ends: it returns, or a panic takes the process down.
pub record Handled : Type 0 where
  pub returned : Bool
  pub actions : List Action
  pub engine : Engine
  pub trace : Trace

unfoldable pub redis_status : Status → RedisStatus
redis_status time_exceeded = timeout_status
redis_status _ = done_status

-- The response that is stored.
unfoldable pub stored_response : Job → Response → Response
stored_response job resp = if bytes_eq job.kind run_kind then downgrade_response resp else resp

module _ (msg : Message) (job : Job) (req : Request) where
  unfoldable pub finish_map : Response → Out ResultMap → Bool × List Action
  unfolding delete_message redis_status
  finish_map resp panicked = (false, [])
  finish_map resp (done m) =
      (true, write_result job.job_id (redis_status resp.status) m ∷ delete_message msg)

  -- Steps 4 and 5, from the answer of exec.Run.
  unfoldable pub conclude : Out Answer → Bool × List Action
  unfolding finish_map stored_response delete_message
  conclude panicked = (false, [])
  conclude (done (resp, some e)) = (true, write_error job.job_id (of_run e) ∷ delete_message msg)
  conclude (done (resp, none)) =
      finish_map (stored_response job resp) (response_to_map req (stored_response job resp))

module _ (decode_job : Bytes → Result Bytes Job) (host : Host) (cfg : Config) (reg : Registry) where
  unfoldable pub after_run : Message → Job → Request → Out Answer × Engine × Trace → Handled
  unfolding conclude
  after_run msg job req (r, e, tr) =
      let (fine, actions) = conclude msg job req r in
      record {
        returned = fine;
        actions = write_status job.job_id running ∷ actions;
        engine = e;
        trace = tr;
      }

  -- From step 2 on.
  unfoldable pub with_request : Message → Job → Engine → Trace → Result JobError Request → Handled
  unfolding after_run delete_message
  with_request msg job e tr (err x) = record {
    returned = true;
    actions =
        write_status job.job_id running ∷ write_error job.job_id (of_job x) ∷ delete_message msg;
    engine = e;
    trace = tr;
  }
  with_request msg job e tr (ok req) = after_run msg job req (run host cfg reg req e tr)

  unfoldable pub with_job : Message → Engine → Trace → Result Bytes Job → Handled
  unfolding with_request delete_message
  with_job msg e tr (err x) = record {
    returned = true;
    actions = delete_message msg;
    engine = e;
    trace = tr;
  }
  with_job msg e tr (ok job) = with_request msg job e tr (build_request job)

  unfoldable pub with_body : Message → Engine → Trace → Option Bytes → Handled
  unfolding with_job delete_message
  with_body msg e tr none = record {
    returned = true;
    actions = delete_message msg;
    engine = e;
    trace = tr;
  }
  with_body msg e tr (some body) = with_job msg e tr (decode_job body)

  -- handleMessage
  unfoldable pub handle_message : Message → Engine → Trace → Handled
  unfolding with_body
  handle_message msg e tr = with_body msg e tr msg.body
