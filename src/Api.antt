-- ===== src/Api.antt =====
-- internal/api/api.go: here the run handler, in Status the others. The body that http.MaxBytesReader lets through and its JSON
-- decoding are a parameter: the request, or the text of the error.
pub mod Replies
pub mod Sessions
pub mod Status
use code_sandbox.Prelude.{
  ℕ, ◌≡◌, refl, Bool, true, false, Option, none, some, [], ℤ, ◌*ℤ◌, int64, Bytes, bytes_eq, Result,
  ok, err, if◌then◌else◌,
}
use code_sandbox.Host.{Host, Trace, Out, done, panicked}
use code_sandbox.Config.{Config}
use code_sandbox.Registry.{Registry}
use code_sandbox.Executor.Types.{
  Request, Response, RunError, unknown_language, source_too_large, too_many_tests, overloaded,
  disallowed_flag, override_too_big,
}
use code_sandbox.Executor.Run.{Answer, Engine, run}

-- The "error" field of an error's body.
pub data Kind : Type 0 where
  bad_request unknown_language_kind source_too_large_kind too_many_tests_kind : Kind
  disallowed_flag_kind override_too_big_kind overloaded_kind internal_error_kind : Kind

-- The "message" field.
pub data Text : Type 0 where
  decode_failed : Bytes → Text
  language_required source_required : Text
  run_failed : RunError → Text

pub data Body : Type 0 where
  problem : Kind → Text → Body
  response : Response → Body

-- The constants of net/http: 200, 400, 429, 500 and 503.
pub data Code : Type 0 where
  status_ok status_bad_request status_too_many_requests status_internal_server_error : Code
  status_service_unavailable : Code

-- What is written to the client; `retry_after` is the header Retry-After: 1.
pub record Reply : Type 0 where
  pub code : Code
  pub retry_after : Bool
  pub body : Body

-- writeErr
abbrev pub write_err : Code → Kind → Text → Reply
write_err code kind message = record {
  code = code;
  retry_after = false;
  body = problem kind message;
}

-- The `switch` over the error of Exec.Run.
unfoldable pub error_reply : RunError → Reply
error_reply unknown_language =
    write_err status_bad_request unknown_language_kind (run_failed unknown_language)
error_reply source_too_large =
    write_err status_bad_request source_too_large_kind (run_failed source_too_large)
error_reply too_many_tests =
    write_err status_bad_request too_many_tests_kind (run_failed too_many_tests)
error_reply (disallowed_flag f) =
    write_err status_bad_request disallowed_flag_kind (run_failed (disallowed_flag f))
error_reply (override_too_big o) =
    write_err status_bad_request override_too_big_kind (run_failed (override_too_big o))
error_reply overloaded =
    record (write_err status_too_many_requests overloaded_kind (run_failed overloaded)) {
      retry_after = true;
    }
error_reply e = write_err status_internal_server_error internal_error_kind (run_failed e)

unfoldable pub reply_to : Answer → Reply
unfolding error_reply
reply_to (resp, none) = record { code = status_ok; retry_after = false; body = response resp }
reply_to (resp, some e) = error_reply e

unfoldable pub reply_out : Out Answer → Out Reply
unfolding reply_to
reply_out (done a) = done (reply_to a)
reply_out panicked = panicked

module _ (decode : ℤ → Bytes → Result Bytes Request) (host : Host) (cfg : Config)
    (reg : Registry) where
  unfoldable pub after_decode : Engine → Trace → Result Bytes Request → Out Reply × Engine × Trace
  unfolding reply_out
  after_decode e tr (err x) =
      (done (write_err status_bad_request bad_request (decode_failed x)), e, tr)
  after_decode e tr (ok req) =
      if bytes_eq req.language []
      then (done (write_err status_bad_request bad_request language_required), e, tr)
      else if bytes_eq req.source []
      then (done (write_err status_bad_request bad_request source_required), e, tr)
      else let (r, e', tr') = run host cfg reg req e tr in (reply_out r, e', tr')

  -- run
  unfoldable pub serve_run : Bytes → Engine → Trace → Out Reply × Engine × Trace
  unfolding after_decode
  serve_run body e tr = after_decode e tr (decode (int64 (cfg.max_source_bytes *ℤ 4)) body)
