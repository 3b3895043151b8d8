-- ===== src/Api/Replies.antt =====
-- Which reply a client gets.
use code_sandbox.Prelude.{
  ◌≡◌, ◌≢◌, ◌↔◌, ◌⊎◌, inl, inr, Bool-cases, refl, ap, ◌∙◌, true, false, Option, none, some, List,
  [], arith, ℤ, ◌*ℤ◌, int64, Bytes, bytes_eq, bytes_eq_iff, Result, ok, err,
}
use code_sandbox.Host.{Host, Trace, done}
use code_sandbox.Config.{Config}
use code_sandbox.Registry.{Registry}
use code_sandbox.Registry.Loading.{IsLoaded}
use code_sandbox.Executor.Types.{
  Request, Response, RunError, unknown_language, source_too_large, too_many_tests, overloaded,
  disallowed_flag, override_too_big, unsafe_source_file, unsafe_artifact, mkdir_job_failed,
  write_source_failed, chown_job_dir_failed, chown_source_failed, sandbox_failed,
}
use code_sandbox.Executor.Stats.Window.{Holds}
use code_sandbox.Executor.Run.{Answer, Engine, run}
use code_sandbox.Executor.Run.Whole.{run_ends}
use code_sandbox.Api.{
  Reply, status_ok, status_bad_request, status_too_many_requests, response, error_reply, reply_to,
  reply_out, after_decode, serve_run,
}

-- The errors that the client can mend.
abbrev pub IsMendable : Option RunError → Type 0
IsMendable (some unknown_language) = Unit {0}
IsMendable (some source_too_large) = Unit
IsMendable (some too_many_tests) = Unit
IsMendable (some (disallowed_flag f)) = Unit
IsMendable (some (override_too_big o)) = Unit
IsMendable _ = ⊥

-- The reply for an answer: 200 with the response if there is no error, 400 for an error that the
-- client can mend, 429 with Retry-After when overloaded, and 500 for any other error.
abbrev pub Fits : Answer → Reply → Type 0
Fits (resp, o) r =
    ((r.code ≡ status_ok) ↔ (o ≡ none))
    × ((r.body ≡ response resp) ↔ (o ≡ none))
    × ((r.code ≡ status_bad_request) ↔ IsMendable o)
    × ((r.code ≡ status_too_many_requests) ↔ (o ≡ some overloaded))
    × ((r.retry_after ≡ true) ↔ (o ≡ some overloaded))

error_reply-Fits : (resp : Response) (e : RunError) → Fits (resp, some e) (error_reply e)
unfolding error_reply
error_reply-Fits resp unknown_language = ground arith
error_reply-Fits resp source_too_large = ground arith
error_reply-Fits resp too_many_tests = ground arith
error_reply-Fits resp overloaded = ground arith
error_reply-Fits resp (disallowed_flag f) = ground arith
error_reply-Fits resp (override_too_big o) = ground arith
error_reply-Fits resp unsafe_source_file = ground arith
error_reply-Fits resp unsafe_artifact = ground arith
error_reply-Fits resp (mkdir_job_failed x) = ground arith
error_reply-Fits resp (write_source_failed x) = ground arith
error_reply-Fits resp (chown_job_dir_failed x) = ground arith
error_reply-Fits resp (chown_source_failed x) = ground arith
error_reply-Fits resp (sandbox_failed x) = ground arith

pub reply_to-Fits : (a : Answer) → Fits a (reply_to a)
unfolding reply_to
reply_to-Fits (resp, none) = ground arith
reply_to-Fits (resp, some e) = error_reply-Fits resp e

module _ (decode : ℤ → Bytes → Result Bytes Request) (host : Host) (cfg : Config)
    (reg : Registry) where
  ask_executor :
      (e : Engine) (tr : Trace) (req : Request)
      → req.language ≢ []
      → req.source ≢ []
      → (after_decode decode host cfg reg e tr (ok req)).0 ≡ reply_out (run host cfg reg req e tr).0
  unfolding after_decode
  ask_executor e tr req l s =
      ground (arith, bytes_eq_iff req.language [], bytes_eq_iff req.source [])

  -- A request that is decoded and names a language and a source is answered, on any host: the reply is
  -- 200 with the response exactly when Exec.Run gave no error, 400 exactly when its error is one that
  -- the client can mend, and 429, then with Retry-After, exactly when it was overloaded.
  pub serve_run-Fits :
      (body : Bytes) (req : Request) (e : Engine) (tr : Trace) (history : List ℤ)
      → IsLoaded reg
      → Holds history e.stats
      → decode (int64 (cfg.max_source_bytes *ℤ 4)) body ≡ ok req
      → req.language ≢ []
      → req.source ≢ []
      → (a : Answer) × (r : Reply) × ((run host cfg reg req e tr).0 ≡ done a)
        × ((serve_run decode host cfg reg body e tr).0 ≡ done r)
        × Fits a r
  unfolding serve_run
  serve_run-Fits body req e tr history loaded h d l s =
      let ended = run_ends host cfg reg req e tr history loaded h in
      let q = ap (λ p. p.0) ended.returned in
      (
        ended.answer,
        reply_to ended.answer,
        q,
        ap (λ x. (after_decode decode host cfg reg e tr x).0) d
            ∙ ask_executor e tr req l s
            ∙ ap reply_out q
            ∙ (unfold reply_out in refl),
        reply_to-Fits ended.answer,
      )

  -- The body is no request, or one without a language or a source.
  abbrev pub IsBad : Result Bytes Request → Type 0
  IsBad (err x) = Unit {0}
  IsBad (ok req) = (req.language ≡ []) ⊎ (req.source ≡ [])

  refuse :
      (e : Engine) (tr : Trace) (d : Result Bytes Request)
      → IsBad d
      → (r : Reply) × (after_decode decode host cfg reg e tr d ≡ (done r, e, tr))
        × (r.code ≡ status_bad_request)
  unfolding after_decode
  refuse e tr (err x) h = (_, refl, refl)
  refuse e tr (ok req) h = elim (Bool-cases (bytes_eq req.language [])) [
    | inl l ↦ rw l (_, refl, refl)
    | inr l ↦ rw (l, source_empty h l) (_, refl, refl)
  ]
    where
      source_empty :
          (req.language ≡ []) ⊎ (req.source ≡ [])
          → bytes_eq req.language [] ≡ false
          → bytes_eq req.source [] ≡ true
      source_empty h l = ground (arith, bytes_eq_iff req.language [], bytes_eq_iff req.source [])

  -- Any other body is answered with 400, and the executor and the host are not touched.
  pub serve_run-IsBad :
      (body : Bytes) (e : Engine) (tr : Trace)
      → IsBad (decode (int64 (cfg.max_source_bytes *ℤ 4)) body)
      → (r : Reply) × (serve_run decode host cfg reg body e tr ≡ (done r, e, tr))
        × (r.code ≡ status_bad_request)
  unfolding serve_run
  serve_run-IsBad body e tr h = refuse e tr (decode (int64 (cfg.max_source_bytes *ℤ 4)) body) h
