-- ===== src/Tests/Replies.antt =====
-- Replies of the HTTP API.
use code_sandbox.Prelude.{ℤ, ◌≡◌, refl, [], inl, Bytes, Result, ok}
use code_sandbox.Host.{done}
use code_sandbox.Executor.Types.{Request}
use code_sandbox.Executor.Stats.Window.{new_stats-Holds}
use code_sandbox.Executor.Run.{Answer, idle, run}
use code_sandbox.Api.{Reply, status_bad_request, serve_run}
use code_sandbox.Api.Replies.{Fits, serve_run-Fits, serve_run-IsBad}
use code_sandbox.Tests.Data.{host, cfg, registry, request}
use code_sandbox.Tests.Requests.{registry-IsLoaded}

-- Stand for the JSON decoder on a good body and on one without a language.
abbrev decode : ℤ → Bytes → Result Bytes Request
decode limit body = ok request

abbrev decode_nameless : ℤ → Bytes → Result Bytes Request
decode_nameless limit body = ok (record request { language = [] })

serve_run-Fits_example :
    (a : Answer) × (r : Reply) × ((run host cfg registry request idle []).0 ≡ done a)
    × ((serve_run decode host cfg registry [] idle []).0 ≡ done r)
    × Fits a r
serve_run-Fits_example =
    serve_run-Fits decode host cfg registry [] request idle [] [] registry-IsLoaded new_stats-Holds
      refl (λ e. cc) (λ e. cc)

serve_run-IsBad_example :
    (r : Reply) × (serve_run decode_nameless host cfg registry [] idle [] ≡ (done r, idle, []))
    × (r.code ≡ status_bad_request)
serve_run-IsBad_example = serve_run-IsBad decode_nameless host cfg registry [] idle [] (inl refl)
