-- ===== src/Worker/Jobs.antt =====
-- Job of internal/worker/job.go, and buildRequest of internal/worker/worker.go.
use code_sandbox.Prelude.{
  ℕ, suc, ◌+◌, ◌*◌, ◌/◌, ◌^◌, ◌≡◌, refl, Option, none, some, List, [], ◌∷◌, if◌then◌else◌, ℤ, pos,
  negsuc, sub_ℕ, ltb_ℤ, leb_ℤ, ◌&&◌, Bytes, bytes_eq, codes, Result, ok, err,
}
use code_sandbox.Dict.{Dict}
use code_sandbox.Executor.Types.{TestCase, Request}

-- A finite float64: mantissa / 2 ^ scale.
pub record Float64 : Type 0 where
  pub mantissa : ℤ
  pub scale : ℕ

-- math.Round: halves are rounded away from zero
unfoldable pub round : Float64 → ℤ
round x = elim x.mantissa [
  | pos n ↦ pos ((2 * n + 2 ^ x.scale) / 2 ^ suc x.scale)
  | negsuc n ↦ sub_ℕ 0 ((2 * suc n + 2 ^ x.scale) / 2 ^ suc x.scale)
]

-- int of a float64 without a fraction. Out of range the language leaves it to the machine:
-- amd64 gives the least int64, - 2 ^ 63.
unfoldable pub int_of : ℤ → ℤ
int_of z =
    if ltb_ℤ z (pos 9_223_372_036_854_775_808) && leb_ℤ (negsuc 9_223_372_036_854_775_807) z
    then z
    else negsuc 9_223_372_036_854_775_807

-- Job; a nil pointer is `none`, and the order of `test_cases` is that of Go's iteration
pub record Job : Type 0 where
  pub job_id : Bytes
  pub kind : Bytes
  pub source_code : Bytes
  pub language : Bytes
  pub stdin : Bytes
  pub test_cases : Dict Bytes
  pub time_limit_seconds : Option Float64
  pub memory_limit_kb : Option ℤ
  pub user_id : Bytes
  pub queued_at : ℤ

pub data JobError : Type 0 where
  source_code_empty language_empty : JobError
  unknown_job_type : Bytes → JobError

abbrev pub run_kind : Bytes
run_kind = codes "run"

abbrev pub submit_kind : Bytes
submit_kind = codes "submit"

unfoldable pub time_override : Option Float64 → ℤ
unfolding round int_of
time_override none = pos 0
time_override (some x) = int_of (round x)

unfoldable pub memory_override : Option ℤ → ℤ
memory_override none = pos 0
memory_override (some kb) = kb

-- executor.TestCase{Input: input, ExpectedOutput: expected}
abbrev pub case_of : Bytes → Bytes → TestCase
case_of input expected = record {
  input = input;
  expected_output = expected;
  time_limit_s = pos 0;
  memory_kb = pos 0;
}

unfoldable pub cases_of : Dict Bytes → List TestCase
cases_of [] = []
cases_of ((input, expected) ∷ m) = case_of input expected ∷ cases_of m

abbrev pub request_with : Job → List TestCase → Request
request_with job tcs = record {
  language = job.language;
  source = job.source_code;
  build_flags = [];
  run_flags = [];
  test_cases = tcs;
  time_limit_s = time_override job.time_limit_seconds;
  memory_kb = memory_override job.memory_limit_kb;
}

-- buildRequest
unfoldable pub build_request : Job → Result JobError Request
unfolding cases_of
build_request job =
    if bytes_eq job.source_code []
    then err source_code_empty
    else if bytes_eq job.language []
    then err language_empty
    else if bytes_eq job.kind run_kind
    then ok (request_with job (case_of job.stdin [] ∷ []))
    else if bytes_eq job.kind submit_kind
    then ok (request_with job (cases_of job.test_cases))
    else err (unknown_job_type job.kind)

round_tests :
    (round (record { mantissa = pos 5; scale = 1 }) ≡ pos 3)
    × (round (record { mantissa = negsuc 4; scale = 1 }) ≡ negsuc 2)
    × (round (record { mantissa = pos 2; scale = 0 }) ≡ pos 2)
unfolding round
round_tests = (refl, refl, refl)

time_override_tests :
    (time_override (some (record { mantissa = pos (10 ^ 30); scale = 0 }))
      ≡ negsuc 9_223_372_036_854_775_807)
    × (time_override (some (record { mantissa = pos 5; scale = 1 })) ≡ pos 3)
unfolding time_override
time_override_tests = (refl, refl)
