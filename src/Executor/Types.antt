-- ===== src/Executor/Types.antt =====
-- internal/executor/types.go, and the errors of internal/executor/executor.go.
use code_sandbox.Prelude.{ℕ, ℤ, Bool, true, false, Option, List, Bytes}

-- The status vocabulary. Go has strings here; each constructor is one of the constants.
pub data Status : Type 0 where
  accepted wrong_output output_whitespace_mismatch time_exceeded memory_exceeded : Status
  runtime_error build_failed not_executed internal_error : Status
  -- the zero value ""
  unset : Status

pub data BuildStatus : Type 0 where
  build_ok build_phase_failed build_internal_error : BuildStatus

-- TestCase
pub record TestCase : Type 0 where
  pub input : Bytes
  pub expected_output : Bytes
  pub time_limit_s : ℤ
  pub memory_kb : ℤ

-- Request
pub record Request : Type 0 where
  pub language : Bytes
  pub source : Bytes
  pub build_flags : List Bytes
  pub run_flags : List Bytes
  pub test_cases : List TestCase
  pub time_limit_s : ℤ
  pub memory_kb : ℤ

-- TestResult
pub record TestResult : Type 0 where
  pub status : Status
  pub stdout : Bytes
  pub stderr : Bytes
  pub exit_code : ℤ
  pub signal : Bytes
  pub duration_ms : ℤ
  pub memory_kb : ℤ

-- BuildPhase
pub record BuildPhase : Type 0 where
  pub status : BuildStatus
  pub stdout : Bytes
  pub stderr : Bytes
  pub duration_ms : ℤ

-- Response
pub record Response : Type 0 where
  pub status : Status
  pub build : Option BuildPhase
  pub tests : List TestResult

-- Which limit an override passes: the request's, or that of the test case with this index.
pub data Override : Type 0 where
  request_time_limit request_memory : Override
  test_time_limit test_memory : ℕ → Override

-- Errors of the sandbox package; `exec_failed` wraps the error of os/exec.
pub data SandboxError : Type 0 where
  empty_nsjail_path empty_command : SandboxError
  exec_failed : Bytes → SandboxError

-- The sentinel errors, with what they are wrapped with, and the errors made by fmt.Errorf.
pub data RunError : Type 0 where
  unknown_language source_too_large too_many_tests overloaded : RunError
  disallowed_flag : Bytes → RunError
  override_too_big : Override → RunError
  unsafe_source_file unsafe_artifact : RunError
  mkdir_job_failed write_source_failed chown_job_dir_failed chown_source_failed : Bytes → RunError
  sandbox_failed : SandboxError → RunError

-- status == StatusAccepted
unfoldable pub is_accepted : Status → Bool
is_accepted accepted = true
is_accepted _ = false

-- The downgrade of a run without expected output: wrong_output and mismatch become accepted.
unfoldable pub downgrade : Status → Status
downgrade wrong_output = accepted
downgrade output_whitespace_mismatch = accepted
downgrade s = s

-- An error of the request or of its language, found before anything is done.
abbrev pub IsRequestError : RunError → Type 0
IsRequestError unknown_language = Unit {0}
IsRequestError source_too_large = Unit
IsRequestError too_many_tests = Unit
IsRequestError (disallowed_flag f) = Unit
IsRequestError (override_too_big o) = Unit
IsRequestError unsafe_source_file = Unit
IsRequestError unsafe_artifact = Unit
IsRequestError _ = ⊥

-- An error of the host: the job directory could not be prepared, or the build could not be started.
abbrev pub IsHostError : RunError → Type 0
IsHostError (mkdir_job_failed e) = Unit {0}
IsHostError (write_source_failed e) = Unit
IsHostError (chown_job_dir_failed e) = Unit
IsHostError (chown_source_failed e) = Unit
IsHostError (sandbox_failed e) = Unit
IsHostError _ = ⊥
