-- ===== src/Config.antt =====
-- internal/config/config.go: the settings, read from the environment.
pub mod Environment
use code_sandbox.Prelude.{
  ℤ, pos, ◌*ℤ◌, int64, Bool, Option, none, some, [], if◌then◌else◌, Bytes, codes, bytes_eq,
}
use code_sandbox.Strings.Parse.{atoi}

-- Config. The request timeout is in nanoseconds.
pub record Config : Type 0 where
  pub http_addr : Bytes
  pub nsjail_path : Bytes
  pub languages_dir : Bytes
  pub job_root : Bytes
  pub max_concurrency : ℤ
  pub queue_depth : ℤ
  pub request_timeout : ℤ
  pub max_source_bytes : ℤ
  pub max_output_bytes : ℤ
  pub max_test_cases : ℤ
  pub jail_uid : ℤ
  pub jail_gid : ℤ
  pub sqs_queue_url : Bytes
  pub redis_addr : Bytes
  pub redis_password : Bytes
  pub redis_tls : Bool
  pub sqs_workers : ℤ

-- The number that was read, or the fallback.
unfoldable pub or_fallback : Option ℤ → ℤ → ℤ
or_fallback none fallback = fallback
or_fallback (some n) fallback = n

-- os.Getenv, which gives the empty string for what is not set
module _ (getenv : Bytes → Bytes) where
  -- envOr
  unfoldable pub env_or : Bytes → Bytes → Bytes
  env_or key fallback = let v = getenv key in if bytes_eq v [] then fallback else v

  -- envIntOr
  unfoldable pub env_int_or : Bytes → ℤ → ℤ
  unfolding or_fallback
  env_int_or key fallback =
      let v = getenv key in if bytes_eq v [] then fallback else or_fallback (atoi v) fallback

  -- Load, with the answer of runtime.NumCPU
  unfoldable pub load : ℤ → Config
  unfolding env_or env_int_or
  load num_cpu = record {
    http_addr = env_or (codes "GOBOXD_HTTP_ADDR") (codes ":8080");
    nsjail_path = env_or (codes "GOBOXD_NSJAIL") (codes "/usr/local/bin/nsjail");
    languages_dir = env_or (codes "GOBOXD_LANGUAGES_DIR") (codes "/etc/goboxd/languages");
    job_root = env_or (codes "GOBOXD_JOB_ROOT") (codes "/tmp/goboxd");
    max_concurrency = env_int_or (codes "GOBOXD_MAX_CONCURRENCY") num_cpu;
    queue_depth = env_int_or (codes "GOBOXD_QUEUE_DEPTH") (int64 (num_cpu *ℤ 4));
    request_timeout =
        int64 (env_int_or (codes "GOBOXD_REQUEST_TIMEOUT_S") (pos 60) *ℤ 1_000_000_000);
    max_source_bytes = env_int_or (codes "GOBOXD_MAX_SOURCE_BYTES") (pos 262_144);
    max_output_bytes = env_int_or (codes "GOBOXD_MAX_OUTPUT_BYTES") (pos 1_048_576);
    max_test_cases = env_int_or (codes "GOBOXD_MAX_TEST_CASES") (pos 100);
    jail_uid = env_int_or (codes "GOBOXD_JAIL_UID") (pos 99999);
    jail_gid = env_int_or (codes "GOBOXD_JAIL_GID") (pos 99999);
    sqs_queue_url = env_or (codes "SQS_QUEUE_URL") [];
    redis_addr = env_or (codes "REDIS_ADDR") (codes "localhost:6379");
    redis_password = getenv (codes "REDIS_PASSWORD");
    redis_tls = bytes_eq (env_or (codes "REDIS_TLS") (codes "false")) (codes "true");
    sqs_workers = env_int_or (codes "GOBOXD_SQS_WORKERS") (pos 2);
  }
