-- ===== src/Worker/Setup.antt =====
-- New of internal/worker/worker.go. The AWS configuration is a parameter: the error of
-- awsconfig.LoadDefaultConfig for a region, if there is one.
use code_sandbox.Prelude.{
  Bool, Option, none, some, [], if◌then◌else◌, ℤ, pos, ltb_ℤ, Bytes, codes, bytes_eq, Result, ok,
  err,
}

-- Worker, with the options that its two clients are made from. The executor is shared.
pub record Worker : Type 0 where
  pub region : Bytes
  pub queue_url : Bytes
  pub redis_addr : Bytes
  pub redis_password : Bytes
  pub redis_tls : Bool
  pub workers : ℤ

-- A second choice for an empty string.
abbrev pub or_else : Bytes → Bytes → Bytes
or_else a b = if bytes_eq a [] then b else a

unfoldable pub region_of : (Bytes → Bytes) → Bytes
region_of getenv =
    or_else (or_else (getenv (codes "AWS_REGION")) (getenv (codes "AWS_DEFAULT_REGION")))
      (codes "ap-south-1")

unfoldable pub at_least_one : ℤ → ℤ
at_least_one workers = if ltb_ℤ workers (pos 1) then pos 1 else workers

-- New
unfoldable pub new_worker :
    (Bytes → Bytes)
    → (Bytes → Option Bytes)
    → Bytes
    → Bytes
    → Bytes
    → Bool
    → ℤ
    → Result Bytes Worker
unfolding region_of at_least_one
new_worker getenv load_aws queue_url redis_addr redis_password redis_tls workers =
    let region = region_of getenv in
    elim (load_aws region) [
      | some e ↦ err e
      | none ↦ ok (record {
        region = region;
        queue_url = queue_url;
        redis_addr = redis_addr;
        redis_password = redis_password;
        redis_tls = redis_tls;
        workers = at_least_one workers;
      })
    ]
