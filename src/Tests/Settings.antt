-- ===== src/Tests/Settings.antt =====
-- Settings from the environment, and other small runs.
use code_sandbox.Prelude.{
  ℕ, ℤ, ◌≡◌, ◌*ℤ◌, int64, refl, true, false, ◌∷◌, [], bytes_eq, arith, pos, Bytes, codes, FitsInt64,
}
use code_sandbox.Strings.{itoa}
use code_sandbox.Registry.{names}
use code_sandbox.Tests.Data.{python}
use code_sandbox.Config.{env_int_or, load}
use code_sandbox.Strings.Paths.{join_path}
use code_sandbox.Executor.Checks.{safe_name}
use code_sandbox.Strings.Parse.{HasOther}
use code_sandbox.Config.Environment.{env_int_or-itoa}

abbrev getenv : Bytes → Bytes
getenv key = codes "25"

printed : codes "25" ≡ itoa (pos 25)
unfolding itoa
printed = refl

small : FitsInt64 (pos 25)
small = record { below = omega arith; above = omega arith }

env_int_or-itoa_example :
    ((z : ℤ)
      → FitsInt64 z
      → codes "25" ≡ itoa z
      → env_int_or getenv (codes "GOBOXD_MAX_TEST_CASES") (pos 100) ≡ z)
    × ((c : ℕ) (s : Bytes)
        → codes "25" ≡ c ∷ s
        → HasOther s
        → env_int_or getenv (codes "GOBOXD_MAX_TEST_CASES") (pos 100) ≡ pos 100)
env_int_or-itoa_example = env_int_or-itoa getenv (codes "GOBOXD_MAX_TEST_CASES") (pos 100)

read : env_int_or getenv (codes "GOBOXD_MAX_TEST_CASES") (pos 100) ≡ pos 25
read = (env_int_or-itoa getenv (codes "GOBOXD_MAX_TEST_CASES") (pos 100)).0 (pos 25) small printed

-- A number with a unit is passed over.
abbrev with_unit : Bytes → Bytes
with_unit key = codes "25s"

not_read : env_int_or with_unit (codes "GOBOXD_MAX_TEST_CASES") (pos 100) ≡ pos 100
not_read =
    (env_int_or-itoa with_unit (codes "GOBOXD_MAX_TEST_CASES") (pos 100)).1 50 (codes "5s") refl
      (ground arith)

-- Nothing is set: the fallbacks, for four processors.
load_test :
    ((load (λ key. []) (pos 4)).queue_depth ≡ pos 16)
    × ((load (λ key. []) (pos 4)).request_timeout ≡ pos 60_000_000_000)
    × ((load (λ key. []) (pos 4)).redis_tls ≡ false)
unfolding load int64 bytes_eq ◌*ℤ◌
load_test = (refl, refl, refl)

-- The source file ".." is a safe name, and its path is that of the directory above.
parent_test :
    (safe_name (codes "..") ≡ true) × (join_path (codes "/jobs/job-1") (codes "..") ≡ codes "/jobs")
unfolding safe_name join_path bytes_eq
parent_test = (refl, refl)

names_test : names (record { languages = (codes "py", python) ∷ [] }) ≡ codes "py" ∷ []
unfolding names
names_test = refl
