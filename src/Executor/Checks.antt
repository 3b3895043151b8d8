-- ===== src/Executor/Checks.antt =====
-- The checks of a request in internal/executor/executor.go: flags, limits, file names, and the
-- rendering of arguments.
pub mod Laws
pub mod Names
pub mod Refusals
use code_sandbox.Prelude.{
  ℕ, suc, ◌+◌, ◌≡◌, refl, Bool, true, false, ◌&&◌, ◌||◌, Option, none, some, List, [], ◌∷◌, ◌++◌,
  leb, ◌==◌, if◌then◌else◌, ℤ, pos, ltb_ℤ, Bytes, codes, bytes_eq,
}
use code_sandbox.Strings.{replace_all}
use code_sandbox.Registry.{Phase, Language}
use code_sandbox.Executor.Types.{
  TestCase, Request, RunError, disallowed_flag, override_too_big, request_time_limit,
  request_memory, test_time_limit, test_memory,
}

-- [a-zA-Z0-9._-]
unfoldable pub is_name_char : ℕ → Bool
is_name_char c =
    leb b'a' c && leb c b'z'
    || leb b'A' c && leb c b'Z'
    || leb b'0' c && leb c b'9'
    || c == b'.'
    || c == b'_'
    || c == b'-'

all_name_chars : Bytes → Bool
unfolding is_name_char
all_name_chars [] = true
all_name_chars (c ∷ s) = is_name_char c && all_name_chars s

-- safeName.MatchString: one character or more, each of the class
unfoldable pub safe_name : Bytes → Bool
unfolding all_name_chars
safe_name [] = false
safe_name (c ∷ s) = all_name_chars (c ∷ s)

-- Membership in the set that filterFlags builds from the allowed flags.
unfoldable pub allows : List Bytes → Bytes → Bool
allows [] u = false
allows (a ∷ allowed) u = bytes_eq a u || allows allowed u

-- filterFlags; the first flag that is not allowed is reported
unfoldable pub filter_flags : List Bytes → List Bytes → Option RunError
filter_flags [] allowed = none
filter_flags (u ∷ user) allowed =
    if allows allowed u then filter_flags user allowed else some (disallowed_flag u)

-- renderArgs
unfoldable pub render_arg : Language → Bytes → Bytes
unfolding replace_all
render_arg lang a =
    replace_all (replace_all a (codes "{{source}}") lang.source_file) (codes "{{artifact}}")
      lang.artifact

unfoldable pub render_args : List Bytes → Language → List Bytes → List Bytes
unfolding render_arg
render_args [] lang user_flags = user_flags
render_args (a ∷ template) lang user_flags =
    render_arg lang a ∷ render_args template lang user_flags

-- The loop of boundOverrides, from test case i on.
bound_tests : ℤ → ℤ → ℕ → List TestCase → Option RunError
bound_tests max_t max_m i [] = none
bound_tests max_t max_m i (tc ∷ tcs) =
    if ltb_ℤ max_t tc.time_limit_s
    then some (override_too_big (test_time_limit i))
    else if ltb_ℤ max_m tc.memory_kb
    then some (override_too_big (test_memory i))
    else bound_tests max_t max_m (i + 1) tcs

-- boundOverrides, for the run phase of the language; a nil run phase is a panic of the caller
unfoldable pub bound_overrides : Phase → Request → Option RunError
unfolding bound_tests
bound_overrides run req =
    if ltb_ℤ run.time_limit_s req.time_limit_s
    then some (override_too_big request_time_limit)
    else if ltb_ℤ run.memory_kb req.memory_kb
    then some (override_too_big request_memory)
    else bound_tests run.time_limit_s run.memory_kb 0 req.test_cases

-- runOne: an override counts only if it is positive
unfoldable pub effective : ℤ → ℤ → ℤ
effective limit override = if ltb_ℤ (pos 0) override then override else limit

-- The names of TestSafeNameRegex.
safe_name_tests :
    (safe_name (codes "main_1.cpp") ≡ true)
    × (safe_name (codes "../etc/passwd") ≡ false)
    × (safe_name (codes "main.py\n") ≡ false)
    × (safe_name [] ≡ false)
unfolding safe_name
safe_name_tests = (refl, refl, refl, refl)
