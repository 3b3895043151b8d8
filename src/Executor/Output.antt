-- ===== src/Executor/Output.antt =====
-- compareOutput of internal/executor/executor.go: how a program's output is judged.
pub mod Classes
use code_sandbox.Prelude.{
  ℕ, ◌≡◌, refl, Bool, true, false, ◌||◌, List, [], ◌∷◌, arith, ◌==◌, if◌then◌else◌, Bytes, codes,
  bytes_eq,
}
use code_sandbox.Strings.{replace_all, trim_right, join}
use code_sandbox.Strings.Words.{fields}

-- outputCmp
pub data OutputCmp : Type 0 where
  output_exact output_whitespace_only output_mismatch : OutputCmp

-- strings.ReplaceAll(s, "\r\n", "\n")
abbrev pub unix_lines : Bytes → Bytes
unix_lines s = replace_all s (b'\r' ∷ b'\n' ∷ []) (b'\n' ∷ [])

-- The cutset " \t\n" of strings.TrimRight.
unfoldable pub is_trailing_blank : ℕ → Bool
is_trailing_blank c = c == b' ' || c == b'\t' || c == b'\n'

-- normalizeStrict
unfoldable pub normalize_strict : Bytes → Bytes
unfolding is_trailing_blank replace_all trim_right
normalize_strict s = trim_right is_trailing_blank (unix_lines s)

-- normalizeLoose
unfoldable pub normalize_loose : Bytes → Bytes
unfolding replace_all fields join
normalize_loose s = join (fields (unix_lines s)) (b' ' ∷ [])

-- compareOutput
unfoldable pub compare_output : Bytes → Bytes → OutputCmp
compare_output actual expected =
    if bytes_eq actual expected
    then output_exact
    else if bytes_eq (normalize_strict actual) (normalize_strict expected)
    then output_exact
    else if bytes_eq (normalize_loose actual) (normalize_loose expected)
    then output_whitespace_only
    else output_mismatch

-- The cases of TestCompareOutput.
compare_output_tests :
    (compare_output (codes "42") (codes "42\n") ≡ output_exact)
    × (compare_output (codes "42 \n") (codes "42\n") ≡ output_exact)
    × (compare_output (codes "4 2") (codes "42") ≡ output_mismatch)
    × (compare_output (codes "43") (codes "42") ≡ output_mismatch)
    × (compare_output (codes "hello world\n") (codes "hello\tworld") ≡ output_whitespace_only)
    × (compare_output (codes "hello  world\n") (codes "hello world\n") ≡ output_whitespace_only)
    × (compare_output (codes "foo\nbar\n") (codes "foo bar") ≡ output_whitespace_only)
unfolding compare_output bytes_eq normalize_strict normalize_loose
compare_output_tests = (refl, refl, refl, refl, refl, refl, refl)
