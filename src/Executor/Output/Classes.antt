-- ===== src/Executor/Output/Classes.antt =====
-- The verdicts of compareOutput, described by the normalised texts alone.
use code_sandbox.Prelude.{ℕ, ◌≡◌, ◌≢◌, ◌↔◌, sym, ap, ◌∙◌, true, arith, Bytes, bytes_eq_iff}
use code_sandbox.Strings.Blank.{is_ascii_space}
use code_sandbox.Strings.Words.{fields}
use code_sandbox.Strings.Join.{join-fields_iff, fields-trim_right}
use code_sandbox.Executor.Output.{
  output_exact, output_whitespace_only, output_mismatch, unix_lines, is_trailing_blank,
  normalize_strict, normalize_loose, compare_output,
}

trailing_blank-is_ascii_space : (c : ℕ) → is_trailing_blank c ≡ true → is_ascii_space c ≡ true
unfolding is_trailing_blank is_ascii_space
trailing_blank-is_ascii_space c h = ground arith

fields-normalize_strict : (s : Bytes) → fields (normalize_strict s) ≡ fields (unix_lines s)
fields-normalize_strict s =
    unfold normalize_strict in
    fields-trim_right is_trailing_blank trailing_blank-is_ascii_space (unix_lines s)

-- Texts that agree strictly have the same fields.
strict→fields :
    (a b : Bytes)
    → normalize_strict a ≡ normalize_strict b
    → fields (unix_lines a) ≡ fields (unix_lines b)
strict→fields a b e = sym (fields-normalize_strict a) ∙ ap fields e ∙ fields-normalize_strict b

loose_iff :
    (a b : Bytes)
    → (normalize_loose a ≡ normalize_loose b) ↔ (fields (unix_lines a) ≡ fields (unix_lines b))
loose_iff a b = unfold normalize_loose in join-fields_iff (unix_lines a) (unix_lines b)

-- The verdict is exact when the texts agree after line ends are unified and trailing blanks cut,
-- whitespace_only when they do not but split into the same fields, and a mismatch when the fields
-- differ; no other case exists.
pub compare_output_classes :
    (a b : Bytes)
    → ((compare_output a b ≡ output_exact) ↔ (normalize_strict a ≡ normalize_strict b))
      × ((compare_output a b ≡ output_whitespace_only) ↔ (
          (normalize_strict a ≢ normalize_strict b)
          × (fields (unix_lines a) ≡ fields (unix_lines b))))
      × ((compare_output a b ≡ output_mismatch) ↔ (fields (unix_lines a) ≢ fields (unix_lines b)))
unfolding compare_output
compare_output_classes a b = ground (
  arith,
  bytes_eq_iff a b,
  bytes_eq_iff (normalize_strict a) (normalize_strict b),
  bytes_eq_iff (normalize_loose a) (normalize_loose b),
  strict→fields a b,
  loose_iff a b,
)
