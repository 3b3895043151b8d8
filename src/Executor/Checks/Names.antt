-- ===== src/Executor/Checks/Names.antt =====
-- What the pattern safeName says of a file name.
use code_sandbox.Prelude.{◌≡◌, ◌≢◌, true, [], ◌∷◌, arith, Bytes}
use code_sandbox.Strings.Paths.Cleaned.{NoSlash}
use code_sandbox.Executor.Checks.{is_name_char, all_name_chars, safe_name}

all_name_chars-NoSlash : (s : Bytes) → all_name_chars s ≡ true → NoSlash s
unfolding all_name_chars is_name_char
all_name_chars-NoSlash [] h = tt
all_name_chars-NoSlash (c ∷ s) h = (ground arith, all_name_chars-NoSlash s (ground arith))

pub safe_name-ne-nil : (s : Bytes) → safe_name s ≡ true → s ≢ []
unfolding safe_name
safe_name-ne-nil [] h q = cc h
safe_name-ne-nil (c ∷ s) h q = cc q

pub safe_name-NoSlash : (s : Bytes) → safe_name s ≡ true → NoSlash s
unfolding safe_name
safe_name-NoSlash [] h = tt
safe_name-NoSlash (c ∷ s) h = all_name_chars-NoSlash (c ∷ s) h
