-- ===== src/Sandbox/Args.antt =====
-- How nsjail reads the arguments that Run of internal/sandbox/sandbox.go gives it.
-- nsjail is not part of the repository: its reading of arguments is a parameter, and its documented
-- behaviour on the options that Run uses is a hypothesis.
use code_sandbox.Prelude.{
  In, ◌≡◌, ap, ◌∙◌, arith, Option, none, some, List, [], ◌∷◌, ◌++◌, pos, quot, ◌+ℤ◌, Bytes, codes,
}
use code_sandbox.Strings.{itoa}
use code_sandbox.Sandbox.{RunSpec, dashes, nsjail_options, nsjail_args, whole_seconds}

-- An option as it was read, with its value.
abbrev pub Setting : Type 0
Setting = Bytes × Option Bytes

unfoldable pub add_setting :
    Setting → Option (List Setting × List Bytes) → Option (List Setting × List Bytes)
add_setting x none = none
add_setting x (some (xs, rest)) = some (x ∷ xs, rest)

-- What nsjail documents of the options that Run uses: these take a value, and those take none.
abbrev pub value_options : List Bytes
value_options =
    codes "--mode"
    ∷ codes "--log"
    ∷ codes "--chroot"
    ∷ codes "--cwd"
    ∷ codes "--bindmount"
    ∷ codes "--user"
    ∷ codes "--group"
    ∷ codes "--hostname"
    ∷ codes "--rlimit_as"
    ∷ codes "--env"
    ∷ codes "--rlimit_cpu"
    ∷ codes "--rlimit_fsize"
    ∷ codes "--rlimit_nofile"
    ∷ codes "--rlimit_nproc"
    ∷ codes "--time_limit"
    ∷ []

abbrev pub flag_options : List Bytes
flag_options =
    codes "--really_quiet"
    ∷ codes "--disable_clone_newuser"
    ∷ codes "--disable_proc"
    ∷ codes "--iface_no_lo"
    ∷ []

-- How nsjail reads its arguments, by getopt_long: the options end at "--", and what follows is not
-- read. An option that takes a value has the next argument as its value, whatever that is.
pub record IsReader (read : List Bytes → Option (List Setting × List Bytes)) : Type 0 where
  pub ended : (rest : List Bytes) → read (dashes ∷ rest) ≡ some ([], rest)
  pub flag :
      (o : Bytes) (args : List Bytes)
      → In o flag_options
      → read (o ∷ args) ≡ add_setting (o, none) (read args)
  pub valued :
      (o v : Bytes) (args : List Bytes)
      → In o value_options
      → read (o ∷ v ∷ args) ≡ add_setting (o, some v) (read args)

-- The settings of a run, each option with its value.
abbrev pub settings : RunSpec → List Setting
settings spec =
    (codes "--mode", some (codes "once"))
    ∷ (codes "--really_quiet", none)
    ∷ (codes "--log", some (codes "/dev/null"))
    ∷ (codes "--chroot", some (codes "/"))
    ∷ (codes "--cwd", some (codes "/sandbox"))
    ∷ (codes "--bindmount", some (spec.cwd ++ codes ":/sandbox"))
    ∷ (codes "--disable_clone_newuser", none)
    ∷ (codes "--user", some (itoa spec.uid))
    ∷ (codes "--group", some (itoa spec.gid))
    ∷ (codes "--hostname", some (codes "goboxd"))
    ∷ (codes "--disable_proc", none)
    ∷ (codes "--iface_no_lo", none)
    ∷ (codes "--rlimit_as", some (itoa (quot spec.memory_kb 1024)))
    ∷ (
      codes "--env",
      some (codes "PATH=/usr/local/sbin:/usr/local/bin:/usr/sbin:/usr/bin:/sbin:/bin"),
    )
    ∷ (codes "--env", some (codes "TMPDIR=/sandbox"))
    ∷ (codes "--env", some (codes "HOME=/sandbox"))
    ∷ (codes "--env", some (codes "LANG=C.UTF-8"))
    ∷ (codes "--rlimit_cpu", some (itoa (whole_seconds spec.wall_time +ℤ pos 1)))
    ∷ (codes "--rlimit_fsize", some (codes "65536"))
    ∷ (codes "--rlimit_nofile", some (codes "64"))
    ∷ (codes "--rlimit_nproc", some (itoa spec.max_processes))
    ∷ (codes "--time_limit", some (itoa (whole_seconds spec.wall_time)))
    ∷ []

flatten : List Setting → List Bytes
flatten [] = []
flatten ((o, none) ∷ xs) = o ∷ flatten xs
flatten ((o, some v) ∷ xs) = o ∷ v ∷ flatten xs

-- Each option is documented, with a value if it has one here.
abbrev AllDocumented : List Setting → Type 0
AllDocumented [] = Unit {0}
AllDocumented ((o, none) ∷ xs) = In o flag_options × AllDocumented xs
AllDocumented ((o, some v) ∷ xs) = In o value_options × AllDocumented xs

module _ (read : List Bytes → Option (List Setting × List Bytes)) (reader : IsReader read) where
  read-flatten :
      (xs : List Setting) (rest : List Bytes)
      → AllDocumented xs
      → read (flatten xs ++ (dashes ∷ rest)) ≡ some (xs, rest)
  unfolding flatten add_setting
  read-flatten [] rest h = reader.ended rest
  read-flatten ((o, none) ∷ xs) rest (d, h) =
      reader.flag o (flatten xs ++ (dashes ∷ rest)) d
      ∙ ap (add_setting (o, none)) (read-flatten xs rest h)
  read-flatten ((o, some v) ∷ xs) rest (d, h) =
      reader.valued o v (flatten xs ++ (dashes ∷ rest)) d
      ∙ ap (add_setting (o, some v)) (read-flatten xs rest h)

settings-AllDocumented : (spec : RunSpec) → AllDocumented (settings spec)
settings-AllDocumented spec = ground arith

-- However nsjail reads its arguments by the rules of getopt_long, with the options that take a value
-- as documented, it reads the settings of the run, each option with its own value, and then the
-- command with its arguments, none of which is read as an option.
pub nsjail_args-split :
    (read : List Bytes → Option (List Setting × List Bytes)) (spec : RunSpec)
    → IsReader read
    → read (nsjail_args spec) ≡ some (settings spec, spec.command ∷ spec.args)
unfolding nsjail_args nsjail_options flatten
nsjail_args-split read spec reader =
    read-flatten read reader (settings spec) (spec.command ∷ spec.args)
      (settings-AllDocumented spec)
