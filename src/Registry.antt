-- ===== src/Registry.antt =====
-- internal/registry/registry.go: the language definitions, loaded from YAML files at startup.
-- The directory, the files and the YAML decoder are parameters: what the loader is told of them.
pub mod Loading
pub mod Entries
pub mod Latest
pub mod Outcome
use code_sandbox.Prelude.{
  ℤ, Bool, true, false, ◌&&◌, ◌||◌, not, Option, none, some, List, [], ◌∷◌, ◌++◌, if◌then◌else◌,
  Bytes, codes, bytes_eq, Result, ok, err,
}
use code_sandbox.Dict.{Dict, lookup, insert, keys}
use code_sandbox.Strings.{has_suffix}
use code_sandbox.Strings.Paths.{join_path}

-- Phase
pub record Phase : Type 0 where
  pub command : Bytes
  pub args : List Bytes
  pub allowed_flags : List Bytes
  pub time_limit_s : ℤ
  pub memory_kb : ℤ
  pub max_processes : ℤ

-- Language; a nil phase is `none`
pub record Language : Type 0 where
  pub name : Bytes
  pub version : Bytes
  pub source_file : Bytes
  pub artifact : Bytes
  pub build : Option Phase
  pub run : Option Phase

-- Registry. Its lock makes each method one step.
pub record Registry : Type 0 where
  pub languages : Dict Language

-- New
unfoldable pub new : Registry
new = record { languages = [] }

-- The errors of `validate`, one for each message.
pub data Invalid : Type 0 where
  missing_name missing_source_file missing_run run_command_empty build_command_empty : Invalid

pub data LoadError : Type 0 where
  read_file_failed : Bytes → LoadError
  yaml_decode_failed : Bytes → LoadError
  invalid : Invalid → LoadError

pub data DirError : Type 0 where
  read_dir_failed : Bytes → Bytes → DirError
  load_failed : Bytes → LoadError → DirError

-- validate; the build phase is looked at last
unfoldable pub validate_build : Option Phase → Option Invalid
validate_build none = none
validate_build (some p) = if bytes_eq p.command [] then some build_command_empty else none

unfoldable pub validate_run : Option Phase → Option Phase → Option Invalid
unfolding validate_build
validate_run none build = some missing_run
validate_run (some p) build =
    if bytes_eq p.command [] then some run_command_empty else validate_build build

unfoldable pub validate : Language → Option Invalid
unfolding validate_run
validate l =
    if bytes_eq l.name []
    then some missing_name
    else if bytes_eq l.source_file []
    then some missing_source_file
    else validate_run l.run l.build

pub record DirEntry : Type 0 where
  pub entry_name : Bytes
  pub is_dir : Bool

-- What the loader is told by os.ReadDir, os.ReadFile and yaml.Unmarshal.
pub record Files : Type 0 where
  pub read_dir : Bytes → Result Bytes (List DirEntry)
  pub read_file : Bytes → Result Bytes Bytes
  pub decode_yaml : Bytes → Result Bytes Language

register : Registry → Language → Option Invalid → Registry × Option LoadError
register r lang (some e) = (r, some (invalid e))
register r lang none = (record { languages = insert lang.name lang r.languages }, none)

-- `if err != nil { return fmt.Errorf("load %s: %w", path, err) }`
go_on :
    Bytes
    → Registry × Option LoadError
    → (Registry → Registry × Option DirError)
    → Registry × Option DirError
go_on path (r, none) rest = rest r
go_on path (r, some cause) rest = (r, some (load_failed path cause))

module _ (files : Files) where
  decode_file : Registry → Result Bytes Language → Registry × Option LoadError
  unfolding register
  decode_file r (err e) = (r, some (yaml_decode_failed e))
  decode_file r (ok lang) = register r lang (validate lang)

  pub load_raw : Registry → Result Bytes Bytes → Registry × Option LoadError
  unfolding decode_file
  load_raw r (err e) = (r, some (read_file_failed e))
  load_raw r (ok raw) = decode_file r (files.decode_yaml raw)

  -- loadFile
  pub load_file : Registry → Bytes → Registry × Option LoadError
  unfolding load_raw
  load_file r path = load_raw r (files.read_file path)

  -- The two `continue`s of LoadDir.
  pub is_language_file : DirEntry → Bool
  is_language_file e =
      not e.is_dir
      && (has_suffix e.entry_name (codes ".yaml") || has_suffix e.entry_name (codes ".yml"))

  pub load_entry : Bytes → Registry → DirEntry → Registry × Option LoadError
  unfolding is_language_file load_file
  load_entry dir r e =
      if is_language_file e then load_file r (join_path dir e.entry_name) else (r, none)

  -- The first error ends the loop; the files before it stay registered.
  pub load_entries : Bytes → Registry → List DirEntry → Registry × Option DirError
  unfolding load_entry go_on
  load_entries dir r [] = (r, none)
  load_entries dir r (e ∷ es) =
      go_on (join_path dir e.entry_name) (load_entry dir r e) (λ r'. load_entries dir r' es)

  -- LoadDir
  unfoldable pub load_dir : Registry → Bytes → Registry × Option DirError
  unfolding load_entries
  load_dir r dir = elim (files.read_dir dir) [
    | err e ↦ (r, some (read_dir_failed dir e))
    | ok entries ↦ load_entries dir r entries
  ]

-- Get
unfoldable pub get : Registry → Bytes → Option Language
unfolding lookup
get r name = lookup name r.languages

-- Names
unfoldable pub names : Registry → List Bytes
unfolding keys
names r = keys r.languages
