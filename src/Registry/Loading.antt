-- ===== src/Registry/Loading.antt =====
-- What LoadDir leaves in the registry, whether it ends well or with an error.
use code_sandbox.Prelude.{
  ◌≡◌, inl, inr, Option, Option-cases, none, some, List, [], ◌∷◌, arith, Bytes, bytes_eq_iff,
  Bool-cases, Result-cases,
}
use code_sandbox.Strings.Paths.{join_path}
use code_sandbox.Dict.{lookup, insert, lookup-insert}
use code_sandbox.Registry.{
  Language, Registry, Files, DirEntry, LoadError, DirError, validate, new, register, load_file,
  decode_file, load_raw, load_entry, load_entries, load_dir, go_on, is_language_file, get,
}

-- Every language stands under its own name and has passed `validate`.
pub record IsLoaded (r : Registry) : Type 0 where
  pub at_name : (k : Bytes) (l : Language) → get r k ≡ some l → (l.name ≡ k) × (validate l ≡ none)

new-IsLoaded : IsLoaded new
unfolding new get lookup
new-IsLoaded = record { at_name = λ k l h. cc }

insert-IsLoaded :
    (r : Registry) (l : Language)
    → validate l ≡ none
    → IsLoaded r
    → IsLoaded (record { languages = insert l.name l r.languages })
unfolding get
insert-IsLoaded r l v h = record {
  at_name = λ k l' e.
      ground (arith, lookup-insert l.name k l r.languages, bytes_eq_iff l.name k, h.at_name k l');
}

go_on-IsLoaded :
    (path : Bytes) (p : Registry × Option LoadError) (rest : Registry → Registry × Option DirError)
    → IsLoaded p.0
    → ((r : Registry) → IsLoaded r → IsLoaded (rest r).0)
    → IsLoaded (go_on path p rest).0
unfolding go_on
go_on-IsLoaded path (r, none) rest h k = k r h
go_on-IsLoaded path (r, some cause) rest h k = h

module _ (files : Files) where
  load_file-IsLoaded :
      (r : Registry) (path : Bytes) → IsLoaded r → IsLoaded (load_file files r path).0
  unfolding load_file
  load_file-IsLoaded r path h = elim (Result-cases (files.read_file path)) [
    | inr (e, p) ↦ rw (p, load_raw) h
    | inl (raw, p) ↦ elim (Result-cases (files.decode_yaml raw)) [
      | inr (e, q) ↦ rw (p, load_raw, q, decode_file) h
      | inl (lang, q) ↦ elim (Option-cases (validate lang)) [
        | inr (e, v) ↦ rw (p, load_raw, q, decode_file, v, register) h
        | inl v ↦ rw (p, load_raw, q, decode_file, v, register) (insert-IsLoaded r lang v h)
      ]
    ]
  ]

  load_entry-IsLoaded :
      (dir : Bytes) (r : Registry) (e : DirEntry)
      → IsLoaded r
      → IsLoaded (load_entry files dir r e).0
  unfolding load_entry
  load_entry-IsLoaded dir r e h = elim (Bool-cases (is_language_file files e)) [
    | inl b ↦ rw b (load_file-IsLoaded r (join_path dir e.entry_name) h)
    | inr b ↦ rw b h
  ]

  load_entries-IsLoaded :
      (dir : Bytes) (r : Registry) (es : List DirEntry)
      → IsLoaded r
      → IsLoaded (load_entries files dir r es).0
  unfolding load_entries
  load_entries-IsLoaded dir r [] h = h
  load_entries-IsLoaded dir r (e ∷ es) h =
      go_on-IsLoaded _ (load_entry files dir r e) (λ r'. load_entries files dir r' es)
        (load_entry-IsLoaded dir r e h) (λ r' h'. load_entries-IsLoaded dir r' es h')

  -- Loading a directory, with or without an error, leaves only languages that passed `validate`,
  -- each under its own name, if that held before.
  pub load_dir-IsLoaded :
      (r : Registry) (dir : Bytes) → IsLoaded r → IsLoaded (load_dir files r dir).0
  unfolding load_dir
  load_dir-IsLoaded r dir h = elim (Result-cases (files.read_dir dir)) [
    | inr (e, p) ↦ rw (p, load_dir) h
    | inl (es, p) ↦ rw (p, load_dir) (load_entries-IsLoaded dir r es h)
  ]

-- A registry made at startup, new and then loaded from a directory, holds only languages that
-- passed `validate`, each under its own name.
pub load_dir-new-IsLoaded : (files : Files) (dir : Bytes) → IsLoaded (load_dir files new dir).0
load_dir-new-IsLoaded files dir = load_dir-IsLoaded files new dir new-IsLoaded
