-- ===== src/Registry/Entries.antt =====
-- What one entry of the directory does to the registry, and how LoadDir goes on.
use code_sandbox.Prelude.{
  ◌≡◌, ◌≢◌, refl, ◌⊎◌, inl, inr, true, Option, none, some, List, ◌∷◌, arith, Bytes, Result, ok, err,
  ap, bytes_eq_refl,
}
use code_sandbox.Strings.Paths.{join_path}
use code_sandbox.Dict.{insert, lookup-insert}
use code_sandbox.Registry.{
  Language, Registry, Invalid, Files, DirEntry, LoadError, load_failed, read_dir_failed, validate,
  register, load_file, decode_file, load_raw, load_entry, load_entries, load_dir, go_on,
  is_language_file, get,
}

module _ (files : Files) (dir : Bytes) where
  abbrev pub path_of : DirEntry → Bytes
  path_of e = join_path dir e.entry_name

  pub load_entry_failed :
      (r end : Registry) (e : DirEntry) (reason : LoadError)
      → load_entry files dir r e ≡ (end, some reason)
      → (is_language_file files e ≡ true) × (load_file files r (path_of e) ≡ (end, some reason))
  unfolding load_entry
  load_entry_failed r end e reason h = ground arith

  pub load_entries_cons :
      (r r1 : Registry) (e : DirEntry) (es : List DirEntry)
      → load_entry files dir r e ≡ (r1, none)
      → load_entries files dir r (e ∷ es) ≡ load_entries files dir r1 es
  unfolding load_entries
  load_entries_cons r r1 e es h =
      ap (λ p. go_on (path_of e) p (λ r'. load_entries files dir r' es)) h

  pub load_entries_head_failed :
      (r r1 : Registry) (e : DirEntry) (es : List DirEntry) (reason : LoadError)
      → load_entry files dir r e ≡ (r1, some reason)
      → load_entries files dir r (e ∷ es) ≡ (r1, some (load_failed (path_of e) reason))
  unfolding load_entries
  load_entries_head_failed r r1 e es reason h =
      ap (λ p. go_on (path_of e) p (λ r'. load_entries files dir r' es)) h

  pub load_entry-cases :
      (r : Registry) (e : DirEntry)
      → ((r1 : Registry) × (load_entry files dir r e ≡ (r1, none)))
        ⊎ ((r1 : Registry) × (reason : LoadError) × (load_entry files dir r e ≡ (r1, some reason)))
  load_entry-cases r e = go (load_entry files dir r e) refl
    where
      go :
          (p : Registry × Option LoadError)
          → load_entry files dir r e ≡ p
          → ((r1 : Registry) × (load_entry files dir r e ≡ (r1, none)))
            ⊎ ((r1 : Registry) × (reason : LoadError) × (load_entry files dir r e
                  ≡ (r1, some reason)))
      go (r1, none) h = inl (r1, h)
      go (r1, some reason) h = inr (r1, reason, h)

  pub insert_keeps :
      (r : Registry) (l : Language) (k : Bytes)
      → get r k ≢ none
      → get (record { languages = insert l.name l r.languages }) k ≢ none
  unfolding get
  insert_keeps r l k h = ground (arith, lookup-insert l.name k l r.languages)

  pub insert_registers :
      (r : Registry) (l : Language)
      → get (record { languages = insert l.name l r.languages }) l.name ≢ none
  unfolding get
  insert_registers r l =
      ground (arith, lookup-insert l.name l.name l r.languages, bytes_eq_refl l.name)

  abbrev pub Inserted : Registry → Registry → Language → Type 0
  Inserted r r1 lang =
      (validate lang ≡ none) × (r1 ≡ record { languages = insert lang.name lang r.languages })

  register_ok :
      (r r1 : Registry) (lang : Language) (v : Option Invalid)
      → register r lang v ≡ (r1, none)
      → (v ≡ none) × (r1 ≡ record { languages = insert lang.name lang r.languages })
  unfolding register
  register_ok r r1 lang none h = (refl, cc h)
  register_ok r r1 lang (some e) h = cc h

  decode_file_ok :
      (r r1 : Registry) (d : Result Bytes Language)
      → decode_file files r d ≡ (r1, none)
      → (lang : Language) × (d ≡ ok lang) × Inserted r r1 lang
  unfolding decode_file
  decode_file_ok r r1 (err e) h = cc h
  decode_file_ok r r1 (ok lang) h = (lang, refl, register_ok r r1 lang (validate lang) h)

  pub load_raw_ok :
      (r r1 : Registry) (f : Result Bytes Bytes)
      → load_raw files r f ≡ (r1, none)
      → (raw : Bytes) × (lang : Language) × (f ≡ ok raw)
        × (files.decode_yaml raw ≡ ok lang)
        × Inserted r r1 lang
  unfolding load_raw
  load_raw_ok r r1 (err e) h = cc h
  load_raw_ok r r1 (ok raw) h =
      let (lang, d, v) = decode_file_ok r r1 (files.decode_yaml raw) h in (raw, lang, refl, d, v)

  register_failed :
      (r end : Registry) (lang : Language) (v : Option Invalid) (reason : LoadError)
      → register r lang v ≡ (end, some reason)
      → r ≡ end
  unfolding register
  register_failed r end lang none reason h = cc h
  register_failed r end lang (some e) reason h = cc h

  decode_file_failed :
      (r end : Registry) (d : Result Bytes Language) (reason : LoadError)
      → decode_file files r d ≡ (end, some reason)
      → r ≡ end
  unfolding decode_file
  decode_file_failed r end (err e) reason h = cc h
  decode_file_failed r end (ok lang) reason h = register_failed r end lang (validate lang) reason h

  load_raw_failed :
      (r end : Registry) (f : Result Bytes Bytes) (reason : LoadError)
      → load_raw files r f ≡ (end, some reason)
      → r ≡ end
  unfolding load_raw
  load_raw_failed r end (err e) reason h = cc h
  load_raw_failed r end (ok raw) reason h =
      decode_file_failed r end (files.decode_yaml raw) reason h

  -- A file that cannot be loaded leaves the registry as it was.
  pub load_file_failed :
      (r end : Registry) (path : Bytes) (reason : LoadError)
      → load_file files r path ≡ (end, some reason)
      → r ≡ end
  unfolding load_file
  load_file_failed r end path reason h = load_raw_failed r end (files.read_file path) reason h

pub load_dir_readable :
    (files : Files) (dir : Bytes) (r : Registry) (es : List DirEntry)
    → files.read_dir dir ≡ ok es
    → load_dir files r dir ≡ load_entries files dir r es
unfolding load_dir
load_dir_readable files dir r es p = rw (p, load_dir)

pub load_dir_unreadable :
    (files : Files) (dir e : Bytes) (r : Registry)
    → files.read_dir dir ≡ err e
    → load_dir files r dir ≡ (r, some (read_dir_failed dir e))
unfolding load_dir
load_dir_unreadable files dir e r p = rw (p, load_dir)
