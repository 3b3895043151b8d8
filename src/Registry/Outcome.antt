-- ===== src/Registry/Outcome.antt =====
-- The two ways in which LoadDir ends, described by the directory's entries.
use code_sandbox.Prelude.{
  ◌≡◌, ◌≢◌, refl, ◌⊎◌, inl, inr, true, false, none, some, List, [], ◌∷◌, ◌++◌, arith, Bytes,
  Bool-cases, Result, ok, err, ap, sym, ◌∙◌, subst,
}
use code_sandbox.Registry.{
  Language, Registry, Files, DirEntry, LoadError, DirError, load_failed, validate, load_file,
  load_raw, load_entry, load_entries, load_dir, is_language_file, get,
}
use code_sandbox.Registry.Entries.{
  path_of, load_entry_failed, load_file_failed, load_entries_cons, load_entries_head_failed,
  load_entry-cases, insert_keeps, insert_registers, load_raw_ok, load_dir_readable,
  load_dir_unreadable,
}
use code_sandbox.Registry.Latest.{first_some, latest_named, load_entries-get}

module _ (files : Files) (dir : Bytes) where
  -- The entry is no language file, or its file was read, decoded and valid, and its language's name
  -- is registered.
  abbrev pub Registers : Registry → DirEntry → Type 0
  Registers end e =
      (is_language_file files e ≡ false)
      ⊎ ((raw : Bytes) × (lang : Language) × (files.read_file (path_of files dir e) ≡ ok raw)
          × (files.decode_yaml raw ≡ ok lang)
          × (validate lang ≡ none)
          × (get end lang.name ≢ none))

  abbrev pub AllRegister : Registry → List DirEntry → Type 0
  AllRegister end [] = Unit {0}
  AllRegister end (e ∷ es) = Registers end e × AllRegister end es

  load_entry_ok :
      (r r1 : Registry) (e : DirEntry)
      → load_entry files dir r e ≡ (r1, none)
      → Registers r1 e × ((k : Bytes) → get r k ≢ none → get r1 k ≢ none)
  unfolding load_entry load_file
  load_entry_ok r r1 e h = elim (Bool-cases (is_language_file files e)) [
    | inr b ↦ (inl b, λ k hk. subst (λ x. get x k ≢ none) (same b) hk)
    | inl b ↦
        let (raw, lang, f, d, vi) =
          load_raw_ok files dir r r1 (files.read_file (path_of files dir e)) (loads b) in
        (
          inr (
            raw,
            lang,
            f,
            d,
            vi.0,
            subst (λ x. get x lang.name ≢ none) (sym vi.1) (insert_registers files dir r lang),
          ),
          λ k hk. subst (λ x. get x k ≢ none) (sym vi.1) (insert_keeps files dir r lang k hk),
        )
  ]
    where
      same : is_language_file files e ≡ false → r ≡ r1
      same b = ground arith

      loads :
          is_language_file files e ≡ true
          → load_raw files r (files.read_file (path_of files dir e)) ≡ (r1, none)
      loads b = ground arith

  Registers-later :
      (r1 end : Registry) (e : DirEntry)
      → ((k : Bytes) → get r1 k ≢ none → get end k ≢ none)
      → Registers r1 e
      → Registers end e
  Registers-later r1 end e keep (inl b) = inl b
  Registers-later r1 end e keep (inr (raw, lang, f, d, v, g)) =
      inr (raw, lang, f, d, v, keep lang.name g)

  load_entries_ok :
      (r end : Registry) (es : List DirEntry)
      → load_entries files dir r es ≡ (end, none)
      → AllRegister end es × ((k : Bytes) → get r k ≢ none → get end k ≢ none)
  load_entries_ok r end [] h =
      unfold load_entries in (tt, λ k hk. subst (λ x. get x k ≢ none) (cc h) hk)
  load_entries_ok r end (e ∷ es) h = elim (load_entry-cases files dir r e) [
    | inl (r1, p) ↦
        let (here, keep) = load_entry_ok r r1 e p in
        let (rest, keep') =
          load_entries_ok r1 end es (sym (load_entries_cons files dir r r1 e es p) ∙ h) in
        ((Registers-later r1 end e keep' here, rest), λ k hk. keep' k (keep k hk))
    | inr (r1, reason, p) ↦
        let q = sym (load_entries_head_failed files dir r r1 e es reason p) ∙ h in cc q
  ]

  -- The first language file that cannot be loaded. The registry that is left is what the entries
  -- before it made of the first one.
  pub record StopsAt (r : Registry) (es : List DirEntry) (end : Registry) (cause : DirError)
      : Type 0 where
    pub before : List DirEntry
    pub entry : DirEntry
    pub after : List DirEntry
    pub reason : LoadError
    pub entries : es ≡ before ++ entry ∷ after
    pub registered : AllRegister end before
    pub latest : (k : Bytes) → get end k ≡ first_some (latest_named files dir k before) (get r k)
    pub is_file : is_language_file files entry ≡ true
    pub failed : load_file files end (path_of files dir entry) ≡ (end, some reason)
    pub reported : cause ≡ load_failed (path_of files dir entry) reason

  -- Where the loop stopped.
  record Stop (r : Registry) (es : List DirEntry) (end : Registry) (cause : DirError) : Type 0 where
    before : List DirEntry
    entry : DirEntry
    after : List DirEntry
    reason : LoadError
    entries : es ≡ before ++ entry ∷ after
    loaded : load_entries files dir r before ≡ (end, none)
    is_file : is_language_file files entry ≡ true
    failed : load_file files end (path_of files dir entry) ≡ (end, some reason)
    reported : cause ≡ load_failed (path_of files dir entry) reason

  load_entries-Stop :
      (r end : Registry) (es : List DirEntry) (cause : DirError)
      → load_entries files dir r es ≡ (end, some cause)
      → Stop r es end cause
  load_entries-Stop r end [] cause h = unfold load_entries in cc
  load_entries-Stop r end (e ∷ es) cause h = elim (load_entry-cases files dir r e) [
    | inl (r1, p) ↦
        let s =
          load_entries-Stop r1 end es cause (sym (load_entries_cons files dir r r1 e es p) ∙ h) in
        record {
          before = e ∷ s.before;
          entry = s.entry;
          after = s.after;
          reason = s.reason;
          entries = ap (λ l. e ∷ l) s.entries;
          loaded = load_entries_cons files dir r r1 e s.before p ∙ s.loaded;
          is_file = s.is_file;
          failed = s.failed;
          reported = s.reported;
        }
    | inr (r1, reason, p) ↦
        let q = sym (load_entries_head_failed files dir r r1 e es reason p) ∙ h in
        let (file, failed) = load_entry_failed files dir r r1 e reason p in
        let same = load_file_failed files dir r r1 (path_of files dir e) reason failed in
        record {
          before = [];
          entry = e;
          after = es;
          reason = reason;
          entries = refl;
          loaded = unfold load_entries in cc (same, q);
          is_file = file;
          failed = cc (failed, same, q);
          reported = cc q;
        }
  ]

  load_entries_stops :
      (r end : Registry) (es : List DirEntry) (cause : DirError)
      → load_entries files dir r es ≡ (end, some cause)
      → StopsAt r es end cause
  load_entries_stops r end es cause h =
      let s = load_entries-Stop r end es cause h in
      record {
        before = s.before;
        entry = s.entry;
        after = s.after;
        reason = s.reason;
        entries = s.entries;
        registered = (load_entries_ok r end s.before s.loaded).0;
        latest = load_entries-get files dir r end s.before s.loaded;
        is_file = s.is_file;
        failed = s.failed;
        reported = s.reported;
      }

-- LoadDir ends without an error only if the directory can be read and every YAML file in it was
-- read, decoded and found valid, and then each such file's language name is in the registry. A name
-- gives the language of the last file that has it, or else what it gave before.
pub load_dir_ok :
    (files : Files) (dir : Bytes) (r end : Registry)
    → load_dir files r dir ≡ (end, none)
    → (es : List DirEntry) × (files.read_dir dir ≡ ok es)
      × AllRegister files dir end es
      × ((k : Bytes) → get end k ≡ first_some (latest_named files dir k es) (get r k))
load_dir_ok files dir r end h = go (files.read_dir dir) refl
  where
    go :
        (d : Result Bytes (List DirEntry))
        → files.read_dir dir ≡ d
        → (es : List DirEntry) × (d ≡ ok es)
          × AllRegister files dir end es
          × ((k : Bytes) → get end k ≡ first_some (latest_named files dir k es) (get r k))
    go (err e) p = let q = sym (load_dir_unreadable files dir e r p) ∙ h in cc q
    go (ok es) p =
        let q = sym (load_dir_readable files dir r es p) ∙ h in
        (es, refl, (load_entries_ok files dir r end es q).0, load_entries-get files dir r end es q)

-- When LoadDir fails on a file of a readable directory, that file is the first language file that
-- cannot be loaded, and the error names it and its reason. The language files before it were read,
-- decoded and valid, and the registry that is left is what they make of the one before: a name gives
-- the language of the last of them that has it, or else what it gave before.
pub load_dir_stops :
    (files : Files) (dir : Bytes) (r end : Registry) (es : List DirEntry) (cause : DirError)
    → files.read_dir dir ≡ ok es
    → load_dir files r dir ≡ (end, some cause)
    → StopsAt files dir r es end cause
load_dir_stops files dir r end es cause p h =
    load_entries_stops files dir r end es cause (sym (load_dir_readable files dir r es p) ∙ h)
