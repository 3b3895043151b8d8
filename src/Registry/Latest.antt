-- ===== src/Registry/Latest.antt =====
-- Which language a directory's files give a name.
use code_sandbox.Prelude.{
  ◌≡◌, refl, inl, inr, true, false, Option, none, some, List, [], ◌∷◌, arith, Bytes, Bool-cases,
  Result, ok, err, ap, sym, ◌∙◌, bytes_eq, if◌then◌else◌,
}
use code_sandbox.Dict.{insert, lookup-insert}
use code_sandbox.Registry.{
  Language, Registry, Files, DirEntry, load_entry, load_entries, load_file, is_language_file, get,
}
use code_sandbox.Registry.Entries.{
  path_of, load_entries_cons, load_entries_head_failed, load_entry-cases, load_raw_ok,
}

unfoldable pub first_some {ℓ} : {A : Type ℓ} → Option A → Option A → Option A
first_some none b = b
first_some (some a) b = some a

first_some_assoc :
    (a b c : Option Language) → first_some (first_some a b) c ≡ first_some a (first_some b c)
unfolding first_some
first_some_assoc none b c = refl
first_some_assoc (some a) b c = refl

-- The language, if this is its name.
if_named : Bytes → Option Language → Option Language
if_named k none = none
if_named k (some l) = if bytes_eq l.name k then some l else none

module _ (files : Files) (dir : Bytes) where
  decoded : Result Bytes Bytes → Option Language
  decoded (err e) = none
  decoded (ok raw) = elim (files.decode_yaml raw) [ err e ↦ none | ok lang ↦ some lang ]

  -- The language of an entry, if it is a language file.
  language_in : DirEntry → Option Language
  unfolding decoded
  language_in e =
      if is_language_file files e then decoded (files.read_file (path_of files dir e)) else none

  -- The language of the last file that has this name.
  unfoldable pub latest_named : Bytes → List DirEntry → Option Language
  unfolding first_some if_named language_in
  latest_named k [] = none
  latest_named k (e ∷ es) = first_some (latest_named k es) (if_named k (language_in e))

  language_in-other : (e : DirEntry) → is_language_file files e ≡ false → language_in e ≡ none
  unfolding language_in
  language_in-other e b = rw b

  language_in-file :
      (e : DirEntry) (raw : Bytes) (lang : Language)
      → is_language_file files e ≡ true
      → files.read_file (path_of files dir e) ≡ ok raw
      → files.decode_yaml raw ≡ ok lang
      → language_in e ≡ some lang
  unfolding language_in
  language_in-file e raw lang b f d = rw b (ap decoded f ∙ rw (d, decoded))

  get-insert :
      (r : Registry) (l : Language) (k : Bytes)
      → get (record { languages = insert l.name l r.languages }) k
        ≡ first_some (if_named k (some l)) (get r k)
  unfolding get first_some if_named
  get-insert r l k = ground (arith, lookup-insert l.name k l r.languages)

  load_entry-get :
      (r r1 : Registry) (e : DirEntry)
      → load_entry files dir r e ≡ (r1, none)
      → (k : Bytes) → get r1 k ≡ first_some (if_named k (language_in e)) (get r k)
  unfolding load_entry load_file
  load_entry-get r r1 e h k = elim (Bool-cases (is_language_file files e)) [
    | inr b ↦
        let same : r ≡ r1 = ground arith in
        ap (λ x. get x k) (sym same)
        ∙ (unfold first_some if_named in
            ap (λ o. first_some (if_named k o) (get r k)) (sym (language_in-other e b)))
    | inl b ↦
        let (raw, lang, f, d, v) =
          load_raw_ok files dir r r1 (files.read_file (path_of files dir e)) (ground arith) in
        let l : language_in e ≡ some lang = language_in-file e raw lang b f d in
        ap (λ x. get x k) v.1
        ∙ get-insert r lang k
        ∙ ap (λ o. first_some (if_named k o) (get r k)) (sym l)
  ]

  -- The registry, as a map, is what it was with the languages of the files put over it, the last file
  -- of each name first.
  pub load_entries-get :
      (r end : Registry) (es : List DirEntry)
      → load_entries files dir r es ≡ (end, none)
      → (k : Bytes) → get end k ≡ first_some (latest_named k es) (get r k)
  unfolding latest_named
  load_entries-get r end [] h k =
      unfold load_entries first_some in let e : r ≡ end = cc h in ap (λ x. get x k) (sym e)
  load_entries-get r end (e ∷ es) h k = elim (load_entry-cases files dir r e) [
    | inl (r1, p) ↦
        load_entries-get r1 end es (sym (load_entries_cons files dir r r1 e es p) ∙ h) k
        ∙ ap (first_some (latest_named k es)) (load_entry-get r r1 e p k)
        ∙ sym (first_some_assoc (latest_named k es) (if_named k (language_in e)) (get r k))
    | inr (r1, reason, p) ↦
        let q = sym (load_entries_head_failed files dir r r1 e es reason p) ∙ h in cc q
  ]
