-- ===== src/Api/Status/Ready.antt =====
-- When the daemon reports that it is ready.
use code_sandbox.Prelude.{
  In, ◌≡◌, ◌≢◌, ◌↔◌, refl, sym, ap, ◌∙◌, subst, inl, inr, Bool, true, false, ◌&&◌, Bool-cases,
  Option, none, some, List, [], ◌∷◌, arith, Bytes, bytes_eq, bytes_eq_iff,
}
use code_sandbox.Host.{done}
use code_sandbox.Config.{Config}
use code_sandbox.Dict.{Dict, lookup, keys}
use code_sandbox.Registry.{Phase, Language, Registry, get, names}
use code_sandbox.Registry.Loading.{IsLoaded}
use code_sandbox.Executor.Run.Acceptance.{validate-run-ne-none}
use code_sandbox.Api.{status_ok}
use code_sandbox.Api.Status.{
  Diagnosis, probe, probe_with, probe_found, is_none, missing, all_found, diagnose, diagnose_all,
  ready_code, diagnosis, readyz,
}

-- The program that a language with these run and build phases needs: a compiled language needs its
-- compiler, since its run command is only made by the build, and any other its interpreter.
abbrev pub Needs : Option Phase → Option Phase → Bytes → Type 0
Needs run (some build) path = path ≡ build.command
Needs (some run) none path = path ≡ run.command
Needs none none path = ⊥

-- The program that the language needs is there.
abbrev pub Runnable : (Bytes → Option Bytes) → Language → Type 0
Runnable stat lang = (path : Bytes) × Needs lang.run lang.build path × (stat path ≡ none)

module _ {V : Type 0} where
  lookup-In : (k : Bytes) (v : V) (d : Dict V) → lookup k d ≡ some v → In k (keys d)
  unfolding lookup keys
  lookup-In k v [] h = cc h
  lookup-In k v ((j, w) ∷ d) h = ground (arith, bytes_eq_iff j k, lookup-In k v d)

  In-lookup : (k : Bytes) (d : Dict V) → In k (keys d) → (v : V) × (lookup k d ≡ some v)
  unfolding lookup keys
  In-lookup k [] h = elim h [ ]
  In-lookup k ((j, w) ∷ d) h = elim (Bool-cases (bytes_eq j k)) [
    | inl e ↦ (w, rw e)
    | inr e ↦ rw e (In-lookup k d (ground (arith, bytes_eq_iff j k)))
  ]

is_none_iff : (o : Option Bytes) → (is_none o ≡ true) ↔ (o ≡ none)
unfolding is_none
is_none_iff none = ((λ h. refl), (λ h. refl))
is_none_iff (some x) = ((λ h. cc h), (λ h. cc h))

missing_iff : (path : Bytes) (o : Option Bytes) → (is_none (missing path o) ≡ true) ↔ (o ≡ none)
unfolding is_none missing
missing_iff path none = ((λ h. refl), (λ h. refl))
missing_iff path (some x) = ((λ h. cc h), (λ h. cc h))

and_iff : (a b : Bool) → ((a && b) ≡ true) ↔ ((a ≡ true) × (b ≡ true))
and_iff true b = ((λ h. (refl, h)), (λ h. h.1))
and_iff false b = ((λ h. cc h), (λ h. cc h.0))

-- What is probed is what the language needs, and nothing else.
probe_done :
    (run build : Option Phase)
    → run ≢ none
    → (path : Bytes) × (probe run build ≡ done path)
      × Needs run build path
      × ((path' : Bytes) → Needs run build path' → path' ≡ path)
unfolding probe probe_with
probe_done none build h = absurd (h refl)
probe_done (some run) none h = (run.command, refl, refl, λ path' n. n)
probe_done (some run) (some build) h = (build.command, refl, refl, λ path' n. n)

module _ (stat : Bytes → Option Bytes) (reg : Registry) where
  abbrev AllRunnable : List Bytes → Type 0
  AllRunnable ks =
      (k : Bytes) → In k ks → (lang : Language) → get reg k ≡ some lang → Runnable stat lang

  -- Each name is registered, with a run phase.
  abbrev Registered : List Bytes → Type 0
  Registered [] = Unit {0}
  Registered (k ∷ ks) =
      ((lang : Language) × (get reg k ≡ some lang) × (lang.run ≢ none)) × Registered ks

  diagnose_all_lem :
      (ks : List Bytes)
      → Registered ks
      → (d : Dict (Option Bytes)) × (diagnose_all stat reg ks ≡ done d)
        × (keys d ≡ ks)
        × ((all_found d ≡ true) ↔ AllRunnable ks)
  unfolding diagnose_all all_found keys
  diagnose_all_lem [] h = ([], refl, refl, ((λ e k m. elim m [ ]), (λ e. refl)))
  diagnose_all_lem (k ∷ ks) ((lang, g, run), rest) =
      let (d, e, same_keys, all) = diagnose_all_lem ks rest in
      let (path, p, needs, only) = probe_done lang.run lang.build run in
      let m = missing_iff path (stat path) in
      (
        (k, missing path (stat path)) ∷ d,
        rw (g, probe_found, p, e, diagnose) refl,
        ap (λ l. k ∷ l) same_keys,
        (
          λ x j n l q. elim n [
            | inl i ↦
                subst (Runnable stat) (same lang l j g i q) (path, needs, m.0 ((and_iff _ _).0 x).0)
            | inr i ↦ all.0 ((and_iff _ _).0 x).1 j i l q
          ],
          λ x.
              let (path', n', s) = x k (inl refl) lang g in
              (and_iff _ _).1
                (m.1 (ap stat (sym (only path' n')) ∙ s), all.1 (λ j n l q. x j (inr n) l q)),
        ),
      )
    where
      same :
          (lang l : Language) (j : Bytes)
          → get reg k ≡ some lang
          → k ≡ j
          → get reg j ≡ some l
          → lang ≡ l
      same lang l j g i q = let r = sym g ∙ ap (get reg) i ∙ q in cc r

-- Every registered language can be run.
abbrev pub LanguagesRunnable : (Bytes → Option Bytes) → Registry → Type 0
LanguagesRunnable stat reg =
    (k : Bytes) (lang : Language) → get reg k ≡ some lang → Runnable stat lang

module _ (stat : Bytes → Option Bytes) (reg : Registry) (loaded : IsLoaded reg) where
  Registered-keys :
      (ks : List Bytes)
      → ((k : Bytes) → In k ks → (lang : Language) × (get reg k ≡ some lang))
      → Registered stat reg ks
  Registered-keys [] h = tt
  Registered-keys (k ∷ ks) h =
      let (lang, g) = h k (inl refl) in
      (
        (lang, g, validate-run-ne-none lang (loaded.at_name k lang g).1),
        Registered-keys ks (λ j m. h j (inr m)),
      )

  AllRunnable-iff : AllRunnable stat reg (names reg) ↔ LanguagesRunnable stat reg
  unfolding names get
  AllRunnable-iff =
      ((λ h k lang g. h k (lookup-In k lang reg.languages g) lang g), (λ h k m lang g. h k lang g))

  code_iff :
      (o : Option Bytes) (b : Bool)
      → (ready_code stat (is_none o && b) ≡ status_ok) ↔ ((o ≡ none) × (b ≡ true))
  unfolding ready_code is_none
  code_iff o b = ground arith

  -- With a loaded registry readyz never panics, its diagnosis has one row for each registered language,
  -- and it reports 200 exactly when nsjail and the program that each registered language needs are
  -- found: the command of its build phase, if it has one, and else the command of its run phase.
  pub readyz-Runnable :
      (cfg : Config)
      → (d : Diagnosis) × (readyz stat cfg reg ≡ done d)
        × (d.nsjail ≡ stat cfg.nsjail_path)
        × (keys d.languages ≡ names reg)
        × ((d.code ≡ status_ok) ↔ ((stat cfg.nsjail_path ≡ none) × LanguagesRunnable stat reg))
  unfolding readyz diagnosis names
  readyz-Runnable cfg =
      let (d, e, same_keys, all) =
        diagnose_all_lem stat reg (names reg)
          (Registered-keys (names reg) (λ k m. unfold get in In-lookup k reg.languages m)) in
      let c = code_iff (stat cfg.nsjail_path) (all_found d) in
      (
        _,
        ap (diagnosis stat (stat cfg.nsjail_path)) e,
        refl,
        same_keys,
        (
          λ h. let (s, f) = c.0 h in (s, AllRunnable-iff.0 (all.0 f)),
          λ h. c.1 (h.0, all.1 (AllRunnable-iff.1 h.1)),
        ),
      )
