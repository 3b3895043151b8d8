-- ===== src/Strings/Join.antt =====
-- `strings.Join` over the fields of a text loses nothing: the fields can be read back.
use code_sandbox.Prelude.{
  subst, ℕ, zero, suc, ◌-◌, ◌≡◌, ◌≢◌, ◌↔◌, refl, sym, ap, ◌∙◌, Bool, Bool-cases, inl, inr, true,
  false, Option, none, some, List, [], ◌∷◌, ◌++◌, append_assoc, append-nil, arith, ◌==◌, Bytes,
}
use code_sandbox.Strings.{join, keep_unless, trim_right}
use code_sandbox.Strings.Blank.{AllBlank, marks, space_width, mark, is_ascii_space}
use code_sandbox.Strings.Words.{fields, runs, emit, fields-append_blank}

abbrev space : Bytes
space = b' ' ∷ []

-- No byte of the text is a space.
abbrev Solid : Bytes → Type 0
Solid [] = Unit {0}
Solid (c ∷ s) = (c ≢ 32) × Solid s

abbrev AllWords : List Bytes → Type 0
AllWords [] = Unit {0}
AllWords (w ∷ ws) = (w ≢ []) × Solid w × AllWords ws

Solid-append : (s t : Bytes) → Solid s → Solid t → Solid (s ++ t)
Solid-append [] t hs ht = ht
Solid-append (c ∷ s) t hs ht = (hs.0, Solid-append s t hs.1 ht)

abbrev AllSolid : List (Option ℕ) → Type 0
AllSolid [] = Unit {0}
AllSolid (none ∷ m) = AllSolid m
AllSolid (some c ∷ m) = (c ≢ 32) × AllSolid m

space_width_space : (s : Bytes) → space_width 32 s ≢ 0
unfolding space_width
space_width_space [] h = cc
space_width_space (d ∷ []) h = cc
space_width_space (d ∷ e ∷ s) h = cc

mark-suc : (c w : ℕ) → mark c (suc w) ≡ none
unfolding mark
mark-suc c w = ground arith

mark-AllSolid :
    (c w : ℕ) (m : List (Option ℕ)) → (c ≡ 32 → w ≢ 0) → AllSolid m → AllSolid (mark c w ∷ m)
unfolding mark
mark-AllSolid c zero m h hm = (λ e. h e refl, hm)
mark-AllSolid c (suc w) m h hm = rw (mark-suc c w) hm

marks-AllSolid : (k : ℕ) (s : Bytes) → AllSolid (marks k s)
unfolding marks
marks-AllSolid zero [] = tt
marks-AllSolid (suc k) [] = tt
marks-AllSolid (suc k) (c ∷ s) = marks-AllSolid k s
marks-AllSolid zero (c ∷ s) =
    mark-AllSolid c (space_width c s) (marks (space_width c s - 1) s)
      (λ e. rw e (space_width_space s)) (marks-AllSolid (space_width c s - 1) s)

emit-AllWords :
    (cur : Bytes) (ws : List Bytes) → Solid cur → AllWords ws → AllWords (emit cur ++ ws)
unfolding emit
emit-AllWords [] ws hc h = h
emit-AllWords (c ∷ s) ws hc h = ((λ e. cc), hc, h)

runs-AllWords : (m : List (Option ℕ)) (cur : Bytes) → AllSolid m → Solid cur → AllWords (runs m cur)
unfolding runs
runs-AllWords [] cur hm hc = subst AllWords (append-nil (emit cur)) (emit-AllWords cur [] hc tt)
runs-AllWords (none ∷ m) cur hm hc = emit-AllWords cur (runs m []) hc (runs-AllWords m [] hm tt)
runs-AllWords (some c ∷ m) cur hm hc =
    runs-AllWords m (cur ++ c ∷ []) hm.1 (Solid-append cur (c ∷ []) hc (hm.0, tt))

fields-AllWords : (s : Bytes) → AllWords (fields s)
unfolding fields
fields-AllWords s = runs-AllWords (marks 0 s) [] (marks-AllSolid 0 s) tt

-- The words between single spaces, read back; the second argument is the word so far.
split : Bytes → Bytes → List Bytes
split [] cur = cur ∷ []
split (c ∷ s) cur = elim (c == 32) [ true ↦ cur ∷ split s [] | false ↦ split s (cur ++ c ∷ []) ]

split-Solid : (w rest cur : Bytes) → Solid w → split (w ++ rest) cur ≡ split rest (cur ++ w)
unfolding split
split-Solid [] rest cur h = rw append-nil
split-Solid (c ∷ w) rest cur h =
    ground (arith, split-Solid w rest (cur ++ c ∷ []) h.1, append_assoc cur (c ∷ []) w)

split-join :
    (w : Bytes) (ws : List Bytes) → AllWords (w ∷ ws) → split (join (w ∷ ws) space) [] ≡ w ∷ ws
unfolding join split
split-join w [] h = ap (λ s. split s []) (sym (append-nil w)) ∙ split-Solid w [] [] h.1
split-join w (v ∷ ws) h =
    split-Solid w (space ++ join (v ∷ ws) space) [] h.1 ∙ ap (λ r. w ∷ r) (split-join v ws h.2)

join-ne-nil : (w : Bytes) (ws : List Bytes) → AllWords (w ∷ ws) → join (w ∷ ws) space ≢ []
unfolding join
join-ne-nil [] ws h = absurd (h.0 refl)
join-ne-nil (c ∷ s) [] h = λ e. cc
join-ne-nil (c ∷ s) (v ∷ ws) h = λ e. cc

join-injective_words :
    (us vs : List Bytes) → AllWords us → AllWords vs → join us space ≡ join vs space → us ≡ vs
join-injective_words [] [] hu hv e = refl
join-injective_words [] (v ∷ vs) hu hv e = absurd (join-ne-nil v vs hv (unfold join in sym e))
join-injective_words (u ∷ us) [] hu hv e = absurd (join-ne-nil u us hu (unfold join in e))
join-injective_words (u ∷ us) (v ∷ vs) hu hv e =
    sym (split-join u us hu) ∙ ap (λ s. split s []) e ∙ split-join v vs hv

-- Joined by single spaces, the fields of two texts agree exactly when the fields do.
pub join-fields_iff :
    (s t : Bytes) → (join (fields s) space ≡ join (fields t) space) ↔ (fields s ≡ fields t)
join-fields_iff s t = (
  join-injective_words (fields s) (fields t) (fields-AllWords s) (fields-AllWords t),
  λ e. ap (λ ws. join ws space) e,
)

-- What `keep_unless` cuts, if anything, is a blank.
keep_cut :
    (cut : ℕ → Bool)
    → ((c : ℕ) → cut c ≡ true → is_ascii_space c ≡ true)
    → (c : ℕ) (r w : Bytes) → AllBlank w
    → (v : Bytes) × AllBlank v × (keep_unless cut c r ++ v ≡ c ∷ (r ++ w))
unfolding keep_unless
keep_cut cut h c [] w hw = elim (Bool-cases (cut c)) [
  | inl e ↦ rw e (c ∷ w, (h c e, hw), refl)
  | inr e ↦ rw e (w, hw, refl)
]
keep_cut cut h c (d ∷ r) w hw = (w, hw, refl)

-- A trimmed text is the text without blanks at its end.
pub trim_right_cut :
    (cut : ℕ → Bool)
    → ((c : ℕ) → cut c ≡ true → is_ascii_space c ≡ true)
    → (s : Bytes) → (w : Bytes) × AllBlank w × (trim_right cut s ++ w ≡ s)
unfolding trim_right
trim_right_cut cut h [] = ([], tt, refl)
trim_right_cut cut h (c ∷ s) =
    let (w, hw, e) = trim_right_cut cut h s in
    let (v, hv, e') = keep_cut cut h c (trim_right cut s) w hw in (v, hv, e' ∙ ap (λ r. c ∷ r) e)

-- Trimming by a set of ASCII blanks does not change the fields.
pub fields-trim_right :
    (cut : ℕ → Bool)
    → ((c : ℕ) → cut c ≡ true → is_ascii_space c ≡ true)
    → (s : Bytes) → fields (trim_right cut s) ≡ fields s
fields-trim_right cut h s =
    let (w, hw, e) = trim_right_cut cut h s in
    sym (fields-append_blank (trim_right cut s) w hw) ∙ ap fields e
