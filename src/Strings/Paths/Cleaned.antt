-- ===== src/Strings/Paths/Cleaned.antt =====
-- What filepath.Clean leaves, and what it makes of a path with one more element.
use code_sandbox.Prelude.{
  ◌≡◌, ◌≢◌, refl, sym, ap, ◌∙◌, subst, ◌⊎◌, inl, inr, Bool, true, false, Bool-cases, List, [], ◌∷◌,
  ◌++◌, append_assoc, append-nil, arith, ◌==◌, Bytes, bytes_eq, bytes_eq_iff,
}
use code_sandbox.Strings.{join}
use code_sandbox.Strings.Paths.{elements_from, dot_dot, up, step, steps}
use mathlib.Core.List.{reverse, reverse-cons}

abbrev pub dot : Bytes
dot = b'.' ∷ []

abbrev pub slash : Bytes
slash = b'/' ∷ []

abbrev pub NoSlash : Bytes → Type 0
NoSlash [] = Unit {0}
NoSlash (c ∷ s) = (c ≢ 47) × NoSlash s

abbrev pub AllNoSlash : List Bytes → Type 0
AllNoSlash [] = Unit {0}
AllNoSlash (e ∷ es) = NoSlash e × AllNoSlash es

abbrev AllDots : List Bytes → Type 0
AllDots [] = Unit {0}
AllDots (e ∷ st) = (e ≡ dot_dot) × AllDots st

-- A row of kept elements, the last one first.
abbrev pub IsKept : Bool → List Bytes → Type 0
IsKept r [] = Unit {0}
IsKept r (e ∷ st) =
    (e ≢ []) × (e ≢ dot) × NoSlash e × (e ≡ dot_dot → (r ≡ false) × AllDots st) × IsKept r st

NoSlash-append : (s t : Bytes) → NoSlash s → NoSlash t → NoSlash (s ++ t)
NoSlash-append [] t h k = k
NoSlash-append (c ∷ s) t h k = (h.0, NoSlash-append s t h.1 k)

-- What a step does to kept elements.
pub step-nil : (r : Bool) (st : List Bytes) → step r st [] ≡ st
unfolding step bytes_eq
step-nil r st = refl

pub step-dot : (r : Bool) (st : List Bytes) → step r st dot ≡ st
unfolding step bytes_eq
step-dot r st = refl

pub step-dot_dot : (r : Bool) (st : List Bytes) → step r st dot_dot ≡ up r st
unfolding step bytes_eq
step-dot_dot r st = refl

pub step-other :
    (r : Bool) (st : List Bytes) (e : Bytes) → e ≢ [] → e ≢ dot → e ≢ dot_dot → step r st e ≡ e ∷ st
unfolding step
step-other r st e n d dd =
    ground (arith, bytes_eq_iff e [], bytes_eq_iff e dot, bytes_eq_iff e dot_dot)

pub up-pop : (r : Bool) (e : Bytes) (st : List Bytes) → e ≢ dot_dot → up r (e ∷ st) ≡ st
unfolding up
up-pop r e st n = ground (arith, bytes_eq_iff e dot_dot)

pub which :
    (e : Bytes) → (e ≡ []) ⊎ (e ≡ dot) ⊎ (e ≡ dot_dot) ⊎ ((e ≢ []) × (e ≢ dot) × (e ≢ dot_dot))
which e = ground (
  arith,
  bytes_eq_iff e [],
  bytes_eq_iff e dot,
  bytes_eq_iff e dot_dot,
  Bool-cases (bytes_eq e []),
  Bool-cases (bytes_eq e dot),
  Bool-cases (bytes_eq e dot_dot),
)

dots-IsKept : (st : List Bytes) → AllDots st → IsKept false st → IsKept false (dot_dot ∷ st)
dots-IsKept st d h =
    ((λ e. cc e), (λ e. cc e), ((λ e. cc e), ((λ e. cc e), tt)), (λ e. (refl, d)), h)

up-IsKept : (r : Bool) (st : List Bytes) → IsKept r st → IsKept r (up r st)
unfolding up
up-IsKept true [] h = tt
up-IsKept false [] h = dots-IsKept [] tt tt
up-IsKept r (e ∷ st) h = elim (Bool-cases (bytes_eq e dot_dot)) [
  | inl q ↦
      let d = (bytes_eq_iff e dot_dot).0 q in
      let (f, ds) = h.3 d in
      rw q (
        subst (λ b. IsKept b (dot_dot ∷ e ∷ st)) (sym f)
          (dots-IsKept (e ∷ st) (d, ds) (subst (λ b. IsKept b (e ∷ st)) f h)))
  | inr q ↦ rw q h.4
]

step-IsKept :
    (r : Bool) (st : List Bytes) (e : Bytes) → NoSlash e → IsKept r st → IsKept r (step r st e)
step-IsKept r st e n h = elim (which e) [
  | inl q ↦ subst (λ x. IsKept r (step r st x)) (sym q) (subst (IsKept r) (sym (step-nil r st)) h)
  | inr (inl q) ↦
      subst (λ x. IsKept r (step r st x)) (sym q) (subst (IsKept r) (sym (step-dot r st)) h)
  | inr (inr (inl q)) ↦
      subst (λ x. IsKept r (step r st x)) (sym q)
        (subst (IsKept r) (sym (step-dot_dot r st)) (up-IsKept r st h))
  | inr (inr (inr (a, b, c))) ↦
      subst (IsKept r) (sym (step-other r st e a b c)) (a, b, n, (λ q. absurd (c q)), h)
]

-- ".." above dots is kept.
up-AllDots : (st : List Bytes) → AllDots st → up false st ≡ dot_dot ∷ st
unfolding up
up-AllDots [] h = refl
up-AllDots (e ∷ st) h = rw ((bytes_eq_iff e dot_dot).1 h.0) refl

-- A kept row is found again.
step-keep : (r : Bool) (e : Bytes) (st : List Bytes) → IsKept r (e ∷ st) → step r st e ≡ e ∷ st
step-keep r e st h = elim (Bool-cases (bytes_eq e dot_dot)) [
  | inl q ↦
      let d = (bytes_eq_iff e dot_dot).0 q in
      let (f, ds) = h.3 d in
      ap (step r st) d
      ∙ step-dot_dot r st
      ∙ ap (λ b. up b st) f
      ∙ up-AllDots st ds
      ∙ ap (λ x. x ∷ st) (sym d)
  | inr q ↦ step-other r st e h.0 h.1 (λ d. let x = (bytes_eq_iff e dot_dot).1 d in cc (x, q))
]

pub steps-append :
    (r : Bool) (st es fs : List Bytes) → steps r st (es ++ fs) ≡ steps r (steps r st es) fs
unfolding steps
steps-append r st [] fs = refl
steps-append r st (e ∷ es) fs = steps-append r (step r st e) es fs

pub steps-IsKept :
    (r : Bool) (st es : List Bytes) → AllNoSlash es → IsKept r st → IsKept r (steps r st es)
unfolding steps
steps-IsKept r st [] n h = h
steps-IsKept r st (e ∷ es) n h = steps-IsKept r (step r st e) es n.1 (step-IsKept r st e n.0 h)

pub steps-reverse : (r : Bool) (st : List Bytes) → IsKept r st → steps r [] (reverse st) ≡ st
unfolding steps
steps-reverse r [] h = refl
steps-reverse r (e ∷ st) h =
    ap (steps r []) (reverse-cons e st)
    ∙ steps-append r [] (reverse st) (e ∷ [])
    ∙ ap (λ s. step r s e) (steps-reverse r st h.4)
    ∙ step-keep r e st h

-- The elements of a text with a slash in it, of one without, and of joined elements.
pub elements_from-NoSlash : (s cur : Bytes) → NoSlash cur → AllNoSlash (elements_from s cur)
unfolding elements_from
elements_from-NoSlash [] cur h = (h, tt)
elements_from-NoSlash (c ∷ s) cur h = elim (Bool-cases (c == 47)) [
  | inl e ↦ rw (e, elements_from) (h, elements_from-NoSlash s [] tt)
  | inr e ↦
      rw (e, elements_from)
        (elements_from-NoSlash s (cur ++ c ∷ []) (NoSlash-append cur (c ∷ []) h (ground arith, tt)))
]

pub elements_from-slash :
    (a b cur : Bytes)
    → elements_from (a ++ b'/' ∷ b) cur ≡ elements_from a cur ++ elements_from b []
unfolding elements_from
elements_from-slash [] b cur = refl
elements_from-slash (c ∷ a) b cur = elim (Bool-cases (c == 47)) [
  | inl e ↦ rw (e, elements_from) (ap (λ l. cur ∷ l) (elements_from-slash a b []))
  | inr e ↦ rw (e, elements_from) (elements_from-slash a b (cur ++ c ∷ []))
]

pub elements_from-one : (s cur : Bytes) → NoSlash s → elements_from s cur ≡ (cur ++ s) ∷ []
unfolding elements_from
elements_from-one [] cur h = ap (λ x. x ∷ []) (sym (append-nil cur))
elements_from-one (c ∷ s) cur h =
    let e : (c == 47) ≡ false = ground arith in
    rw (e, elements_from)
      (elements_from-one s (cur ++ c ∷ []) h.1 ∙ ap (λ x. x ∷ []) (append_assoc cur (c ∷ []) s))

pub elements_from-join :
    (e : Bytes) (es : List Bytes)
    → AllNoSlash (e ∷ es)
    → elements_from (join (e ∷ es) slash) [] ≡ e ∷ es
unfolding join
elements_from-join e [] h = elements_from-one e [] h.0
elements_from-join e (f ∷ es) h =
    elements_from-slash e (join (f ∷ es) slash) []
    ∙ ap (λ l. l ++ elements_from (join (f ∷ es) slash) []) (elements_from-one e [] h.0)
    ∙ ap (λ l. e ∷ l) (elements_from-join f es h.1)
