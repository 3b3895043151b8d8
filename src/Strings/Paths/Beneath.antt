-- ===== src/Strings/Paths/Beneath.antt =====
-- Where filepath.Join puts a name that has no slash.
use code_sandbox.Prelude.{
  ◌≡◌, ◌≢◌, refl, sym, ap, ◌∙◌, subst, ◌⊎◌, inl, inr, Bool, true, false, List, [], ◌∷◌, ◌++◌,
  append_assoc, append-nil, arith, ◌==◌, Bytes, bytes_eq,
}
use code_sandbox.Strings.{join}
use code_sandbox.Strings.Paths.{
  elements_from, dot_dot, step, steps, is_rooted, render, clean, join_path,
}
use code_sandbox.Strings.Paths.Cleaned.{
  dot, slash, NoSlash, AllNoSlash, IsKept, which, step-dot, step-dot_dot, step-other, up-pop,
  steps-append, steps-IsKept, steps-reverse, elements_from-NoSlash, elements_from-slash,
  elements_from-one, elements_from-join,
}
use mathlib.Core.List.{reverse, reverse-cons}

abbrev AllPlain : List Bytes → Type 0
AllPlain [] = Unit {0}
AllPlain (e ∷ es) = (e ≢ []) × NoSlash e × AllPlain es

AllPlain-snoc :
    (es : List Bytes) (e : Bytes) → AllPlain es → e ≢ [] → NoSlash e → AllPlain (es ++ e ∷ [])
AllPlain-snoc [] e h n s = (n, s, tt)
AllPlain-snoc (f ∷ es) e h n s = (h.0, h.1, AllPlain-snoc es e h.2 n s)

AllPlain-reverse : (r : Bool) (st : List Bytes) → IsKept r st → AllPlain (reverse st)
AllPlain-reverse r [] h = tt
AllPlain-reverse r (e ∷ st) h =
    subst AllPlain (sym (reverse-cons e st))
      (AllPlain-snoc (reverse st) e (AllPlain-reverse r st h.4) h.0 h.2)

AllPlain-AllNoSlash : (es : List Bytes) → AllPlain es → AllNoSlash es
AllPlain-AllNoSlash [] h = tt
AllPlain-AllNoSlash (e ∷ es) h = (h.1, AllPlain-AllNoSlash es h.2)

-- The elements that Clean keeps of a path, the last one first.
kept : Bytes → List Bytes
kept s = steps (is_rooted s) [] (elements_from s [])

kept-IsKept : (s : Bytes) → IsKept (is_rooted s) (kept s)
unfolding kept
kept-IsKept s =
    steps-IsKept (is_rooted s) [] (elements_from s []) (elements_from-NoSlash s [] tt) tt

is_rooted-plain : (e t : Bytes) → e ≢ [] → NoSlash e → is_rooted (e ++ t) ≡ false
unfolding is_rooted
is_rooted-plain [] t n h = absurd (n refl)
is_rooted-plain (c ∷ e) t n h = ground arith

is_rooted-join :
    (e : Bytes) (es : List Bytes) → AllPlain (e ∷ es) → is_rooted (join (e ∷ es) slash) ≡ false
unfolding join
is_rooted-join e [] h = ap is_rooted (sym (append-nil e)) ∙ is_rooted-plain e [] h.0 h.1
is_rooted-join e (f ∷ es) h = is_rooted-plain e _ h.0 h.1

is_rooted-render : (r : Bool) (es : List Bytes) → AllPlain es → is_rooted (render r es) ≡ r
unfolding is_rooted render
is_rooted-render true es h = refl
is_rooted-render false [] h = refl
is_rooted-render false (e ∷ es) h = is_rooted-join e es h

steps-render :
    (r : Bool) (es : List Bytes)
    → AllPlain es
    → steps r [] (elements_from (render r es) []) ≡ steps r [] es
unfolding render elements_from steps step join bytes_eq
steps-render true [] h = refl
steps-render true (e ∷ es) h =
    ap (steps true []) (elements_from-join e es (AllPlain-AllNoSlash (e ∷ es) h))
steps-render false [] h = refl
steps-render false (e ∷ es) h =
    ap (steps false []) (elements_from-join e es (AllPlain-AllNoSlash (e ∷ es) h))

-- A rendered row of kept elements is read back.
kept-render : (r : Bool) (st : List Bytes) → IsKept r st → kept (render r (reverse st)) ≡ st
unfolding kept
kept-render r st h =
    let plain = AllPlain-reverse r st h in
    ap (λ b. steps b [] (elements_from (render r (reverse st)) []))
      (is_rooted-render r (reverse st) plain)
    ∙ steps-render r (reverse st) plain
    ∙ steps-reverse r st h

join_path-step :
    (a name : Bytes)
    → a ≢ []
    → NoSlash name
    → join_path a name ≡ render (is_rooted a) (reverse (step (is_rooted a) (kept a) name))
unfolding join_path clean kept steps is_rooted
join_path-step [] name n h = absurd (n refl)
join_path-step (c ∷ a) name n h =
    ap (λ es. render (c == 47) (reverse (steps (c == 47) [] es)))
      (elements_from-slash (c ∷ a) name []
        ∙ ap (λ l. elements_from (c ∷ a) [] ++ l) (elements_from-one name [] h))
    ∙ ap (λ st. render (c == 47) (reverse st))
        (steps-append (c == 47) [] (elements_from (c ∷ a) []) (name ∷ []))

join-snoc :
    (e : Bytes) (es : List Bytes) (f : Bytes)
    → join ((e ∷ es) ++ f ∷ []) slash ≡ join (e ∷ es) slash ++ b'/' ∷ f
unfolding join
join-snoc e [] f = refl
join-snoc e (d ∷ es) f =
    ap (λ t. e ++ (slash ++ t)) (join-snoc d es f)
    ∙ sym (append_assoc e (slash ++ join (d ∷ es) slash) (b'/' ∷ f))

render-snoc :
    (r : Bool) (es : List Bytes) (f : Bytes)
    → es ≢ []
    → render r (es ++ f ∷ []) ≡ render r es ++ b'/' ∷ f
unfolding render
render-snoc r [] f n = absurd (n refl)
render-snoc true (e ∷ es) f n = ap (λ t. b'/' ∷ t) (join-snoc e es f)
render-snoc false (e ∷ es) f n = join-snoc e es f

append-nil-first : (a b : Bytes) → a ++ b ≡ [] → a ≡ []
append-nil-first [] b h = refl
append-nil-first (c ∷ a) b h = cc h

snoc-ne-nil : (es : List Bytes) (e : Bytes) → es ++ e ∷ [] ≢ []
snoc-ne-nil [] e h = cc h
snoc-ne-nil (f ∷ es) e h = cc h

join-ne-nil : (e : Bytes) (es : List Bytes) → e ≢ [] → join (e ∷ es) slash ≢ []
unfolding join
join-ne-nil e [] n h = n h
join-ne-nil e (f ∷ es) n h = n (append-nil-first e _ h)

reverse-ne-nil : (e : Bytes) (st : List Bytes) → reverse (e ∷ st) ≢ []
reverse-ne-nil e st h = snoc-ne-nil (reverse st) e (sym (reverse-cons e st) ∙ h)

render-ne-nil : (r : Bool) (es : List Bytes) → AllPlain es → render r es ≢ []
unfolding render
render-ne-nil true es h q = cc q
render-ne-nil false [] h q = cc q
render-ne-nil false (e ∷ es) h q = join-ne-nil e es h.0 q

-- What a name without a slash makes of a directory that is itself joined.
abbrev pub Placed : Bytes → Bytes → Bytes → Bytes → Type 0
Placed root dir name path =
    ((name ≡ dot) × (path ≡ dir))
    ⊎ ((name ≡ dot_dot) × (path ≡ clean root))
    ⊎ ((name ≢ dot) × (name ≢ dot_dot) × (path ≡ dir ++ b'/' ∷ name))

module _ (root job : Bytes) (rooted : root ≢ []) (plain : NoSlash job)
    (named : (job ≢ []) × (job ≢ dot) × (job ≢ dot_dot)) where
  row : List Bytes
  row = job ∷ kept root

  row-IsKept : IsKept (is_rooted root) row
  unfolding row
  row-IsKept = (named.0, named.1, plain, (λ e. absurd (named.2 e)), kept-IsKept root)

  dir-render : join_path root job ≡ render (is_rooted root) (reverse row)
  unfolding row
  dir-render =
      join_path-step root job rooted plain
      ∙ ap (λ st. render (is_rooted root) (reverse st))
          (step-other (is_rooted root) (kept root) job named.0 named.1 named.2)

  inner :
      (name : Bytes)
      → NoSlash name
      → join_path (join_path root job) name
        ≡ render (is_rooted root) (reverse (step (is_rooted root) row name))
  inner name n =
      let st = row-IsKept in
      let es = AllPlain-reverse (is_rooted root) row st in
      ap (λ d. join_path d name) dir-render
      ∙ join_path-step (render (is_rooted root) (reverse row)) name
          (render-ne-nil (is_rooted root) (reverse row) es) n
      ∙ (λ i.
          let r = is_rooted-render (is_rooted root) (reverse row) es i in
          render r (reverse (step r (kept-render (is_rooted root) row st i) name)))

  -- Join puts a name without a slash into the directory, but for "." and "..", which give the
  -- directory itself and the one above it.
  pub join_path-Placed :
      (name : Bytes)
      → NoSlash name
      → name ≢ []
      → Placed root (join_path root job) name (join_path (join_path root job) name)
  unfolding row clean kept
  join_path-Placed name n ne = elim (which name) [
    | inl q ↦ absurd (ne q)
    | inr (inl q) ↦ inl (
      q,
      inner name n
          ∙ ap (λ x. render (is_rooted root) (reverse (step (is_rooted root) row x))) q
          ∙ ap (λ st. render (is_rooted root) (reverse st)) (step-dot (is_rooted root) row)
          ∙ sym dir-render,
    )
    | inr (inr (inl q)) ↦ inr (
        inl (
          q,
          inner name n
              ∙ ap (λ x. render (is_rooted root) (reverse (step (is_rooted root) row x))) q
              ∙ ap (λ st. render (is_rooted root) (reverse st))
                  (step-dot_dot (is_rooted root) row
                    ∙ up-pop (is_rooted root) job (kept root) named.2),
        ))
    | inr (inr (inr (a, b, c))) ↦ inr (
        inr (
          b,
          c,
          inner name n
              ∙ ap (λ st. render (is_rooted root) (reverse st))
                  (step-other (is_rooted root) row name a b c)
              ∙ ap (render (is_rooted root)) (reverse-cons name row)
              ∙ render-snoc (is_rooted root) (reverse row) name (reverse-ne-nil job (kept root))
              ∙ ap (λ d. d ++ b'/' ∷ name) (sym dir-render),
        ))
  ]
