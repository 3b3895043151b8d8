-- ===== src/Strings/Blank.antt =====
-- White space as `strings.Fields` sees it: a rune of `unicode.IsSpace`, found in the UTF-8 bytes.
-- The first byte of such a rune is never a continuation byte, so no match begins inside a rune.
use code_sandbox.Prelude.{
  ℕ, zero, suc, ◌-◌, ◌≡◌, refl, ap, Bool, true, ◌&&◌, ◌||◌, Option, none, some, List, [], ◌∷◌, ◌++◌,
  arith, leb, ◌==◌, if◌then◌else◌, length, replicate, Bytes,
}

-- '\t', '\n', '\v', '\f', '\r' and ' '
unfoldable pub is_ascii_space : ℕ → Bool
is_ascii_space c = c == 32 || leb 9 c && leb c 13

-- U+0085 and U+00A0
is_space2 : ℕ → ℕ → Bool
is_space2 c d = c == 0xC2 && (d == 0x85 || d == 0xA0)

-- U+1680, U+2000 to U+200A, U+2028, U+2029, U+202F, U+205F and U+3000
is_space3 : ℕ → ℕ → ℕ → Bool
is_space3 c d e =
    c == 0xE1 && (d == 0x9A && e == 0x80)
    || c == 0xE2 && (d == 0x80 && (leb 0x80 e && leb e 0x8A || e == 0xA8 || e == 0xA9 || e == 0xAF))
    || c == 0xE2 && (d == 0x81 && e == 0x9F)
    || c == 0xE3 && (d == 0x80 && e == 0x80)

-- How many bytes the white space at the head takes, 0 if there is none.
unfoldable pub space_width : ℕ → Bytes → ℕ
unfolding is_ascii_space is_space2 is_space3
space_width c [] = if is_ascii_space c then 1 else 0
space_width c (d ∷ []) = if is_ascii_space c then 1 else if is_space2 c d then 2 else 0
space_width c (d ∷ e ∷ s) =
    if is_ascii_space c then 1 else if is_space2 c d then 2 else if is_space3 c d e then 3 else 0

unfoldable pub mark : ℕ → ℕ → Option ℕ
mark c w = if w == 0 then some c else none

-- Each byte of the text, or `none` for a byte of white space. The first argument counts the bytes
-- of a space that are still to come.
unfoldable pub marks : ℕ → Bytes → List (Option ℕ)
unfolding space_width mark
marks k [] = []
marks (suc k) (c ∷ s) = none ∷ marks k s
marks zero (c ∷ s) = mark c (space_width c s) ∷ marks (space_width c s - 1) s

-- A run of ASCII white space.
abbrev pub AllBlank : Bytes → Type 0
AllBlank [] = Unit {0}
AllBlank (c ∷ s) = (is_ascii_space c ≡ true) × AllBlank s

-- ASCII white space behind a text changes no space of the text.
space_width_blank : (c : ℕ) (s w : Bytes) → AllBlank w → space_width c (s ++ w) ≡ space_width c s
unfolding space_width
space_width_blank c [] [] h = refl
space_width_blank c [] (b ∷ []) h = let b' = h.0 in ground arith
space_width_blank c [] (b ∷ b2 ∷ w) h = let b' = h.0 in ground arith
space_width_blank c (d ∷ []) [] h = refl
space_width_blank c (d ∷ []) (b ∷ w) h = let b' = h.0 in ground arith
space_width_blank c (d ∷ e ∷ s) w h = refl

space_width_here : (c : ℕ) (s : Bytes) → is_ascii_space c ≡ true → space_width c s ≡ 1
unfolding space_width
space_width_here c [] h = rw h
space_width_here c (d ∷ []) h = rw h
space_width_here c (d ∷ e ∷ s) h = rw h

marks_blank : (k : ℕ) (w : Bytes) → AllBlank w → marks k w ≡ replicate (length w) none
unfolding marks
marks_blank zero [] h = refl
marks_blank (suc k) [] h = refl
marks_blank (suc k) (c ∷ w) h = ap (λ m. none ∷ m) (marks_blank k w h.1)
marks_blank zero (c ∷ w) h =
    rw (space_width_here c w h.0, mark) (ap (λ m. none ∷ m) (marks_blank 0 w h.1))

pub marks-append_blank :
    (k : ℕ) (s w : Bytes) → AllBlank w → marks k (s ++ w) ≡ marks k s ++ replicate (length w) none
unfolding marks
marks-append_blank zero [] w h = marks_blank zero w h
marks-append_blank (suc k) [] w h = marks_blank (suc k) w h
marks-append_blank (suc k) (c ∷ s) w h = ap (λ m. none ∷ m) (marks-append_blank k s w h)
marks-append_blank zero (c ∷ s) w h =
    rw (space_width_blank c s w h)
      (ap (λ m. mark c (space_width c s) ∷ m) (marks-append_blank (space_width c s - 1) s w h))
