-- ===== src/Sandbox/Buffer.antt =====
-- cappedBuffer of internal/sandbox/sandbox.go: a writer that keeps the first `max` bytes.
pub mod Laws
use code_sandbox.Prelude.{
  ℕ, zero, suc, ◌+◌, ◌-◌, ◌≤◌, ◌<◌, ◌≡◌, ◌≢◌, refl, ap, sym, ◌∙◌, Bool, true, false, List, [], ◌∷◌,
  ◌++◌, append_assoc, append-nil, arith, ltb, if◌then◌else◌, ℤ, pos, negsuc, ◌-ℤ◌, ◌≤ℤ◌, leb_ℤ,
  ltb_ℤ, pos_part, Bytes, length, length-append, take, codes,
}

pub record CappedBuffer : Type 0 where
  pub max : ℤ
  pub buf : Bytes
  pub capped : Bool

-- &cappedBuffer{max: max}
abbrev pub empty : ℤ → CappedBuffer
empty max = record { max = max; buf = []; capped = false }

-- Write; the number that it returns comes first, the error is always nil
unfoldable pub write : CappedBuffer → Bytes → ℕ × CappedBuffer
unfolding ◌-ℤ◌
write c p =
    let remaining = c.max -ℤ pos (length c.buf) in
    if leb_ℤ c.max (pos 0)
    then (length p, record c { buf = c.buf ++ p })
    else if leb_ℤ remaining (pos 0)
    then (length p, record c { capped = true })
    else if ltb_ℤ remaining (pos (length p))
    then (length p, record c { buf = c.buf ++ take (pos_part remaining) p; capped = true })
    else (length p, record c { buf = c.buf ++ p })

-- The state after a row of Write calls.
unfoldable pub write_all : CappedBuffer → List Bytes → CappedBuffer
unfolding write
write_all c [] = c
write_all c (p ∷ ps) = write_all (write c p).1 ps

-- All bytes that were offered.
abbrev pub offered : List Bytes → Bytes
offered [] = []
offered (p ∷ ps) = p ++ offered ps

-- io.Copy writes no empty slice.
abbrev pub NoneEmpty : List Bytes → Type 0
NoneEmpty [] = Unit {0}
NoneEmpty (p ∷ ps) = (p ≢ []) × NoneEmpty ps

-- The cases of TestCappedBufferTruncates and TestCappedBufferUnlimited.
write_all_tests :
    (write_all (empty (pos 5)) (codes "abc" ∷ codes "defgh" ∷ [])
      ≡ record { max = pos 5; buf = codes "abcde"; capped = true })
    × ((write_all (empty (pos 0)) (codes "abc" ∷ codes "def" ∷ [])).buf ≡ codes "abcdef")
unfolding write_all
write_all_tests = (refl, refl)
