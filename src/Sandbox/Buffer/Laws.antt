-- ===== src/Sandbox/Buffer/Laws.antt =====
-- cappedBuffer holds a prefix of what it was offered, and never makes os/exec's copy fail.
use code_sandbox.Prelude.{
  ℕ, suc, ◌+◌, ◌-◌, ◌≤◌, ◌<◌, ◌≡◌, ◌≢◌, refl, ap, ap₂, sym, ◌∙◌, Bool, true, false, ◌||◌, List, [],
  ◌∷◌, ◌++◌, append_assoc, append-nil, arith, ltb, ℤ, pos, ◌-ℤ◌, ◌≤ℤ◌, Bytes, length, length-append,
  take, length-take, take-append, take_all, take-take_append, lt→ltb,
}
use native.Mathlib.Decide.{dec_lt}
use code_sandbox.Sandbox.Buffer.{CappedBuffer, empty, write, write_all, offered, NoneEmpty}

-- Each Write reports that it took all bytes, on every branch.
write_count : (c : CappedBuffer) (p : Bytes) → (write c p).0 ≡ length p
unfolding write
write_count c p = ground arith

le→not_ltb : (a b : ℕ) → b ≤ a → ltb a b ≡ false
le→not_ltb a b h = ground arith

sub_of_eq : (n m : ℕ) → m ≡ n → n - m ≡ 0
sub_of_eq n m h = omega arith

length-ne-zero : (p : Bytes) → p ≢ [] → 0 < length p
length-ne-zero [] h = absurd (h refl)
length-ne-zero (c ∷ p) h = omega arith

remaining_lem : (a b : ℕ) → b ≤ a → pos a -ℤ pos b ≡ pos (a - b)
unfolding ◌-ℤ◌
remaining_lem a b h = ground arith

-- A buffer with a positive limit.
abbrev holding : ℕ → Bytes → Bool → CappedBuffer
holding m b k = record { max = pos (suc m); buf = b; capped = k }

write_full :
    (m : ℕ) (b p : Bytes) (k : Bool)
    → length b ≡ suc m
    → (write (holding m b k) p).1 ≡ holding m b true
unfolding write
write_full m b p k h = rw (remaining_lem (suc m) (length b) (omega arith)) (ground arith)

write_part :
    (m : ℕ) (b p : Bytes) (k : Bool)
    → length b < suc m
    → suc m < length b + length p
    → (write (holding m b k) p).1 ≡ holding m (b ++ take (suc m - length b) p) true
unfolding write
write_part m b p k h l = rw (remaining_lem (suc m) (length b) (omega arith)) (ground arith)

write_whole :
    (m : ℕ) (b p : Bytes) (k : Bool)
    → length b < suc m
    → length b + length p ≤ suc m
    → (write (holding m b k) p).1 ≡ holding m (b ++ p) k
unfolding write
write_whole m b p k h l = rw (remaining_lem (suc m) (length b) (omega arith)) (ground arith)

or-true : (k : Bool) → (k || true) ≡ true
or-true true = refl
or-true false = refl

or-false : (k : Bool) → (k || false) ≡ k
or-false true = refl
or-false false = refl

flag_set :
    (m : ℕ) (b p : Bytes) (k : Bool)
    → m < length b + length p
    → true ≡ (k || ltb m (length (b ++ p)))
flag_set m b p k h = rw (length-append b p, lt→ltb m _ h) (sym (or-true k))

flag_kept :
    (m : ℕ) (b p : Bytes) (k : Bool) → length b + length p ≤ m → k ≡ (k || ltb m (length (b ++ p)))
flag_kept m b p k h = rw (length-append b p, le→not_ltb m _ h) (sym (or-false k))

take_full : (n : ℕ) (b p : Bytes) → length b ≡ n → take n (b ++ p) ≡ b
take_full n b p h = take-append n b p (omega arith) ∙ rw (sub_of_eq n (length b) h) (append-nil b)

-- One Write keeps the prefix of what was offered, and notes whether any byte was dropped.
write-holding :
    (m : ℕ) (b p : Bytes) (k : Bool)
    → length b ≤ suc m
    → p ≢ []
    → (write (holding m b k) p).1
      ≡ holding m (take (suc m) (b ++ p)) (k || ltb (suc m) (length (b ++ p)))
write-holding m b p k h ne = elim (dec_lt (length b) (suc m)) [
  | no full ↦
      let e : length b ≡ suc m = omega arith in
      write_full m b p k e
      ∙ ap₂ (holding m) (sym (take_full (suc m) b p e))
          (flag_set (suc m) b p k (omega (arith, length-ne-zero p ne)))
  | yes room ↦ elim (dec_lt (suc m) (length b + length p)) [
    | yes over ↦
        write_part m b p k room over
        ∙ ap₂ (holding m) (sym (take-append (suc m) b p h)) (flag_set (suc m) b p k over)
    | no fits ↦
        let l : length b + length p ≤ suc m = omega arith in
        write_whole m b p k room l
        ∙ ap₂ (holding m) (sym (take_all (suc m) (b ++ p) (omega (arith, length-append b p))))
            (flag_kept (suc m) b p k l)
  ]
]

flags_join :
    (m : ℕ) (s q : Bytes) (k : Bool)
    → ((k || ltb m (length s)) || ltb m (length (take m s ++ q))) ≡ (k || ltb m (length (s ++ q)))
flags_join m s q k = elim (dec_lt m (length s)) [
  | yes over ↦ ground (arith, length-append s q, or-true k)
  | no fits ↦ rw (take_all m s (omega arith)) (ground (arith, length-append s q, or-false k))
]

write_all-holding :
    (m : ℕ) (b : Bytes) (k : Bool) (ps : List Bytes)
    → length b ≤ suc m
    → NoneEmpty ps
    → write_all (holding m b k) ps
      ≡ holding m (take (suc m) (b ++ offered ps)) (k || ltb (suc m) (length (b ++ offered ps)))
unfolding write_all
write_all-holding m b k [] h ne =
    ap₂ (holding m)
      (sym (take_all (suc m) (b ++ []) (omega (arith, length-append b [])) ∙ append-nil b))
      (flag_kept (suc m) b [] k (omega arith))
write_all-holding m b k (p ∷ ps) h ne =
    let s = b ++ p in
    let kept : Bool = k || ltb (suc m) (length s) in
    ap (λ c. write_all c ps) (write-holding m b p k h ne.0)
    ∙ write_all-holding m (take (suc m) s) kept ps (omega (arith, length-take (suc m) s)) ne.1
    ∙ ap₂ (holding m) (take-take_append (suc m) s (offered ps))
        (flags_join (suc m) s (offered ps) k)
    ∙ rw (append_assoc b p (offered ps))

-- After any writes, none of them empty, a buffer with a positive limit holds exactly the first
-- `max` bytes that it was offered, and is marked as capped exactly when it was offered more.
pub write_all_limited :
    (m : ℕ) (ps : List Bytes)
    → NoneEmpty ps
    → write_all (empty (pos (suc m))) ps ≡ record {
      max = pos (suc m);
      buf = take (suc m) (offered ps);
      capped = ltb (suc m) (length (offered ps));
    }
write_all_limited m ps ne = write_all-holding m [] false ps (omega arith) ne

write_unlimited :
    (c : CappedBuffer) (p : Bytes) → c.max ≤ℤ pos 0 → (write c p).1 ≡ record c { buf = c.buf ++ p }
unfolding write
write_unlimited c p h = ground arith

write_all_append :
    (c : CappedBuffer) (ps : List Bytes)
    → c.max ≤ℤ pos 0
    → write_all c ps ≡ record c { buf = c.buf ++ offered ps }
unfolding write_all
write_all_append c [] h = rw (append-nil c.buf)
write_all_append c (p ∷ ps) h =
    ap (λ d. write_all d ps) (write_unlimited c p h)
    ∙ write_all_append (record c { buf = c.buf ++ p }) ps h
    ∙ rw (append_assoc c.buf p (offered ps))

-- A buffer whose limit is zero or negative keeps everything and is never marked as capped.
pub write_all_unlimited :
    (max : ℤ) (ps : List Bytes)
    → max ≤ℤ pos 0
    → write_all (empty max) ps ≡ record { max = max; buf = offered ps; capped = false }
write_all_unlimited max ps h = write_all_append (empty max) ps h
