-- ===== src/Worker/Polling/Progress.antt =====
-- That the worker comes to rest after a cancellation.
use code_sandbox.Prelude.{
  ℕ, ◌+◌, ◌*◌, ◌≤◌, ◌<◌, ◌≡◌, refl, sym, ap, ◌⊎◌, inl, inr, true, List, [], ◌∷◌, ◌++◌, arith,
  length, length-append,
}
use code_sandbox.Worker.Handling.{Message}
use code_sandbox.Worker.Polling.{
  Pollers, launched, Step, cancel, stop, ask, receive, fail_stop, fail, retry, give_up, send, wait,
  finish, Reach, Stopped,
}
use code_sandbox.Worker.Polling.Drain.{
  IsConsistent, Reach-IsConsistent, launched-IsConsistent, zero_or_suc,
}

-- How many steps are left, at most: a call that receives may still bring a batch.
abbrev pub work : Pollers → ℕ
work p =
    14 * p.receiving
    + 4 * p.backing_off
    + 3 * p.at_head
    + 2 * p.returning
    + p.done
    + length p.handling

-- A step either changes nothing, or lowers the work that is left.
Step-work :
    {workers : ℕ} {p q : Pollers}
    → Step workers p q
    → p.cancelled ≡ true
    → (q ≡ p) ⊎ (work q < work p)
Step-work {p = p} cancel c = inl (λ i. record p { cancelled = sym c i })
Step-work (stop n e d) c = inr (omega arith)
Step-work (ask n e d) c = cc (c, d)
Step-work {p = p} (receive n msgs e b) c = inr (omega (arith, length-append msgs p.handling))
Step-work (fail_stop n e d) c = inr (omega arith)
Step-work (fail n e) c = inr (omega arith)
Step-work (retry n e) c = inr (omega arith)
Step-work (give_up n e d) c = inr (omega arith)
Step-work (send n e l) c = inr (omega arith)
Step-work (wait n e l) c = inr (omega arith)
Step-work {p = p} (finish before m after e) c =
    let k : length p.handling ≡ length (before ++ m ∷ after) = ap length e in
    inr (omega (arith, length-append before (m ∷ after), length-append before after))

-- Start has returned and every message is handled, or a step lowers the work.
abbrev pub RestsOrLowers : ℕ → Pollers → Type 0
RestsOrLowers workers p =
    (Stopped workers p × (p.handling ≡ [])) ⊎ ((q : Pollers) × Step workers p q × (work q < work p))

handling-cases :
    (ms : List Message) → (ms ≡ []) ⊎ ((m : Message) × (ms' : List Message) × (ms ≡ m ∷ ms'))
handling-cases [] = inl refl
handling-cases (m ∷ ms) = inr (m, ms, refl)

lowers :
    {workers : ℕ} {p q : Pollers} → Step workers p q → work q < work p → RestsOrLowers workers p
lowers {q = q} s l = inr (q, s, l)

rests_or_lowers :
    (workers : ℕ) (p : Pollers)
    → IsConsistent workers p
    → p.cancelled ≡ true
    → RestsOrLowers workers p
rests_or_lowers workers p h c = elim (zero_or_suc p.at_head) [
  | inr (m, e) ↦ lowers (stop m e c) (omega arith)
  | inl a ↦ elim (zero_or_suc p.receiving) [
    | inr (m, e) ↦ lowers (fail_stop m e c) (omega arith)
    | inl b ↦ elim (zero_or_suc p.backing_off) [
      | inr (m, e) ↦ lowers (give_up m e c) (omega arith)
      | inl d ↦ elim (zero_or_suc p.returning) [
        | inr (m, e) ↦ lowers (send m e (omega (arith, h.all, h.sent))) (omega arith)
        | inl f ↦ elim (zero_or_suc p.done) [
          | inr (m, e) ↦ lowers (wait m e (omega (arith, h.all, h.sent))) (omega arith)
          | inl g ↦ elim (handling-cases p.handling) [
            | inl e ↦ inl (omega (arith, h.all, h.sent), e)
            | inr (m, ms, e) ↦
                let k : length p.handling ≡ length (m ∷ ms) = ap length e in
                lowers (finish [] m ms e) (omega arith)
          ]
        ]
      ]
    ]
  ]
]

-- After the cancellation the worker comes to rest, where the handlers of messages return: each step
-- changes nothing or lowers the work that is left, which is at most fourteen for each goroutine and
-- one for each message that is handled, and as long as Start has not returned or a message is
-- handled, some step lowers it.
pub Reach-rests :
    (workers : ℕ) (p : Pollers)
    → Reach workers (launched workers) p
    → p.cancelled ≡ true
    → RestsOrLowers workers p
      × ((q : Pollers) → Step workers p q → (q ≡ p) ⊎ (work q < work p))
      × (work p ≤ 14 * workers + length p.handling)
Reach-rests workers p r c =
    let h = Reach-IsConsistent (launched-IsConsistent workers) r in
    (rests_or_lowers workers p h c, (λ q s. Step-work s c), omega (arith, h.all, h.sent))
