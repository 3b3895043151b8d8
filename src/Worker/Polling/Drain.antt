-- ===== src/Worker/Polling/Drain.antt =====
-- What Start waits for, and what it does not wait for.
use code_sandbox.Prelude.{
  ℕ, zero, suc, ◌+◌, ◌*◌, ◌≤◌, ◌<◌, ◌≡◌, refl, ◌∙◌, ◌⊎◌, inl, inr, true, false, Bool-cases, List,
  append-nil, arith, length,
}
use code_sandbox.Worker.Handling.{Message}
use code_sandbox.Worker.Polling.{
  Pollers, max_messages, launched, Step, cancel, stop, ask, receive, fail_stop, fail, retry,
  give_up, send, wait, finish, Reach, here, next, Stopped,
}

-- Each goroutine is at one point, each send was received or is in the channel, and none returns
-- before the context is cancelled.
pub record IsConsistent (workers : ℕ) (p : Pollers) : Type 0 where
  pub all : p.at_head + p.receiving + p.backing_off + p.returning + p.ended ≡ workers
  pub sent : p.ended ≡ p.done + p.waited
  pub running : p.cancelled ≡ false → p.returning + p.ended ≡ 0

pub launched-IsConsistent : (workers : ℕ) → IsConsistent workers (launched workers)
launched-IsConsistent workers = record { all = omega arith; sent = refl; running = λ h. refl }

Step-IsConsistent :
    {workers : ℕ} {p q : Pollers}
    → Step workers p q
    → IsConsistent workers p
    → IsConsistent workers q
Step-IsConsistent cancel h = record { all = h.all; sent = h.sent; running = λ e. cc e }
Step-IsConsistent (stop n e c) h = record {
  all = omega (arith, h.all);
  sent = h.sent;
  running = λ f. cc (f, c);
}
Step-IsConsistent (ask n e c) h = record {
  all = omega (arith, h.all);
  sent = h.sent;
  running = h.running;
}
Step-IsConsistent (receive n msgs e b) h = record {
  all = omega (arith, h.all);
  sent = h.sent;
  running = h.running;
}
Step-IsConsistent (fail_stop n e c) h = record {
  all = omega (arith, h.all);
  sent = h.sent;
  running = λ f. cc (f, c);
}
Step-IsConsistent (fail n e) h = record {
  all = omega (arith, h.all);
  sent = h.sent;
  running = h.running;
}
Step-IsConsistent (retry n e) h = record {
  all = omega (arith, h.all);
  sent = h.sent;
  running = h.running;
}
Step-IsConsistent (give_up n e c) h = record {
  all = omega (arith, h.all);
  sent = h.sent;
  running = λ f. cc (f, c);
}
Step-IsConsistent (send n e l) h = record {
  all = omega (arith, h.all);
  sent = omega (arith, h.sent);
  running = λ f. absurd (omega (arith, h.running f));
}
Step-IsConsistent (wait n e l) h = record {
  all = h.all;
  sent = omega (arith, h.sent);
  running = h.running;
}
Step-IsConsistent (finish before m after e) h = record {
  all = h.all;
  sent = h.sent;
  running = h.running;
}

pub Reach-IsConsistent :
    {workers : ℕ} {p q : Pollers}
    → IsConsistent workers p
    → Reach workers p q
    → IsConsistent workers q
Reach-IsConsistent h here = h
Reach-IsConsistent h (next r s) = Step-IsConsistent s (Reach-IsConsistent h r)

-- Once Start has returned, with at least one worker, the context was cancelled and every goroutine of
-- pollLoop has ended; nothing is left in the channel.
pub Reach-Stopped :
    (workers : ℕ) (p : Pollers)
    → 0 < workers
    → Reach workers (launched workers) p
    → Stopped workers p
    → (p.cancelled ≡ true)
      × (p.ended ≡ workers)
      × (p.done ≡ 0)
      × (p.at_head + p.receiving + p.backing_off + p.returning ≡ 0)
Reach-Stopped workers p pos r s =
    let h = Reach-IsConsistent (launched-IsConsistent workers) r in
    (
      elim (Bool-cases p.cancelled) [
        | inl c ↦ c
        | inr c ↦ absurd (omega (arith, h.running c, h.sent))
      ],
      omega (arith, h.all, h.sent),
      omega (arith, h.all, h.sent),
      omega (arith, h.all, h.sent),
    )

Reach-first :
    {workers : ℕ} {p q r : Pollers} → Step workers p q → Reach workers q r → Reach workers p r
Reach-first s here = next here s
Reach-first s (next r t) = next (Reach-first s r) t

-- How many steps are left, at most, until Start returns.
abbrev left : Pollers → ℕ
left p = 3 * (p.at_head + p.receiving + p.backing_off) + 2 * p.returning + p.done

abbrev pub Drained : ℕ → Pollers → Type 0
Drained workers p =
    (q : Pollers) × Reach workers p q × Stopped workers q × (q.handling ≡ p.handling)

pub zero_or_suc : (n : ℕ) → (n ≡ 0) ⊎ ((m : ℕ) × (n ≡ suc m))
zero_or_suc zero = inl refl
zero_or_suc (suc m) = inr (m, refl)

Drained-first :
    {workers : ℕ} {p q : Pollers}
    → Step workers p q
    → q.handling ≡ p.handling
    → Drained workers q
    → Drained workers p
Drained-first s e (r, path, stopped, same) = (r, Reach-first s path, stopped, same ∙ e)

-- With a cancelled context there is a step that brings Start nearer to its end.
drain :
    (workers : ℕ) (n : ℕ) (p : Pollers)
    → IsConsistent workers p
    → p.cancelled ≡ true
    → left p ≡ n
    → Drained workers p
drain workers zero p h c l = (p, here, omega (arith, h.all, h.sent), refl)
drain workers (suc n) p h c l = elim (zero_or_suc p.at_head) [
  | inr (m, e) ↦
      Drained-first (stop m e c) refl
        (drain workers n _ (Step-IsConsistent (stop m e c) h) c (omega (arith, l)))
  | inl e ↦ elim (zero_or_suc p.receiving) [
    | inr (m, f) ↦
        Drained-first (fail_stop m f c) refl
          (drain workers n _ (Step-IsConsistent (fail_stop m f c) h) c (omega (arith, l)))
    | inl f ↦ elim (zero_or_suc p.backing_off) [
      | inr (m, g) ↦
          Drained-first (give_up m g c) refl
            (drain workers n _ (Step-IsConsistent (give_up m g c) h) c (omega (arith, l)))
      | inl g ↦ elim (zero_or_suc p.returning) [
        | inr (m, k) ↦
            let room : p.done < workers = omega (arith, h.all, h.sent) in
            Drained-first (send m k room) refl
              (drain workers n _ (Step-IsConsistent (send m k room) h) c (omega (arith, l)))
        | inl k ↦ elim (zero_or_suc p.done) [
          | inr (m, d) ↦
              let more : p.waited < workers = omega (arith, h.all, h.sent) in
              Drained-first (wait m d more) refl
                (drain workers n _ (Step-IsConsistent (wait m d more) h) c (omega (arith, l)))
          | inl d ↦ absurd (omega arith)
        ]
      ]
    ]
  ]
]

-- However the goroutines stand when the context is cancelled, Start can come to its end, and without
-- the end of any message that is still handled.
pub Reach-Drained :
    (workers : ℕ) (p : Pollers)
    → Reach workers (launched workers) p
    → p.cancelled ≡ true
    → Drained workers p
Reach-Drained workers p r c =
    drain workers (left p) p (Reach-IsConsistent (launched-IsConsistent workers) r) c refl

Reach-trans :
    {workers : ℕ} {p q r : Pollers} → Reach workers p q → Reach workers q r → Reach workers p r
Reach-trans a here = a
Reach-trans a (next b s) = next (Reach-trans a b) s

-- Start does not wait for the goroutines that handle messages: for every batch that a receive can
-- give there is a reachable state in which Start has returned and the whole batch is still handled.
pub Reach-Stopped_handling :
    (k : ℕ) (msgs : List Message)
    → length msgs ≤ max_messages
    → (p : Pollers) × Reach (suc k) (launched (suc k)) p × Stopped (suc k) p × (p.handling ≡ msgs)
Reach-Stopped_handling k msgs h =
    let asked = next here (ask k refl refl) in
    let given = next asked (receive 0 msgs refl h) in
    let cancelled = next given cancel in
    let (q, path, stopped, same) = Reach-Drained (suc k) _ cancelled refl in
    (q, Reach-trans cancelled path, stopped, same ∙ append-nil msgs)
