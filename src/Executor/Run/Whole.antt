-- ===== src/Executor/Run/Whole.antt =====
-- Run with its bookkeeping: what a caller gets, and what is left of the executor.
use code_sandbox.Prelude.{
  ℕ, ◌≡◌, ◌≢◌, ◌↔◌, refl, sym, ap, ◌∙◌, append-nil, subst, inl, inr, Bool, true, false, Bool-cases,
  some, List, [], ◌∷◌, ◌++◌, arith, ℤ, pos, ◌+ℤ◌, ◌-ℤ◌,
}
use code_sandbox.Host.{Host, Trace, Out, done, clock_read}
use code_sandbox.Config.{Config}
use code_sandbox.Registry.{Registry}
use code_sandbox.Registry.Loading.{IsLoaded}
use code_sandbox.Sandbox.{since}
use code_sandbox.Executor.Types.{Request, RunError, IsRequestError, overloaded}
use code_sandbox.Executor.Stats.{inc_in_flight, inc_rejected, dec_in_flight}
use code_sandbox.Executor.Stats.Window.{Holds, observed, observed-Holds}
use code_sandbox.Executor.Run.Slots.{
  taken, left, admit-true, admit-false, release-Holds, Holds-counters,
}
use code_sandbox.Executor.Run.{
  Answer, Engine, failure, admit, settle, finish, admitted, run_request, run,
}
use code_sandbox.Executor.Run.Answers.{
  IsAnswered, IsWellFormed-IsAnswered, IsWellFormed-ne-overloaded,
}
use code_sandbox.Executor.Run.Cleanup.{run_request_outcome}

IsRequestError-ne-overloaded : (e : RunError) → IsRequestError e → some e ≢ some overloaded
IsRequestError-ne-overloaded e h q = let r : e ≡ overloaded = cc q in subst IsRequestError r h

module _ (host : Host) (cfg : Config) (reg : Registry) (req : Request) where
  -- Every request is answered.
  request-IsAnswered :
      (tr : Trace)
      → IsLoaded reg
      → (a : Answer) × (tr' : Trace) × (run_request host cfg reg req tr ≡ (done a, tr'))
        × IsAnswered req a
        × (a.1 ≢ some overloaded)
  request-IsAnswered tr loaded = elim (run_request_outcome host cfg reg req tr loaded) [
    | inl x ↦ (
      x.executed.answer,
      x.executed.trace,
      x.executed.returned,
      IsWellFormed-IsAnswered req x.executed.answer x.executed.well_formed,
      IsWellFormed-ne-overloaded req x.executed.answer x.executed.well_formed,
    )
    | inr x ↦ (
      failure x.error,
      tr,
      x.returned,
      (refl, refl),
      IsRequestError-ne-overloaded x.error x.refusal,
    )
  ]

  taken-Holds :
      (history : List ℤ) (e : Engine) → Holds history e.stats → Holds history (taken e).stats
  unfolding taken inc_in_flight
  taken-Holds history e h = Holds-counters history e.stats _ e.stats.rejected _ h

  finish_lem :
      (e : Engine) (start : ℕ) (history : List ℤ) (r : Out Answer) (tr : Trace)
      → Holds history e.stats
      → finish host cfg reg req e start (r, tr)
        ≡ (r, left e (observed e.stats (since start (host.now tr))), clock_read ∷ tr)
  unfolding finish settle
  finish_lem e start history r tr h =
      rw (release-Holds e history (since start (host.now tr)) h) refl

  admit_pair :
      (e : Engine) (b : Bool) (e' : Engine)
      → (admit cfg e).0 ≡ b
      → (admit cfg e).1 ≡ e'
      → admit cfg e ≡ (b, e')
  admit_pair e b e' p q = λ i. (p i, q i)

  -- What a call of Run leaves: it returned a well-formed answer, and its slot and its place in the
  -- in-flight counter are given back.
  pub record Ended (e : Engine) (tr : Trace) (history : List ℤ) : Type 0 where
    pub answer : Answer
    pub engine : Engine
    pub trace : Trace
    pub later : List ℤ
    pub returned : run host cfg reg req e tr ≡ (done answer, engine, trace)
    pub well_formed : IsAnswered req answer
    pub busy : (answer.1 ≡ some overloaded) ↔ ((admit cfg e).0 ≡ false)
    pub slots : engine.slots ≡ e.slots
    pub in_flight : engine.stats.in_flight ≡ e.stats.in_flight
    pub ring : Holds (history ++ later) engine.stats

  add_sub : (z : ℤ) → z +ℤ pos 1 -ℤ pos 1 ≡ z
  unfolding ◌+ℤ◌ ◌-ℤ◌
  add_sub z = ground arith

  left-slots : (e : Engine) (d : ℤ) → (left (taken e) (observed (taken e).stats d)).slots ≡ e.slots
  unfolding left taken
  left-slots e d = omega arith

  left-in_flight :
      (e : Engine) (d : ℤ)
      → (left (taken e) (observed (taken e).stats d)).stats.in_flight ≡ e.stats.in_flight
  unfolding left taken observed inc_in_flight dec_in_flight
  left-in_flight e d = add_sub e.stats.in_flight

  left-Holds :
      (e : Engine) (history : List ℤ) (d : ℤ)
      → Holds history e.stats
      → Holds (history ++ d ∷ []) (left (taken e) (observed (taken e).stats d)).stats
  unfolding left dec_in_flight
  left-Holds e history d h =
      let s = observed (taken e).stats d in
      Holds-counters (history ++ d ∷ []) s s.total s.rejected _
        (observed-Holds history (taken e).stats d (taken-Holds history e h))

  run_admitted :
      (e : Engine) (tr : Trace) (history : List ℤ)
      → IsLoaded reg
      → Holds history e.stats
      → (admit cfg e).0 ≡ true
      → Ended e tr history
  unfolding run
  run_admitted e tr history loaded h free =
      let start = host.now tr in
      let (a, tr', q, w, fine) = request-IsAnswered (clock_read ∷ tr) loaded in
      let d = since start (host.now tr') in
      record {
        answer = a;
        engine = left (taken e) (observed (taken e).stats d);
        trace = clock_read ∷ tr';
        later = d ∷ [];
        returned =
            ap (λ p. admitted host cfg reg req p tr)
              (admit_pair e true (taken e) free (admit-true cfg e free).1)
            ∙ (unfold admitted in ap (finish host cfg reg req (taken e) start) q)
            ∙ finish_lem (taken e) start history (done a) tr' (taken-Holds history e h);
        well_formed = w;
        busy = ((λ x. absurd (fine x)), (λ x. cc (x, free)));
        slots = left-slots e d;
        in_flight = left-in_flight e d;
        ring = left-Holds e history d h;
      }

  run_turned_away :
      (e : Engine) (tr : Trace)
      → (admit cfg e).0 ≡ false
      → run host cfg reg req e tr
        ≡ (done (failure overloaded), record e { stats = inc_rejected e.stats }, tr)
  unfolding run
  run_turned_away e tr full =
      ap (λ p. admitted host cfg reg req p tr) (admit_pair e false _ full (admit-false cfg e full))
      ∙ (unfold admitted in refl)

  rejected-Holds :
      (e : Engine) (history : List ℤ) → Holds history e.stats → Holds history (inc_rejected e.stats)
  unfolding inc_rejected
  rejected-Holds e history h = Holds-counters history e.stats e.stats.total _ e.stats.in_flight h

  -- With a loaded registry and a consistent ring, each call of Run returns on any host: the answer is
  -- well formed, its error is `overloaded` exactly when the semaphore has no free slot, the slot and
  -- the in-flight count are given back, and the ring stays consistent.
  pub run_ends :
      (e : Engine) (tr : Trace) (history : List ℤ)
      → IsLoaded reg
      → Holds history e.stats
      → Ended e tr history
  run_ends e tr history loaded h = elim (Bool-cases (admit cfg e).0) [
    | inl free ↦ run_admitted e tr history loaded h free
    | inr full ↦ record {
      answer = failure overloaded;
      engine = record e { stats = inc_rejected e.stats };
      trace = tr;
      later = [];
      returned = run_turned_away e tr full;
      well_formed = (refl, refl);
      busy = ((λ x. full), (λ x. refl));
      slots = refl;
      in_flight = unfold inc_rejected in refl;
      ring =
          subst (λ l. Holds l (inc_rejected e.stats)) (sym (append-nil history))
            (rejected-Holds e history h);
    }
  ]
