-- ===== src/Api/Sessions.antt =====
-- Requests that are served one after the other.
use code_sandbox.Prelude.{
  ◌≡◌, ◌≢◌, refl, sym, ap, subst, inl, inr, true, Bool-cases, List, [], ◌∷◌, ◌++◌, append-nil, ℤ,
  pos, ◌*ℤ◌, ◌<ℤ◌, int64, Bytes, bytes_eq, Result, ok, err,
}
use code_sandbox.Host.{Host, Trace, Out, done}
use code_sandbox.Config.{Config}
use code_sandbox.Registry.{Registry}
use code_sandbox.Registry.Loading.{IsLoaded}
use code_sandbox.Executor.Types.{Request}
use code_sandbox.Executor.Stats.Window.{Holds}
use code_sandbox.Executor.Run.Slots.{admit_free}
use code_sandbox.Executor.Run.{Engine, capacity, admit, run}
use code_sandbox.Executor.Run.Whole.{Ended, run_ends}
use code_sandbox.Api.{Reply, status_too_many_requests, reply_to, reply_out, after_decode, serve_run}
use code_sandbox.Api.Replies.{reply_to-Fits}

module _ (decode : ℤ → Bytes → Result Bytes Request) (host : Host) (cfg : Config)
    (reg : Registry) where
  -- One reply was written; the executor is left as free as it was, and the client was not sent away
  -- if there was a free slot.
  record Served (e : Engine) (history : List ℤ) (r : Out Reply × Engine × Trace) : Type 0 where
    reply : Reply
    engine : Engine
    trace : Trace
    later : List ℤ
    returned : r ≡ (done reply, engine, trace)
    slots : engine.slots ≡ e.slots
    ring : Holds (history ++ later) engine.stats
    welcome : (admit cfg e).0 ≡ true → reply.code ≢ status_too_many_requests

  bad :
      (e : Engine) (tr : Trace) (history : List ℤ) (r : Reply)
      → r.code ≢ status_too_many_requests
      → Holds history e.stats
      → Served e history (done r, e, tr)
  bad e tr history r c h = record {
    reply = r;
    engine = e;
    trace = tr;
    later = [];
    returned = refl;
    slots = refl;
    ring = subst (λ l. Holds l e.stats) (sym (append-nil history)) h;
    welcome = λ a. c;
  }

  ran :
      (e : Engine) (tr : Trace) (history : List ℤ) (req : Request)
      → Ended host cfg reg req e tr history
      → Served e history (
        reply_out (run host cfg reg req e tr).0,
        (run host cfg reg req e tr).1,
        (run host cfg reg req e tr).2,
      )
  unfolding reply_out
  ran e tr history req x = record {
    reply = reply_to x.answer;
    engine = x.engine;
    trace = x.trace;
    later = x.later;
    returned = λ i. (reply_out (x.returned i).0, (x.returned i).1, (x.returned i).2);
    slots = x.slots;
    ring = x.ring;
    welcome = λ a b. let f = x.busy.0 ((reply_to-Fits x.answer).3.0 b) in cc (a, f);
  }

  serve_decoded :
      (e : Engine) (tr : Trace) (history : List ℤ)
      → IsLoaded reg
      → Holds history e.stats
      → (d : Result Bytes Request) → Served e history (after_decode decode host cfg reg e tr d)
  unfolding after_decode
  serve_decoded e tr history loaded h (err x) = bad e tr history _ (λ c. cc c) h
  serve_decoded e tr history loaded h (ok req) = elim (Bool-cases (bytes_eq req.language [])) [
    | inl l ↦ rw l (bad e tr history _ (λ c. cc c) h)
    | inr l ↦ elim (Bool-cases (bytes_eq req.source [])) [
      | inl s ↦ rw (l, s) (bad e tr history _ (λ c. cc c) h)
      | inr s ↦ rw (l, s) (ran e tr history req (run_ends host cfg reg req e tr history loaded h))
    ]
  ]

  -- The bodies are served in turn; the first component holds the replies.
  unfoldable pub serve_all : List Bytes → Engine → Trace → List (Out Reply) × Engine × Trace
  serve_all [] e tr = ([], e, tr)
  serve_all (body ∷ bodies) e tr =
      let (r, e', tr') = serve_run decode host cfg reg body e tr in
      let (rs, e'', tr'') = serve_all bodies e' tr' in (r ∷ rs, e'', tr'')

  -- Each is a reply, and none is 429.
  abbrev pub AllWelcome : List Bytes → List (Out Reply) → Type 0
  AllWelcome [] [] = Unit {0}
  AllWelcome (body ∷ bodies) (r ∷ rs) =
      ((reply : Reply) × (r ≡ done reply) × (reply.code ≢ status_too_many_requests))
      × AllWelcome bodies rs
  AllWelcome [] (r ∷ rs) = ⊥
  AllWelcome (body ∷ bodies) [] = ⊥

  serve_once :
      (body : Bytes) (e : Engine) (tr : Trace) (history : List ℤ)
      → IsLoaded reg
      → Holds history e.stats
      → Served e history (serve_run decode host cfg reg body e tr)
  unfolding serve_run
  serve_once body e tr history loaded h =
      serve_decoded e tr history loaded h (decode (int64 (cfg.max_source_bytes *ℤ 4)) body)

  -- Requests that come one after the other to a daemon with a free slot are all answered, on any host,
  -- and none of them with 429: each gives its slot back.
  pub serve_all-AllWelcome :
      (bodies : List Bytes) (e : Engine) (tr : Trace) (history : List ℤ)
      → IsLoaded reg
      → Holds history e.stats
      → pos e.slots <ℤ capacity cfg
      → AllWelcome bodies (serve_all bodies e tr).0
  unfolding serve_all
  serve_all-AllWelcome [] e tr history loaded h free = tt
  serve_all-AllWelcome (body ∷ bodies) e tr history loaded h free =
      let s = serve_once body e tr history loaded h in
      (
        (s.reply, ap (λ r. r.0) s.returned, s.welcome (admit_free cfg e free)),
        subst (λ r. AllWelcome bodies (serve_all bodies r.1 r.2).0) (sym s.returned)
            (serve_all-AllWelcome bodies s.engine s.trace (history ++ s.later) loaded s.ring
              (rw s.slots free)),
      )
