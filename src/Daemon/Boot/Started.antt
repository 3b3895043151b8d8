-- ===== src/Daemon/Boot/Started.antt =====
-- What a start that succeeds leaves, and that it can serve.
use code_sandbox.Prelude.{
  ◌≡◌, ◌≢◌, refl, sym, ap, ◌∙◌, subst, inl, inr, Bool, Bool-cases, Option, none, some, List, [],
  arith, ℤ, pos, ◌≤ℤ◌, ◌<ℤ◌, Bytes, bytes_eq, bytes_eq_iff, Result, ok, err,
}
use code_sandbox.Host.{Host, Trace, Out, done, panicked}
use code_sandbox.Config.{Config, load}
use code_sandbox.Registry.{Registry, DirError, new, load_dir}
use code_sandbox.Registry.Loading.{IsLoaded, load_dir-new-IsLoaded}
use code_sandbox.Executor.Types.{Request}
use code_sandbox.Executor.Stats.Window.{new_stats-Holds}
use code_sandbox.Executor.Run.{Engine, capacity, idle, new_engine}
use code_sandbox.Executor.Run.Slots.{new_engine_done}
use code_sandbox.Worker.Setup.{Worker, region_of, at_least_one, new_worker}
use code_sandbox.Daemon.Sweep.{Swept, sweep_stale_jobs}
use code_sandbox.Api.Sessions.{serve_all, AllWelcome, serve_all-AllWelcome}
use code_sandbox.Daemon.Boot.Succeeds.{IsBootable, CanPoll, boot_made}
use code_sandbox.Daemon.Boot.{
  Machine, Daemon, with_worker, start_worker, with_engine, with_languages, with_root, boot,
  max_job_age,
}

-- The worker runs exactly when there is a queue, and then it polls with at least one goroutine.
abbrev pub WorkerFits : Config → Option Worker → Type 0
WorkerFits cfg none = cfg.sqs_queue_url ≡ []
WorkerFits cfg (some w) =
    (cfg.sqs_queue_url ≢ []) × (w.queue_url ≡ cfg.sqs_queue_url) × (pos 1 ≤ℤ w.workers)

pub record IsStarted (m : Machine) (d : Daemon) : Type 0 where
  pub settings : d.cfg ≡ load m.getenv m.num_cpu
  pub languages : load_dir m.files new d.cfg.languages_dir ≡ (d.reg, none)
  pub loaded : IsLoaded d.reg
  pub engine_idle : d.engine ≡ idle
  pub can_queue : pos 0 ≤ℤ capacity d.cfg
  pub worker_fits : WorkerFits d.cfg d.worker

at_least_one_bound : (z : ℤ) → pos 1 ≤ℤ at_least_one z
unfolding at_least_one
at_least_one_bound z = ground arith

new_worker_ok :
    (getenv : Bytes → Bytes) (load_aws : Bytes → Option Bytes) (queue addr password : Bytes)
    (tls : Bool) (n : ℤ) (w : Worker)
    → new_worker getenv load_aws queue addr password tls n ≡ ok w
    → (load_aws (region_of getenv) ≡ none) × (w.queue_url ≡ queue) × (pos 1 ≤ℤ w.workers)
unfolding new_worker
new_worker_ok getenv load_aws queue addr password tls n w h = go (load_aws (region_of getenv)) h
  where
    made : Worker
    made = record {
      region = region_of getenv;
      queue_url = queue;
      redis_addr = addr;
      redis_password = password;
      redis_tls = tls;
      workers = at_least_one n;
    }

    go :
        (o : Option Bytes)
        → elim o as (λ x. Result Bytes Worker) [ some e ↦ err e | none ↦ ok made ] ≡ ok w
        → (o ≡ none) × (w.queue_url ≡ queue) × (pos 1 ≤ℤ w.workers)
    go (some e) q = cc q
    go none q =
        let e : made ≡ w = cc q in
        let (same, bound) =
          subst (λ x. (x.queue_url ≡ queue) × (pos 1 ≤ℤ x.workers)) e
            (refl, at_least_one_bound n) in
        (refl, same, bound)

-- The parts of the daemon are those that it was made of.
abbrev Made : Machine → Config → Registry → Engine → Daemon → Type 0
Made m cfg reg e d =
    (d.cfg ≡ cfg) × (d.reg ≡ reg) × (d.engine ≡ e) × WorkerFits cfg d.worker × CanPoll m cfg

module _ (m : Machine) (cfg : Config) (swept : Swept) (reg : Registry) (d : Daemon) where
  with_worker_ok :
      (e : Engine) (r : Result Bytes Worker)
      → cfg.sqs_queue_url ≢ []
      → ((w : Worker)
          → r ≡ ok w
          → (m.load_aws (region_of m.getenv) ≡ none)
            × (w.queue_url ≡ cfg.sqs_queue_url)
            × (pos 1 ≤ℤ w.workers))
      → with_worker m cfg swept reg e r ≡ ok d
      → Made m cfg reg e d
  unfolding with_worker
  with_worker_ok e (err x) ne fits h = cc h
  with_worker_ok e (ok w) ne fits h =
      let q : record { cfg = cfg; swept = swept; reg = reg; engine = e; worker = some w } ≡ d =
        cc h in
      let (aws, queue, n) = fits w refl in
      subst (Made m cfg reg e) q (refl, refl, refl, (ne, queue, n), inr aws)

  start_worker_ok : (e : Engine) → start_worker m cfg swept reg e ≡ ok d → Made m cfg reg e d
  unfolding start_worker
  start_worker_ok e h = elim (Bool-cases (bytes_eq cfg.sqs_queue_url [])) [
    | inl b ↦
        let q : record { cfg = cfg; swept = swept; reg = reg; engine = e; worker = none } ≡ d =
          cc (h, b) in
        let empty = (bytes_eq_iff cfg.sqs_queue_url []).0 b in
        subst (Made m cfg reg e) q (refl, refl, refl, empty, inl empty)
    | inr b ↦
        with_worker_ok e _ (λ q. ground (arith, bytes_eq_iff cfg.sqs_queue_url []))
          (new_worker_ok m.getenv m.load_aws cfg.sqs_queue_url cfg.redis_addr cfg.redis_password
            cfg.redis_tls cfg.sqs_workers)
          (ground arith)
  ]

  with_engine_ok :
      (o : Out Engine)
      → with_engine m cfg swept reg o ≡ done (ok d)
      → (e : Engine) × (o ≡ done e) × Made m cfg reg e d
  unfolding with_engine
  with_engine_ok panicked h = cc h
  with_engine_ok (done e) h = (e, refl, start_worker_ok e (cc h))

  with_languages_ok :
      (f : Option DirError)
      → with_languages m cfg swept reg f ≡ done (ok d)
      → (f ≡ none) × ((e : Engine) × (new_engine cfg ≡ done e) × Made m cfg reg e d)
  unfolding with_languages
  with_languages_ok (some x) h = cc h
  with_languages_ok none h = (refl, with_engine_ok (new_engine cfg) h)

pair :
    {p : Registry × Option DirError} {reg : Registry} {o : Option DirError}
    → p.0 ≡ reg
    → p.1 ≡ o
    → p ≡ (reg, o)
pair e f = λ i. (e i, f i)

module _ (m : Machine) (d : Daemon) where
  with_root_ok :
      (cfg : Config) (o : Option Bytes)
      → cfg ≡ load m.getenv m.num_cpu
      → with_root m cfg o ≡ done (ok d)
      → (o ≡ none)
        × ((load_dir m.files new cfg.languages_dir).1 ≡ none)
        × (pos 0 ≤ℤ capacity cfg)
        × CanPoll m cfg
        × IsStarted m d
  unfolding with_root
  with_root_ok cfg (some x) q h = cc h
  with_root_ok cfg none q h =
      let swept = sweep_stale_jobs m.disk cfg.job_root max_job_age in
      let (none_failed, (e, made, (c, r, same, fits, polls))) =
        with_languages_ok m cfg swept (load_dir m.files new cfg.languages_dir).0 d
          (load_dir m.files new cfg.languages_dir).1 h in
      let (fits_queue, is_idle) = new_engine_done cfg e made in
      (
        refl,
        none_failed,
        fits_queue,
        polls,
        record {
          settings = c ∙ q;
          languages = ap (λ x. load_dir m.files new x.languages_dir) c ∙ pair (sym r) none_failed;
          loaded = subst IsLoaded (sym r) (load_dir-new-IsLoaded m.files cfg.languages_dir);
          engine_idle = same ∙ is_idle;
          can_queue = subst (λ x. pos 0 ≤ℤ capacity x) (sym c) fits_queue;
          worker_fits = subst (λ x. WorkerFits x d.worker) (sym c) fits;
        },
      )

  boot-only : boot m ≡ done (ok d) → IsBootable m × IsStarted m d
  unfolding boot
  boot-only h =
      let (root, languages, queue, polls, started) =
        with_root_ok (load m.getenv m.num_cpu) _ refl h in
      (
        record {
          root_made = root;
          languages_load = languages;
          can_queue = queue;
          can_poll = polls;
        },
        started,
      )

-- The start succeeds exactly when the job root can be made, the languages load, the capacity, a sum
-- that wraps to 64 bits, is not negative, and there is no queue or the AWS configuration loads. A start that succeeds leaves a daemon
-- whose settings are those of the environment, whose languages were all loaded and are valid, whose
-- executor is idle with a capacity that is not negative, and which has a worker, with at least one
-- goroutine, exactly when there is a queue.
pub boot-IsStarted :
    (m : Machine)
    → (IsBootable m → (d : Daemon) × (boot m ≡ done (ok d)))
      × ((d : Daemon) → boot m ≡ done (ok d) → IsBootable m × IsStarted m d)
boot-IsStarted m = (boot_made m, boot-only m)

module _ (m : Machine) (d : Daemon) where
  -- A daemon that has started without a worker answers requests that come one after the other, whatever
  -- their bodies, on any host, and none with 429, if its capacity is positive.
  pub boot-AllWelcome :
      (decode : ℤ → Bytes → Result Bytes Request) (host : Host) (tr : Trace) (bodies : List Bytes)
      → boot m ≡ done (ok d)
      → d.worker ≡ none
      → pos 0 <ℤ capacity d.cfg
      → AllWelcome decode host d.cfg d.reg bodies
          (serve_all decode host d.cfg d.reg bodies d.engine tr).0
  boot-AllWelcome decode host tr bodies h alone free =
      let s = ((boot-IsStarted m).1 d h).1 in
      subst
        (λ e.
          AllWelcome decode host d.cfg d.reg bodies
            (serve_all decode host d.cfg d.reg bodies e tr).0)
        (sym s.engine_idle)
        (serve_all-AllWelcome decode host d.cfg d.reg bodies idle tr [] s.loaded new_stats-Holds
          free)
