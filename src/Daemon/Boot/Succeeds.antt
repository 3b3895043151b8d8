-- ===== src/Daemon/Boot/Succeeds.antt =====
-- When the start of the daemon succeeds.
use code_sandbox.Prelude.{
  ◌≡◌, refl, ap, ◌∙◌, ◌⊎◌, inl, inr, Bool, Bool-cases, Option, none, some, [], arith, ℤ, pos, ◌≤ℤ◌,
  Bytes, bytes_eq, bytes_eq_iff, ok,
}
use code_sandbox.Host.{done}
use code_sandbox.Config.{Config, load}
use code_sandbox.Registry.{Registry, new, load_dir}
use code_sandbox.Executor.Run.{Engine, capacity, idle, new_engine, engine_of}
use code_sandbox.Worker.Setup.{Worker, region_of, at_least_one, new_worker}
use code_sandbox.Daemon.Sweep.{Swept, sweep_stale_jobs}
use code_sandbox.Daemon.Boot.{
  Machine, Daemon, with_worker, start_worker, with_engine, with_languages, with_root, boot,
  max_job_age,
}

-- There is no queue, or the AWS configuration can be loaded.
abbrev pub CanPoll : Machine → Config → Type 0
CanPoll m cfg = (cfg.sqs_queue_url ≡ []) ⊎ (m.load_aws (region_of m.getenv) ≡ none)

-- Nothing that the start asks for fails.
pub record IsBootable (m : Machine) : Type 0 where
  pub root_made : m.mkdir_all (load m.getenv m.num_cpu).job_root ≡ none
  pub languages_load : (load_dir m.files new (load m.getenv m.num_cpu).languages_dir).1 ≡ none
  pub can_queue : pos 0 ≤ℤ capacity (load m.getenv m.num_cpu)
  pub can_poll : CanPoll m (load m.getenv m.num_cpu)

new_worker_made :
    (getenv : Bytes → Bytes) (load_aws : Bytes → Option Bytes) (queue addr password : Bytes)
    (tls : Bool) (n : ℤ)
    → load_aws (region_of getenv) ≡ none
    → (w : Worker) × (new_worker getenv load_aws queue addr password tls n ≡ ok w)
unfolding new_worker
new_worker_made getenv load_aws queue addr password tls n h = (
  record {
    region = region_of getenv;
    queue_url = queue;
    redis_addr = addr;
    redis_password = password;
    redis_tls = tls;
    workers = at_least_one n;
  },
  rw (h, new_worker) refl,
)

engine_of_made : (z : ℤ) → pos 0 ≤ℤ z → engine_of z ≡ done idle
unfolding engine_of
engine_of_made z h = ground arith

new_engine_made : (cfg : Config) → pos 0 ≤ℤ capacity cfg → new_engine cfg ≡ done idle
unfolding new_engine
new_engine_made cfg h = engine_of_made (capacity cfg) h

module _ (m : Machine) (cfg : Config) (swept : Swept) (reg : Registry) where
  started : Engine → Option Worker → Daemon
  started e w = record { cfg = cfg; swept = swept; reg = reg; engine = e; worker = w }

  start_worker_made :
      (e : Engine) → CanPoll m cfg → (d : Daemon) × (start_worker m cfg swept reg e ≡ ok d)
  unfolding start_worker started
  start_worker_made e h = elim (Bool-cases (bytes_eq cfg.sqs_queue_url [])) [
    | inl b ↦ (started e none, rw b refl)
    | inr b ↦ elim h [
      | inl q ↦ absurd (let t = (bytes_eq_iff cfg.sqs_queue_url []).1 q in cc (t, b))
      | inr a ↦
          let (w, made) =
            new_worker_made m.getenv m.load_aws cfg.sqs_queue_url cfg.redis_addr cfg.redis_password
              cfg.redis_tls cfg.sqs_workers a in
          (started e (some w), rw (b, made) (unfold with_worker in refl))
    ]
  ]

  with_languages_made :
      pos 0 ≤ℤ capacity cfg
      → CanPoll m cfg
      → (d : Daemon) × (with_languages m cfg swept reg none ≡ done (ok d))
  unfolding with_languages with_engine
  with_languages_made h p =
      let (d, made) = start_worker_made idle p in
      (d, ap (with_engine m cfg swept reg) (new_engine_made cfg h) ∙ ap done made)

pub boot_made : (m : Machine) → IsBootable m → (d : Daemon) × (boot m ≡ done (ok d))
unfolding boot with_root
boot_made m h =
    let cfg = load m.getenv m.num_cpu in
    let (reg, failure) = load_dir m.files new cfg.languages_dir in
    let swept = sweep_stale_jobs m.disk cfg.job_root max_job_age in
    let (d, made) = with_languages_made m cfg swept reg h.can_queue h.can_poll in
    (
      d,
      ap (with_root m cfg) h.root_made
          ∙ ap (with_languages m cfg swept reg) h.languages_load
          ∙ made,
    )
