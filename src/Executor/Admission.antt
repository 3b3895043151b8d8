-- ===== src/Executor/Admission.antt =====
-- Concurrent calls of Executor.Run, as they interleave on the semaphore and the statistics: each
-- operation on the channel, each addition to a counter and each Observe is a step of its own.
pub mod Books
pub mod Full
use code_sandbox.Prelude.{ℕ, suc, ◌+◌, ◌≡◌, true, false, List, [], ◌∷◌, ◌++◌, ℤ}
use code_sandbox.Host.{done}
use code_sandbox.Config.{Config}
use code_sandbox.Executor.Stats.{
  Stats, add_total, add_in_flight, dec_in_flight, inc_rejected, observe,
}
use code_sandbox.Executor.Run.{Engine, has_room, take_slot, give_back}

-- The executor with the number of calls at each point of Run, the number of those that were turned
-- away, and the durations that were observed.
pub record Pool : Type 0 where
  pub engine : Engine
  -- past the send
  pub sent : ℕ
  -- past total.Add(1)
  pub counted : ℕ
  -- past inFlight.Add(1), up to Observe
  pub running : ℕ
  -- past Observe
  pub ending : ℕ
  -- past inFlight.Add(-1), up to the receive
  pub leaving : ℕ
  -- in the default case, and past rejected.Add(1)
  pub refusing : ℕ
  pub refused : ℕ
  pub durations : List ℤ

abbrev pub with_stats : Engine → Stats → Engine
with_stats e s = record e { stats = s }

-- The step of one call.
pub data Step (cfg : Config) (p : Pool) : Pool → Type 0 where
  send :
      has_room cfg p.engine ≡ true
      → Step cfg p (record p { engine = take_slot p.engine; sent = p.sent + 1 })
  refuse : has_room cfg p.engine ≡ false → Step cfg p (record p { refusing = p.refusing + 1 })
  reject :
      (n : ℕ)
      → p.refusing ≡ suc n
      → Step cfg p (record p {
        engine = with_stats p.engine (inc_rejected p.engine.stats);
        refusing = n;
        refused = p.refused + 1;
      })
  count :
      (n : ℕ)
      → p.sent ≡ suc n
      → Step cfg p (record p {
        engine = with_stats p.engine (add_total p.engine.stats);
        sent = n;
        counted = p.counted + 1;
      })
  enter :
      (n : ℕ)
      → p.counted ≡ suc n
      → Step cfg p (record p {
        engine = with_stats p.engine (add_in_flight p.engine.stats);
        counted = n;
        running = p.running + 1;
      })
  finish :
      (n : ℕ) (d : ℤ) (s : Stats)
      → p.running ≡ suc n
      → observe p.engine.stats d ≡ done s
      → Step cfg p (record p {
        engine = with_stats p.engine s;
        running = n;
        ending = p.ending + 1;
        durations = p.durations ++ d ∷ [];
      })
  leave :
      (n : ℕ)
      → p.ending ≡ suc n
      → Step cfg p (record p {
        engine = with_stats p.engine (dec_in_flight p.engine.stats);
        ending = n;
        leaving = p.leaving + 1;
      })
  receive :
      (n : ℕ)
      → p.leaving ≡ suc n
      → Step cfg p (record p { engine = give_back p.engine; leaving = n })

pub data Reach (cfg : Config) (p : Pool) : Pool → Type 0 where
  here : Reach cfg p p
  next : {q r : Pool} → Reach cfg p q → Step cfg q r → Reach cfg p r

abbrev pub start : Engine → Pool
start e = record {
  engine = e;
  sent = 0;
  counted = 0;
  running = 0;
  ending = 0;
  leaving = 0;
  refusing = 0;
  refused = 0;
  durations = [];
}

-- The calls that hold a slot.
abbrev pub holding : Pool → ℕ
holding p = p.sent + p.counted + p.running + p.ending + p.leaving
