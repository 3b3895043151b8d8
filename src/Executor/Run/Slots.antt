-- ===== src/Executor/Run/Slots.antt =====
-- What taking a slot of the executor and giving it back do to its books.
use code_sandbox.Prelude.{◌+◌, ◌-◌, ◌≡◌, true, false, List, arith, ℤ, pos, negsuc, ◌≤ℤ◌, ◌<ℤ◌}
use code_sandbox.Host.{done}
use code_sandbox.Config.{Config}
use code_sandbox.Executor.Stats.{Stats, inc_in_flight, dec_in_flight, inc_rejected}
use code_sandbox.Executor.Stats.Window.{Holds, observed, observe_done}
use code_sandbox.Executor.Run.{
  Engine, capacity, idle, engine_of, new_engine, admit, release, release_with,
}

-- The counters are no part of what the ring holds.
pub Holds-counters :
    (history : List ℤ) (s : Stats) (t r f : ℤ)
    → Holds history s
    → Holds history (record s { total = t; rejected = r; in_flight = f })
Holds-counters history s t r f h = record {
  capacity = h.capacity;
  next = h.next;
  size = h.size;
  slots = h.slots;
}

unfoldable pub taken : Engine → Engine
taken e = record e { slots = e.slots + 1; stats = inc_in_flight e.stats }

pub admit-true :
    (cfg : Config) (e : Engine)
    → (admit cfg e).0 ≡ true
    → (pos e.slots <ℤ capacity cfg) × ((admit cfg e).1 ≡ taken e)
unfolding admit taken
admit-true cfg e h = (ground arith, ground arith)

pub admit-false :
    (cfg : Config) (e : Engine)
    → (admit cfg e).0 ≡ false
    → (admit cfg e).1 ≡ record e { stats = inc_rejected e.stats }
unfolding admit
admit-false cfg e h = ground arith

engine_of_done : (c : ℤ) (e : Engine) → engine_of c ≡ done e → (pos 0 ≤ℤ c) × (e ≡ idle)
unfolding engine_of
engine_of_done (pos n) e h = (omega arith, cc h)
engine_of_done (negsuc n) e h = cc h

pub new_engine_done :
    (cfg : Config) (e : Engine) → new_engine cfg ≡ done e → (pos 0 ≤ℤ capacity cfg) × (e ≡ idle)
unfolding new_engine
new_engine_done cfg e h = engine_of_done (capacity cfg) e h

-- What the end of a call leaves, when its observation does not panic.
unfoldable pub left : Engine → Stats → Engine
left e s = record { slots = e.slots - 1; stats = dec_in_flight s }

pub release-Holds :
    (e : Engine) (history : List ℤ) (d : ℤ)
    → Holds history e.stats
    → release e d ≡ (true, left e (observed e.stats d))
unfolding release left
release-Holds e history d h = rw (observe_done history e.stats d h, release_with)

pub admit_free : (cfg : Config) (e : Engine) → pos e.slots <ℤ capacity cfg → (admit cfg e).0 ≡ true
unfolding admit
admit_free cfg e h = ground arith
