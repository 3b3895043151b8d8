-- ===== src/Worker/Polling.antt =====
-- Start and pollLoop of internal/worker/worker.go, as they interleave with each other, with the
-- goroutines that handle messages, and with the cancellation of the context.
pub mod Drain
pub mod Progress
use code_sandbox.Prelude.{
  ℕ, suc, ◌+◌, ◌≤◌, ◌<◌, ◌≡◌, refl, Bool, true, false, List, [], ◌∷◌, ◌++◌, length,
}
use code_sandbox.Worker.Handling.{Message}

-- The goroutines of pollLoop differ only in the id that they log, so the state counts those at each
-- point of the loop. `done` is the channel, and `waited` the receives that Start has made from it.
pub record Pollers : Type 0 where
  pub cancelled : Bool
  -- at the `select` at the head of the loop
  pub at_head : ℕ
  -- in ReceiveMessage
  pub receiving : ℕ
  -- between the error of ReceiveMessage and the end of the wait after it
  pub backing_off : ℕ
  -- returned, but with the deferred send still to be made
  pub returning : ℕ
  -- ended, with the send made
  pub ended : ℕ
  pub done : ℕ
  pub waited : ℕ
  -- the messages that a goroutine of their own handles, and those that are handled
  pub handling : List Message
  pub handled : List Message

-- sqsMaxMessages
abbrev pub max_messages : ℕ
max_messages = 10

-- Start has launched its goroutines.
abbrev pub launched : ℕ → Pollers
launched workers = record {
  cancelled = false;
  at_head = workers;
  receiving = 0;
  backing_off = 0;
  returning = 0;
  ended = 0;
  done = 0;
  waited = 0;
  handling = [];
  handled = [];
}

-- The step of one goroutine, or of the environment, for this number of workers.
pub data Step (workers : ℕ) (p : Pollers) : Pollers → Type 0 where
  cancel : Step workers p (record p { cancelled = true })
  -- <-ctx.Done() at the head
  stop :
      (n : ℕ)
      → p.at_head ≡ suc n
      → p.cancelled ≡ true
      → Step workers p (record p { at_head = n; returning = p.returning + 1 })
  -- the default case
  ask :
      (n : ℕ)
      → p.at_head ≡ suc n
      → p.cancelled ≡ false
      → Step workers p (record p { at_head = n; receiving = p.receiving + 1 })
  -- a batch of messages; each gets a goroutine
  receive :
      (n : ℕ) (msgs : List Message)
      → p.receiving ≡ suc n
      → length msgs ≤ max_messages
      → Step workers p
          (record p { receiving = n; at_head = p.at_head + 1; handling = msgs ++ p.handling })
  -- an error with ctx.Err() != nil, and one without
  fail_stop :
      (n : ℕ)
      → p.receiving ≡ suc n
      → p.cancelled ≡ true
      → Step workers p (record p { receiving = n; returning = p.returning + 1 })
  fail :
      (n : ℕ)
      → p.receiving ≡ suc n
      → Step workers p (record p { receiving = n; backing_off = p.backing_off + 1 })
  -- time.After, and ctx.Done() in the wait
  retry :
      (n : ℕ)
      → p.backing_off ≡ suc n
      → Step workers p (record p { backing_off = n; at_head = p.at_head + 1 })
  give_up :
      (n : ℕ)
      → p.backing_off ≡ suc n
      → p.cancelled ≡ true
      → Step workers p (record p { backing_off = n; returning = p.returning + 1 })
  -- done <- struct{}{} on a channel with room for `workers` values
  send :
      (n : ℕ)
      → p.returning ≡ suc n
      → p.done < workers
      → Step workers p (record p { returning = n; ended = p.ended + 1; done = p.done + 1 })
  -- <-done in the second loop of Start
  wait :
      (n : ℕ)
      → p.done ≡ suc n
      → p.waited < workers
      → Step workers p (record p { done = n; waited = p.waited + 1 })
  -- handleMessage returns; if it panics instead, the process ends and there is no step
  finish :
      (before : List Message) (m : Message) (after : List Message)
      → p.handling ≡ before ++ m ∷ after
      → Step workers p (record p { handling = before ++ after; handled = m ∷ p.handled })

pub data Reach (workers : ℕ) (p : Pollers) : Pollers → Type 0 where
  here : Reach workers p p
  next : {q r : Pollers} → Reach workers p q → Step workers q r → Reach workers p r

-- The second loop of Start is over.
abbrev pub Stopped : ℕ → Pollers → Type 0
Stopped workers p = p.waited ≡ workers
