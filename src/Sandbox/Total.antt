-- ===== src/Sandbox/Total.antt =====
-- sandbox.Run always returns, and does no more than read the clock and start one process.
use code_sandbox.Prelude.{Bool-cases, inl, inr, bytes_eq, []}
use code_sandbox.Host.{Host, Event, clock_read, process_ran}
use code_sandbox.Host.Runs.{Runs, Runs-pure, Runs-bind, Runs-clock, Runs-command}
use code_sandbox.Sandbox.{RunSpec, process_of, launch, run}

module _ {P : Event → Type 0} (host : Host) (spec : RunSpec) where
  launch-Runs :
      P clock_read → P (process_ran (process_of spec)) → Runs P (λ r. Unit) (launch host spec)
  unfolding launch
  launch-Runs c p = Runs-bind (Runs-clock host c) λ start _.
      Runs-bind (Runs-command host (process_of spec) p)
        λ cmd _. Runs-bind (Runs-clock host c) λ now _. Runs-pure _ tt

  pub run-Runs :
      P clock_read → P (process_ran (process_of spec)) → Runs P (λ r. Unit) (run host spec)
  unfolding run
  run-Runs c p = elim (Bool-cases (bytes_eq spec.nsjail_path [])) [
    | inl e ↦ rw e (Runs-pure _ tt)
    | inr e ↦ elim (Bool-cases (bytes_eq spec.command [])) [
      | inl e' ↦ rw (e, e') (Runs-pure _ tt)
      | inr e' ↦ rw (e, e') (launch-Runs c p)
    ]
  ]
