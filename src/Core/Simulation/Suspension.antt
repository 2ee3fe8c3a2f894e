-- ===== src/Core/Simulation/Suspension.antt =====
-- Pausing, resuming and stopping a simulation.
use lewis.Common.{
  Bool, true, false, List, [], ◌∷◌, Result, ok, err, runtime_error, pure, continue, ◌>>◌,
  if◌then◌else◌, not, ◌||◌, ◌≡◌, refl, sym, ap, subst,
}
use lewis.Core.Number.{Number}
use lewis.Core.Simulation.{
  Driven, Simulation, on_device, process_simulation_cycle, pause, resume, command_stop, stop,
  answered, Turn, end_loop, loop,
}

module _ (n : Number) {D : Type 0} (driven : Driven n D) where
  -- Pausing a running simulation is granted; from then on cycles leave the simulation and the
  -- device alone, however many there are, and resuming brings back the state from before.
  pub pause-suspends :
      (delta : n.R) (s : Simulation n D)
      → s.running ≡ true
      → s.started ≡ true
      → (paused : Simulation n D) × (pause n driven s ≡ (ok tt, paused))
        × (process_simulation_cycle n driven delta paused ≡ (ok tt, paused))
        × (resume n driven paused ≡ (ok tt, s))
  unfolding pause resume process_simulation_cycle
  pause-suspends delta s e e' = (
    paused,
    subst (λ b. (if not b then refused s else (ok tt, paused)) ≡ (ok tt, paused)) (sym e) refl,
    refl,
    subst
        (λ b.
          (if not b || false then refused paused else (ok tt, record s { running = true }))
          ≡ (ok tt, s))
        (sym e') (ap (λ b. granted (record s { running = b })) (sym e)),
  )
    where
      paused : Simulation n D
      paused = record s { running = false }

      refused : Simulation n D → Result (Unit {0}) × Simulation n D
      refused s = (err runtime_error, s)

      granted : Simulation n D → Result (Unit {0}) × Simulation n D
      granted s = (ok tt, s)

  abbrev Ends : Simulation n D → Result Bool × Simulation n D → Type 0
  Ends s r = r ≡ (ok true, end_loop n driven s)

  loop_stopped :
      (delta : n.R) (turns : List (Turn n driven)) (s : Simulation n D)
      → s.stop_commanded ≡ true
      → loop n driven delta turns s ≡ (ok true, end_loop n driven s)
  unfolding loop
  loop_stopped delta [] s e =
      subst (λ b. Ends s (ok b, if b then end_loop n driven s else s)) (sym e) refl
  loop_stopped delta (turn ∷ turns) s e =
      subst
        (λ b. Ends s (
          if b
          then (ok true, end_loop n driven s)
          else continue (λ _. loop n driven turn.elapsed turns)
              (process_simulation_cycle n driven delta (answered n driven turn.requests s))))
        (sym e) refl

  -- Once a started simulation is told to stop, its loop ends before the next cycle: adapters are
  -- disconnected, the device is not processed again, however many turns there would be, and the
  -- simulation is neither running nor started.
  pub stop-ends_loop :
      (delta : n.R) (turns : List (Turn n driven)) (s : Simulation n D)
      → s.started ≡ true
      → (final : Simulation n D) × (loop n driven delta turns (stop n driven s).1
          ≡ (ok true, final))
        × (final.device ≡ (driven.disconnect s.device).1)
        × (final.cycles ≡ s.cycles)
        × (final.running ≡ false)
        × (final.started ≡ false)
  unfolding stop loop
  stop-ends_loop delta turns s e = (
    end_loop n driven stopped,
    subst
        (λ b.
          loop n driven delta turns
            ((if b
                then (command_stop n driven >> on_device n driven driven.disconnect)
                else pure tt)
              s).1
          ≡ (ok true, end_loop n driven stopped))
        (sym e) (loop_stopped delta turns stopped refl),
    refl,
    refl,
    refl,
    refl,
  )
    where
      stopped : Simulation n D
      stopped = record s { stop_commanded = true; device = (driven.disconnect s.device).1 }
