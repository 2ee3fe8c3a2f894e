-- ===== src/Core/Simulation.antt =====
-- `Simulation` of lewis/core/simulation.py, without its logging and its control server's thread.
pub mod Control
pub mod Suspension
use lewis.Common.{
  ℕ, suc, Bool, true, false, Option, none, some, List, [], ◌∷◌, Exn, Result, ok, err, value_error,
  runtime_error, Exec, pure, raise, continue, ◌>>=◌, ◌>>◌, if◌then◌else◌, not, ◌||◌, ◌+◌,
}
use lewis.Common.Int.{ℤ, pos}
use lewis.Core.Number.{Number}

-- What the simulation drives, with its state: the device, and the adapters, whose code is not
-- modelled here.
pub record Driven (n : Number) (D : Type 0) : Type 0 where
  pub process : n.R → Exec D (Unit {0})
  pub connect : Exec D (Unit {0})
  pub disconnect : Exec D (Unit {0})

module _ (n : Number) (D : Type 0) where
  pub record Simulation : Type 0 where
    pub device : D
    pub speed : n.R
    pub cycle_delay : n.R
    pub cycles : ℕ
    pub runtime : n.R
    pub running : Bool
    pub started : Bool
    pub stop_commanded : Bool

module _ (n : Number) {D : Type 0} (driven : Driven n D) where
  abbrev pub zero_number : n.R
  zero_number = n.int_of (pos 0)

  -- `__init__`, where `one_tenth` is 0.1
  unfoldable pub new_simulation : D → n.R → Simulation n D
  new_simulation device one_tenth = record {
    device = device;
    speed = n.int_of (pos 1);
    cycle_delay = one_tenth;
    cycles = 0;
    runtime = zero_number;
    running = false;
    started = false;
    stop_commanded = false;
  }

  abbrev pub on_device : Exec D (Unit {0}) → Exec (Simulation n D) (Unit {0})
  on_device m s = let (r, d) = m s.device in (r, record s { device = d })

  abbrev pub count : n.R → Exec (Simulation n D) (Unit {0})
  count simulated s =
      (ok tt, record s { cycles = suc s.cycles; runtime = n.add s.runtime simulated })

  -- `_process_simulation_cycle`, after the sleep. The speed is read once.
  unfoldable pub process_simulation_cycle : n.R → Exec (Simulation n D) (Unit {0})
  process_simulation_cycle delta s =
      let simulated = n.mul delta s.speed in
      (if s.running then (on_device (driven.process simulated) >> count simulated) else pure tt) s

  -- The setter of `cycle_delay`
  unfoldable pub set_cycle_delay : n.R → Exec (Simulation n D) (Unit {0})
  set_cycle_delay delay s =
      if n.lt delay zero_number
      then (err value_error, s)
      else (ok tt, record s { cycle_delay = delay })

  -- The setter of `speed`
  unfoldable pub set_speed : n.R → Exec (Simulation n D) (Unit {0})
  set_speed new_speed s =
      if n.lt new_speed zero_number
      then (err value_error, s)
      else (ok tt, record s { speed = new_speed })

  unfoldable pub pause : Exec (Simulation n D) (Unit {0})
  pause s = if not s.running then (err runtime_error, s) else (ok tt, record s { running = false })

  unfoldable pub resume : Exec (Simulation n D) (Unit {0})
  resume s =
      if not s.started || s.running
      then (err runtime_error, s)
      else (ok tt, record s { running = true })

  abbrev pub command_stop : Exec (Simulation n D) (Unit {0})
  command_stop s = (ok tt, record s { stop_commanded = true })

  unfoldable pub stop : Exec (Simulation n D) (Unit {0})
  stop s = (if s.started then (command_stop >> on_device driven.disconnect) else pure tt) s

  -- What clients ask of a simulation while it runs.
  pub data Request : Type 0 where
    pause_request resume_request stop_request : Request
    speed_request delay_request : n.R → Request

  unfoldable pub request : Request → Exec (Simulation n D) (Unit {0})
  unfolding pause resume stop set_speed set_cycle_delay
  request pause_request = pause
  request resume_request = resume
  request stop_request = stop
  request (speed_request v) = set_speed v
  request (delay_request v) = set_cycle_delay v

  -- A request that raises goes back to its client, and the simulation goes on.
  abbrev pub answered : List Request → Simulation n D → Simulation n D
  answered [] s = s
  answered (q ∷ qs) s = answered qs (request q s).1

  -- One turn of the loop: the requests that are served before the cycle ends, while it sleeps, and
  -- the time that the cycle is measured to take.
  pub record Turn : Type 0 where
    pub requests : List Request
    pub elapsed : n.R

  abbrev pub end_loop : Simulation n D → Simulation n D
  end_loop s = record s { running = false; started = false }

  -- The loop of `start` over the turns that there are; the Boolean tells whether it has ended.
  unfoldable pub loop : n.R → List Turn → Exec (Simulation n D) Bool
  unfolding process_simulation_cycle request
  loop delta [] s = (ok s.stop_commanded, if s.stop_commanded then end_loop s else s)
  loop delta (turn ∷ turns) s =
      let next = loop turn.elapsed turns in
      if s.stop_commanded
      then (ok true, end_loop s)
      else continue (λ _. next) (process_simulation_cycle delta (answered turn.requests s))

  -- `start`
  unfoldable pub start : List Turn → Exec (Simulation n D) Bool
  unfolding loop
  start turns s =
      continue (λ _. loop zero_number turns)
        (on_device driven.connect
          (record s { running = true; started = true; stop_commanded = false }))
