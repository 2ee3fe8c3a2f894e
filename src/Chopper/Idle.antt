-- ===== src/Chopper/Idle.antt =====
-- The chopper's devices, and what follows when an idle chopper is started.
use lewis.Common.{String, true, false, Option, some, Result, ok, err, Exec, ◌≡◌, refl}
use lewis.Core.Number.{Number}
use lewis.StateMachine.Defs.{Machine, set_transition, set_handlers}
use lewis.StateMachine.Config.{construct, blank}
use lewis.StateMachine.Cycle.{do_process}
use lewis.Chopper.Device.{Chopper, Bearings, lit, bearings_config, chopper}
use lewis.Chopper.Commands.{Device}

-- The machine that a constructor returns; `initial` is its only state where it raises.
abbrev pub machine_of : {W T : Type 0} → String → Result (Machine W T) × W → Machine W T
machine_of initial (ok m, w) = m
machine_of initial (err e, w) = blank initial

module _ (n : Number) where
  unfoldable pub new_bearings : Bearings n
  unfolding construct bearings_config
  new_bearings = record {
    machine = machine_of "resting" (construct (bearings_config n) false);
    world = false;
  }

  -- The device, in a state and with data.
  unfoldable pub device_in : Option String → Chopper n → Device n
  unfolding construct chopper
  device_in state c = record {
    machine = record (machine_of "init" (construct (chopper n) c)) { state = state };
    world = c;
  }

  abbrev pub cycle : n.R → Exec (Device n) (Unit {0})
  cycle dt = do_process (lit n 0) dt

  -- When an idle chopper that was unlocked is started, it accelerates for one cycle and is idle
  -- again after the next, with the start command used up: the command to be idle is never reset.
  pub idle_start-returns_to_idle :
      (dt dt' : n.R) (c : Chopper n)
      → let commanded = record c {
        start_commanded = true;
        idle_commanded = true;
        stop_commanded = false;
      } in
        let first = cycle dt (device_in (some "idle") commanded) in
        let second = cycle dt' first.1 in
        (first.1.machine.state ≡ some "accelerating")
        × (second.1.machine.state ≡ some "idle")
        × (second.1.world.start_commanded ≡ false)
        × (second.1.world.idle_commanded ≡ true)
  unfolding device_in do_process set_transition set_handlers
  idle_start-returns_to_idle dt dt' c = (refl, refl, refl, refl)
