-- ===== src/Chopper/Device.antt =====
-- `SimulatedBearings` and `SimulatedChopper` (lewis/devices/chopper/devices/device.py) and the
-- chopper's states (states.py).
use lewis.Common.{
  ℕ, String, Bool, true, false, Option, none, some, [], ◌∷◌, Result, not, ◌&&◌, if◌then◌else◌,
}
use lewis.Common.Dict.{string_eq, ◌==◌}
use lewis.Common.Int.{pos}
use lewis.Core.Number.{Number, same}
use lewis.Core.Approaches.{linear}
use lewis.StateMachine.Defs.{Callable, single}
use lewis.StateMachine.Config.{Config, by_name}
use lewis.StateMachine.Cycle.{System, do_process}
use lewis.StateMachine.States.{nothing, state_of, instance_of, condition}

module _ (n : Number) where
  abbrev pub lit : ℕ → n.R
  lit k = n.int_of (pos k)

  -- The machine of the bearings reads `_levitate` only.
  abbrev pub Bearings : Type 0
  Bearings = System Bool n.R

  -- `SimulatedBearings.__init__`; `levitationComplete` and `delevitationComplete` are always true.
  unfoldable pub bearings_config : Config Bool n.R
  bearings_config = record {
    initial = some "resting";
    states = [];
    transitions =
        condition "resting" "levitating" (λ levitate. levitate)
        ∷ condition "levitating" "levitated" (λ _. true)
        ∷ condition "levitated" "delevitating" (λ levitate. not levitate)
        ∷ condition "delevitating" "resting" (λ _. true)
        ∷ [];
  }

  -- `engage`, which is `levitate`
  unfoldable pub engage : Bearings → Bearings
  engage b = record b { world = true }

  -- `disengage`, which is `delevitate`
  unfoldable pub disengage : Bearings → Bearings
  disengage b = record b { world = false }

  -- `self._csm.state == name`
  abbrev pub in_state_named : Option String → String → Bool
  in_state_named none name = false
  in_state_named (some state) name = state == name

  abbrev pub ready : Bearings → Bool
  ready b = in_state_named b.machine.state "levitated" && b.world

  abbrev pub bearings_idle : Bearings → Bool
  bearings_idle b = in_state_named b.machine.state "resting" && not b.world

  pub record Chopper : Type 0 where
    pub speed : n.R
    pub target_speed : n.R
    pub phase : n.R
    pub target_phase : n.R
    pub parking_position : n.R
    pub target_parking_position : n.R
    pub auto_park : Bool
    pub park_commanded : Bool
    pub stop_commanded : Bool
    pub start_commanded : Bool
    pub idle_commanded : Bool
    pub phase_commanded : Bool
    pub shutdown_commanded : Bool
    pub initialized : Bool
    pub bearings : Bearings

  -- `_initialize_data`; the bearings that exist are kept.
  unfoldable pub initialize_data : Bearings → Chopper
  initialize_data b = record {
    speed = lit 0;
    target_speed = lit 0;
    phase = lit 0;
    target_phase = lit 0;
    parking_position = lit 0;
    target_parking_position = lit 0;
    auto_park = false;
    park_commanded = false;
    stop_commanded = false;
    start_commanded = false;
    idle_commanded = false;
    phase_commanded = false;
    shutdown_commanded = false;
    initialized = false;
    bearings = b;
  }

  -- `DefaultInitState.on_entry`
  unfoldable pub init_entry : n.R → Chopper → Chopper
  unfolding initialize_data
  init_entry dt c = initialize_data c.bearings

  -- The bearings as a handler: `__call__(dt=0)` of `CanProcess` is `process`, then `doProcess`.
  abbrev pub with_bearings : Chopper → Result (Unit {0}) × Bearings → Result (Unit {0}) × Chopper
  with_bearings c (r, b) = (r, record c { bearings = b })

  abbrev step_of : Option n.R → n.R
  step_of none = lit 0
  step_of (some dt) = dt

  unfoldable pub process_bearings : Callable Chopper n.R
  unfolding do_process
  process_bearings step c = with_bearings c (do_process (lit 0) (step_of step) c.bearings)

  -- `DefaultParkingState`, with its default parking speed
  unfoldable pub parking_during : n.R → Chopper → Chopper
  parking_during dt c = record c {
    parking_position = linear n c.parking_position c.target_parking_position (lit 5) dt;
  }

  unfoldable pub parking_entry : n.R → Chopper → Chopper
  parking_entry dt c = record c { park_commanded = false }

  -- `DefaultStoppingState`
  unfoldable pub stopping_during : n.R → Chopper → Chopper
  stopping_during dt c = record c { speed = linear n c.speed (lit 0) (lit 5) dt }

  unfoldable pub stopping_entry : n.R → Chopper → Chopper
  stopping_entry dt c = record c { stop_commanded = false }

  -- `DefaultStoppedState.on_entry`
  unfoldable pub stopped_entry : n.R → Chopper → Chopper
  stopped_entry dt c = if c.auto_park then record c { park_commanded = true } else c

  -- `DefaultIdleState.in_state`. The `on_entry` that follows the class is a function of the module,
  -- not a method, so that the state has the `on_entry` of `State`.
  unfoldable pub idle_during : n.R → Chopper → Chopper
  idle_during dt c = record c {
    speed = linear n c.speed c.target_speed (n.div (lit 5) (lit 100)) dt;
  }

  -- `DefaultAcceleratingState`
  unfoldable pub accelerating_during : n.R → Chopper → Chopper
  accelerating_during dt c = record c { speed = linear n c.speed c.target_speed (lit 5) dt }

  unfoldable pub accelerating_entry : n.R → Chopper → Chopper
  accelerating_entry dt c = record c { start_commanded = false }

  -- `DefaultPhaseLockingState`
  unfoldable pub phase_locking_during : n.R → Chopper → Chopper
  phase_locking_during dt c = record c { phase = linear n c.phase c.target_phase (lit 5) dt }

  unfoldable pub phase_locking_entry : n.R → Chopper → Chopper
  phase_locking_entry dt c = record c { phase_commanded = false }

  -- `_get_state_handlers`, `_get_initial_state` and `_get_transition_handlers`
  unfoldable pub chopper : Config Chopper n.R
  unfolding init_entry process_bearings parking_during parking_entry stopping_during stopping_entry
      stopped_entry idle_during accelerating_during accelerating_entry phase_locking_during
      phase_locking_entry
  chopper = record {
    initial = some "init";
    states =
        ("init", instance_of (state_of init_entry nothing nothing))
        ∷ (
          "bearings",
          record {
            set_context = none;
            shape = by_name (("in_state", single process_bearings) ∷ []);
          },
        )
        ∷ ("stopped", instance_of (state_of stopped_entry nothing nothing))
        ∷ ("stopping", instance_of (state_of stopping_entry stopping_during nothing))
        ∷ ("accelerating", instance_of (state_of accelerating_entry accelerating_during nothing))
        ∷ ("phase_locking", instance_of (state_of phase_locking_entry phase_locking_during nothing))
        ∷ ("phase_locked", instance_of (state_of nothing nothing nothing))
        ∷ ("idle", instance_of (state_of nothing idle_during nothing))
        ∷ ("parking", instance_of (state_of parking_entry parking_during nothing))
        ∷ ("parked", instance_of (state_of nothing nothing nothing))
        ∷ [];
    transitions =
        condition "init" "bearings" (λ c. c.initialized)
        ∷ condition "bearings" "stopped" (λ c. ready c.bearings)
        ∷ condition "bearings" "init" (λ c. bearings_idle c.bearings)
        ∷ condition "parking" "parked" (λ c. same n c.parking_position c.target_parking_position)
        ∷ condition "parking" "stopping" (λ c. c.stop_commanded)
        ∷ condition "parked" "stopping" (λ c. c.stop_commanded)
        ∷ condition "parked" "accelerating" (λ c. c.start_commanded)
        ∷ condition "stopped" "accelerating" (λ c. c.start_commanded)
        ∷ condition "stopped" "parking" (λ c. c.park_commanded)
        ∷ condition "stopped" "bearings" (λ c. c.shutdown_commanded)
        ∷ condition "accelerating" "stopping" (λ c. c.stop_commanded)
        ∷ condition "accelerating" "idle" (λ c. c.idle_commanded)
        ∷ condition "accelerating" "phase_locking" (λ c. same n c.speed c.target_speed)
        ∷ condition "idle" "accelerating" (λ c. c.start_commanded)
        ∷ condition "idle" "stopping" (λ c. c.stop_commanded)
        ∷ condition "phase_locking" "stopping" (λ c. c.stop_commanded)
        ∷ condition "phase_locking" "phase_locked" (λ c. same n c.phase c.target_phase)
        ∷ condition "phase_locking" "idle" (λ c. c.idle_commanded)
        ∷ condition "phase_locked" "accelerating" (λ c. c.start_commanded)
        ∷ condition "phase_locked" "phase_locking" (λ c. c.phase_commanded)
        ∷ condition "phase_locked" "stopping" (λ c. c.stop_commanded)
        ∷ condition "phase_locked" "idle" (λ c. c.idle_commanded)
        ∷ condition "stopping" "accelerating" (λ c. c.start_commanded)
        ∷ condition "stopping" "stopped" (λ c. same n c.speed (lit 0))
        ∷ condition "stopping" "idle" (λ c. c.idle_commanded)
        ∷ [];
  }
