-- ===== src/Linkam/Device.antt =====
-- `SimulatedLinkamT95` (lewis/devices/linkam_t95/devices/device.py) and its states (states.py). The
-- pump speed is assigned twice in one call, and kept as the integer that is assigned last.
use lewis.Common.{ℕ, Bool, false, some, [], ◌∷◌, ◌||◌, ◌&&◌, not, if◌then◌else◌}
use lewis.Common.Int.{ℤ, pos}
use lewis.Core.Number.{Number, gt, same}
use lewis.Core.Approaches.{linear}
use lewis.StateMachine.States.{nothing, state_of, instance_of, condition}
use lewis.StateMachine.Config.{Config}

module _ (n : Number) where
  -- An integer literal, and a quotient by one.
  abbrev pub lit : ℕ → n.R
  lit k = n.int_of (pos k)

  abbrev pub over : n.R → ℕ → n.R
  over x k = n.div x (lit k)

  pub record Device : Type 0 where
    pub serial_command_mode : Bool
    pub pump_overspeed : Bool
    pub start_commanded : Bool
    pub stop_commanded : Bool
    pub hold_commanded : Bool
    pub temperature_rate : n.R
    pub temperature_limit : n.R
    pub pump_speed : ℤ
    pub temperature : n.R
    pub pump_manual_mode : Bool
    pub manual_target_speed : ℕ

  -- `_initialize_data`
  unfoldable pub initialize_data : Device
  initialize_data = record {
    serial_command_mode = false;
    pump_overspeed = false;
    start_commanded = false;
    stop_commanded = false;
    hold_commanded = false;
    temperature_rate = lit 5;
    temperature_limit = lit 0;
    pump_speed = pos 0;
    temperature = lit 24;
    pump_manual_mode = false;
    manual_target_speed = 0;
  }

  -- `DefaultStoppedState.on_entry`
  unfoldable pub stopped_entry : n.R → Device → Device
  stopped_entry dt d = record d { stop_commanded = false }

  -- `DefaultStartedState.on_entry`
  unfoldable pub started_entry : n.R → Device → Device
  started_entry dt d = record d { start_commanded = false }

  -- `DefaultHeatState.in_state`
  unfoldable pub heat_during : n.R → Device → Device
  heat_during dt d = record d {
    temperature = linear n d.temperature d.temperature_limit (over d.temperature_rate 60) dt;
  }

  abbrev pub requested_speed : Device → n.R
  requested_speed d =
      if d.pump_manual_mode
      then lit d.manual_target_speed
      else n.mul (lit 30) (over d.temperature_rate 50)

  -- `DefaultCoolState.in_state`
  unfoldable pub cool_during : n.R → Device → Device
  cool_during dt d =
      let raw = requested_speed d in
      let fast = gt n raw (lit 30) in
      record d {
        pump_speed = if fast then pos 30 else n.truncate raw;
        pump_overspeed = fast;
        temperature = linear n d.temperature d.temperature_limit (over d.temperature_rate 60) dt;
      }

  -- `DefaultCoolState.on_exit`
  unfoldable pub cool_exit : n.R → Device → Device
  cool_exit dt d = record d { pump_overspeed = false; pump_speed = pos 0 }

  abbrev pub colder : Device → Bool
  colder d = n.lt d.temperature d.temperature_limit

  abbrev pub warmer : Device → Bool
  warmer d = gt n d.temperature d.temperature_limit

  abbrev pub reached : Device → Bool
  reached d = same n d.temperature d.temperature_limit

  -- `_get_state_handlers`, `_get_initial_state` and `_get_transition_handlers`
  unfoldable pub linkam : Config Device n.R
  unfolding stopped_entry started_entry heat_during cool_during cool_exit
  linkam = record {
    initial = some "init";
    states =
        ("init", instance_of (state_of nothing nothing nothing))
        ∷ ("stopped", instance_of (state_of stopped_entry nothing nothing))
        ∷ ("started", instance_of (state_of started_entry nothing nothing))
        ∷ ("heat", instance_of (state_of nothing heat_during nothing))
        ∷ ("hold", instance_of (state_of nothing nothing nothing))
        ∷ ("cool", instance_of (state_of nothing cool_during cool_exit))
        ∷ [];
    transitions =
        condition "init" "stopped" (λ d. d.serial_command_mode)
        ∷ condition "stopped" "started" (λ d. d.start_commanded)
        ∷ condition "started" "stopped" (λ d. d.stop_commanded)
        ∷ condition "started" "heat" colder
        ∷ condition "started" "hold" reached
        ∷ condition "started" "cool" warmer
        ∷ condition "heat" "hold" (λ d. reached d || d.hold_commanded)
        ∷ condition "heat" "cool" warmer
        ∷ condition "heat" "stopped" (λ d. d.stop_commanded)
        ∷ condition "hold" "heat" (λ d. colder d && not d.hold_commanded)
        ∷ condition "hold" "cool" (λ d. warmer d && not d.hold_commanded)
        ∷ condition "hold" "stopped" (λ d. d.stop_commanded)
        ∷ condition "cool" "heat" colder
        ∷ condition "cool" "hold" (λ d. reached d || d.hold_commanded)
        ∷ condition "cool" "stopped" (λ d. d.stop_commanded)
        ∷ [];
  }
