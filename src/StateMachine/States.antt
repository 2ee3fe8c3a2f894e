-- ===== src/StateMachine/States.antt =====
-- `State` of lewis/core/statemachine.py, and how devices give states and conditions to a machine.
use lewis.Common.{String, Bool, none, some, ok, err, type_error}
use lewis.StateMachine.Defs.{Callable, Check, single, EventTable}
use lewis.StateMachine.Config.{CheckSpec, HandlerSpec, state_object}

-- A method of a state that takes the time step.
abbrev pub stepped : {W T : Type 0} → (T → W → W) → Callable W T
stepped f none w = (err type_error, w)
stepped f (some dt) w = (ok tt, f dt w)

-- A condition that reads the device.
abbrev pub reads : {W : Type 0} → (W → Bool) → Check W
reads f w = (ok (f w), w)

-- `State`: every event has a method, which does nothing where a state does not define it.
abbrev pub nothing : {W T : Type 0} → T → W → W
nothing dt w = w

abbrev pub state_of : {W T : Type 0} → (entry during exit : T → W → W) → EventTable W T
state_of entry during exit = record {
  entry = single (stepped entry);
  during = single (stepped during);
  exit = single (stepped exit);
}

-- A state instance gets its context when the machine is built; the device itself does not change.
abbrev pub instance_of : {W T : Type 0} → EventTable W T → HandlerSpec W T
instance_of t = record { set_context = some (λ w. w); shape = state_object t }

abbrev pub condition :
    {W : Type 0} → (from to : String) → (W → Bool) → (String × String) × CheckSpec W
condition from to f = ((from, to), record { set_context = none; callable = some (reads f) })
