-- ===== src/StateMachine/Config.antt =====
-- The constructor of `StateMachine` (lewis/core/statemachine.py).
pub mod Wiring
pub mod Fresh
use text.Mathlib.Text.{◌==◌ as str_eq}
use Prim.Native.String.{◌++◌ as append_text}
use lewis.Common.{
  ℕ, String, Bool, true, false, Option, none, some, List, [], ◌∷◌, ◌++◌, Exn, Result, ok, err,
  state_machine_exception, Exec, pure, raise, lift, ◌>>=◌, ◌>>◌, if◌then◌else◌, ◌||◌,
}
use lewis.Common.Dict.{Dict, get, contains, insert, string_eq}
use lewis.StateMachine.Defs.{
  Event, on_entry, in_state, on_exit, Callable, Check, Handlers, absent, single, many, EventTable,
  Machine, no_handlers, set_handlers, set_transition,
}

pub record CheckSpec (W : Type 0) : Type 0 where
  pub set_context : Option (W → W)
  pub callable : Option (Check W)

module _ (W T : Type 0) where
  -- What a configuration may give for a state: an instance of `State`, keyword arguments, arguments
  -- in order, or something else. A key that is no event is accepted and ignored.
  pub data HandlerShape : Type 0 where
    state_object : EventTable W T → HandlerShape
    by_name : Dict String (Handlers W T) → HandlerShape
    by_position : List (Handlers W T) → HandlerShape
    other : HandlerShape

  -- `set_context` is what assigning the context does, for an instance of `HasContext`.
  pub record HandlerSpec : Type 0 where
    pub set_context : Option (W → W)
    pub shape : HandlerShape

  pub record Config : Type 0 where
    pub initial : Option String
    pub states : Dict String HandlerSpec
    pub transitions : List ((String × String) × CheckSpec W)

abbrev pub give_context : {W : Type 0} → Option (W → W) → W → W
give_context none w = w
give_context (some f) w = f w

-- `if not callable(transition_check): raise StateMachineException(…)`
abbrev pub callable_check : {C : Type 0} → Option C → Result C
callable_check none = err state_machine_exception
callable_check (some c) = ok c

module _ {W T : Type 0} where
  abbrev or_absent : Option (Handlers W T) → Handlers W T
  or_absent none = absent
  or_absent (some h) = h

  -- `_set_handlers(state_name, **handlers)`: the names of its own parameters cannot be given twice.
  abbrev table_by_name : Dict String (Handlers W T) → Result (EventTable W T)
  table_by_name d =
      if contains "state" d || contains "self" d
      then err Exn.type_error
      else ok (record {
        entry = or_absent (get "on_entry" d);
        during = or_absent (get "in_state" d);
        exit = or_absent (get "on_exit" d);
      })

  -- `_set_handlers(state_name, *handlers)`: what comes after the third is ignored.
  abbrev table_by_position : List (Handlers W T) → EventTable W T
  table_by_position [] = no_handlers
  table_by_position (a ∷ []) = record { entry = a; during = absent; exit = absent }
  table_by_position (a ∷ b ∷ []) = record { entry = a; during = b; exit = absent }
  table_by_position (a ∷ b ∷ c ∷ rest) = record { entry = a; during = b; exit = c }

  unfoldable pub table_of : HandlerShape W T → Result (EventTable W T)
  table_of (state_object t) = ok t
  table_of (by_name d) = table_by_name d
  table_of (by_position hs) = ok (table_by_position hs)
  table_of other = err Exn.runtime_error

  -- `except Exception: raise StateMachineException(…)`
  abbrev pub parsed_table : Result (EventTable W T) → Result (EventTable W T)
  parsed_table (ok t) = ok t
  parsed_table (err e) = err state_machine_exception

  -- `_setup_state_handlers`
  unfoldable pub setup_states : Dict String (HandlerSpec W T) → Machine W T → Exec W (Machine W T)
  setup_states [] m w = (ok m, w)
  setup_states ((name, spec) ∷ rest) m w =
      (do
        table ← lift (parsed_table (table_of spec.shape))
        setup_states rest (set_handlers name table m))
        (give_context spec.set_context w)

  -- "Set up default handlers if this state hasn't been mentioned before"
  abbrev pub mention : String → Machine W T → Machine W T
  mention state m = if contains state m.handler then m else set_handlers state no_handlers m

  -- `_setup_transition_handlers`
  unfoldable pub setup_transitions :
      List ((String × String) × CheckSpec W) → Machine W T → Exec W (Machine W T)
  setup_transitions [] m w = (ok m, w)
  setup_transitions (((from, to), spec) ∷ rest) m w =
      (do
        check ← lift (callable_check spec.callable)
        setup_transitions rest (set_transition from to check (mention to (mention from m))))
        (give_context spec.set_context w)

  abbrev pub blank : String → Machine W T
  blank initial =
      set_handlers initial no_handlers
        (record { state = none; initial = initial; handler = []; transition = [] })

  -- `StateMachine.__init__`
  abbrev pub construct_from : Config W T → Option String → Exec W (Machine W T)
  construct_from cfg none = raise state_machine_exception
  construct_from cfg (some initial) = do
    m ← setup_states cfg.states (blank initial)
    setup_transitions cfg.transitions m

  unfoldable pub construct : Config W T → Exec W (Machine W T)
  unfolding setup_states setup_transitions table_of
  construct cfg = construct_from cfg cfg.initial
