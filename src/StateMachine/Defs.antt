-- ===== src/StateMachine/Defs.antt =====
-- The data of `StateMachine` (lewis/core/statemachine.py) and the methods that change one entry.
-- `W` is all that handlers and conditions can see and change (the device, which is their context);
-- `T` is the type of time steps. Handlers and conditions do not call the machine itself.
use lewis.Common.{
  String, Bool, Option, none, some, List, [], ◌∷◌, ◌++◌, Result, ok, err, key_error, Exec,
}
use lewis.Common.Dict.{Dict, get, insert, delete, keys, member, ◌==◌, string_eq}

pub data Event : Type 0 where
  on_entry in_state on_exit : Event

-- The condition of a transition.
abbrev pub Check : Type 0 → Type 0
Check W = Exec W Bool

module _ (W T : Type 0) where
  -- A callable that may be given the time step.
  abbrev pub Callable : Type 0
  Callable = Option T → Exec W (Unit {0})

  -- What is stored for an event: None, a callable, or a list of callables.
  pub data Handlers : Type 0 where
    absent : Handlers
    single : Callable → Handlers
    many : List Callable → Handlers

  pub record EventTable : Type 0 where
    pub entry : Handlers
    pub during : Handlers
    pub exit : Handlers

  pub record Machine : Type 0 where
    pub state : Option String
    pub initial : String
    pub handler : Dict String EventTable
    pub transition : Dict String (Dict String (Check W))

abbrev pub or_empty : {V : Type 0} → Option (Dict String V) → Dict String V
or_empty none = []
or_empty (some d) = d

abbrev pub contains_target : {V : Type 0} → Option (Dict String V) → String → Result Bool
contains_target none to = err key_error
contains_target (some d) to = ok (member to (keys d))

module _ {W T : Type 0} where
  abbrev pub handlers_of : Event → EventTable W T → Handlers W T
  handlers_of on_entry t = t.entry
  handlers_of in_state t = t.during
  handlers_of on_exit t = t.exit

  abbrev pub no_handlers : EventTable W T
  no_handlers = record { entry = absent; during = absent; exit = absent }

  -- `_set_handlers`
  unfoldable pub set_handlers : String → EventTable W T → Machine W T → Machine W T
  set_handlers state table m = record m { handler = insert state table m.handler }

  -- `self._transition.get(state, [])`
  unfoldable pub transitions_from : String → Machine W T → Dict String (Check W)
  transitions_from state m = or_empty (get state m.transition)

  -- `_set_transition` with a callable condition: an earlier transition between the same states is
  -- removed, and the new one comes last.
  unfoldable pub set_transition : String → String → Check W → Machine W T → Machine W T
  unfolding transitions_from
  set_transition from to check m = record m {
    transition = insert from (delete to (transitions_from from m) ++ (to, check) ∷ []) m.transition;
  }

  unfoldable pub can_from : Machine W T → Option String → String → Result Bool
  can_from m none to = ok (to == m.initial)
  can_from m (some state) to = contains_target (get state m.transition) to

  -- `can`: a state with no outgoing transition has no entry in the dict, which raises KeyError.
  unfoldable pub can : Machine W T → String → Result Bool
  unfolding can_from
  can m to = can_from m m.state to

  -- `reset`
  unfoldable pub reset : Machine W T → Machine W T
  reset m = record m { state = none }
