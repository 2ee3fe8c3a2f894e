-- ===== src/StateMachine/Cycle.antt =====
-- `doProcess` and `_raise_event` of `StateMachine` (lewis/core/statemachine.py).
pub mod Total
pub mod Reach
use lewis.Common.{
  String, Bool, true, false, Option, none, some, List, [], ◌∷◌, Exn, Result, ok, err, type_error,
  key_error, Exec, pure, raise, lift, ◌>>=◌, ◌>>◌, if◌then◌else◌,
}
use lewis.Common.Dict.{Dict, get, string_eq}
use lewis.StateMachine.Defs.{
  Event, on_entry, in_state, on_exit, Callable, Check, Handlers, absent, single, many, EventTable,
  Machine, handlers_of, transitions_from,
}

-- The machine and what its handlers work on.
pub record System (W T : Type 0) : Type 0 where
  pub machine : Machine W T
  pub world : W

module _ {W T : Type 0} where
  abbrev pub on_world : {A : Type 0} → Exec W A → Exec (System W T) A
  on_world m s = let (r, w) = m s.world in (r, record s { world = w })

  -- `try: handler(dt) except TypeError: handler()`
  abbrev pub without_step : Callable W T → Result (Unit {0}) × W → Result (Unit {0}) × W
  without_step h (err Exn.type_error, w) = h none w
  without_step h r = r

  unfoldable pub call : Callable W T → T → Exec W (Unit {0})
  call h dt w = without_step h (h (some dt) w)

  unfoldable pub call_all : List (Callable W T) → T → Exec W (Unit {0})
  unfolding call
  call_all [] dt = pure tt
  call_all (h ∷ hs) dt = call h dt >> call_all hs dt

  abbrev pub callables : Handlers W T → List (Callable W T)
  callables absent = []
  callables (single h) = h ∷ []
  callables (many hs) = hs

  abbrev pub found_table : Option (EventTable W T) → Result (EventTable W T)
  found_table none = err key_error
  found_table (some t) = ok t

  abbrev pub table_for : Option String → Machine W T → Result (EventTable W T)
  table_for none m = err key_error
  table_for (some state) m = found_table (get state m.handler)

  -- `_raise_event`
  unfoldable pub raise_event : Event → T → Exec (System W T) (Unit {0})
  unfolding call_all
  raise_event event dt s =
      (do
        table ← lift (table_for s.machine.state s.machine)
        on_world (call_all (callables (handlers_of event table)) dt))
        s

  unfoldable pub enter : String → Exec (System W T) (Unit {0})
  enter state s = (ok tt, record s { machine = record s.machine { state = some state } })

  -- The loop over the transitions of the current state.
  unfoldable pub take_transition : Dict String (Check W) → T → Exec (System W T) (Unit {0})
  unfolding raise_event enter
  take_transition [] dt = pure tt
  take_transition ((target, check) ∷ rest) dt = do
    let others = take_transition rest dt
    holds ← on_world check
    if holds then (raise_event on_exit dt >> enter target >> raise_event on_entry dt) else others

  abbrev pub from_state : Option String → T → T → Exec (System W T) (Unit {0})
  from_state none zero_step dt s =
      (enter s.machine.initial >> raise_event on_entry zero_step >> raise_event in_state zero_step)
        s
  from_state (some state) zero_step dt s =
      (take_transition (transitions_from state s.machine) dt >> raise_event in_state dt) s

  -- `doProcess`; `zero_step` is the 0 that the first cycle passes.
  unfoldable pub do_process : T → T → Exec (System W T) (Unit {0})
  unfolding take_transition transitions_from
  do_process zero_step dt s = from_state s.machine.state zero_step dt s
