-- ===== src/StateMachine/Tests.antt =====
-- Examples for the state machine: a door that is opened, closed and locked.
use lewis.Common.{
  ℕ, suc, ◌+◌, String, Bool, true, false, none, some, [], ◌∷◌, Result, ok, err, ◌≡◌, refl, inr, All,
  if◌then◌else◌, subst,
}
use lewis.Common.Dict.{Dict, string_eq, contains, ◌==◌}
use lewis.StateMachine.Defs.{
  Check, or_empty, handlers_of, Callable, single, absent, many, Event, on_entry, in_state, on_exit,
  EventTable, Machine, set_transition, set_handlers, transitions_from,
}
use lewis.StateMachine.Config.{Config, construct, blank}
use lewis.StateMachine.Config.Wiring.{IsWired, Known}
use lewis.StateMachine.Cycle.{callables, System, do_process}
use lewis.StateMachine.Cycle.Reach.{at, Enters, do_process-Enters}
use lewis.StateMachine.Cycle.Total.{Returns, Decides, IsQuiet, In, do_process-returns}
use lewis.StateMachine.States.{nothing, state_of, instance_of, condition}

-- The world counts the cycles in the state "open".
abbrev door : Config ℕ ℕ
door = record {
  initial = some "closed";
  states = ("open", instance_of (state_of nothing (λ dt w. w + dt) nothing)) ∷ [];
  transitions = condition "closed" "open" (λ w. true) ∷ condition "open" "locked" (λ w. false) ∷ [];
}

abbrev door_machine : Machine ℕ ℕ
unfolding construct set_transition set_handlers
door_machine = machine_of (construct door 0)
  where
    machine_of : Result (Machine ℕ ℕ) × ℕ → Machine ℕ ℕ
    machine_of (ok m, w) = m
    machine_of (err e, w) = blank "closed"

door_constructed : construct door 0 ≡ (ok door_machine, 0)
unfolding construct set_transition set_handlers door_machine
door_constructed = refl

abbrev closed : System ℕ ℕ
closed = record { machine = at (some "closed") door_machine; world = 0 }

abbrev fresh : System ℕ ℕ
fresh = record { machine = door_machine; world = 0 }

opened : (do_process 0 1 closed).1.machine.state ≡ some "open"
unfolding do_process door_machine
opened = refl

do_process-Enters_example :
    Enters (transitions_from "closed" closed.machine) closed.machine (do_process 0 1 closed)
do_process-Enters_example = do_process-Enters 0 1 closed "closed" refl

fresh_state : fresh.machine.state ≡ none
unfolding door_machine
fresh_state = refl

-- A machine that returns to its only state in every cycle, and counts.
abbrev counting : EventTable ℕ ℕ
counting = record { entry = single counted; during = absent; exit = many (counted ∷ []) }
  where
    counted : Callable ℕ ℕ
    counted step w = (ok tt, suc w)

abbrev back : Dict String (Check ℕ)
back = ("a", λ w. (ok true, w)) ∷ []

abbrev lone : Machine ℕ ℕ
lone = record {
  state = some "a";
  initial = "a";
  handler = ("a", counting) ∷ [];
  transition = ("a", back) ∷ [];
}

table_is :
    (b : Bool) (table : EventTable ℕ ℕ)
    → (if b then some counting else none) ≡ some table
    → counting ≡ table
table_is true table e = cc
table_is false table e = absurd cc

counting-Returns : (event : Event) → All Returns (callables (handlers_of event counting))
counting-Returns on_entry = ((λ dt w. (suc w, refl)), tt)
counting-Returns in_state = tt
counting-Returns on_exit = ((λ dt w. (suc w, refl)), tt)

lone-Decides : (b : Bool) → All Decides (or_empty (if b then some back else none))
lone-Decides true = ((λ w. (true, w, refl)), tt)
lone-Decides false = tt

lone-IsQuiet : IsQuiet lone
unfolding transitions_from
lone-IsQuiet = record {
  handlers_return = λ state table event e.
      subst (λ t. All Returns (callables (handlers_of event t))) (table_is ("a" == state) table e)
        (counting-Returns event);
  checks_decide = λ state. lone-Decides ("a" == state);
}

lone_targets :
    (b : Bool) (to : String)
    → contains to (or_empty (if b then some back else none)) ≡ true
    → Known lone to
lone_targets true to e = e
lone_targets false to e = absurd cc

lone-IsWired : IsWired lone
unfolding transitions_from
lone-IsWired = record {
  initial_known = refl;
  sources_known = λ from e. e;
  targets_known = λ from to e. lone_targets ("a" == from) to e;
}

abbrev lone_system : System ℕ ℕ
lone_system = record { machine = lone; world = 0 }

do_process-returns_example :
    (s' : System ℕ ℕ) × (do_process 0 1 lone_system ≡ (ok tt, s'))
    × ((state : String) × In s'.machine state)
    × IsWired s'.machine
    × IsQuiet s'.machine
do_process-returns_example =
    do_process-returns 0 1 lone_system lone-IsWired lone-IsQuiet (inr ("a", (refl, refl)))
