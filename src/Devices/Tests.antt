-- ===== src/Devices/Tests.antt =====
-- Examples for the discovery of devices and for devices with a state machine.
use lewis.Common.{
  ℕ, ◌+◌, String, Bool, true, false, if◌then◌else◌, Option, none, some, [], ◌∷◌, All, Result, ok,
  err, lewis_exception, runtime_error, Exec, subst, ◌==◌ as same, ◌≡◌, refl,
}
use lewis.Common.Dict.{Dict, string_eq, ◌==◌}
use lewis.StateMachine.Defs.{
  Machine, set_transition, set_handlers, transitions_from, EventTable, absent, single, Event,
  on_entry, in_state, on_exit, handlers_of,
}
use lewis.StateMachine.Cycle.{System, do_process, callables}
use lewis.StateMachine.Cycle.Total.{IsQuiet, In, Returns}
use lewis.StateMachine.Config.{HandlerSpec, construct, blank, state_object}
use lewis.StateMachine.Config.Wiring.{IsWired}
use lewis.StateMachine.States.{nothing, state_of, instance_of, condition}
use lewis.Core.Limits.{dict_strict_update}
use lewis.Devices.Builder.{
  Setup, DeviceModule, Builder, build, create_device, discover_setups, discover_interfaces,
  discovered_interfaces, discover_devices,
}
use lewis.Devices.Builder.Discovery.{Finds, discover_interfaces-Finds}
use lewis.Devices.Machine.{pair_eq, DeviceClass, Overrides, init, override_each}
use lewis.Common.Int.{pos}
use lewis.Core.Integers.{integers}
use lewis.Core.Simulation.{Simulation}
use lewis.Adapters.Collection.{Collection}
use lewis.Devices.Setups.{InterfaceBase, interface_base, Slot, Parts, set_device, switch_setup}
use lewis.Devices.Setups.Rebound.{Switched, switch_setup-Switched}
use lewis.Devices.Machine.Cycles.{init-IsWired, init-do_process}

-- A module with a device type and two interfaces, named by their protocols.
abbrev motor : DeviceModule String String ℕ
motor = record {
  device_members = "Motor" ∷ [];
  devices_package = none;
  setups_package = some (("fast", record { device_type = none; parameters = some 3 }) ∷ []);
  interface_members = "stream" ∷ [];
  interfaces_package = some (("epics" ∷ []) ∷ []);
}

discover_interfaces-Finds_example :
    Finds (λ p. p) (discovered_interfaces motor) (discover_interfaces (λ p. p) motor)
discover_interfaces-Finds_example = discover_interfaces-Finds (λ p. p) motor

abbrev build_motor : Result (Builder String String String ℕ) × Dict String (Setup String ℕ)
build_motor = build (λ p. p) 0 motor []

abbrev created : Result (Builder String String String ℕ) → Option String → Result (String × ℕ)
created (err x) setup = err x
created (ok b) setup = create_device b 0 (λ t p. ok (t, p)) setup

fast_test : created build_motor.0 (some "fast") ≡ ok ("Motor", 3)
unfolding build discover_setups discover_interfaces discover_devices discovered_interfaces
    create_device
fast_test = refl

default_test : created build_motor.0 none ≡ ok ("Motor", 0)
unfolding build discover_setups discover_interfaces discover_devices discovered_interfaces
    create_device
default_test = refl

missing_test : created build_motor.0 (some "slow") ≡ err lewis_exception
unfolding build discover_setups discover_interfaces discover_devices discovered_interfaces
    create_device
missing_test = refl

-- The world is the position.
abbrev Handled : Type 0
Handled = HandlerSpec ℕ ℕ

abbrev motor_class : DeviceClass ℕ ℕ ℕ
motor_class = record {
  initialize_data = λ w. (ok tt, 0);
  get_state_handlers = λ w. (
    ok (
        ("idle", instance_of (state_of nothing nothing nothing))
        ∷ ("moving", instance_of (state_of nothing (λ dt p. p + dt) nothing))
        ∷ []),
    w,
  );
  get_initial_state = λ w. (ok "idle", w);
  get_transition_handlers = λ w. (ok (condition "idle" "moving" (λ p. true) ∷ []), w);
  attributes = λ w. "position" ∷ [];
  setattr = λ name v w. (ok tt, v);
}

abbrev in_motion : Overrides ℕ ℕ ℕ
in_motion = record {
  states = none;
  transitions = some (condition "idle" "moving" (λ p. false) ∷ []);
  initial_state = some "moving";
  initial_data = some (("position", 5) ∷ []);
}

abbrev moving_machine : Machine ℕ ℕ
moving_machine = machine_of (init motor_class in_motion 1)
  where
    machine_of : Result (Machine ℕ ℕ) × ℕ → Machine ℕ ℕ
    machine_of (ok m, w) = m
    machine_of (err e, w) = blank "failed"

moving_test : moving_machine.initial ≡ "moving"
unfolding init construct set_transition set_handlers dict_strict_update override_each
moving_test = refl

moving_constructed : init motor_class in_motion 1 ≡ (ok moving_machine, 5)
unfolding init construct set_transition set_handlers dict_strict_update override_each
moving_constructed = refl

-- A device with a single state that counts.
abbrev counting : EventTable ℕ ℕ
counting = record { entry = absent; during = single (λ dt w. (ok tt, w + 1)); exit = absent }

abbrev counter_class : DeviceClass ℕ ℕ ℕ
counter_class = record motor_class {
  get_state_handlers =
      λ w. (ok (("a", record { set_context = none; shape = state_object counting }) ∷ []), w);
  get_initial_state = λ w. (ok "a", w);
  get_transition_handlers = λ w. (ok [], w);
}

abbrev no_overrides : Overrides ℕ ℕ ℕ
no_overrides = record {
  states = none;
  transitions = none;
  initial_state = none;
  initial_data = none;
}

abbrev counter : Machine ℕ ℕ
counter = record { state = none; initial = "a"; handler = ("a", counting) ∷ []; transition = [] }

counter_constructed : init counter_class no_overrides 1 ≡ (ok counter, 0)
unfolding init construct set_transition set_handlers dict_strict_update override_each
counter_constructed = refl

table_is :
    (b : Bool) (table : EventTable ℕ ℕ)
    → (if b then some counting else none) ≡ some table
    → counting ≡ table
table_is true table e = cc
table_is false table e = absurd cc

counting-Returns : (event : Event) → All Returns (callables (handlers_of event counting))
counting-Returns on_entry = tt
counting-Returns in_state = ((λ dt w. (w + 1, refl)), tt)
counting-Returns on_exit = tt

counter-IsQuiet : IsQuiet counter
unfolding transitions_from
counter-IsQuiet = record {
  handlers_return = λ state table event e.
      subst (λ t. All Returns (callables (handlers_of event t))) (table_is ("a" == state) table e)
        (counting-Returns event);
  checks_decide = λ state. tt;
}

-- A device whose initial state is overridden, with a wired machine.
init-IsWired_example : IsWired moving_machine
init-IsWired_example = init-IsWired motor_class in_motion 1 moving_constructed

init-do_process_example :
    (s' : System ℕ ℕ) × (do_process 0 1 (record { machine = counter; world = 0 }) ≡ (ok tt, s'))
    × ((state : String) × In s'.machine state)
    × IsWired s'.machine
    × IsQuiet s'.machine
init-do_process_example =
    init-do_process counter_class no_overrides 1 counter_constructed counter-IsQuiet 0 1

-- Devices are numbers, and binding device 7 raises in every interface.
abbrev own : Slot (InterfaceBase ℕ ℕ × String) ℕ ℕ
own = record { interface = λ a. a.0; with_interface = λ i a. (i, a.1) }

abbrev bind_commands : ℕ → Exec ℕ (Unit {0})
bind_commands new b = (if same new 7 then err runtime_error else ok tt, new)

abbrev create_numbered : Option String → Result ℕ
create_numbered none = err lewis_exception
create_numbered (some name) = if name == "seven" then ok 7 else err lewis_exception

abbrev two_adapters : Collection String (InterfaceBase ℕ ℕ × String)
two_adapters = record {
  adapters = ("a", 0) ∷ ("b", 1) ∷ [];
  threads = [];
  store = λ i. (interface_base 0, if same i 0 then "a" else "b");
}

abbrev simulated : Simulation integers (Parts String (InterfaceBase ℕ ℕ × String) ℕ)
simulated = record {
  device = record { device = 5; adapters = two_adapters };
  speed = pos 1;
  cycle_delay = pos 0;
  cycles = 0;
  runtime = pos 0;
  running = true;
  started = true;
  stop_commanded = false;
}

abbrev switched :
    String → Result (Unit {0}) × Simulation integers (Parts String (InterfaceBase ℕ ℕ × String) ℕ)
switched setup = switch_setup own bind_commands (some create_numbered) (some setup) simulated

-- The adapter "a" refers to the new device, and "b" to none, when binding raises.
half_switched_test :
    ((switched "seven").0 ≡ err runtime_error)
    × ((switched "seven").1.device.device ≡ 7)
    × (((switched "seven").1.device.adapters.store 0).0.device ≡ some 7)
    × (((switched "seven").1.device.adapters.store 1).0.device ≡ none)
unfolding switch_setup set_device
half_switched_test = (refl, refl, refl, refl)

switch_setup-Switched_example :
    Switched own bind_commands
      (create_numbered (some "seven"))
      (switched "seven").0
      simulated
      (switched "seven").1
switch_setup-Switched_example =
    switch_setup-Switched own bind_commands (λ i a. refl) create_numbered (some "seven") simulated
      (refl, (refl, tt))
