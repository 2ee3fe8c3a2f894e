-- ===== src/Chopper/Tests.antt =====
-- Examples for the chopper.
use lewis.Common.{true, false, some, ◌≡◌, refl}
use lewis.Common.Int.{pos}
use lewis.Core.Integers.{integers}
use lewis.StateMachine.Defs.{set_transition, set_handlers}
use lewis.Chopper.Device.{Chopper, initialize_data}
use lewis.Chopper.Commands.{Interface, execute_command}
use lewis.Chopper.Allowed.{Allowed, execute_command-Allowed}
use lewis.Chopper.Idle.{new_bearings, device_in, cycle, idle_start-returns_to_idle}

abbrev new_chopper : Chopper integers
unfolding new_bearings initialize_data
new_chopper = initialize_data integers (new_bearings integers)

abbrev at_stopped : Interface integers
unfolding device_in new_chopper
at_stopped = record {
  device = device_in integers (some "stopped") (record new_chopper { target_speed = pos 10 });
  last_command = "";
}

start_test : (execute_command integers "start" at_stopped).1.device.world.start_commanded ≡ true
unfolding execute_command at_stopped set_transition set_handlers
start_test = refl

execute_command-Allowed_example :
    Allowed integers at_stopped.device (execute_command integers "start" at_stopped).1.device
execute_command-Allowed_example = execute_command-Allowed integers "start" at_stopped

idle_start-returns_to_idle_example :
    let commanded = record new_chopper {
      start_commanded = true;
      idle_commanded = true;
      stop_commanded = false;
    } in
    let first = cycle integers (pos 1) (device_in integers (some "idle") commanded) in
    let second = cycle integers (pos 2) first.1 in
    (first.1.machine.state ≡ some "accelerating")
    × (second.1.machine.state ≡ some "idle")
    × (second.1.world.start_commanded ≡ false)
    × (second.1.world.idle_commanded ≡ true)
idle_start-returns_to_idle_example = idle_start-returns_to_idle integers (pos 1) (pos 2) new_chopper
