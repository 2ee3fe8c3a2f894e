-- ===== src/Linkam/Tests.antt =====
-- Examples for the Linkam T95.
use lewis.Common.{
  ℕ, ◌-◌, ◌<◌, ◌≤◌, arith, none, some, List, [], ◌∷◌, ok, ◌≡◌, refl, length, drop, get_or, All,
}
use lewis.Common.Int.{pos, ◌*ℤ◌, ◌+ℤ◌}
use lewis.Core.Integers.{integers, integers-ScaleLaws}
use lewis.Linkam.Device.{
  Device, initialize_data, stopped_entry, started_entry, heat_during, cool_during, cool_exit,
}
use lewis.Linkam.Interface.{get_status, tenths, speed_command, rate_command, command}
use lewis.Linkam.Safety.{IsSafe, initial-IsSafe, states-IsSafe}
use lewis.Linkam.Rate.{IsInRange, command-IsInRange}
use lewis.Linkam.Status.{read_hex, get_status-reports}

-- "T" to a new device at 24 degrees: "00f0" is 240.
status_test :
    (get_status integers (some "cool") (initialize_data integers)).0
    ≡ ok (32 ∷ 128 ∷ 128 ∷ 128 ∷ 128 ∷ 128 ∷ 48 ∷ 48 ∷ 102 ∷ 48 ∷ [])
unfolding get_status initialize_data ◌*ℤ◌ ◌+ℤ◌
status_test = refl

-- "PN" is speed 30.
abbrev fast : Device integers
unfolding initialize_data command
fast = (command integers none (speed_command (78 ∷ [])) (initialize_data integers)).1

speed_test : fast.manual_target_speed ≡ 30
unfolding fast
speed_test = refl

-- "R1250" sets the rate to 12.5 in hundredths, where the device had 5.
new_device-IsInRange : IsInRange integers (initialize_data integers)
unfolding initialize_data
new_device-IsInRange = record {
  safe = initial-IsSafe integers integers-ScaleLaws;
  rated = (500, refl, at_least, at_most);
}
  where
    at_least : 1 ≤ 500
    at_least = omega arith

    at_most : 500 ≤ 15000
    at_most = omega arith

command-IsInRange_example :
    IsInRange integers
      (command integers none (rate_command (49 ∷ 50 ∷ 53 ∷ 48 ∷ [])) (initialize_data integers)).1
command-IsInRange_example =
    command-IsInRange integers integers-ScaleLaws none (rate_command (49 ∷ 50 ∷ 53 ∷ 48 ∷ []))
      (initialize_data integers) new_device-IsInRange

states-IsSafe_example :
    IsSafe integers (stopped_entry integers (pos 1) (initialize_data integers))
    × IsSafe integers (started_entry integers (pos 1) (initialize_data integers))
    × IsSafe integers (heat_during integers (pos 1) (initialize_data integers))
    × IsSafe integers (cool_during integers (pos 1) (initialize_data integers))
    × IsSafe integers (cool_exit integers (pos 1) (initialize_data integers))
states-IsSafe_example =
    states-IsSafe integers integers-ScaleLaws (pos 1) (initialize_data integers)
      (initial-IsSafe integers integers-ScaleLaws)

get_status-reports_example :
    (reply : List ℕ) × ((get_status integers (some "cool") (initialize_data integers)).0 ≡ ok reply)
    × (length reply ≡ 10)
    × All (λ b. b < 256) reply
    × (pos (get_or reply 2 0 - 128) ≡ (initialize_data integers).pump_speed)
    × (read_hex 0 (drop 6 reply) ≡ tenths integers (initialize_data integers).temperature)
get_status-reports_example =
    get_status-reports integers (some "cool") (initialize_data integers)
      (initial-IsSafe integers integers-ScaleLaws)
