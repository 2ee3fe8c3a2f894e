-- ===== src/Chopper/Levitation.antt =====
-- A chopper comes up when its bearings levitate (lewis/devices/chopper/devices/device.py).
use lewis.Common.{
  ℕ, zero, suc, String, Bool, true, false, Option, none, some, Result, ok, Exec, pure, ◌>>◌, ◌≡◌,
  ltb, ◌||◌, ◌==◌, if◌then◌else◌,
}
use lewis.Core.Number.{Number}
use lewis.Chopper.Device.{Chopper, Bearings, ready}
use lewis.Chopper.Commands.{Device, initialize}
use lewis.Chopper.Idle.{new_bearings, device_in, cycle}

-- Where the machine of the bearings is; it is nowhere before it is first processed.
pub data Phase : Type 0 where
  unprocessed resting levitating levitated delevitating : Phase

abbrev pub phase_state : Phase → Option String
phase_state unprocessed = none
phase_state resting = some "resting"
phase_state levitating = some "levitating"
phase_state levitated = some "levitated"
phase_state delevitating = some "delevitating"

-- How many cycles the chopper takes from its state "init".
abbrev pub cycles_from : Phase → ℕ
cycles_from unprocessed = 4
cycles_from resting = 3
cycles_from levitating = 2
cycles_from levitated = 2
cycles_from delevitating = 4

-- The state of the chopper after `k` cycles.
abbrev pub stage : Phase → ℕ → String
stage p k = if k == 0 then "init" else if ltb k (cycles_from p) then "bearings" else "stopped"

abbrev UpTo : (ℕ → Type 0) → ℕ → Type 0
UpTo P zero = P 0
UpTo P (suc m) = UpTo P m × P (suc m)

module _ (n : Number) where
  unfoldable pub bearings_in : Phase → Bool → Bearings n
  unfolding new_bearings
  bearings_in p levitate = record {
    machine = record (new_bearings n).machine { state = phase_state p };
    world = levitate;
  }

  abbrev pub cycles : (ℕ → n.R) → ℕ → Exec (Device n) (Unit {0})
  cycles dt zero = pure tt
  cycles dt (suc k) = cycles dt k >> cycle n (dt k)

  abbrev pub initialized_run :
      Chopper n → Phase → Bool → (ℕ → n.R) → ℕ → Result (Unit {0}) × Device n
  initialized_run old p levitate dt k = (initialize n >> cycles dt k) (
      device_in n (some "init")
        (record old { initialized = false; bearings = bearings_in p levitate }))

  -- What a run of `k` cycles ends with: the chopper is where `stage` says, and has stopped with
  -- bearings that are ready.
  abbrev pub Reached : Chopper n → Phase → Bool → (ℕ → n.R) → ℕ → Type 0
  Reached old p levitate dt k =
      let (r, after) = initialized_run old p levitate dt k in
      (r ≡ ok tt)
      × (after.machine.state ≡ some (stage p k))
      × ((ltb k (cycles_from p) || ready n after.world.bearings) ≡ true)
