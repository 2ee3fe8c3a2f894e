-- ===== src/Julabo/Tests.antt =====
-- Examples for the Julabo.
use lewis.Common.{ℕ, List, [], ◌∷◌, err, limit_violation, value_error, ◌≡◌, refl}
use lewis.Common.Int.{ℤ, pos}
use lewis.Core.Integers.{integers}
use lewis.Core.Digits.{digits_value}
use lewis.Core.Limits.{check_limits}
use lewis.Julabo.Device.{new_device, set_point_command, i_internal, command}
use lewis.Julabo.Limited.{IsLimited, command-IsLimited}

-- With integers a tenth is 0 and 99.9 is 99.
new_device-IsLimited : IsLimited integers (new_device integers)
unfolding new_device
new_device-IsLimited = (
  (refl, refl),
  (refl, refl),
  (refl, refl),
  (refl, refl),
  (refl, refl),
  (refl, refl),
  (refl, refl),
  refl,
)

-- A text of digits, as an integer.
abbrev read : List ℕ → ℤ
read text = pos (digits_value 0 text)

-- A set point of 101 is too hot, and is ignored.
command-IsLimited_example :
    IsLimited integers
      (command integers read (set_point_command (49 ∷ 48 ∷ 49 ∷ [])) (new_device integers)).1
command-IsLimited_example =
    command-IsLimited integers read (set_point_command (49 ∷ 48 ∷ 49 ∷ [])) (new_device integers)
      new_device-IsLimited

too_low_test :
    (command integers read (i_internal (50 ∷ [])) (new_device integers)).0 ≡ err limit_violation
unfolding command new_device check_limits
too_low_test = refl

-- "OUT_PAR_07 " with no digits matches the pattern, and int raises.
empty_test : (command integers read (i_internal []) (new_device integers)).0 ≡ err value_error
unfolding command new_device
empty_test = refl
