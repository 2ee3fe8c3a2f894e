-- ===== src/Linkam/Rate.antt =====
-- The rate of the Linkam T95 under commands.
use lewis.Common.{
  ℕ, ◌≤◌, String, Bool, true, false, Option, none, some, List, ◌≡◌, refl, sym, subst, leb→le,
  if◌then◌else◌, ◌&&◌, leb,
}
use lewis.Common.Int.{pos}
use lewis.Core.Number.{Number, ScaleLaws}
use lewis.Core.Limits.{both}
use lewis.Core.Digits.{digits_value}
use lewis.Linkam.Device.{Device, lit, over}
use lewis.Linkam.Interface.{
  index_of, speed_lookup, set_rate, set_limit, pump_command, set_target, Command, status_command,
  start_command, stop_command, hold_command, heat_command, cool_command, rate_command,
  limit_command, speed_command, command,
}
use lewis.Linkam.Safety.{IsSafe, command-IsSafe}

module _ (n : Number) where
  -- The rate is a number of hundredths that the command for it accepts, from 0.01 to 150.
  abbrev IsRated : n.R → Type 0
  IsRated rate = (k : ℕ) × (rate ≡ over n (lit n k) 100) × (1 ≤ k) × (k ≤ 15000)

  set_rate-IsRated :
      (param : List ℕ) (d : Device n)
      → IsRated d.temperature_rate
      → IsRated (set_rate n param d).1.temperature_rate
  unfolding set_rate
  set_rate-IsRated param d rated =
      go (leb 1 (digits_value 0 param) && leb (digits_value 0 param) 15000) refl
    where
      go :
          (b : Bool)
          → (leb 1 (digits_value 0 param) && leb (digits_value 0 param) 15000) ≡ b
          → IsRated (
              (if b
                then record d { temperature_rate = over n (lit n (digits_value 0 param)) 100 }
                else d).temperature_rate)
      go true e =
          let (low, high) = both _ _ e in
          (digits_value 0 param, refl, leb→le _ _ low, leb→le _ _ high)
      go false e = rated

  set_limit_rate :
      (param : List ℕ) (d : Device n)
      → (set_limit n param d).1.temperature_rate ≡ d.temperature_rate
  unfolding set_limit
  set_limit_rate param d = go _
    where
      go :
          (b : Bool)
          → (if b
              then record d {
                temperature_limit = over n (n.int_of (pos (digits_value 0 param))) 10;
              }
              else d).temperature_rate
            ≡ d.temperature_rate
      go true = refl
      go false = refl

  pump_command_rate :
      (param : List ℕ) (d : Device n)
      → (pump_command n param d).1.temperature_rate ≡ d.temperature_rate
  unfolding pump_command
  pump_command_rate param d = go _ _ (index_of param speed_lookup)
    where
      go :
          (b c : Bool) (o : Option ℕ)
          → (if b
              then record d { pump_manual_mode = false }
              else if c
              then record d { pump_manual_mode = true }
              else set_target n o d).temperature_rate
            ≡ d.temperature_rate
      go true c o = refl
      go false true o = refl
      go false false none = refl
      go false false (some i) = refl

  command-IsRated :
      (state : Option String) (c : Command n) (d : Device n)
      → IsRated d.temperature_rate
      → IsRated (command n state c d).1.temperature_rate
  unfolding command
  command-IsRated state status_command d r = r
  command-IsRated state start_command d r = r
  command-IsRated state stop_command d r = r
  command-IsRated state hold_command d r = r
  command-IsRated state heat_command d r = r
  command-IsRated state cool_command d r = r
  command-IsRated state (rate_command param) d r = set_rate-IsRated param d r
  command-IsRated state (limit_command param) d r = subst IsRated (sym (set_limit_rate param d)) r
  command-IsRated state (speed_command param) d r =
      subst IsRated (sym (pump_command_rate param d)) r

  -- The pump's speeds and the rate are in their range.
  pub record IsInRange (d : Device n) : Type 0 where
    pub safe : IsSafe n d
    pub rated : IsRated d.temperature_rate

  -- No command, whatever its parameter, takes the pump's speeds out of 0 to 30, or the rate out of
  -- the hundredths from 0.01 to 150 that it may be set to.
  pub command-IsInRange :
      ScaleLaws n
      → (state : Option String) (c : Command n) (d : Device n) → IsInRange d
      → IsInRange (command n state c d).1
  command-IsInRange laws state c d h = record {
    safe = command-IsSafe n laws state c d h.safe;
    rated = command-IsRated state c d h.rated;
  }
