-- ===== src/Julabo/Device.antt =====
-- `SimulatedJulabo` (lewis/devices/julabo/devices/device.py), its states (states.py), and the
-- commands that change it. Every setter returns the empty string; an integer is among the numbers.
use lewis.Common.{
  ℕ, zero, suc, String, Bool, true, false, some, List, [], ◌∷◌, ok, err, value_error, Exec, not,
  ◌&&◌, if◌then◌else◌,
}
use lewis.Common.Int.{pos}
use lewis.Core.Number.{Number, le}
use lewis.Core.Digits.{digits_value}
use lewis.Core.Approaches.{linear}
use lewis.Core.Limits.{fixed, check_limits}
use lewis.StateMachine.Config.{Config}
use lewis.StateMachine.States.{nothing, state_of, instance_of, condition}

module _ (n : Number) where
  abbrev pub lit : ℕ → n.R
  lit k = n.int_of (pos k)

  -- A decimal literal with one digit after the point.
  abbrev pub tenth : ℕ → n.R
  tenth k = n.div (lit k) (lit 10)

  pub record Device : Type 0 where
    pub internal_p : n.R
    pub internal_i : n.R
    pub internal_d : n.R
    pub external_p : n.R
    pub external_i : n.R
    pub external_d : n.R
    pub temperature_low_limit : n.R
    pub temperature_high_limit : n.R
    pub set_point_temperature : n.R
    pub heating_power : n.R
    pub version : String
    pub status : String
    pub is_circulating : ℕ
    pub temperature : n.R
    pub external_temperature : n.R
    pub circulate_commanded : Bool
    pub temperature_ramp_rate : n.R

  -- The class attributes.
  unfoldable pub new_device : Device
  new_device = record {
    internal_p = tenth 1;
    internal_i = lit 3;
    internal_d = lit 0;
    external_p = tenth 1;
    external_i = lit 3;
    external_d = lit 0;
    temperature_low_limit = lit 0;
    temperature_high_limit = lit 100;
    set_point_temperature = lit 24;
    heating_power = lit 5;
    version = "JULABO FP50_MH Simulator, ISIS";
    status = "Hello from the simulated Julabo";
    is_circulating = 0;
    temperature = lit 24;
    external_temperature = lit 26;
    circulate_commanded = false;
    temperature_ramp_rate = lit 5;
  }

  -- `DefaultCirculatingState.in_state`
  unfoldable pub circulating_during : n.R → Device → Device
  circulating_during dt d = record d {
    temperature =
        linear n d.temperature d.set_point_temperature (n.div d.heating_power (lit 60)) dt;
  }

  -- `_get_state_handlers`, `_get_initial_state` and `_get_transition_handlers`
  unfoldable pub julabo : Config Device n.R
  unfolding circulating_during
  julabo = record {
    initial = some "not_circulate";
    states =
        ("circulate", instance_of (state_of nothing circulating_during nothing))
        ∷ ("not_circulate", instance_of (state_of nothing nothing nothing))
        ∷ [];
    transitions =
        condition "not_circulate" "circulate" (λ d. d.circulate_commanded)
        ∷ condition "circulate" "not_circulate" (λ d. not d.circulate_commanded)
        ∷ [];
  }

  abbrev pub assign : (n.R → Device → Device) → n.R → Exec Device (Unit {0})
  assign f param d = (ok tt, f param d)

  unfoldable pub set_set_point : n.R → Exec Device (Unit {0})
  set_set_point param d = (
    ok tt,
    if le n d.temperature_low_limit param && le n param d.temperature_high_limit
        then record d { set_point_temperature = param }
        else d,
  )

  -- `param` is 0 or 1, as the command's pattern requires; other integers are ignored.
  unfoldable pub set_circulating : ℕ → Exec Device (Unit {0})
  set_circulating zero d = (ok tt, record d { is_circulating = 0; circulate_commanded = false })
  set_circulating (suc zero) d =
      (ok tt, record d { is_circulating = 1; circulate_commanded = true })
  set_circulating (suc (suc k)) d = (ok tt, d)

  unfoldable pub set_internal_p : n.R → Exec Device (Unit {0})
  unfolding check_limits
  set_internal_p =
      check_limits n (fixed (tenth 1)) (fixed (tenth 999)) false
        (assign λ param d. record d { internal_p = param })

  unfoldable pub set_internal_i : n.R → Exec Device (Unit {0})
  unfolding check_limits
  set_internal_i =
      check_limits n (fixed (lit 3)) (fixed (lit 9999)) false
        (assign λ param d. record d { internal_i = param })

  unfoldable pub set_internal_d : n.R → Exec Device (Unit {0})
  unfolding check_limits
  set_internal_d =
      check_limits n (fixed (lit 0)) (fixed (lit 999)) false
        (assign λ param d. record d { internal_d = param })

  unfoldable pub set_external_p : n.R → Exec Device (Unit {0})
  unfolding check_limits
  set_external_p =
      check_limits n (fixed (tenth 1)) (fixed (tenth 999)) false
        (assign λ param d. record d { external_p = param })

  unfoldable pub set_external_i : n.R → Exec Device (Unit {0})
  unfolding check_limits
  set_external_i =
      check_limits n (fixed (lit 3)) (fixed (lit 9999)) false
        (assign λ param d. record d { external_i = param })

  unfoldable pub set_external_d : n.R → Exec Device (Unit {0})
  unfolding check_limits
  set_external_d =
      check_limits n (fixed (lit 0)) (fixed (lit 999)) false
        (assign λ param d. record d { external_d = param })

  -- The commands of the interface that change the device, with the text of the argument that the
  -- pattern lets through, and the mappings `int` and `float`.
  pub data Command : Type 0 where
    set_point_command p_internal i_internal d_internal p_external i_external d_external :
        List ℕ → Command
    circulating_command : List ℕ → Command

  -- `argument_mappings=(int,)`: the pattern ([0-9]*) also lets an empty text through.
  abbrev pub with_int : (ℕ → Exec Device (Unit {0})) → List ℕ → Exec Device (Unit {0})
  with_int f [] d = (err value_error, d)
  with_int f (c ∷ cs) d = f (digits_value 0 (c ∷ cs)) d

  -- The patterns for `float` ask for a digit, so that `float_of` does not raise.
  unfoldable pub command : (float_of : List ℕ → n.R) → Command → Exec Device (Unit {0})
  unfolding set_set_point set_circulating set_internal_p set_internal_i set_internal_d
      set_external_p set_external_i set_external_d
  command float_of (set_point_command text) = set_set_point (float_of text)
  command float_of (circulating_command text) = with_int set_circulating text
  command float_of (p_internal text) = set_internal_p (float_of text)
  command float_of (i_internal text) = with_int (λ k. set_internal_i (lit k)) text
  command float_of (d_internal text) = with_int (λ k. set_internal_d (lit k)) text
  command float_of (p_external text) = set_external_p (float_of text)
  command float_of (i_external text) = with_int (λ k. set_external_i (lit k)) text
  command float_of (d_external text) = with_int (λ k. set_external_d (lit k)) text
