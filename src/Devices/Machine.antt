-- ===== src/Devices/Machine.antt =====
-- `StateMachineDevice` of lewis/devices/__init__.py: how a device with its overrides becomes a state
-- machine. The device is the world `W`; its handlers are those of StateMachine.Config.
pub mod Cycles
use lewis.Common.{
  String, Bool, true, Option, none, some, List, [], ◌∷◌, Result, ok, err, runtime_error,
  attribute_error, Exec, pure, raise, lift, continue, ◌>>=◌, ◌>>◌, if◌then◌else◌, ◌&&◌, ◌↔◌, ◌≡◌,
  refl, subst, Bool-cases, inl, inr,
}
use lewis.Common.Dict.{Keyed, string_eq, Dict, contains, member, ◌==◌, beq_refl}
use lewis.Core.Limits.{dict_strict_update, both}
use lewis.StateMachine.Defs.{Machine}
use lewis.StateMachine.Config.{Config, HandlerSpec, CheckSpec, construct}

abbrev pub pair_test : String × String → String × String → Bool
pair_test (a, b) (c, d) = (a == c) && (b == d)

pair_test_eq : (p q : String × String) → pair_test p q ≡ true → p ≡ q
pair_test_eq (a, b) (c, d) h =
    let (first, second) = both (a == c) (b == d) h in
    rw ((string_eq.key_iff a c).0 first) (rw ((string_eq.key_iff b d).0 second) refl)

pair_test_refl : (p : String × String) → pair_test p p ≡ true
pair_test_refl (a, b) = rw (beq_refl a) (beq_refl b)

pub pair_test_iff : (p q : String × String) → (pair_test p q ≡ true) ↔ (p ≡ q)
pair_test_iff p q = (pair_test_eq p q, λ e. rw e (pair_test_refl q))

-- Transitions are keyed by the two states.
instance abbrev pub pair_eq : Keyed (String × String)
pair_eq = record { key_test = pair_test; key_iff = pair_test_iff }

-- What a subclass defines: the methods that it overrides, and its attributes.
pub record DeviceClass (W T V : Type 0) : Type 0 where
  pub initialize_data : Exec W (Unit {0})
  pub get_state_handlers : Exec W (Dict String (HandlerSpec W T))
  pub get_initial_state : Exec W String
  pub get_transition_handlers : Exec W (Dict (String × String) (CheckSpec W))
  -- `dir(self)`
  pub attributes : W → List String
  pub setattr : String → V → Exec W (Unit {0})

-- The arguments of the constructor.
pub record Overrides (W T V : Type 0) : Type 0 where
  pub states : Option (Dict String (HandlerSpec W T))
  pub transitions : Option (Dict (String × String) (CheckSpec W))
  pub initial_state : Option String
  pub initial_data : Option (Dict String V)

abbrev pub given_result : {D : Type 0} → Result (Unit {0}) × D → Result D
given_result (ok u, d) = ok d
given_result (err x, d) = err x

module _ {W K V : Type 0} ⦃e : Keyed K⦄ where
  -- `dict_strict_update(…, overrides)`, if there are any
  abbrev pub overridden : Option (Dict K V) → Dict K V → Exec W (Dict K V)
  overridden none d = pure d
  overridden (some overrides) d = lift (given_result (dict_strict_update overrides d))

module _ {W T V : Type 0} (c : DeviceClass W T V) where
  unfoldable pub override_each : Dict String V → Exec W (Unit {0})
  override_each [] w = (ok tt, w)
  override_each (i ∷ is) w =
      if member i.0 (c.attributes w)
      then (c.setattr i.0 i.1 >> override_each is) w
      else (err attribute_error, w)

  -- `_override_data`
  abbrev pub override_data : Option (Dict String V) → Exec W (Unit {0})
  override_data none = pure tt
  override_data (some is) = override_each is

  -- `override_initial_state or self._get_initial_state()`: an empty name is no override.
  abbrev pub initial_state : Option String → Exec W String
  initial_state none = c.get_initial_state
  initial_state (some name) = if name == "" then c.get_initial_state else pure name

  abbrev pub with_initial :
      Overrides W T V → Dict String (HandlerSpec W T) → String → Exec W (Machine W T)
  with_initial o states initial =
      if contains initial states
      then ((c.get_transition_handlers >>= overridden o.transitions) >>= (λ transitions.
          construct
            (record { initial = some initial; states = states; transitions = transitions })))
      else raise runtime_error

  -- `StateMachineDevice.__init__`, which gives the machine that the device then processes
  unfoldable pub init : Overrides W T V → Exec W (Machine W T)
  init o =
      (c.initialize_data >> override_data o.initial_data)
      >> ((c.get_state_handlers >>= overridden o.states)
          >>= (λ states. initial_state o.initial_state >>= with_initial o states))
