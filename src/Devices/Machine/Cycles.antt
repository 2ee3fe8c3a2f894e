-- ===== src/Devices/Machine/Cycles.antt =====
-- A device of lewis/devices/__init__.py runs its cycles once it is constructed.
use lewis.Common.{
  String, none, some, Result, ok, err, Exec, continue, ◌>>=◌, ◌>>◌, ◌≡◌, refl, subst, Bool-cases,
  inl, inr,
}
use lewis.Common.Dict.{string_eq, Dict, contains}
use lewis.StateMachine.Defs.{Machine}
use lewis.StateMachine.Config.{Config, HandlerSpec, construct}
use lewis.StateMachine.Config.Wiring.{IsWired, construct-IsWired}
use lewis.StateMachine.Config.Fresh.{construct-state}
use lewis.StateMachine.Cycle.{System, do_process}
use lewis.StateMachine.Cycle.Total.{IsQuiet, In, do_process-returns}
use lewis.Devices.Machine.{
  pair_eq, DeviceClass, Overrides, overridden, override_data, initial_state, with_initial, init,
}

module _ {W T : Type 0} where
  -- Where a machine is returned, it is wired and has not begun.
  abbrev IsReady : Result (Machine W T) × W → Type 0
  IsReady (ok m, w) = IsWired m × (m.state ≡ none)
  IsReady (err x, w) = Unit

  construct-IsReady : (cfg : Config W T) (w : W) → IsReady (construct cfg w)
  construct-IsReady cfg w = go (construct cfg w) refl
    where
      go : (r : Result (Machine W T) × W) → construct cfg w ≡ r → IsReady r
      go (ok m, w') e = (construct-IsWired cfg w e, construct-state cfg w e)
      go (err x, w') e = tt

  continue-IsReady :
      {A : Type 0} (f : A → Exec W (Machine W T)) (r : Result A × W)
      → ((a : A) (w : W) → IsReady (f a w))
      → IsReady (continue f r)
  continue-IsReady f (ok a, w) h = h a w
  continue-IsReady f (err x, w) h = tt

module _ {W T V : Type 0} (c : DeviceClass W T V) where
  with_initial-IsReady :
      (o : Overrides W T V) (states : Dict String (HandlerSpec W T)) (initial : String) (w : W)
      → IsReady (with_initial c o states initial w)
  with_initial-IsReady o states initial w = elim (Bool-cases (contains initial states)) [
    | inl known ↦ rw known (
        continue-IsReady _ ((c.get_transition_handlers >>= overridden o.transitions) w)
          (λ transitions v.
            construct-IsReady
              (record { initial = some initial; states = states; transitions = transitions }) v))
    | inr unknown ↦ rw unknown tt
  ]

  init-IsReady : (o : Overrides W T V) (w : W) → IsReady (init c o w)
  unfolding init
  init-IsReady o w =
      continue-IsReady _ ((c.initialize_data >> override_data c o.initial_data) w) (λ _ v.
        continue-IsReady _ ((c.get_state_handlers >>= overridden o.states) v) (λ states u.
          continue-IsReady _ (initial_state c o.initial_state u)
            (λ initial t. with_initial-IsReady o states initial t)))

  -- A device that its constructor returns has a wired state machine, whichever of its states,
  -- transitions, data and initial state are overridden, and whatever its handlers do.
  pub init-IsWired :
      (o : Overrides W T V) (w : W) {m : Machine W T} {w' : W} → init c o w ≡ (ok m, w') → IsWired m
  init-IsWired o w h = (subst IsReady h (init-IsReady o w)).0

  -- The first cycle of a device that its constructor returns, none of whose handlers and conditions
  -- raises, returns and leaves it in a state with handlers, from where the next cycle can begin.
  pub init-do_process :
      (o : Overrides W T V) (w : W) {m : Machine W T} {w' : W}
      → init c o w ≡ (ok m, w')
      → IsQuiet m
      → (zero_step dt : T)
      → (s' : System W T) × (do_process zero_step dt (record { machine = m; world = w' })
          ≡ (ok tt, s'))
        × ((state : String) × In s'.machine state)
        × IsWired s'.machine
        × IsQuiet s'.machine
  init-do_process o w {m} {w'} h quiet zero_step dt =
      let (wired, fresh) = subst IsReady h (init-IsReady o w) in
      do_process-returns zero_step dt (record { machine = m; world = w' }) wired quiet (inl fresh)
