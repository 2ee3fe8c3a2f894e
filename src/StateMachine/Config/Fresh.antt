-- ===== src/StateMachine/Config/Fresh.antt =====
-- The constructor of `StateMachine` (lewis/core/statemachine.py) enters no state.
use lewis.Common.{
  String, Option, none, some, List, [], ◌∷◌, Result, ok, err, ◌≡◌, refl, subst, Bool-cases, inl,
  inr, continue,
}
use lewis.Common.Dict.{Dict, contains, string_eq}
use lewis.StateMachine.Defs.{Machine, set_handlers, set_transition}
use lewis.StateMachine.Config.{
  HandlerSpec, CheckSpec, Config, table_of, parsed_table, setup_states, setup_transitions, mention,
  blank, construct_from, construct, callable_check, give_context,
}

module _ {W T : Type 0} where
  -- Where a machine is returned, it has not begun.
  abbrev Idle : Result (Machine W T) × W → Type 0
  Idle (ok m, w) = m.state ≡ none
  Idle (err e, w) = Unit

  continue-Idle :
      {A : Type 0} (next : A → W → Result (Machine W T) × W) (r : Result A) (w : W)
      → ((a : A) (w : W) → Idle (next a w))
      → Idle (continue next (r, w))
  continue-Idle next (ok a) w h = h a w
  continue-Idle next (err e) w h = tt

  mention-state : (state : String) (m : Machine W T) → (mention state m).state ≡ m.state
  unfolding set_handlers
  mention-state state m = elim (Bool-cases (contains state m.handler)) [
    | inl old ↦ rw old refl
    | inr new ↦ rw new refl
  ]

  setup_states-Idle :
      (states : Dict String (HandlerSpec W T)) (m : Machine W T) (w : W)
      → m.state ≡ none
      → Idle (setup_states states m w)
  unfolding setup_states set_handlers
  setup_states-Idle [] m w h = h
  setup_states-Idle ((name, spec) ∷ rest) m w h =
      continue-Idle (λ table. setup_states rest (set_handlers name table m))
        (parsed_table (table_of spec.shape)) (give_context spec.set_context w)
        (λ table v. setup_states-Idle rest (set_handlers name table m) v h)

  setup_transitions-Idle :
      (transitions : List ((String × String) × CheckSpec W)) (m : Machine W T) (w : W)
      → m.state ≡ none
      → Idle (setup_transitions transitions m w)
  unfolding setup_transitions set_transition
  setup_transitions-Idle [] m w h = h
  setup_transitions-Idle (((from, to), spec) ∷ rest) m w h =
      continue-Idle
        (λ check.
          setup_transitions rest (set_transition from to check (mention to (mention from m))))
        (callable_check spec.callable) (give_context spec.set_context w)
        (λ check v.
          setup_transitions-Idle rest (set_transition from to check (mention to (mention from m))) v
            (rw (mention-state to (mention from m)) (rw (mention-state from m) h)))

  construct_from-Idle :
      (cfg : Config W T) (initial : Option String) (w : W) → Idle (construct_from cfg initial w)
  unfolding set_handlers
  construct_from-Idle cfg none w = tt
  construct_from-Idle cfg (some initial) w =
      go (setup_states cfg.states (blank initial) w)
        (setup_states-Idle cfg.states (blank initial) w refl)
    where
      go :
          (r : Result (Machine W T) × W)
          → Idle r
          → Idle (continue (setup_transitions cfg.transitions) r)
      go (ok m, w) h = setup_transitions-Idle cfg.transitions m w h
      go (err e, w) h = tt

  pub construct-state :
      (cfg : Config W T) (w : W) {m : Machine W T} {w' : W}
      → construct cfg w ≡ (ok m, w')
      → m.state ≡ none
  unfolding construct
  construct-state cfg w h = subst Idle h (construct_from-Idle cfg cfg.initial w)
