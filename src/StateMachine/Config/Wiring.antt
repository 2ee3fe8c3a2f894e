-- ===== src/StateMachine/Config/Wiring.antt =====
-- Every state that a constructed machine can enter has handlers.
use lewis.Common.{
  String, true, Option, none, some, List, [], ◌∷◌, ◌++◌, Result, ok, err, ◌≡◌, subst, arith,
  if◌then◌else◌, Bool-cases, inl, inr, continue,
}
use lewis.Common.Dict.{
  Dict, contains, delete, string_eq, ◌==◌, get-insert, contains-insert, contains-append,
  contains-delete, beq_refl,
}
use text.Mathlib.TextEquality.{eq_iff}
use lewis.StateMachine.Defs.{
  Check, EventTable, Machine, no_handlers, set_handlers, set_transition, transitions_from,
}
use lewis.StateMachine.Config.{
  HandlerSpec, CheckSpec, Config, table_of, parsed_table, setup_states, setup_transitions, mention,
  blank, construct_from, construct, callable_check, give_context,
}

module _ {W T : Type 0} where
  -- A state has an entry among the handlers.
  abbrev pub Known : Machine W T → String → Type 0
  Known m state = contains state m.handler ≡ true

  pub record IsWired (m : Machine W T) : Type 0 where
    pub initial_known : Known m m.initial
    pub sources_known : (from : String) → contains from m.transition ≡ true → Known m from
    pub targets_known :
        (from to : String) → contains to (transitions_from from m) ≡ true → Known m to

  -- New handlers forget no state.
  set_handlers-Known :
      (state : String) (table : EventTable W T) (m : Machine W T) (j : String)
      → Known m j
      → Known (set_handlers state table m) j
  unfolding set_handlers
  set_handlers-Known state table m j h = ground (arith, contains-insert state j table m.handler)

  set_handlers_self :
      (state : String) (table : EventTable W T) (m : Machine W T)
      → Known (set_handlers state table m) state
  unfolding set_handlers
  set_handlers_self state table m = rw (contains-insert state state table m.handler, beq_refl state)

  set_handlers-IsWired :
      (state : String) (table : EventTable W T) {m : Machine W T}
      → IsWired m
      → IsWired (set_handlers state table m)
  unfolding set_handlers transitions_from
  set_handlers-IsWired state table {m} w = record {
    initial_known = set_handlers-Known state table m m.initial w.initial_known;
    sources_known = λ from h. set_handlers-Known state table m from (w.sources_known from h);
    targets_known = λ from to h. set_handlers-Known state table m to (w.targets_known from to h);
  }

  mention_self : (state : String) (m : Machine W T) → Known (mention state m) state
  mention_self state m = elim (Bool-cases (contains state m.handler)) [
    | inl old ↦ rw old old
    | inr new ↦ rw new (set_handlers_self state no_handlers m)
  ]

  mention-Known :
      (state : String) (m : Machine W T) (j : String) → Known m j → Known (mention state m) j
  mention-Known state m j h = elim (Bool-cases (contains state m.handler)) [
    | inl old ↦ rw old h
    | inr new ↦ rw new (set_handlers-Known state no_handlers m j h)
  ]

  mention-IsWired : (state : String) {m : Machine W T} → IsWired m → IsWired (mention state m)
  mention-IsWired state {m} w = elim (Bool-cases (contains state m.handler)) [
    | inl old ↦ rw old w
    | inr new ↦ rw new (set_handlers-IsWired state no_handlers w)
  ]

  -- The transitions that leave a state after one is set.
  pub transitions_from-set_transition :
      (from to : String) (check : Check W) (m : Machine W T) (state : String)
      → transitions_from state (set_transition from to check m) ≡ (
          if from == state
          then delete to (transitions_from from m) ++ (to, check) ∷ []
          else transitions_from state m)
  unfolding set_transition transitions_from
  transitions_from-set_transition from to check m state =
      rw
        (get-insert from state (delete to (transitions_from from m) ++ (to, check) ∷ [])
          m.transition)
        (elim (Bool-cases (from == state)) [ inl same ↦ rw same | inr other ↦ rw other ])

  Known-same : (m : Machine W T) (a b : String) → (a == b) ≡ true → Known m a → Known m b
  Known-same m a b e h = subst (Known m) ((eq_iff a b).0 e) h

  source-Known :
      (from to state : String) (check : Check W) {m : Machine W T}
      → IsWired m
      → Known m from
      → contains state (set_transition from to check m).transition ≡ true
      → Known m state
  unfolding set_transition
  source-Known from to state check {m} w hf h = elim (Bool-cases (from == state)) [
    | inl same ↦ Known-same m from state same hf
    | inr other ↦ w.sources_known state (
        rw other at (
          rw
            (contains-insert from state (delete to (transitions_from from m) ++ (to, check) ∷ [])
              m.transition)
            at h))
  ]

  target-Known :
      (from to state target : String) (check : Check W) {m : Machine W T}
      → IsWired m
      → Known m to
      → contains target (transitions_from state (set_transition from to check m)) ≡ true
      → Known m target
  target-Known from to state target check {m} w ht h = elim (Bool-cases (from == state)) [
    | inr other ↦
        w.targets_known state target
          (rw other at (rw (transitions_from-set_transition from to check m state) at h))
    | inl same ↦
        let kept = delete to (transitions_from from m) in
        let h' : contains target (kept ++ (to, check) ∷ []) ≡ true =
          rw same at (rw (transitions_from-set_transition from to check m state) at h) in
        elim (Bool-cases (contains target kept)) [
          | inl old ↦
              w.targets_known from target (contains-delete to target (transitions_from from m) old)
          | inr new ↦
              Known-same m to target
                (ground (arith, contains-append target kept ((to, check) ∷ []), h', new)) ht
        ]
  ]

  set_transition-IsWired :
      (from to : String) (check : Check W) {m : Machine W T}
      → IsWired m
      → Known m from
      → Known m to
      → IsWired (set_transition from to check m)
  set_transition-IsWired from to check {m} w hf ht = record {
    initial_known = unfold set_transition in w.initial_known;
    sources_known = λ state h. unfold set_transition in source-Known from to state check w hf h;
    targets_known =
        λ state target h. unfold set_transition in target-Known from to state target check w ht h;
  }

  -- What a step of the constructor returns is wired; it may also raise.
  abbrev Wires : Result (Machine W T) × W → Type 0
  Wires (ok m, w) = IsWired m
  Wires (err e, w) = Unit {0}

  abbrev unset : String → Machine W T
  unset initial = record { state = none; initial = initial; handler = []; transition = [] }

  blank-IsWired : (initial : String) → IsWired (blank initial)
  blank-IsWired initial = record {
    initial_known = unfold set_handlers in set_handlers_self initial no_handlers (unset initial);
    sources_known = λ from h. unfold set_handlers in cc h;
    targets_known = λ from to h. unfold set_handlers transitions_from in cc h;
  }

  setup_states-Wires :
      (states : Dict String (HandlerSpec W T)) {m : Machine W T} (w : W)
      → IsWired m
      → Wires (setup_states states m w)
  unfolding setup_states
  setup_states-Wires [] w h = h
  setup_states-Wires ((name, spec) ∷ rest) {m} w h =
      go (parsed_table (table_of spec.shape))
        λ table w. setup_states-Wires rest w (set_handlers-IsWired name table h)
    where
      go :
          (r : Result (EventTable W T))
          → ((table : EventTable W T) (w : W)
              → Wires (setup_states rest (set_handlers name table m) w))
          → Wires (
              continue
                (λ table. setup_states rest (set_handlers name table m))
                (r, give_context spec.set_context w))
      go (ok table) ih = ih table _
      go (err e) ih = tt

  setup_transitions-Wires :
      (transitions : List ((String × String) × CheckSpec W)) {m : Machine W T} (w : W)
      → IsWired m
      → Wires (setup_transitions transitions m w)
  unfolding setup_transitions
  setup_transitions-Wires [] w h = h
  setup_transitions-Wires (((from, to), spec) ∷ rest) {m} w h =
      go (callable_check spec.callable) λ check w. setup_transitions-Wires rest w (
        set_transition-IsWired from to check (mention-IsWired to (mention-IsWired from h))
          (mention-Known to (mention from m) from (mention_self from m))
          (mention_self to (mention from m)))
    where
      go :
          (r : Result (Check W))
          → ((check : Check W) (w : W)
              → Wires (
                  setup_transitions rest
                    (set_transition from to check (mention to (mention from m)))
                    w))
          → Wires (
              continue
                (λ check.
                  setup_transitions rest
                    (set_transition from to check (mention to (mention from m))))
                (r, give_context spec.set_context w))
      go (ok check) ih = ih check _
      go (err e) ih = tt

  construct_from-Wires :
      (cfg : Config W T) (initial : Option String) (w : W) → Wires (construct_from cfg initial w)
  construct_from-Wires cfg none w = tt
  construct_from-Wires cfg (some initial) w =
      go (setup_states cfg.states (blank initial) w)
        (setup_states-Wires cfg.states w (blank-IsWired initial))
    where
      go :
          (r : Result (Machine W T) × W)
          → Wires r
          → Wires (continue (setup_transitions cfg.transitions) r)
      go (ok m, w) h = setup_transitions-Wires cfg.transitions w h
      go (err e, w) h = tt

  -- In a machine that the constructor returns, the initial state and both ends of every transition
  -- have handlers.
  pub construct-IsWired :
      (cfg : Config W T) (w : W) {m : Machine W T} {w' : W}
      → construct cfg w ≡ (ok m, w')
      → IsWired m
  unfolding construct
  construct-IsWired cfg w h = subst Wires h (construct_from-Wires cfg cfg.initial w)
