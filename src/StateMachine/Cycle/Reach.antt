-- ===== src/StateMachine/Cycle/Reach.antt =====
-- How a cycle moves the machine from state to state.
use lewis.Common.{
  String, Bool, true, false, Option, none, some, [], ◌∷◌, Result, ok, err, ◌≡◌, refl, ap, sym, ◌∙◌,
  arith, if◌then◌else◌, ◌⊎◌, inl, inr, Exec, ◌>>◌, continue, lift, subst,
}
use lewis.Common.Dict.{Dict, get, contains, string_eq, beq_refl, member-keys}
use lewis.StateMachine.Defs.{
  Event, on_entry, in_state, on_exit, Check, Machine, transitions_from, can, can_from, or_empty,
  contains_target,
}
use lewis.StateMachine.Cycle.{System, raise_event, enter, take_transition, do_process, from_state}

target_contained :
    {V : Type 0} (o : Option (Dict String V)) (to : String)
    → contains to (or_empty o) ≡ true
    → contains_target o to ≡ ok true
target_contained none to h = cc
target_contained (some d) to h = ap ok (member-keys to d ∙ h)

some-eq : (a b : String) → some a ≡ some b → a ≡ b
some-eq a b h = cc

module _ {W T : Type 0} where
  -- The machine with another current state.
  abbrev pub at : Option String → Machine W T → Machine W T
  at state m = record m { state = state }

  continue-machine :
      {A B : Type 0} (f : A → Exec (System W T) B) (m : Machine W T)
      → ((a : A) (s : System W T) → s.machine ≡ m → (f a s).1.machine ≡ m)
      → (r : Result A × System W T) → r.1.machine ≡ m
      → (continue f r).1.machine ≡ m
  continue-machine f m h (ok a, s) e = h a s e
  continue-machine f m h (err x, s) e = e

  -- Handlers do not change the machine.
  raise_event-machine :
      (event : Event) (dt : T) (m : Machine W T) (s : System W T)
      → s.machine ≡ m
      → (raise_event event dt s).1.machine ≡ m
  unfolding raise_event
  raise_event-machine event dt m s e = continue-machine _ m (λ table s e. e) (lift _ s) e

  -- What a cycle does to the machine: nothing, or it enters one of the states of `d`.
  abbrev pub Enters :
      {A : Type 0} → Dict String (Check W) → Machine W T → Result A × System W T → Type 0
  Enters d m r =
      (r.1.machine ≡ m) ⊎ ((to : String) × (contains to d ≡ true) × (r.1.machine ≡ at (some to) m))

  transit :
      (to : String) (dt : T) (m : Machine W T) (s : System W T)
      → s.machine ≡ m
      → let after = (raise_event on_exit dt >> enter to >> raise_event on_entry dt) s in
        (after.1.machine ≡ m) ⊎ (after.1.machine ≡ at (some to) m)
  unfolding enter
  transit to dt m s e = go (raise_event on_exit dt s) (raise_event-machine on_exit dt m s e)
    where
      go :
          (r : Result (Unit {0}) × System W T)
          → r.1.machine ≡ m
          → let after = continue (λ _. raise_event on_entry dt) (continue (λ _. enter to) r) in
            (after.1.machine ≡ m) ⊎ (after.1.machine ≡ at (some to) m)
      go (ok _, s) e = inr (
          raise_event-machine on_entry dt (at (some to) m) _
            (ap (λ (m : Machine W T). at (some to) m) e))
      go (err x, s) e = inl e

  take_transition-Enters :
      (d : Dict String (Check W)) (dt : T) (m : Machine W T) (s : System W T)
      → s.machine ≡ m
      → Enters d m (take_transition d dt s)
  unfolding take_transition
  take_transition-Enters [] dt m s e = inl e
  take_transition-Enters ((target, check) ∷ rest) dt m s e =
      go (check s.world) λ s e. take_transition-Enters rest dt m s e
    where
      chosen :
          (holds : Bool) (s : System W T)
          → s.machine ≡ m
          → Enters rest m (take_transition rest dt s)
          → Enters ((target, check) ∷ rest) m (
              (if holds
                  then (raise_event on_exit dt >> enter target >> raise_event on_entry dt)
                  else take_transition rest dt)
                s)
      chosen true s e ih = elim (transit target dt m s e) [
        | inl stays ↦ inl stays
        | inr moves ↦ inr (target, rw (beq_refl target), moves)
      ]
      chosen false s e (inl stays) = inl stays
      chosen false s e (inr (to, among, moves)) = inr (to, ground arith, moves)

      go :
          (r : Result Bool × W)
          → ((s : System W T) → s.machine ≡ m → Enters rest m (take_transition rest dt s))
          → Enters ((target, check) ∷ rest) m (
              continue
                (λ holds.
                  if holds
                  then (raise_event on_exit dt >> enter target >> raise_event on_entry dt)
                  else take_transition rest dt)
                (r.0, record s { world = r.1 }))
      go (ok holds, w) ih = chosen holds (record s { world = w }) e (ih _ e)
      go (err x, w) ih = inl e

  Enters-raise :
      (d : Dict String (Check W)) (dt : T) (m : Machine W T) (r : Result (Unit {0}) × System W T)
      → Enters d m r
      → Enters d m (continue (λ _. raise_event in_state dt) r)
  Enters-raise d dt m (err x, s) h = h
  Enters-raise d dt m (ok _, s) (inl stays) = inl (raise_event-machine in_state dt m s stays)
  Enters-raise d dt m (ok _, s) (inr (to, among, moves)) =
      inr (to, among, raise_event-machine in_state dt (at (some to) m) s moves)

  -- Whether or not something raises, a cycle that begins in a state leaves the machine as it is or
  -- moves it to the target of a transition from that state, and changes nothing else of it.
  pub do_process-Enters :
      (zero_step dt : T) (s : System W T) (state : String)
      → s.machine.state ≡ some state
      → Enters (transitions_from state s.machine) s.machine (do_process zero_step dt s)
  unfolding do_process
  do_process-Enters zero_step dt s state e =
      subst (λ o. Enters (transitions_from state s.machine) s.machine (from_state o zero_step dt s))
        (sym e)
        (Enters-raise (transitions_from state s.machine) dt s.machine
          (take_transition (transitions_from state s.machine) dt s)
          (take_transition-Enters (transitions_from state s.machine) dt s.machine s refl))

  -- Before the first cycle, or after a reset, a cycle enters the initial state.
  pub do_process_initial :
      (zero_step dt : T) (s : System W T)
      → s.machine.state ≡ none
      → (do_process zero_step dt s).1.machine ≡ at (some s.machine.initial) s.machine
  unfolding do_process enter
  do_process_initial zero_step dt s e =
      subst (λ o. (from_state o zero_step dt s).1.machine ≡ at (some s.machine.initial) s.machine)
        (sym e)
        (continue-machine _ (at (some s.machine.initial) s.machine)
          (λ _ s' e'. raise_event-machine in_state zero_step _ s' e')
          (raise_event on_entry zero_step entered)
          (raise_event-machine on_entry zero_step _ entered refl))
    where
      entered : System W T
      entered = record s { machine = at (some s.machine.initial) s.machine }

  can-target :
      (m : Machine W T) (state to : String)
      → m.state ≡ some state
      → contains to (transitions_from state m) ≡ true
      → can m to ≡ ok true
  unfolding can transitions_from
  can-target m state to e h =
      subst (λ o. can_from m o to ≡ ok true) (sym e)
        (target_contained (get state m.transition) to h)

  -- A state to which a cycle moves is one that `can` allowed before the cycle.
  pub do_process-can :
      (zero_step dt : T) (s : System W T) (state to : String)
      → s.machine.state ≡ some state
      → (do_process zero_step dt s).1.machine.state ≡ some to
      → (to ≡ state) ⊎ (can s.machine to ≡ ok true)
  do_process-can zero_step dt s state to e moved = elim (do_process-Enters zero_step dt s state e) [
    | inl stays ↦ inl (some-eq to state (sym moved ∙ ap (λ (m : Machine W T). m.state) stays ∙ e))
    | inr (t, among, moves) ↦
        let same : to ≡ t = some-eq to t (sym moved ∙ ap (λ (m : Machine W T). m.state) moves) in
        inr (rw same (can-target s.machine state t e among))
  ]
