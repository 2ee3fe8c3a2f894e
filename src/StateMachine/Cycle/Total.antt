-- ===== src/StateMachine/Cycle/Total.antt =====
-- A cycle of a wired machine finds handlers for every event that it raises.
use lewis.Common.{
  String, Bool, true, false, Option, none, some, List, [], ◌∷◌, Result, ok, ◌≡◌, refl, sym, ap,
  subst, if◌then◌else◌, Exec, ◌>>◌, continue, All, arith, ◌⊎◌, inl, inr,
}
use lewis.Common.Dict.{Dict, get, contains, string_eq, contains-get, beq_refl}
use lewis.StateMachine.Defs.{
  Event, on_entry, in_state, on_exit, Callable, Check, EventTable, Machine, handlers_of,
  transitions_from,
}
use lewis.StateMachine.Config.Wiring.{IsWired, Known}
use lewis.StateMachine.Cycle.{
  System, on_world, callables, call, call_all, raise_event, enter, take_transition, do_process,
  from_state, table_for, found_table,
}
use lewis.StateMachine.Cycle.Reach.{at}

-- A condition that never raises.
abbrev pub Decides : {W : Type 0} → String × Check W → Type 0
Decides {W} item = (w : W) → (holds : Bool) × (w' : W) × (item.1 w ≡ (ok holds, w'))

module _ {W T : Type 0} where
  -- A handler that never raises when it is given the time step.
  abbrev pub Returns : Callable W T → Type 0
  Returns h = (dt : T) (w : W) → (w' : W) × (h (some dt) w ≡ (ok tt, w'))

  -- No handler and no condition of the machine raises.
  pub record IsQuiet (m : Machine W T) : Type 0 where
    pub handlers_return :
        (state : String) (table : EventTable W T) (event : Event)
        → get state m.handler ≡ some table
        → All Returns (callables (handlers_of event table))
    pub checks_decide : (state : String) → All Decides (transitions_from state m)

  -- The machine is in a state that has handlers.
  abbrev pub In : Machine W T → String → Type 0
  In m state = (m.state ≡ some state) × Known m state

  -- What holds between the parts of a cycle.
  record IsReady (m : Machine W T) : Type 0 where
    wired : IsWired m
    quiet : IsQuiet m
    current : String
    inside : In m current

  at-IsWired : (o : Option String) {m : Machine W T} → IsWired m → IsWired (at o m)
  unfolding transitions_from
  at-IsWired o h = record {
    initial_known = h.initial_known;
    sources_known = h.sources_known;
    targets_known = h.targets_known;
  }

  at-IsQuiet : (o : Option String) {m : Machine W T} → IsQuiet m → IsQuiet (at o m)
  unfolding transitions_from
  at-IsQuiet o h = record { handlers_return = h.handlers_return; checks_decide = h.checks_decide }

  at-IsReady :
      (to : String) {m : Machine W T}
      → IsWired m
      → IsQuiet m
      → Known m to
      → IsReady (at (some to) m)
  at-IsReady to w q k = record {
    wired = at-IsWired (some to) w;
    quiet = at-IsQuiet (some to) q;
    current = to;
    inside = (refl, k);
  }

  call-returns :
      (f : Callable W T) (dt : T) (w w' : W)
      → f (some dt) w ≡ (ok tt, w')
      → call f dt w ≡ (ok tt, w')
  unfolding call
  call-returns f dt w w' e = rw e

  call_all-Returns :
      (hs : List (Callable W T)) (dt : T) (w : W)
      → All Returns hs
      → (w' : W) × (call_all hs dt w ≡ (ok tt, w'))
  unfolding call_all
  call_all-Returns [] dt w h = (w, refl)
  call_all-Returns (f ∷ hs) dt w h =
      let (w', e) = h.0 dt w in
      let (w'', e') = call_all-Returns hs dt w' h.1 in (w'', rw (call-returns f dt w w' e) e')

  raised :
      (event : Event) (dt : T) (s : System W T) (table : EventTable W T) (w : W)
      → table_for s.machine.state s.machine ≡ ok table
      → call_all (callables (handlers_of event table)) dt s.world ≡ (ok tt, w)
      → raise_event event dt s ≡ (ok tt, record s { world = w })
  unfolding raise_event
  raised event dt s table w e e' =
      subst
        (λ r.
          continue (λ t. on_world (call_all (callables (handlers_of event t)) dt)) (r, s)
          ≡ (ok tt, record s { world = w }))
        (sym e) (ap (λ (x : Result (Unit {0}) × W). (x.0, record s { world = x.1 })) e')

  -- An event that is raised in a machine that is ready returns, and changes the world only.
  raise_event-returns :
      (event : Event) (dt : T) (s : System W T)
      → IsReady s.machine
      → (w : W) × (raise_event event dt s ≡ (ok tt, record s { world = w }))
  raise_event-returns event dt s r =
      let (table, found) = contains-get r.current s.machine.handler r.inside.1 in
      let (w, e) =
        call_all-Returns (callables (handlers_of event table)) dt s.world
          (r.quiet.handlers_return r.current table event found) in
      (
        w,
        raised event dt s table w
            (subst (λ o. table_for o s.machine ≡ ok table) (sym r.inside.0) (ap found_table found))
            e,
      )

  -- An action that returns, and leaves a machine that is ready.
  abbrev Proceeds : Result (Unit {0}) × System W T → Type 0
  Proceeds r = (s : System W T) × (r ≡ (ok tt, s)) × IsReady s.machine

  raise_event-Proceeds :
      (event : Event) (dt : T) (s : System W T)
      → IsReady s.machine
      → Proceeds (raise_event event dt s)
  raise_event-Proceeds event dt s r =
      let (w, e) = raise_event-returns event dt s r in (record s { world = w }, e, r)

  continue-Proceeds :
      (f : Unit {0} → Exec (System W T) (Unit {0})) (r : Result (Unit {0}) × System W T)
      → Proceeds r
      → ((s : System W T) → IsReady s.machine → Proceeds (f tt s))
      → Proceeds (continue f r)
  continue-Proceeds f r (s, e, ready) h = subst (λ r. Proceeds (continue f r)) (sym e) (h s ready)

  move-Proceeds :
      (to : String) (dt : T) (s : System W T)
      → IsReady s.machine
      → Known s.machine to
      → Proceeds ((raise_event on_exit dt >> enter to >> raise_event on_entry dt) s)
  unfolding enter
  move-Proceeds to dt s r k =
      let (w, e) = raise_event-returns on_exit dt s r in
      subst (λ r. Proceeds (continue (λ _. raise_event on_entry dt) (continue (λ _. enter to) r)))
        (sym e) (raise_event-Proceeds on_entry dt _ (at-IsReady to r.wired r.quiet k))

  take_transition-Proceeds :
      (d : Dict String (Check W)) (dt : T) (s : System W T)
      → All Decides d
      → ((to : String) → contains to d ≡ true → Known s.machine to)
      → IsReady s.machine
      → Proceeds (take_transition d dt s)
  unfolding take_transition
  take_transition-Proceeds [] dt s h k r = (s, refl, r)
  take_transition-Proceeds ((target, check) ∷ rest) dt s h k r =
      let (holds, w, e) = h.0 s.world in
      subst
        (λ (x : Result Bool × W). Proceeds (
          continue
            (λ holds.
              if holds
              then (raise_event on_exit dt >> enter target >> raise_event on_entry dt)
              else take_transition rest dt)
            (x.0, record s { world = x.1 })))
        (sym e)
        (chosen holds (record s { world = w }) (k target (rw (beq_refl target) refl)) r
          (take_transition-Proceeds rest dt (record s { world = w }) h.1
            (λ to among. k to (later to among)) r))
    where
      later : (to : String) → contains to rest ≡ true → contains to ((target, check) ∷ rest) ≡ true
      later to among = ground arith

      chosen :
          (holds : Bool) (s : System W T)
          → Known s.machine target
          → IsReady s.machine
          → Proceeds (take_transition rest dt s)
          → Proceeds (
              (if holds
                  then (raise_event on_exit dt >> enter target >> raise_event on_entry dt)
                  else take_transition rest dt)
                s)
      chosen true s k r ih = move-Proceeds target dt s r k
      chosen false s k r ih = ih

  -- Where a cycle can begin: before the first one, or in a state that has handlers.
  abbrev pub Begins : Machine W T → Type 0
  Begins m = (m.state ≡ none) ⊎ ((state : String) × In m state)

  do_process-Proceeds :
      (zero_step dt : T) (s : System W T)
      → IsWired s.machine
      → IsQuiet s.machine
      → Begins s.machine
      → Proceeds (do_process zero_step dt s)
  unfolding do_process enter
  do_process-Proceeds zero_step dt s wired quiet (inl e) =
      subst (λ o. Proceeds (from_state o zero_step dt s)) (sym e)
        (continue-Proceeds _ _
          (raise_event-Proceeds on_entry zero_step _
            (at-IsReady s.machine.initial wired quiet wired.initial_known))
          (raise_event-Proceeds in_state zero_step))
  do_process-Proceeds zero_step dt s wired quiet (inr (state, inside)) =
      subst (λ o. Proceeds (from_state o zero_step dt s)) (sym inside.0)
        (continue-Proceeds _ _
          (take_transition-Proceeds (transitions_from state s.machine) dt s
            (quiet.checks_decide state) (wired.targets_known state)
            (record { wired = wired; quiet = quiet; current = state; inside = inside }))
          (raise_event-Proceeds in_state dt))

  -- When the machine is wired as the constructor leaves it, no handler and no condition raises, and
  -- the machine has not begun or is in a state with handlers, a cycle returns without an exception
  -- and ends in a state with handlers, from where the next cycle can begin.
  pub do_process-returns :
      (zero_step dt : T) (s : System W T)
      → IsWired s.machine
      → IsQuiet s.machine
      → Begins s.machine
      → (s' : System W T) × (do_process zero_step dt s ≡ (ok tt, s'))
        × ((state : String) × In s'.machine state)
        × IsWired s'.machine
        × IsQuiet s'.machine
  do_process-returns zero_step dt s wired quiet begins =
      let (s', e, ready) = do_process-Proceeds zero_step dt s wired quiet begins in
      (s', e, (ready.current, ready.inside), ready.wired, ready.quiet)
