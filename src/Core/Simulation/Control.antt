-- ===== src/Core/Simulation/Control.antt =====
-- What the requests of clients do to a running simulation.
use lewis.Common.{
  Bool, true, false, List, [], ◌∷◌, Result, ok, err, value_error, runtime_error, Exec, pure,
  continue, ◌>>◌, if◌then◌else◌, not, ◌||◌, ◌≡◌, refl, ap, ◌∙◌,
}
use lewis.Common.Int.{pos}
use lewis.Core.Number.{Number}
use lewis.Core.Simulation.{
  Driven, Simulation, zero_number, on_device, count, process_simulation_cycle, set_cycle_delay,
  set_speed, pause, resume, command_stop, stop, Request, pause_request, resume_request,
  stop_request, speed_request, delay_request, request, answered, Turn, end_loop, loop, start,
}

module _ (n : Number) {D : Type 0} where
  -- A simulation that runs was started, and neither its speed nor its delay is negative.
  pub record IsValid (s : Simulation n D) : Type 0 where
    pub running_started : s.running ≡ true → s.started ≡ true
    pub speed_nonneg : n.lt s.speed (n.int_of (pos 0)) ≡ false
    pub delay_nonneg : n.lt s.cycle_delay (n.int_of (pos 0)) ≡ false

  flags-IsValid :
      (s s' : Simulation n D)
      → (s'.running ≡ true → s'.started ≡ true)
      → s'.speed ≡ s.speed
      → s'.cycle_delay ≡ s.cycle_delay
      → IsValid s
      → IsValid s'
  flags-IsValid s s' h e e' v = record {
    running_started = h;
    speed_nonneg = ap (λ x. n.lt x (n.int_of (pos 0))) e ∙ v.speed_nonneg;
    delay_nonneg = ap (λ x. n.lt x (n.int_of (pos 0))) e' ∙ v.delay_nonneg;
  }

  abbrev Leaves : {A : Type 0} → Result A × Simulation n D → Type 0
  Leaves r = IsValid r.1

  continue-Leaves :
      {A B : Type 0} (f : A → Exec (Simulation n D) B) (r : Result A × Simulation n D)
      → Leaves r
      → ((a : A) (s : Simulation n D) → IsValid s → Leaves (f a s))
      → Leaves (continue f r)
  continue-Leaves f (ok a, s) v h = h a s v
  continue-Leaves f (err e, s) v h = v

  module _ (driven : Driven n D) where
    set_speed-IsValid :
        (x : n.R) (s : Simulation n D) → IsValid s → IsValid (set_speed n driven x s).1
    unfolding set_speed
    set_speed-IsValid x s v = go (n.lt x (zero_number n driven)) refl
      where
        go :
            (b : Bool)
            → n.lt x (zero_number n driven) ≡ b
            → Leaves (if b then (err value_error, s) else (ok tt, record s { speed = x }))
        go true e = v
        go false e = record {
          running_started = v.running_started;
          speed_nonneg = e;
          delay_nonneg = v.delay_nonneg;
        }

    set_cycle_delay-IsValid :
        (x : n.R) (s : Simulation n D) → IsValid s → IsValid (set_cycle_delay n driven x s).1
    unfolding set_cycle_delay
    set_cycle_delay-IsValid x s v = go (n.lt x (zero_number n driven)) refl
      where
        go :
            (b : Bool)
            → n.lt x (zero_number n driven) ≡ b
            → Leaves (if b then (err value_error, s) else (ok tt, record s { cycle_delay = x }))
        go true e = v
        go false e = record {
          running_started = v.running_started;
          speed_nonneg = v.speed_nonneg;
          delay_nonneg = e;
        }

    pause-IsValid : (s : Simulation n D) → IsValid s → IsValid (pause n driven s).1
    unfolding pause
    pause-IsValid s v = go (not s.running)
      where
        go :
            (b : Bool)
            → Leaves (if b then (err runtime_error, s) else (ok tt, record s { running = false }))
        go true = v
        go false = flags-IsValid s _ (λ h. absurd cc) refl refl v

    resume-IsValid : (s : Simulation n D) → IsValid s → IsValid (resume n driven s).1
    unfolding resume
    resume-IsValid s v = go s.started s.running refl
      where
        go :
            (b c : Bool)
            → s.started ≡ b
            → Leaves (
                if not b || c then (err runtime_error, s) else (ok tt, record s { running = true }))
        go false c e = v
        go true true e = v
        go true false e = flags-IsValid s _ (λ _. e) refl refl v

    stop-IsValid : (s : Simulation n D) → IsValid s → IsValid (stop n driven s).1
    unfolding stop
    stop-IsValid s v = go s.started
      where
        go :
            (b : Bool)
            → IsValid
                ((if b
                    then (command_stop n driven >> on_device n driven driven.disconnect)
                    else pure tt)
                  s).1
        go true = flags-IsValid s _ v.running_started refl refl v
        go false = v

    -- No request, whether it is granted or refused, breaks the consistency of the flags, nor makes
    -- the speed or the delay negative.
    pub request-IsValid :
        (q : Request n driven) (s : Simulation n D) → IsValid s → IsValid (request n driven q s).1
    unfolding request
    request-IsValid pause_request s v = pause-IsValid s v
    request-IsValid resume_request s v = resume-IsValid s v
    request-IsValid stop_request s v = stop-IsValid s v
    request-IsValid (speed_request x) s v = set_speed-IsValid x s v
    request-IsValid (delay_request x) s v = set_cycle_delay-IsValid x s v

    cycle-IsValid :
        (delta : n.R) (s : Simulation n D)
        → IsValid s
        → IsValid (process_simulation_cycle n driven delta s).1
    unfolding process_simulation_cycle
    cycle-IsValid delta s v = go s.running
      where
        go :
            (b : Bool)
            → Leaves (
                (if b
                    then (on_device n driven (driven.process (n.mul delta s.speed))
                        >> count n driven (n.mul delta s.speed))
                    else pure tt)
                  s)
        go true =
            continue-Leaves _ (on_device n driven (driven.process (n.mul delta s.speed)) s)
              (flags-IsValid s _ v.running_started refl refl v)
              (λ _ s' v'. flags-IsValid s' _ v'.running_started refl refl v')
        go false = v

    answered-IsValid :
        (qs : List (Request n driven)) (s : Simulation n D)
        → IsValid s
        → IsValid (answered n driven qs s)
    answered-IsValid [] s v = v
    answered-IsValid (q ∷ qs) s v = answered-IsValid qs _ (request-IsValid q s v)

    ended-IsValid : (s : Simulation n D) → IsValid s → IsValid (end_loop n driven s)
    ended-IsValid s v = flags-IsValid s _ (λ h. absurd cc) refl refl v

    loop-IsValid :
        (delta : n.R) (turns : List (Turn n driven)) (s : Simulation n D)
        → IsValid s
        → Leaves (loop n driven delta turns s)
    unfolding loop
    loop-IsValid delta [] s v = go s.stop_commanded
      where
        go : (b : Bool) → IsValid (if b then end_loop n driven s else s)
        go true = ended-IsValid s v
        go false = v
    loop-IsValid delta (turn ∷ turns) s v = go s.stop_commanded (loop-IsValid turn.elapsed turns)
      where
        go :
            (b : Bool)
            → ((s : Simulation n D) → IsValid s → Leaves (loop n driven turn.elapsed turns s))
            → Leaves (
                if b
                then (ok true, end_loop n driven s)
                else continue
                    (λ _. loop n driven turn.elapsed turns)
                    (process_simulation_cycle n driven delta (answered n driven turn.requests s)))
        go true h = ended-IsValid s v
        go false h =
            continue-Leaves _
              (process_simulation_cycle n driven delta (answered n driven turn.requests s))
              (cycle-IsValid delta _ (answered-IsValid turn.requests s v)) (λ _. h)

    -- From its start on, through any number of turns with any requests, and also when the device or
    -- an adapter raises, a simulation stays valid.
    pub start-IsValid :
        (turns : List (Turn n driven)) (s : Simulation n D)
        → IsValid s
        → IsValid (start n driven turns s).1
    unfolding start
    start-IsValid turns s v =
        continue-Leaves _ (on_device n driven driven.connect begun)
          (flags-IsValid begun _ (λ _. refl) refl refl
            (flags-IsValid s begun (λ _. refl) refl refl v))
          (λ _ s' v'. loop-IsValid (zero_number n driven) turns s' v')
      where
        begun : Simulation n D
        begun = record s { running = true; started = true; stop_commanded = false }
