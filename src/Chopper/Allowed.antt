-- ===== src/Chopper/Allowed.antt =====
-- What commands may do to the chopper.
use lewis.Common.{
  String, Bool, true, false, some, [], ◌∷◌, Result, ok, err, pure, continue, not, ◌&&◌,
  if◌then◌else◌, ◌≡◌, refl, ◌⊎◌, inl, inr, All,
}
use lewis.Common.Dict.{Dict, get, string_eq, ◌==◌}
use lewis.Core.Number.{Number, gt}
use lewis.StateMachine.Defs.{can}
use lewis.Chopper.Device.{Chopper, lit, engage, disengage}
use lewis.Chopper.Commands.{
  Device, Command, change, when_can, initialize, deinitialize, park, stop, start, unlock,
  lock_phase, commands, Interface, remember, execute, execute_command,
}

negated : (b : Bool) → not b ≡ true → b ≡ false
negated true e = absurd cc
negated false e = refl

module _ (n : Number) where
  -- What a command may do in the device `s`: it leaves the machine and all data but its flags and the
  -- bearings alone. It sets a command flag only where the machine can take the transition, and a start
  -- also wants a speed; it engages the bearings of a chopper that is not initialized, and
  -- disengages those of one that is, only where the machine can go to the bearings.
  abbrev pub Allowed : Device n → Device n → Type 0
  Allowed s s' =
      (s'.machine ≡ s.machine)
      × ((s'.world.start_commanded ≡ s.world.start_commanded)
          ⊎ ((can s.machine "accelerating" ≡ ok true)
              × (gt n s.world.target_speed (lit n 0) ≡ true)
              × (s'.world.start_commanded ≡ true)))
      × ((s'.world.stop_commanded ≡ s.world.stop_commanded)
          ⊎ ((can s.machine "stopping" ≡ ok true) × (s'.world.stop_commanded ≡ true)))
      × ((s'.world.park_commanded ≡ s.world.park_commanded)
          ⊎ ((can s.machine "parking" ≡ ok true) × (s'.world.park_commanded ≡ true)))
      × ((s'.world.idle_commanded ≡ s.world.idle_commanded)
          ⊎ ((can s.machine "idle" ≡ ok true) × (s'.world.idle_commanded ≡ true)))
      × ((s'.world.phase_commanded ≡ s.world.phase_commanded)
          ⊎ ((can s.machine "phase_locking" ≡ ok true) × (s'.world.phase_commanded ≡ true)))
      × (((s'.world.initialized ≡ s.world.initialized)
            × (s'.world.shutdown_commanded ≡ s.world.shutdown_commanded)
            × (s'.world.bearings ≡ s.world.bearings))
          ⊎ ((can s.machine "bearings" ≡ ok true)
              × (((s.world.initialized ≡ false)
                    × (s'.world.initialized ≡ true)
                    × (s'.world.shutdown_commanded ≡ s.world.shutdown_commanded)
                    × (s'.world.bearings ≡ engage n s.world.bearings))
                  ⊎ ((s.world.initialized ≡ true)
                      × (s'.world.initialized ≡ true)
                      × (s'.world.shutdown_commanded ≡ true)
                      × (s'.world.bearings ≡ disengage n s.world.bearings)))))
      × (s'.world ≡ record s.world {
        start_commanded = s'.world.start_commanded;
        stop_commanded = s'.world.stop_commanded;
        park_commanded = s'.world.park_commanded;
        idle_commanded = s'.world.idle_commanded;
        phase_commanded = s'.world.phase_commanded;
        initialized = s'.world.initialized;
        shutdown_commanded = s'.world.shutdown_commanded;
        bearings = s'.world.bearings;
      })

  abbrev same_bearings :
      (s : Device n)
      → (s.world.initialized ≡ s.world.initialized)
        × (s.world.shutdown_commanded ≡ s.world.shutdown_commanded)
        × (s.world.bearings ≡ s.world.bearings)
  same_bearings s = (refl, refl, refl)

  same-Allowed : (s : Device n) → Allowed s s
  same-Allowed s =
      (refl, inl refl, inl refl, inl refl, inl refl, inl refl, inl (same_bearings s), refl)

  when_can-Allowed :
      (state : String) (guard : Chopper n → Bool) (f : Chopper n → Chopper n)
      (otherwise : Command n) (s : Device n)
      → (can s.machine state ≡ ok true
          → guard s.world ≡ true
          → Allowed s (record s { world = f s.world }))
      → Allowed s (otherwise s).1
      → Allowed s (when_can n state guard (change n f) otherwise s).1
  when_can-Allowed state guard f otherwise s taken left = go (can s.machine state) refl
    where
      branch :
          (b : Bool)
          → can s.machine state ≡ ok true
          → guard s.world ≡ b
          → Allowed s ((if b then change n f else otherwise) s).1
      branch true e e' = taken e e'
      branch false e e' = left

      go :
          (r : Result Bool)
          → can s.machine state ≡ r
          → Allowed s
              (continue
                (λ c s'. (if c && guard s'.world then change n f else otherwise) s')
                (r, s)).1
      go (ok true) e = branch (guard s.world) e refl
      go (ok false) e = left
      go (err x) e = same-Allowed s

  stop-Allowed : (s : Device n) → Allowed s (stop n s).1
  unfolding stop
  stop-Allowed s =
      when_can-Allowed "stopping" (λ _. true) (λ c. record c { stop_commanded = true }) (pure tt) s
        (λ e _. (
          refl,
          inl refl,
          inr (e, refl),
          inl refl,
          inl refl,
          inl refl,
          inl (same_bearings s),
          refl,
        ))
        (same-Allowed s)

  -- Every command of the interface.
  AllAllowed : Dict String (String × (Command n)) → Type 0
  AllAllowed d =
      All (λ (item : String × (String × (Command n))). (s : Device n) → Allowed s (item.1.1 s).1) d

  commands-Allowed : AllAllowed (commands n)
  unfolding commands AllAllowed initialize deinitialize park start unlock lock_phase
  commands-Allowed = (
    (λ s.
        when_can-Allowed "accelerating" (λ c. gt n c.target_speed (lit n 0))
          (λ c. record c { start_commanded = true }) (stop n) s
          (λ e e'. (
            refl,
            inr (e, e', refl),
            inl refl,
            inl refl,
            inl refl,
            inl refl,
            inl (same_bearings s),
            refl,
          ))
          (stop-Allowed s)),
    (
      stop-Allowed,
      (
        (λ s.
            when_can-Allowed "phase_locking" (λ _. true) (λ c. record c { phase_commanded = true })
              (pure tt) s
              (λ e _. (
                refl,
                inl refl,
                inl refl,
                inl refl,
                inl refl,
                inr (e, refl),
                inl (same_bearings s),
                refl,
              ))
              (same-Allowed s)),
        (
          (λ s.
              when_can-Allowed "idle" (λ _. true) (λ c. record c { idle_commanded = true })
                (pure tt) s
                (λ e _. (
                  refl,
                  inl refl,
                  inl refl,
                  inl refl,
                  inr (e, refl),
                  inl refl,
                  inl (same_bearings s),
                  refl,
                ))
                (same-Allowed s)),
          (
            (λ s.
                when_can-Allowed "parking" (λ _. true) (λ c. record c { park_commanded = true })
                  (pure tt) s
                  (λ e _. (
                    refl,
                    inl refl,
                    inl refl,
                    inr (e, refl),
                    inl refl,
                    inl refl,
                    inl (same_bearings s),
                    refl,
                  ))
                  (same-Allowed s)),
            (
              (λ s.
                  when_can-Allowed "bearings" (λ c. not c.initialized)
                    (λ c. record c { initialized = true; bearings = engage n c.bearings }) (pure tt)
                    s
                    (λ e e'. (
                      refl,
                      inl refl,
                      inl refl,
                      inl refl,
                      inl refl,
                      inl refl,
                      inr (e, inl (negated _ e', refl, refl, refl)),
                      refl,
                    ))
                    (same-Allowed s)),
              (
                (λ s.
                    when_can-Allowed "bearings" (λ c. c.initialized)
                      (λ c. record c {
                        shutdown_commanded = true;
                        bearings = disengage n c.bearings;
                      })
                      (pure tt) s
                      (λ e e'. (
                        refl,
                        inl refl,
                        inl refl,
                        inl refl,
                        inl refl,
                        inl refl,
                        inr (e, inr (e', e', refl, refl)),
                        refl,
                      ))
                      (same-Allowed s)),
                tt,
              ),
            ),
          ),
        ),
      ),
    ),
  )

  execute-Allowed :
      (d : Dict String (String × (Command n))) (value : String) (i : Interface n)
      → AllAllowed d
      → Allowed i.device (execute n (get value d) i).1.device
  unfolding AllAllowed
  execute-Allowed [] value i h = same-Allowed i.device
  execute-Allowed ((name, (method, act)) ∷ rest) value i h =
      pick (name == value) (execute-Allowed rest value i h.1)
    where
      remembered :
          (r : Result (Unit {0}) × (Device n))
          → Allowed i.device r.1
          → Allowed i.device (remember n i method r).1.device
      remembered (ok _, d) a = a
      remembered (err e, d) a = a

      pick :
          (b : Bool)
          → Allowed i.device (execute n (get value rest) i).1.device
          → Allowed i.device
              (execute n (if b then some (method, act) else get value rest) i).1.device
      pick true ih = remembered (act i.device) (h.0 i.device)
      pick false ih = ih

  -- Whatever is written to the command of the interface, a known name or not: the machine stays as
  -- it is; a start, stop, park, idle or phase command is given only where the machine can take the
  -- transition at that moment, and a start only with a target speed above zero; the bearings of a
  -- chopper that is not initialized are engaged, which initializes it, and those of one that is
  -- are disengaged with a shutdown, only where the machine can go to the bearings; nothing else changes.
  pub execute_command-Allowed :
      (value : String) (i : Interface n) → Allowed i.device (execute_command n value i).1.device
  unfolding execute_command
  execute_command-Allowed value i = execute-Allowed (commands n) value i commands-Allowed
