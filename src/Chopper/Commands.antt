-- ===== src/Chopper/Commands.antt =====
-- The commands of `SimulatedChopper`, and `execute_command` of the EPICS interface
-- (lewis/devices/chopper/interfaces/epics_interface.py).
use lewis.Common.{
  String, Bool, true, Option, none, some, [], ◌∷◌, Result, ok, err, type_error, Exec, pure,
  continue, not, ◌&&◌, if◌then◌else◌,
}
use lewis.Common.Dict.{Dict, get, string_eq}
use lewis.Core.Number.{Number, gt}
use lewis.StateMachine.Defs.{can}
use lewis.StateMachine.Cycle.{System}
use lewis.Chopper.Device.{Chopper, lit, engage, disengage}

module _ (n : Number) where
  -- The device: its machine, and its data as the context of the handlers.
  abbrev pub Device : Type 0
  Device = System (Chopper n) n.R

  abbrev pub Command : Type 0
  Command = Exec Device (Unit {0})

  abbrev pub change : (Chopper n → Chopper n) → Command
  change f s = (ok tt, record s { world = f s.world })

  -- `if self._csm.can(state) and guard: ...`, or else `otherwise`
  abbrev pub when_can : String → (Chopper n → Bool) → Command → Command → Command
  when_can state guard act otherwise s =
      continue (λ b s. (if b && guard s.world then act else otherwise) s) (can s.machine state, s)

  unfoldable pub initialize : Command
  unfolding can engage
  initialize =
      when_can "bearings" (λ c. not c.initialized)
        (change λ c. record c { initialized = true; bearings = engage n c.bearings }) (pure tt)

  unfoldable pub deinitialize : Command
  unfolding can disengage
  deinitialize =
      when_can "bearings" (λ c. c.initialized)
        (change λ c. record c { shutdown_commanded = true; bearings = disengage n c.bearings })
        (pure tt)

  unfoldable pub park : Command
  unfolding can
  park = when_can "parking" (λ _. true) (change λ c. record c { park_commanded = true }) (pure tt)

  unfoldable pub stop : Command
  unfolding can
  stop = when_can "stopping" (λ _. true) (change λ c. record c { stop_commanded = true }) (pure tt)

  unfoldable pub start : Command
  unfolding can stop
  start =
      when_can "accelerating" (λ c. gt n c.target_speed (lit n 0))
        (change λ c. record c { start_commanded = true }) stop

  unfoldable pub unlock : Command
  unfolding can
  unlock = when_can "idle" (λ _. true) (change λ c. record c { idle_commanded = true }) (pure tt)

  unfoldable pub lock_phase : Command
  unfolding can
  lock_phase =
      when_can "phase_locking" (λ _. true) (change λ c. record c { phase_commanded = true })
        (pure tt)

  -- `_commands` of the interface, with the method that each name is looked up as.
  unfoldable pub commands : Dict String (String × Command)
  unfolding initialize deinitialize park stop start unlock lock_phase
  commands =
      ("start", ("start", start))
      ∷ ("stop", ("stop", stop))
      ∷ ("set_phase", ("lock_phase", lock_phase))
      ∷ ("unlock", ("unlock", unlock))
      ∷ ("park", ("park", park))
      ∷ ("init", ("initialize", initialize))
      ∷ ("deinit", ("deinitialize", deinitialize))
      ∷ []

  -- The interface remembers the last command that was executed successfully.
  pub record Interface : Type 0 where
    pub device : Device
    pub last_command : String

  abbrev pub remember :
      Interface → String → Result (Unit {0}) × Device → Result (Unit {0}) × Interface
  remember i name (ok _, d) = (ok tt, record { device = d; last_command = name })
  remember i name (err e, d) = (err e, record i { device = d })

  -- `getattr(self.device, None)` raises TypeError.
  abbrev pub execute : Option (String × Command) → Exec Interface (Unit {0})
  execute none i = (err type_error, i)
  execute (some (name, act)) i = remember i name (act i.device)

  -- The setter of `execute_command`
  unfoldable pub execute_command : String → Exec Interface (Unit {0})
  unfolding commands
  execute_command value = execute (get value commands)
