-- ===== src/Core/Processor.antt =====
-- lewis/core/processor.py. `W` is what the hooks can see and change, `T` the type of time steps.
pub mod Script
use lewis.Common.{
  Bool, Option, none, some, List, [], ◌∷◌, ◌++◌, ◌≡◌, refl, Result, ok, err, Exec, pure, ◌>>◌,
  continue,
}

-- What `hasattr` finds, for one of the three hooks.
abbrev pub Hook : Type 0 → Type 0 → Type 0
Hook W T = T → Exec W (Unit {0})

mutual
  -- A `CanProcess` with its hooks, or a `CanProcessComposite` whose subclass may add the hooks that
  -- go before and after its items.
  pub data Processor (W T : Type 0) : Type 0 where
    single : (before action after : Option (Hook W T)) → Processor W T
    composite :
        (before : Option (Hook W T)) → Processors W T → (after : Option (Hook W T)) → Processor W T

  pub data Processors (W T : Type 0) : Type 0 where
    no_processors : Processors W T
    processor : Processor W T → Processors W T → Processors W T

module _ {W T : Type 0} where
  -- `if hasattr(self, …): self.…(dt)`
  abbrev pub call_hook : Option (Hook W T) → Hook W T
  call_hook none dt = pure tt
  call_hook (some f) dt = f dt

  unfoldable mutual
    -- `CanProcess.process`
    pub process : Processor W T → Hook W T
    process (single before none after) dt s = (ok tt, s)
    process (single before (some action) after) dt s =
        (call_hook before dt >> action dt >> call_hook after dt) s
    process (composite before items after) dt s =
        continue (λ _. call_hook after dt)
          (continue (λ _. process_all items dt) (call_hook before dt s))

    -- `CanProcessComposite.doProcess`
    process_all : Processors W T → Hook W T
    process_all no_processors dt s = (ok tt, s)
    process_all (processor p rest) dt s = continue (λ _. process_all rest dt) (process p dt s)

  abbrev append_processor : Processors W T → Processor W T → Processors W T
  append_processor no_processors p = processor p no_processors
  append_processor (processor q rest) p = processor q (append_processor rest p)

  -- `add_processor`: an object that is no `CanProcess` is ignored.
  unfoldable pub add_processor : Processors W T → Option (Processor W T) → Processors W T
  add_processor items none = items
  add_processor items (some p) = append_processor items p

  -- `CanProcessComposite.__init__`
  unfoldable pub collect : Processors W T → List (Option (Processor W T)) → Processors W T
  unfolding add_processor
  collect items [] = items
  collect items (other ∷ rest) = collect (add_processor items other) rest
