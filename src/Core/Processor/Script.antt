-- ===== src/Core/Processor/Script.antt =====
-- A tree of processors runs a fixed sequence of hooks.
use lewis.Common.{
  Option, none, some, List, [], ◌∷◌, ◌++◌, ◌≡◌, refl, sym, ap, ◌∙◌, Result, ok, err, Exec, pure,
  ◌>>◌, continue, append-nil, append_assoc, continue_assoc,
}
use lewis.Core.Processor.{
  Hook, Processor, single, composite, Processors, no_processors, processor, process, process_all,
  call_hook, add_processor, append_processor, collect,
}

module _ {W : Type 0} where
  continue-same :
      (f g : Exec W (Unit {0})) (r r' : Result (Unit {0}) × W)
      → ((s : W) → f s ≡ g s)
      → r ≡ r'
      → continue (λ _. f) r ≡ continue (λ _. g) r'
  continue-same f g r r' h e = go r ∙ ap (continue (λ _. g)) e
    where
      go : (r : Result (Unit {0}) × W) → continue (λ _. f) r ≡ continue (λ _. g) r
      go (ok _, s) = h s
      go (err e, s) = refl

  continue_done : (r : Result (Unit {0}) × W) → r ≡ continue (λ _. pure tt) r
  continue_done (ok _, s) = refl
  continue_done (err e, s) = refl

module _ {W T : Type 0} where
  abbrev pub hooks : Option (Hook W T) → List (Hook W T)
  hooks none = []
  hooks (some f) = f ∷ []

  -- One hook after the other, until one raises.
  abbrev pub run : List (Hook W T) → Hook W T
  run [] dt = pure tt
  run (f ∷ fs) dt = f dt >> run fs dt

  unfoldable mutual
    -- The hooks of a tree in the order of the docstring: those before an item, its own, those after.
    pub script : Processor W T → List (Hook W T)
    script (single before none after) = []
    script (single before (some action) after) = hooks before ++ (action ∷ []) ++ hooks after
    script (composite before items after) = hooks before ++ script_all items ++ hooks after

    pub script_all : Processors W T → List (Hook W T)
    script_all no_processors = []
    script_all (processor p rest) = script p ++ script_all rest

  run-append :
      (fs gs : List (Hook W T)) (dt : T) (s : W)
      → run (fs ++ gs) dt s ≡ continue (λ _. run gs dt) (run fs dt s)
  run-append [] gs dt s = refl
  run-append (f ∷ fs) gs dt s =
      continue-same _ _ _ _ (run-append fs gs dt) refl
      ∙ sym (continue_assoc (λ _. run fs dt) (λ _. run gs dt) (f dt s))

  call_hook-run : (o : Option (Hook W T)) (dt : T) (s : W) → call_hook o dt s ≡ run (hooks o) dt s
  call_hook-run none dt s = refl
  call_hook-run (some f) dt s = continue_done (f dt s)

  -- What stands between two hooks runs between them.
  between :
      (before after : Option (Hook W T)) (body : List (Hook W T)) (action : Hook W T) (dt : T)
      (s : W)
      → ((s : W) → action dt s ≡ run body dt s)
      → continue (λ _. call_hook after dt) (continue (λ _. action dt) (call_hook before dt s))
        ≡ run (hooks before ++ body ++ hooks after) dt s
  between before after body action dt s h =
      continue-same (call_hook after dt) (run (hooks after) dt) _ _ (call_hook-run after dt) (
        continue-same (action dt) (run body dt) _ _ h (call_hook-run before dt s)
        ∙ sym (run-append (hooks before) body dt s))
      ∙ sym (run-append (hooks before ++ body) (hooks after) dt s)

  mutual
    unfolding process script

    process-run_lem : (p : Processor W T) (dt : T) (s : W) → process p dt s ≡ run (script p) dt s
    process-run_lem (single before none after) dt s = refl
    process-run_lem (single before (some action) after) dt s =
        between before after (action ∷ []) action dt s (λ s. continue_done (action dt s))
    process-run_lem (composite before items after) dt s =
        between before after (script_all items) (process_all items) dt s (process_all-run items dt)

    process_all-run :
        (ps : Processors W T) (dt : T) (s : W) → process_all ps dt s ≡ run (script_all ps) dt s
    process_all-run no_processors dt s = refl
    process_all-run (processor p rest) dt s =
        continue-same _ _ _ _ (process_all-run rest dt) (process-run_lem p dt s)
        ∙ sym (run-append (script p) (script_all rest) dt s)

  -- Processing a tree of processors is one run of its hooks: for each item the hook before it, the
  -- item itself (its items in the order in which they were added), the hook after it; an item
  -- without an action has no hooks; what raises ends the run.
  pub process-run : (p : Processor W T) (dt : T) (s : W) → process p dt s ≡ run (script p) dt s
  process-run = process-run_lem

  abbrev pub script_of : Option (Processor W T) → List (Hook W T)
  script_of none = []
  script_of (some p) = script p

  abbrev pub script_of_all : List (Option (Processor W T)) → List (Hook W T)
  script_of_all [] = []
  script_of_all (other ∷ rest) = script_of other ++ script_of_all rest

  append_processor-script :
      (items : Processors W T) (p : Processor W T)
      → script_all (append_processor items p) ≡ script_all items ++ script p
  unfolding script
  append_processor-script no_processors p = append-nil (script p)
  append_processor-script (processor q rest) p =
      ap (λ l. script q ++ l) (append_processor-script rest p)
      ∙ sym (append_assoc (script q) (script_all rest) (script p))

  add_processor-script :
      (items : Processors W T) (other : Option (Processor W T))
      → script_all (add_processor items other) ≡ script_all items ++ script_of other
  unfolding add_processor
  add_processor-script items none = sym (append-nil (script_all items))
  add_processor-script items (some p) = append_processor-script items p

  -- A composite built from a list of objects runs the hooks of those that can process, in the
  -- order of the list, after those of the processors that it has already; others are left out.
  pub collect-script :
      (items : Processors W T) (others : List (Option (Processor W T)))
      → script_all (collect items others) ≡ script_all items ++ script_of_all others
  unfolding collect
  collect-script items [] = sym (append-nil (script_all items))
  collect-script items (other ∷ rest) =
      collect-script (add_processor items other) rest
      ∙ ap (λ l. l ++ script_of_all rest) (add_processor-script items other)
      ∙ append_assoc (script_all items) (script_of other) (script_of_all rest)
