-- ===== src/Core/Tests.antt =====
-- Examples for the parts of lewis/core.
use lewis.Common.{
  ℕ, ◌+◌, String, true, false, Option, none, some, List, [], ◌∷◌, ◌++◌, ok, err, runtime_error, ◌≡◌,
  refl, ◌⊎◌,
}
use lewis.Common.Dict.{Dict, string_eq, contains, get}
use lewis.Common.Int.{ℤ, pos, negsuc, ltb_ℤ, ◌*ℤ◌, ◌+ℤ◌}
use lewis.Core.Number.{same}
use lewis.Core.Integers.{integers, integers-NumberLaws}
use lewis.Core.Approaches.{linear, linear-never_overshoots}
use lewis.Core.Processor.{Hook, Processor, single, composite, no_processors, processor, process}
use lewis.Core.Processor.Script.{run, script, process-run}
use lewis.Core.Limits.{dict_strict_update, or_else, dict_strict_update_lem}
use lewis.Core.Simulation.{
  Driven, Simulation, process_simulation_cycle, pause, resume, pause_request, resume_request,
  stop_request, speed_request, request, Turn, start,
}
use lewis.Core.Simulation.Control.{IsValid, request-IsValid, start-IsValid}
use lewis.Core.Simulation.Suspension.{pause-suspends}

-- From -3 towards 10, seven per step: 4, then 10.
linear_test :
    linear integers (linear integers (negsuc 2) (pos 10) (pos 7) (pos 1)) (pos 10) (pos 7) (pos 1)
    ≡ pos 10
unfolding linear ◌*ℤ◌ ◌+ℤ◌
linear_test = refl

linear-never_overshoots_example :
    ((ltb_ℤ (pos 10) (negsuc 19) ≡ true)
      × (ltb_ℤ (negsuc 19) (linear integers (pos 10) (negsuc 19) (pos 10) (pos 100)) ≡ false))
    ⊎ (((ltb_ℤ (negsuc 19) (pos 10) ≡ true)
          × (ltb_ℤ (linear integers (pos 10) (negsuc 19) (pos 10) (pos 100)) (negsuc 19) ≡ false))
        ⊎ ((same integers (pos 10) (negsuc 19) ≡ true)
            × (linear integers (pos 10) (negsuc 19) (pos 10) (pos 100) ≡ pos 10)))
linear-never_overshoots_example =
    linear-never_overshoots integers integers-NumberLaws (pos 10) (negsuc 19) (pos 10) (pos 100)

-- A hook that notes its name.
abbrev note : ℕ → Hook (List ℕ) ℕ
note k dt log = (ok tt, log ++ (k + dt) ∷ [])

abbrev failing : Hook (List ℕ) ℕ
failing dt log = (err runtime_error, log)

abbrev tree : Processor (List ℕ) ℕ
tree =
    composite (some (note 10))
      (processor (single (some (note 20)) (some (note 30)) none) (
        processor (single (some (note 40)) none none)
          (processor (single none (some failing) none) no_processors)))
      (some (note 50))

tree_test : process tree 1 [] ≡ (err runtime_error, 11 ∷ 21 ∷ 31 ∷ [])
unfolding process
tree_test = refl

process-run_example : process tree 1 [] ≡ run (script tree) 1 []
process-run_example = process-run tree 1 []

abbrev others : List (Option (Processor (List ℕ) ℕ))
others = some tree ∷ none ∷ some (single none (some (note 60)) none) ∷ []

abbrev base : Dict String ℕ
base = ("a", 1) ∷ ("b", 2) ∷ []

abbrev updates : Dict String ℕ
updates = ("b", 3) ∷ []

dict_strict_update_lem_example :
    ((dict_strict_update updates base ≡ (err runtime_error, base))
      × ((k : String) × (contains k updates ≡ true) × (contains k base ≡ false)))
    ⊎ ((base' : Dict String ℕ) × (dict_strict_update updates base ≡ (ok tt, base'))
        × ((k : String)
            → (contains k base' ≡ contains k base)
              × (get k base' ≡ or_else (get k updates) (get k base))))
dict_strict_update_lem_example = dict_strict_update_lem base updates (refl, tt)

-- A device that adds up the time steps.
abbrev clock : Driven integers (List ℤ)
clock = record {
  process = λ dt d. (ok tt, dt ∷ d);
  connect = λ d. (ok tt, d);
  disconnect = λ d. (ok tt, pos 0 ∷ d);
}

abbrev simulation : Simulation integers (List ℤ)
simulation = record {
  device = [];
  speed = pos 2;
  cycle_delay = pos 1;
  cycles = 0;
  runtime = pos 0;
  running = true;
  started = true;
  stop_commanded = false;
}

simulation-IsValid : IsValid integers simulation
simulation-IsValid = record { running_started = λ e. e; speed_nonneg = refl; delay_nonneg = refl }

abbrev turns : List (Turn integers clock)
turns =
    record { requests = []; elapsed = pos 3 }
    ∷ record { requests = pause_request ∷ speed_request (negsuc 0) ∷ []; elapsed = pos 4 }
    ∷ record { requests = resume_request ∷ []; elapsed = pos 5 }
    ∷ record { requests = stop_request ∷ []; elapsed = pos 6 }
    ∷ record { requests = []; elapsed = pos 7 }
    ∷ []

loop_test : (start integers clock turns simulation).1.device ≡ pos 10 ∷ pos 0 ∷ pos 8 ∷ pos 0 ∷ []
unfolding start ◌*ℤ◌
loop_test = refl

request-IsValid_example :
    IsValid integers (request integers clock (speed_request (negsuc 4)) simulation).1
request-IsValid_example =
    request-IsValid integers clock (speed_request (negsuc 4)) simulation simulation-IsValid

start-IsValid_example : IsValid integers (start integers clock turns simulation).1
start-IsValid_example = start-IsValid integers clock turns simulation simulation-IsValid

pause-suspends_example :
    (paused : Simulation integers (List ℤ)) × (pause integers clock simulation ≡ (ok tt, paused))
    × (process_simulation_cycle integers clock (pos 3) paused ≡ (ok tt, paused))
    × (resume integers clock paused ≡ (ok tt, simulation))
pause-suspends_example = pause-suspends integers clock (pos 3) simulation refl refl
