-- ===== src/Stream/Commands/Distinct.antt =====
-- The patterns of the functions that `_bind_device` appends (lewis/adapters/stream.py).
use lewis.Common.{
  String, true, false, Option, none, some, List, [], ◌∷◌, ◌++◌, Result, ok, err, ◌≡◌, refl, ap,
  Exec, continue, if◌then◌else◌, Bool-cases, inl, inr, arith,
}
use lewis.Common.Dict.{member, ◌==◌, string_eq}
use lewis.Stream.Func.{Expression, Func}
use lewis.Stream.Commands.{
  Target, Command, bind_either, patterns, append_bound, append_result, bind_commands, bind_device,
}

-- No pattern occurs twice.
abbrev pub Unique : List String → Type 0
Unique [] = Unit
Unique (p ∷ ps) = (member p ps ≡ false) × Unique ps

member-append :
    (j p : String) (ps : List String)
    → member j (ps ++ (p ∷ [])) ≡ (if member j ps then true else p == j)
member-append j p [] = elim (Bool-cases (p == j)) [ inl e ↦ rw e refl | inr e ↦ rw e refl ]
member-append j p (q ∷ ps) = ground (arith, member-append j p ps)

eq-swap : (a b : String) → (a == b) ≡ false → (b == a) ≡ false
eq-swap a b h = ground (arith, string_eq.key_iff a b, string_eq.key_iff b a)

Unique-append :
    (ps : List String) (p : String) → Unique ps → member p ps ≡ false → Unique (ps ++ (p ∷ []))
Unique-append [] p u h = (refl, tt)
Unique-append (q ∷ ps) p u h =
    (ground (arith, member-append q p ps, eq-swap q p), Unique-append ps p u.1 (ground arith))

module _ {O W : Type 0} where
  patterns-append :
      (fs : List (Func O W)) (f : Func O W)
      → patterns (fs ++ (f ∷ [])) ≡ patterns fs ++ (f.matcher.pattern ∷ [])
  patterns-append [] f = refl
  patterns-append (g ∷ fs) f = ap (λ ps. g.matcher.pattern ∷ ps) (patterns-append fs f)

  -- The functions that were bound so far have distinct patterns.
  abbrev pub LeavesUnique : Result (Unit {0}) × List (Func O W) → Type 0
  LeavesUnique r = Unique (patterns r.1)

  append_bound-Unique :
      (fs bound : List (Func O W)) → Unique (patterns bound) → LeavesUnique (append_bound fs bound)
  append_bound-Unique [] bound u = u
  append_bound-Unique (f ∷ fs) bound u =
      elim (Bool-cases (member f.matcher.pattern (patterns bound))) [
        | inl dup ↦ rw dup u
        | inr new ↦ rw new (
            append_bound-Unique fs (bound ++ (f ∷ [])) (
              rw (patterns-append bound f)
                (Unique-append (patterns bound) f.matcher.pattern u new)))
      ]

  append_result-Unique :
      (r : Result (List (Func O W))) (bound : List (Func O W))
      → Unique (patterns bound)
      → LeavesUnique (append_result r bound)
  append_result-Unique (err e) bound u = u
  append_result-Unique (ok []) bound u = u
  append_result-Unique (ok (f ∷ fs)) bound u = append_bound-Unique (f ∷ fs) bound u

  continue-Unique :
      (r : Result (Unit {0}) × List (Func O W))
      → LeavesUnique r
      → (next : Exec (List (Func O W)) (Unit {0}))
      → ((bound : List (Func O W)) → Unique (patterns bound) → LeavesUnique (next bound))
      → LeavesUnique (continue (λ _. next) r)
  continue-Unique (ok a, bound) u next keeps = keeps bound u
  continue-Unique (err e, bound) u next keeps = u

module _ {O W : Type 0} (compile : String → Result (Expression O)) where
  bind_commands-Unique :
      (cs : List (Command O W)) (interface device : Target O W) (bound : List (Func O W))
      → Unique (patterns bound)
      → LeavesUnique (bind_commands compile cs interface device bound)
  bind_commands-Unique [] interface device bound u = u
  bind_commands-Unique (c ∷ cs) interface device bound u =
      continue-Unique (append_result (bind_either compile c interface device) bound)
        (append_result-Unique (bind_either compile c interface device) bound u)
        (bind_commands compile cs interface device) (bind_commands-Unique cs interface device)

  -- Whether binding succeeds or raises half-way, no pattern is bound twice, so that no request is
  -- meant for two commands by the same pattern.
  pub bind_device-Unique :
      (cs : Option (List (Command O W))) (interface device : Target O W) (before : List (Func O W))
      → Unique (patterns (bind_device compile cs interface device before).1)
  unfolding bind_device
  bind_device-Unique none interface device before = tt
  bind_device-Unique (some cs) interface device before =
      bind_commands-Unique cs interface device [] tt
