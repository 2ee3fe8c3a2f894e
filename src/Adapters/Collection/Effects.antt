-- ===== src/Adapters/Collection/Effects.antt =====
-- What starting and stopping a list of adapters do to a collection (lewis/core/adapters.py).
use lewis.Common.{
  ℕ, Bool, true, false, List, [], ◌∷◌, Result, ok, err, Exec, continue, ◌≡◌, refl, ap, ◌∙◌,
  if◌then◌else◌, All, map,
}
use lewis.Common.Dict.{Keyed, contains, member, ◌==◌}
use lewis.Adapters.Class.{AdapterClass}
use lewis.Adapters.Collection.{Collection, for_each}
use lewis.Adapters.Collection.Invariant.{IsSound, Registered}

both_tests :
    (a b to x : Bool)
    → (if b then to else (if (if a then true else false) then to else x))
      ≡ (if (if a then true else b) then to else x)
both_tests true true to x = refl
both_tests true false to x = refl
both_tests false true to x = refl
both_tests false false to x = refl

module _ {K A : Type 0} ⦃e : Keyed K⦄ (c : AdapterClass K A) where
  abbrev pub protocols_of : List ℕ → (ℕ → A) → List K
  protocols_of is store = map (λ i. c.protocol (store i)) is

  -- Afterwards the adapters in the list are connected, or disconnected, and the others as before.
  pub record Effects (to : Bool) (is : List ℕ) (s s' : Collection K A) : Type 0 where
    pub sound : IsSound c s'
    pub adapters : s'.adapters ≡ s.adapters
    pub protocols : (j : ℕ) → c.protocol (s'.store j) ≡ c.protocol (s.store j)
    pub threads :
        (q : K)
        → contains q s'.threads
          ≡ (if member q (protocols_of is s.store) then to else contains q s.threads)

  Registered-Effects :
      (to : Bool) (is : List ℕ) (s s' : Collection K A)
      → Effects to is s s'
      → (js : List ℕ) → All (Registered c s) js
      → All (Registered c s') js
  Registered-Effects to is s s' eff [] reg = tt
  Registered-Effects to is s s' eff (j ∷ js) reg =
      (rw (eff.adapters, eff.protocols j) reg.0, Registered-Effects to is s s' eff js reg.1)

  protocols-Effects :
      (to : Bool) (is : List ℕ) (s s' : Collection K A)
      → Effects to is s s'
      → (js : List ℕ) → protocols_of js s'.store ≡ protocols_of js s.store
  protocols-Effects to is s s' eff [] = refl
  protocols-Effects to is s s' eff (j ∷ js) =
      rw (eff.protocols j)
        (ap (λ ps. c.protocol (s.store j) ∷ ps) (protocols-Effects to is s s' eff js))

  none-Effects : (to : Bool) (s : Collection K A) → IsSound c s → Effects to [] s s
  none-Effects to s sound = record {
    sound = sound;
    adapters = refl;
    protocols = λ j. refl;
    threads = λ q. refl;
  }

  append-Effects :
      (to : Bool) (i : ℕ) (is : List ℕ) (s s' s'' : Collection K A)
      → Effects to (i ∷ []) s s'
      → Effects to is s' s''
      → Effects to (i ∷ is) s s''
  append-Effects to i is s s' s'' one rest = record {
    sound = rest.sound;
    adapters = rest.adapters ∙ one.adapters;
    protocols = λ j. rest.protocols j ∙ one.protocols j;
    threads = λ q.
        rest.threads q
        ∙ rw (protocols-Effects to (i ∷ []) s s' one is)
            (rw (one.threads q) (both_tests (c.protocol (s.store i) == q) _ to _));
  }

  -- `f` has its effect on every registered adapter where it returns.
  abbrev pub Works : Bool → (ℕ → Exec (Collection K A) (Unit {0})) → Type 0
  Works to f =
      (i : ℕ) (s : Collection K A)
      → IsSound c s
      → Registered c s i
      → (f i s).0 ≡ ok tt
      → Effects to (i ∷ []) s (f i s).1

  continue-Effects :
      (to : Bool) (i : ℕ) (is : List ℕ) (s : Collection K A)
      (r : Result (Unit {0}) × Collection K A) (next : Exec (Collection K A) (Unit {0}))
      → (r.0 ≡ ok tt → Effects to (i ∷ []) s r.1)
      → (Effects to (i ∷ []) s r.1 → (next r.1).0 ≡ ok tt → Effects to is r.1 (next r.1).1)
      → (continue (λ _. next) r).0 ≡ ok tt
      → Effects to (i ∷ is) s (continue (λ _. next) r).1
  continue-Effects to i is s (ok u, s') next one rest done =
      append-Effects to i is s s' (next s').1 (one refl) (rest (one refl) done)
  continue-Effects to i is s (err x, s') next one rest done = absurd (cc done)

  pub for_each-Effects :
      (to : Bool) (f : ℕ → Exec (Collection K A) (Unit {0}))
      → Works to f
      → (is : List ℕ) (s : Collection K A) → IsSound c s
      → All (Registered c s) is
      → (for_each f is s).0 ≡ ok tt
      → Effects to is s (for_each f is s).1
  for_each-Effects to f works [] s sound reg done = none-Effects to s sound
  for_each-Effects to f works (i ∷ is) s sound reg done =
      continue-Effects to i is s (f i s) (for_each f is) (works i s sound reg.0)
        (λ one.
          for_each-Effects to f works is (f i s).1 one.sound
            (Registered-Effects to (i ∷ []) s (f i s).1 one is reg.1))
        done
