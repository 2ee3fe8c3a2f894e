-- ===== src/Devices/Builder/Discovery.antt =====
-- What a builder has discovered (lewis/core/devices.py).
use lewis.Common.{
  String, Bool, true, false, Option, none, some, List, [], ◌∷◌, Result, ok, err, runtime_error,
  continue, ◌≡◌, refl, sym, ◌∙◌, if◌then◌else◌, Bool-cases, inl, inr, All,
}
use lewis.Common.Dict.{
  Keyed, string_eq, Dict, get, contains, insert, ◌==◌, get-insert, contains-insert, get-contains,
  beq_refl,
}
use lewis.Devices.Builder.{
  Setup, SetupModule, DeviceModule, discovered_interfaces, discover_interfaces, add_interfaces,
  add_setups, discover_setups, setup_of, add_default,
}

module _ {I K : Type 0} ⦃e : Keyed K⦄ (protocol : I → K) where
  -- What was found is still found afterwards.
  abbrev Keeps : K → I → Result (Dict K I) → Type 0
  Keeps k v (ok d) = get k d ≡ some v
  Keeps k v (err x) = Unit

  insert-keeps :
      (k j : K) (v i : I) (d : Dict K I)
      → get k d ≡ some v
      → contains j d ≡ false
      → get k (insert j i d) ≡ some v
  insert-keeps k j v i d found new = elim (Bool-cases (j == k)) [
    | inl equal ↦ absurd (clash (sym new ∙ rw ((e.key_iff j k).0 equal) (get-contains k d v found)))
    | inr apart ↦ get-insert j k i d ∙ rw apart found
  ]
    where
      clash : false ≡ true → ⊥
      clash h = cc

  add_interfaces-Keeps :
      (is : List I) (d : Dict K I) (k : K) (v : I)
      → get k d ≡ some v
      → Keeps k v (add_interfaces protocol is d)
  add_interfaces-Keeps [] d k v found = found
  add_interfaces-Keeps (i ∷ is) d k v found = elim (Bool-cases (contains (protocol i) d)) [
    | inl dup ↦ rw dup tt
    | inr new ↦ rw new (
        add_interfaces-Keeps is (insert (protocol i) i d) k v
          (insert-keeps k (protocol i) v i d found new))
  ]

  -- Each of the interfaces is found under its protocol.
  abbrev pub Finds : List I → Result (Dict K I) → Type 0
  Finds is (ok d) = All (λ i. get (protocol i) d ≡ some i) is
  Finds is (err x) = x ≡ runtime_error

  cons-Finds :
      (i : I) (is : List I) (r : Result (Dict K I))
      → Keeps (protocol i) i r
      → Finds is r
      → Finds (i ∷ is) r
  cons-Finds i is (ok d) kept found = (kept, found)
  cons-Finds i is (err x) kept found = found

  add_interfaces-Finds : (is : List I) (d : Dict K I) → Finds is (add_interfaces protocol is d)
  add_interfaces-Finds [] d = tt
  add_interfaces-Finds (i ∷ is) d = elim (Bool-cases (contains (protocol i) d)) [
    | inl dup ↦ rw dup refl
    | inr new ↦ rw new (
        cons-Finds i is _
          (add_interfaces-Keeps is (insert (protocol i) i d) (protocol i) i
            (get-insert (protocol i) (protocol i) i d ∙ rw (beq_refl (protocol i)) refl))
          (add_interfaces-Finds is (insert (protocol i) i d)))
  ]

  -- Discovery either raises RuntimeError or finds every interface of the module and of its package
  -- `interfaces` under its protocol: none hides another.
  pub discover_interfaces-Finds :
      {T P : Type 0} (m : DeviceModule T I P)
      → Finds (discovered_interfaces m) (discover_interfaces protocol m)
  unfolding discover_interfaces
  discover_interfaces-Finds m = add_interfaces-Finds (discovered_interfaces m) []

module _ {T P : Type 0} (default : Option T) (empty : P) where
  insert-grows :
      (k j : String) (v : Setup T P) (d : Dict String (Setup T P))
      → contains k d ≡ true
      → contains k (insert j v d) ≡ true
  insert-grows k j v d h = contains-insert j k v d ∙ keeps (j == k) h
    where
      keeps : (b : Bool) → contains k d ≡ true → (if b then true else contains k d) ≡ true
      keeps true h = refl
      keeps false h = h

  add_setups-grows :
      (is : Dict String (SetupModule T P)) (d : Dict String (Setup T P)) (k : String)
      → contains k d ≡ true
      → contains k (add_setups default empty is d).1 ≡ true
  add_setups-grows [] d k h = h
  add_setups-grows (i ∷ is) d k h = elim (Bool-cases (contains i.0 d)) [
    | inl dup ↦ rw dup h
    | inr new ↦ rw new (
        add_setups-grows is (insert i.0 (setup_of default empty i.1) d) k
          (insert-grows k i.0 (setup_of default empty i.1) d h))
  ]

  default-grows :
      (r : Result (Unit {0}) × Dict String (Setup T P)) (k : String)
      → contains k r.1 ≡ true
      → contains k (continue (λ _. add_default default) r).1 ≡ true
  default-grows (err x, d) k h = h
  default-grows (ok u, d) k h = elim (Bool-cases (contains "default" d)) [
    | inl there ↦ rw there h
    | inr absent ↦
        rw absent
          (insert-grows k "default" (record { device_type = default; parameters = none }) d h)
  ]

  discover_setups-again :
      (i : String × SetupModule T P) (is : Dict String (SetupModule T P))
      (d : Dict String (Setup T P))
      → contains i.0 d ≡ true
      → (discover_setups default empty (some (i ∷ is)) d).0 ≡ err runtime_error
  unfolding discover_setups
  discover_setups-again i is d there = rw there refl

  discover_setups-adds :
      (i : String × SetupModule T P) (is : Dict String (SetupModule T P))
      (d : Dict String (Setup T P))
      → (discover_setups default empty (some (i ∷ is)) d).0 ≡ ok tt
      → contains i.0 (discover_setups default empty (some (i ∷ is)) d).1 ≡ true
  unfolding discover_setups
  discover_setups-adds i is d done = elim (Bool-cases (contains i.0 d)) [
    | inl dup ↦ absurd (failed (sym (discover_setups-again i is d dup) ∙ done))
    | inr new ↦ rw new (
        default-grows _ i.0 (
          add_setups-grows is (insert i.0 (setup_of default empty i.1) d) i.0
            (contains-insert i.0 i.0 (setup_of default empty i.1) d ∙ rw (beq_refl i.0) refl)))
  ]
    where
      failed : ◌≡◌ {A = Result (Unit {0})} (err runtime_error) (ok tt) → ⊥
      failed h = cc

  -- A package of setups is discovered at most once for a module that has a dictionary `setups`:
  -- discovery adds to that dictionary, so that a second one finds the setups defined twice.
  pub discover_setups-twice :
      (i : String × SetupModule T P) (is : Dict String (SetupModule T P))
      (d : Dict String (Setup T P))
      → (discover_setups default empty (some (i ∷ is)) d).0 ≡ ok tt
      → (discover_setups default empty
          (some (i ∷ is))
          (discover_setups default empty (some (i ∷ is)) d).1).0
        ≡ err runtime_error
  discover_setups-twice i is d done =
      discover_setups-again i is _ (discover_setups-adds i is d done)
