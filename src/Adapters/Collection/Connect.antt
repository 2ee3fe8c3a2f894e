-- ===== src/Adapters/Collection/Connect.antt =====
-- `connect` and `disconnect` of lewis/core/adapters.py.
use lewis.Common.{
  ℕ, Bool, true, false, some, List, [], ◌∷◌, Result, ok, err, Exec, continue, and_then, ◌≡◌, refl,
  ap, ◌∙◌, if◌then◌else◌, Bool-cases, Option-cases, inl, inr, All,
}
use lewis.Common.Dict.{Keyed, get, contains, member, keys, member-keys, get-contains}
use lewis.Adapters.Class.{AdapterClass, AdapterLaws}
use lewis.Adapters.Collection.{
  Collection, start_adapter, stop_adapter, for_each, get_adapters, items, or_all, all_registered,
  connect, disconnect,
}
use lewis.Adapters.Collection.Invariant.{IsSound, Registered}
use lewis.Adapters.Collection.Effects.{Works, for_each-Effects, protocols_of}
use lewis.Adapters.Collection.Returns.{disconnect-returns}
use lewis.Adapters.Collection.Steps.{start-Works, stop-Works}

-- The protocols that a call names: with no argument, all.
abbrev pub requested : {K : Type 0} ⦃e : Keyed K⦄ → List K → K → Bool
requested [] p = true
requested (q ∷ qs) p = member p (q ∷ qs)

module _ {K A : Type 0} ⦃e : Keyed K⦄ (c : AdapterClass K A) (s : Collection K A)
    (sound : IsSound c s) where
  -- The adapters that were found for some protocols.
  abbrev Found : List K → Result (List ℕ) → Type 0
  Found ps (ok is) = All (Registered c s) is × (protocols_of c is s.store ≡ ps)
  Found ps (err x) = Unit

  cons-Found :
      (p : K) (i : ℕ)
      → get p s.adapters ≡ some i
      → (ps : List K) (r : Result (List ℕ)) → Found ps r
      → Found (p ∷ ps) (and_then r (λ is. ok (i ∷ is)))
  cons-Found p i found ps (ok is) h =
      let named = sound.registered p i found in
      ((rw named found, h.0), rw named (ap (λ qs. p ∷ qs) h.1))
  cons-Found p i found ps (err x) h = tt

  items-Found : (ps : List K) → Found ps (items ps s.adapters)
  items-Found [] = (tt, refl)
  items-Found (p ∷ ps) = elim (Option-cases (get p s.adapters)) [
    | inl missing ↦ rw missing tt
    | inr (i, found) ↦ rw found (cons-Found p i found ps (items ps s.adapters) (items-Found ps))
  ]

  get_adapters-Found :
      (args : List K) → Found (or_all args (keys s.adapters)) (get_adapters args s.adapters)
  unfolding get_adapters
  get_adapters-Found args = elim (Bool-cases (all_registered args s.adapters)) [
    | inl known ↦ rw known (items-Found (or_all args (keys s.adapters)))
    | inr unknown ↦ rw unknown tt
  ]

  -- A step over the adapters that were found.
  abbrev Moves : Bool → List K → Collection K A → Type 0
  Moves to ps s' =
      IsSound c s'
      × (s'.adapters ≡ s.adapters)
      × ((q : K) → contains q s'.threads ≡ (if member q ps then to else contains q s.threads))

  Found-Moves :
      (to : Bool) (f : ℕ → Exec (Collection K A) (Unit {0}))
      → Works c to f
      → (ps : List K) (r : Result (List ℕ)) → Found ps r
      → (continue (for_each f) (r, s)).0 ≡ ok tt
      → Moves to ps (continue (for_each f) (r, s)).1
  Found-Moves to f works ps (ok is) found done =
      let eff = for_each-Effects c to f works is s sound found.0 done in
      (
        eff.sound,
        eff.adapters,
        λ q. eff.threads q ∙ ap (λ qs. if member q qs then to else contains q s.threads) found.1,
      )
  Found-Moves to f works ps (err x) found done = absurd (cc done)

  member-or_all :
      (args : List K) (p : K) (i : ℕ)
      → get p s.adapters ≡ some i
      → member p (or_all args (keys s.adapters)) ≡ requested args p
  member-or_all [] p i found = member-keys p s.adapters ∙ get-contains p s.adapters i found
  member-or_all (q ∷ qs) p i found = refl

  moved-running :
      (to : Bool) (args : List K) (s' : Collection K A)
      → Moves to (or_all args (keys s.adapters)) s'
      → (p : K) (i : ℕ) → get p s.adapters ≡ some i
      → c.is_running (s'.store i) ≡ (if requested args p then to else c.is_running (s.store i))
  moved-running to args s' moves p i found =
      moves.0.running p i (rw moves.1 found)
      ∙ moves.2 p
      ∙ rw (member-or_all args p i found) (rw (sound.running p i found) refl)

module _ {K A : Type 0} ⦃e : Keyed K⦄ (c : AdapterClass K A) (laws : AdapterLaws K A c) where
  -- A call of `connect` that returns on a sound collection has connected the adapters whose
  -- protocols it names, all of them if it names none, and has left the others as they were; the
  -- collection stays sound.
  pub connect-is_running :
      (s : Collection K A) (args : List K)
      → IsSound c s
      → (connect c args s).0 ≡ ok tt
      → (p : K) (i : ℕ) → get p s.adapters ≡ some i
      → IsSound c (connect c args s).1
        × (c.is_running ((connect c args s).1.store i)
            ≡ (if requested args p then true else c.is_running (s.store i)))
  unfolding connect
  connect-is_running s args sound done p i found =
      let moves =
        Found-Moves c s sound true (start_adapter c) (start-Works c laws)
          (or_all args (keys s.adapters)) (get_adapters args s.adapters)
          (get_adapters-Found c s sound args) done in
      (moves.0, moved-running c s sound true args _ moves p i found)

  -- A call of `disconnect` with protocols that are registered returns; on a sound collection it stops
  -- the adapters whose protocols it names, all of them if it names none, and leaves the others as
  -- they were, and the collection stays sound.
  pub disconnect-is_running :
      (s : Collection K A) (args : List K)
      → IsSound c s
      → all_registered args s.adapters ≡ true
      → (p : K) (i : ℕ) → get p s.adapters ≡ some i
      → ((disconnect c args s).0 ≡ ok tt)
        × IsSound c (disconnect c args s).1
        × (c.is_running ((disconnect c args s).1.store i)
            ≡ (if requested args p then false else c.is_running (s.store i)))
  unfolding disconnect
  disconnect-is_running s args sound known p i found =
      let done = disconnect-returns c s args known in
      let moves =
        Found-Moves c s sound false (stop_adapter c) (stop-Works c laws)
          (or_all args (keys s.adapters)) (get_adapters args s.adapters)
          (get_adapters-Found c s sound args) done in
      (done, moves.0, moved-running c s sound false args _ moves p i found)
