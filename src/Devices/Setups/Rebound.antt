-- ===== src/Devices/Setups/Rebound.antt =====
-- What a simulation is after its setup is switched (lewis/core/simulation.py, lewis/core/adapters.py).
use lewis.Common.{
  ℕ, String, Bool, true, false, Option, some, List, [], ◌∷◌, ◌++◌, All, Result, ok, err, Exn, Exec,
  continue, ◌≡◌, refl, sym, ap, ◌∙◌, ◌⊎◌, inl, inr, Bool-cases, ◌==◌ as same, ==_iff, if◌then◌else◌,
}
use lewis.Common.Dict.{member, nat_eq}
use lewis.Core.Number.{Number}
use lewis.Core.Simulation.{Simulation}
use lewis.Adapters.Collection.{Collection, assign, for_each}
use lewis.Devices.Setups.{
  InterfaceBase, Slot, rebind, values, set_device, Parts, with_created, switch_setup,
}

-- No adapter is in the list twice.
abbrev pub Distinct : List ℕ → Type 0
Distinct [] = Unit
Distinct (i ∷ is) = (member i is ≡ false) × Distinct is

assign_self : {A : Type 0} (i : ℕ) (a : A) (store : ℕ → A) → assign i a store i ≡ a
assign_self i a store = rw ((==_iff i i).1 refl) refl

widen :
    (i : ℕ) (is : List ℕ) (j : ℕ) {P Q : Type 0}
    → (member j is ≡ true) ⊎ P
    → (same i j ≡ true) ⊎ (P → Q)
    → (member j (i ∷ is) ≡ true) ⊎ Q
widen i is j (inl h) q = inl (rw h (always (same i j)))
  where
    always : (b : Bool) → (if b then true else true) ≡ true
    always true = refl
    always false = refl
widen i is j (inr p) (inl e) = inl (rw e refl)
widen i is j (inr p) (inr f) = inr (f p)

untouched : {P : Type 0} (is : List ℕ) (i : ℕ) → member i is ≡ false → (member i is ≡ true) ⊎ P → P
untouched is i apart (inl h) = absurd (true-false (sym h ∙ apart))
  where
    true-false : true ≡ false → ⊥
    true-false e = cc
untouched is i apart (inr p) = p

module _ {K A D B : Type 0} (slot : Slot A D B) (bind : D → Exec B (Unit {0})) (new : D) where
  -- Binding what the interface of `i` had bound in `s` ends with `r`, and in `s'` the interface refers
  -- to the new device and has what binding left.
  abbrev Rebinds : (s s' : Collection K A) → Result (Unit {0}) → ℕ → Type 0
  Rebinds s s' r i =
      ((bind new (slot.interface (s.store i)).bindings).0 ≡ r)
      × (slot.interface (s'.store i) ≡ record {
        device = some new;
        bindings = (bind new (slot.interface (s.store i)).bindings).1;
      })

  -- The adapters from the first one on whose binding raised: it is rebound, the ones after it are not.
  abbrev Ending : (s s' : Collection K A) → Result (Unit {0}) → List ℕ → Type 0
  Ending s s' r [] = r ≡ ok tt
  Ending s s' r (i ∷ left) =
      (x : Exn) × (r ≡ err x) × Rebinds s s' (err x) i × All (λ j. s'.store j ≡ s.store j) left

  -- From `s1` to `s'`, the adapters in the list are rebound in order up to one that raised, if any,
  -- and nothing else changes. `s` is where they were bound before.
  pub record Rebound (is : List ℕ) (r : Result (Unit {0})) (s s1 s' : Collection K A) : Type 0 where
    pub returned : List ℕ
    pub left : List ℕ
    pub in_order : is ≡ returned ++ left
    pub bound : All (Rebinds s s' (ok tt)) returned
    pub end : Ending s s' r left
    pub others : (j : ℕ) → (member j is ≡ true) ⊎ (s'.store j ≡ s1.store j)
    pub registered : s'.adapters ≡ s1.adapters
    pub connected : s'.threads ≡ s1.threads

  abbrev Agree : (s s1 : Collection K A) → List ℕ → Type 0
  Agree s s1 is = All (λ j. s1.store j ≡ s.store j) is

  assign-Agree :
      (s s1 : Collection K A) (i : ℕ) (a : A) (is : List ℕ)
      → member i is ≡ false
      → Agree s s1 is
      → All (λ j. assign i a s1.store j ≡ s.store j) is
  assign-Agree s s1 i a [] apart h = tt
  assign-Agree s s1 i a (j ∷ js) apart h =
      let (here, later) = neither (same j i) (member i js) apart in
      (rw here h.0, assign-Agree s s1 i a js later h.1)
    where
      neither : (b c : Bool) → (if b then true else c) ≡ false → (b ≡ false) × (c ≡ false)
      neither true c e = absurd cc
      neither false c e = (refl, e)

  module _
      (kept : (i : InterfaceBase D B) (a : A) → slot.interface (slot.with_interface i a) ≡ i) where
    -- What the first adapter sees at the end, when no later step touches it.
    first-Rebinds :
        (s s1 s' : Collection K A) (i : ℕ) (r : Result (Unit {0}))
        → s1.store i ≡ s.store i
        → (rebind slot bind new i s1).0 ≡ r
        → s'.store i ≡ (rebind slot bind new i s1).1.store i
        → Rebinds s s' r i
    first-Rebinds s s1 s' i r same_now ended final = (
      ap (λ a. (bind new (slot.interface a).bindings).0) (sym same_now) ∙ ended,
      ap slot.interface final
          ∙ ap slot.interface (assign_self i _ s1.store)
          ∙ kept _ (s1.store i)
          ∙ ap
              (λ a. record {
                device = some new;
                bindings = (bind new (slot.interface a).bindings).1;
              })
              same_now,
    )

    elsewhere :
        (i : ℕ) (s1 : Collection K A) (j : ℕ) {x : A}
        → (same i j ≡ true) ⊎ (x ≡ (rebind slot bind new i s1).1.store j → x ≡ s1.store j)
    elsewhere i s1 j = elim (Bool-cases (same j i)) [
      | inl equal ↦ inl ((==_iff i j).1 (sym ((==_iff j i).0 equal)))
      | inr differ ↦ inr (λ e. e ∙ rw differ refl)
    ]

    first_others :
        (i : ℕ) (is : List ℕ) (s1 : Collection K A) (j : ℕ)
        → (member j (i ∷ is) ≡ true) ⊎ ((rebind slot bind new i s1).1.store j ≡ s1.store j)
    first_others i is s1 j = widen i is j (inr refl) (elsewhere i s1 j)

    -- The rest of the loop, after the first adapter.
    after_first :
        (i : ℕ) (is : List ℕ) (s s1 : Collection K A) (r : Result (Unit {0}))
        → member i is ≡ false
        → s1.store i ≡ s.store i
        → Agree s s1 is
        → (rebind slot bind new i s1).0 ≡ r
        → ((s2 : Collection K A)
            → Agree s s2 is
            → Rebound is
                (for_each (rebind slot bind new) is s2).0
                s
                s2
                (for_each (rebind slot bind new) is s2).1)
        → Rebound
            (i ∷ is)
            (continue
              (λ _. for_each (rebind slot bind new) is)
              (r, (rebind slot bind new i s1).1)).0
            s
            s1
            (continue
              (λ _. for_each (rebind slot bind new) is)
              (r, (rebind slot bind new i s1).1)).1
    after_first i is s s1 (err x) apart here agree ended rest = record {
      returned = [];
      left = i ∷ is;
      in_order = refl;
      bound = tt;
      end = (
        x,
        refl,
        first-Rebinds s s1 (rebind slot bind new i s1).1 i (err x) here ended refl,
        assign-Agree s s1 i _ is apart agree,
      );
      others = first_others i is s1;
      registered = refl;
      connected = refl;
    }
    after_first i is s s1 (ok tt) apart here agree ended rest =
        let later = rest (rebind slot bind new i s1).1 (assign-Agree s s1 i _ is apart agree) in
        record {
          returned = i ∷ later.returned;
          left = later.left;
          in_order = ap (λ js. i ∷ js) later.in_order;
          bound = (
            first-Rebinds s s1 (for_each (rebind slot bind new) is (rebind slot bind new i s1).1).1
                i (ok tt) here ended (untouched is i apart (later.others i)),
            later.bound,
          );
          end = later.end;
          others = λ j. widen i is j (later.others j) (elsewhere i s1 j);
          registered = later.registered;
          connected = later.connected;
        }

    for_each-Rebound :
        (is : List ℕ) (s s1 : Collection K A)
        → Distinct is
        → Agree s s1 is
        → Rebound is
            (for_each (rebind slot bind new) is s1).0
            s
            s1
            (for_each (rebind slot bind new) is s1).1
    for_each-Rebound [] s s1 distinct agree = record {
      returned = [];
      left = [];
      in_order = refl;
      bound = tt;
      end = refl;
      others = λ j. inr refl;
      registered = refl;
      connected = refl;
    }
    for_each-Rebound (i ∷ is) s s1 distinct agree =
        after_first i is s s1 (rebind slot bind new i s1).0 distinct.0 agree.0 agree.1 refl
          (λ s2 agree2. for_each-Rebound is s s2 distinct.1 agree2)

    unchanged : (s : Collection K A) (is : List ℕ) → Agree s s is
    unchanged s [] = tt
    unchanged s (i ∷ is) = (refl, unchanged s is)

module _ {K A D B : Type 0} (slot : Slot A D B) (bind : D → Exec B (Unit {0})) where
  -- What switching may do: nothing, where the device cannot be created; or the simulation has
  -- the new device, and its adapters are rebound up to one that raised, if any.
  abbrev pub Switched :
      {n : Number} → Result D → Result (Unit {0}) → (s s' : Simulation n (Parts K A D)) → Type 0
  Switched (err x) r s s' = (r ≡ err x) × (s' ≡ s)
  Switched (ok new) r s s' =
      (s' ≡ record s { device = record { device = new; adapters = s'.device.adapters } })
      × Rebound slot bind new (values s.device.adapters.adapters) r s.device.adapters
          s.device.adapters s'.device.adapters

  module _ {n : Number}
      (kept : (i : InterfaceBase D B) (a : A) → slot.interface (slot.with_interface i a) ≡ i) where
    created-Switched :
        (created : Result D) (s : Simulation n (Parts K A D))
        → Distinct (values s.device.adapters.adapters)
        → Switched created
            (with_created slot bind created s).0
            s
            (with_created slot bind created s).1
    unfolding set_device
    created-Switched (err x) s distinct = (refl, refl)
    created-Switched (ok new) s distinct = (
      refl,
      for_each-Rebound slot bind new kept _ s.device.adapters s.device.adapters distinct
          (unchanged slot bind new kept s.device.adapters _),
    )

    -- Where the builder cannot create the device, switching the setup raises what the builder raises
    -- and changes nothing. Otherwise the simulation has the new device, also where an interface
    -- raises while it is bound: the adapters, no two of which are the same, are bound to the new device
    -- in order; where the binding of one raises, that is raised, its interface refers to the new device,
    -- and all after it are as before. Nothing else changes. It is taken that an adapter keeps the
    -- interface that it is given.
    pub switch_setup-Switched :
        (create_device : Option String → Result D) (new_setup : Option String)
        (s : Simulation n (Parts K A D))
        → Distinct (values s.device.adapters.adapters)
        → Switched
            (create_device new_setup)
            (switch_setup slot bind (some create_device) new_setup s).0
            s
            (switch_setup slot bind (some create_device) new_setup s).1
    unfolding switch_setup
    switch_setup-Switched create_device new_setup s distinct =
        created-Switched (create_device new_setup) s distinct
