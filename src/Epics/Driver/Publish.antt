-- ===== src/Epics/Driver/Publish.antt =====
-- What clients see after an update of all PVs (lewis/adapters/epics.py).
use lewis.Common.{
  String, Bool, true, false, some, [], ◌∷◌, ◌++◌, Result, ok, ◌||◌, ◌≡◌, refl, ap, sym, subst, ◌∙◌,
  All, if◌then◌else◌, Bool-cases, inl, inr,
}
use lewis.Common.Int.{pos}
use lewis.Common.Dict.{Dict, string_eq, get, insert, contains, ◌==◌, DistinctKeys}
use lewis.Core.Number.{Number, le}
use lewis.Epics.Pv.{BoundPv, get_value, read_meta}
use lewis.Epics.Driver.{
  Pcaspy, thread_lock, check_pv, visit, visit_all, set_params, process_values, process_metas,
  process_pv_updates, meta_update, timer,
}

or_true : (b : Bool) → (b || true) ≡ true
or_true true = refl
or_true false = refl

-- What pcaspy documents of its parameters.
pub record PcaspyLaws (P V : Type 0) (pcaspy : Pcaspy P V) : Type 0 where
  pub get_set :
      (name : String) (v : V) (ps : P) → pcaspy.get_param name (pcaspy.set_param name v ps) ≡ v
  pub get_set_ne :
      (name other : String) (v : V) (ps : P)
      → (name == other) ≡ false
      → pcaspy.get_param other (pcaspy.set_param name v ps) ≡ pcaspy.get_param other ps
  pub get_info :
      (name other : String) (m : V) (ps : P)
      → pcaspy.get_param other (pcaspy.set_param_info name m ps) ≡ pcaspy.get_param other ps
  pub get_update :
      (name : String) (ps : P)
      → pcaspy.get_param name (pcaspy.update_pvs ps) ≡ pcaspy.get_param name ps

module _ {P V : Type 0} (pcaspy : Pcaspy P V) (laws : PcaspyLaws P V pcaspy) where
  set_params_absent :
      (vs : Dict String V) (name : String) (ps : P)
      → contains name vs ≡ false
      → pcaspy.get_param name (set_params pcaspy vs ps) ≡ pcaspy.get_param name ps
  set_params_absent [] name ps h = refl
  set_params_absent (i ∷ vs) name ps h = elim (Bool-cases (i.0 == name)) [
    | inl this ↦ absurd (clash (sym h ∙ rw this refl))
    | inr other ↦
        set_params_absent vs name (pcaspy.set_param i.0 i.1 ps) (sym (rw other refl) ∙ h)
        ∙ laws.get_set_ne i.0 name i.1 ps other
  ]
    where
      clash : false ≡ true → ⊥
      clash e = cc

  set_params-get :
      (vs : Dict String V) (name : String) (v : V) (ps : P)
      → DistinctKeys vs
      → get name vs ≡ some v
      → pcaspy.get_param name (set_params pcaspy vs ps) ≡ v
  set_params-get [] name v ps apart found = absurd (cc found)
  set_params-get (i ∷ vs) name v ps apart found = elim (Bool-cases (i.0 == name)) [
    | inl this ↦
        set_params_absent vs name (pcaspy.set_param i.0 i.1 ps)
          (subst (λ k. contains k vs ≡ false) ((string_eq.key_iff i.0 name).0 this) apart.0)
        ∙ subst (λ k. pcaspy.get_param k (pcaspy.set_param i.0 i.1 ps) ≡ i.1)
            ((string_eq.key_iff i.0 name).0 this) (laws.get_set i.0 i.1 ps)
        ∙ some_eq (sym (rw this refl) ∙ found)
    | inr other ↦
        set_params-get vs name v (pcaspy.set_param i.0 i.1 ps) apart.1 (sym (rw other refl) ∙ found)
  ]
    where
      some_eq : {x y : V} → some x ≡ some y → x ≡ y
      some_eq h = cc

  process_values-get :
      (vs : Dict String V) (name : String) (v : V) (ps : P)
      → DistinctKeys vs
      → get name vs ≡ some v
      → pcaspy.get_param name (process_values pcaspy vs ps) ≡ v
  process_values-get [] name v ps apart found = absurd (cc found)
  process_values-get (i ∷ vs) name v ps apart found =
      laws.get_update name (set_params pcaspy (i ∷ vs) ps)
      ∙ set_params-get (i ∷ vs) name v ps apart found

  process_metas-get :
      (ms : Dict String V) (name : String) (ps : P)
      → pcaspy.get_param name (process_metas pcaspy ms ps) ≡ pcaspy.get_param name ps
  process_metas-get [] name ps = refl
  process_metas-get (i ∷ ms) name ps =
      process_metas-get ms name (pcaspy.set_param_info i.0 i.1 ps) ∙ laws.get_info i.0 name i.1 ps

module _ (n : Number) {P V W : Type 0} (pcaspy : Pcaspy P V) (differs : V → V → Bool) (empty : V)
    (dt : n.R) (w : W) where
  -- The value and the fields of a PV can be read, and reading changes nothing.
  abbrev pub Readable : BoundPv W V n.R → Type 0
  Readable b =
      (v : V) × (m : V) × (get_value b w ≡ (ok v, w)) × (read_meta empty b.meta w ≡ (ok m, w))

  abbrev readings :
      (bound : Dict String (BoundPv W V n.R)) → All (λ i. Readable i.1) bound → Dict String V
  readings [] quiet = []
  readings (i ∷ bound) quiet = (i.0, quiet.0.0) ∷ readings bound quiet.1

  contains-readings :
      (name : String) (bound : Dict String (BoundPv W V n.R))
      (quiet : All (λ i. Readable i.1) bound)
      → contains name (readings bound quiet) ≡ contains name bound
  contains-readings name [] quiet = refl
  contains-readings name (i ∷ bound) quiet =
      ap (λ b. if i.0 == name then true else b) (contains-readings name bound quiet.1)

  readings-DistinctKeys :
      (bound : Dict String (BoundPv W V n.R)) (quiet : All (λ i. Readable i.1) bound)
      → DistinctKeys bound
      → DistinctKeys (readings bound quiet)
  readings-DistinctKeys [] quiet apart = tt
  readings-DistinctKeys (i ∷ bound) quiet apart =
      (contains-readings i.0 bound quiet.1 ∙ apart.0, readings-DistinctKeys bound quiet.1 apart.1)

  value_eq : {x y : V} → ◌≡◌ {A = Result V × W} (ok x, w) (ok y, w) → x ≡ y
  value_eq h = ok_eq (ap (λ r. r.0) h)
    where
      ok_eq : {x y : V} → ok x ≡ ok y → x ≡ y
      ok_eq e = cc

  bound_eq : {b c : BoundPv W V n.R} → some b ≡ some c → b ≡ c
  bound_eq h = cc

  readings-get :
      (name : String) (b : BoundPv W V n.R) (v : V) (bound : Dict String (BoundPv W V n.R))
      (quiet : All (λ i. Readable i.1) bound)
      → get name bound ≡ some b
      → get_value b w ≡ (ok v, w)
      → get name (readings bound quiet) ≡ some v
  readings-get name b v [] quiet found reads = absurd (cc found)
  readings-get name b v (i ∷ bound) quiet found reads = elim (Bool-cases (i.0 == name)) [
    | inl this ↦ rw this (
        ap some (
          value_eq (
            sym quiet.0.2
            ∙ ap (λ x. get_value x w) (bound_eq (sym (rw this refl) ∙ found))
            ∙ reads)))
    | inr other ↦ rw other (readings-get name b v bound quiet.1 (sym (rw other refl) ∙ found) reads)
  ]

  check_reads :
      (ps : P) (name : String) (b : BoundPv W V n.R) (can : Readable b)
      → check_pv pcaspy differs empty true ps name b w
        ≡ (ok ((name, can.0) ∷ [], meta_update pcaspy true ps name can.1), w)
  check_reads ps name b can =
      rw can.2 (rw (or_true (differs (pcaspy.get_param name ps) can.0)) (rw can.2 (rw can.3 refl)))

  visit_reads :
      (ps : P) (name : String) (b : BoundPv W V n.R) (timers : Dict String n.R) (can : Readable b)
      → visit n pcaspy differs empty true dt ps name b (timers, w) ≡ (
        ok ((name, can.0) ∷ [], meta_update pcaspy true ps name can.1),
        (insert name (n.int_of (pos 0)) timers, w),
      )
  visit_reads ps name b timers can =
      rw (or_true (le n b.poll_interval (n.add (timer n (get name timers)) dt)))
        (rw (check_reads ps name b can) refl)

  -- The timers after all PVs were visited, and the fields that were read.
  abbrev Visited : P → Dict String (BoundPv W V n.R) → Dict String n.R → Dict String V → Type 0
  Visited ps bound timers vs =
      (timers' : Dict String n.R) × (ms : Dict String V) × (visit_all n pcaspy differs empty true dt
          ps bound (timers, w)
        ≡ (ok (vs, ms), (timers', w)))

  visits_read :
      (ps : P) (bound : Dict String (BoundPv W V n.R)) (quiet : All (λ i. Readable i.1) bound)
      (timers : Dict String n.R)
      → Visited ps bound timers (readings bound quiet)
  visits_read ps [] quiet timers = (timers, [], refl)
  visits_read ps (i ∷ bound) quiet timers =
      let (timers', ms, rest) =
        visits_read ps bound quiet.1 (insert i.0 (n.int_of (pos 0)) timers) in
      (
        timers',
        meta_update pcaspy true ps i.0 quiet.0.1 ++ ms,
        rw (visit_reads ps i.0 i.1 timers quiet.0) (rw rest refl),
      )

  -- A forced update, as the adapter does when it starts, returns, and afterwards the parameter of every
  -- PV is the value that the PV reads: where the PVs can be read without changing anything, and each
  -- has its own name.
  pub process_pv_updates-publishes :
      (laws : PcaspyLaws P V pcaspy) (bound : Dict String (BoundPv W V n.R)) (ps : P)
      (timers : Dict String n.R)
      → DistinctKeys bound
      → All (λ i. Readable i.1) bound
      → (name : String) (b : BoundPv W V n.R) (v : V) → get name bound ≡ some b
      → get_value b w ≡ (ok v, w)
      → ((process_pv_updates n pcaspy differs empty true dt thread_lock bound ps (timers, w)).0
          ≡ ok tt)
        × (pcaspy.get_param name
              (process_pv_updates n pcaspy differs empty true dt thread_lock bound ps (timers, w)).1
            ≡ v)
  unfolding process_pv_updates
  process_pv_updates-publishes laws bound ps timers apart quiet name b v found reads =
      let (timers', ms, visited) = visits_read ps bound quiet timers in
      rw visited (
        refl,
        process_metas-get pcaspy laws ms name (process_values pcaspy (readings bound quiet) ps)
            ∙ process_values-get pcaspy laws (readings bound quiet) name v ps
                (readings-DistinctKeys bound quiet apart)
                (readings-get name b v bound quiet found reads),
      )
