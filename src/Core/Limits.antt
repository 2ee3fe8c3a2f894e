-- ===== src/Core/Limits.antt =====
-- `check_limits` and `dict_strict_update` of lewis/core/utils.py.
use lewis.Common.{
  Bool, true, false, Option, none, some, [], ◌∷◌, ok, err, limit_violation, runtime_error, Exec,
  ◌≡◌, refl, sym, ◌∙◌, subst, ◌&&◌, if◌then◌else◌, not, ap, arith, Bool-cases, ◌⊎◌, inl, inr,
}
use lewis.Common.Dict.{
  Keyed, Dict, ◌==◌, contains, insert, get, get-insert, contains-insert, beq_refl, DistinctKeys,
  absent-get,
}
use lewis.Core.Number.{Number, le}

module _ (n : Number) where
  -- `lower` and `upper` of the decorator: None, a number, or the name of an attribute of the object.
  pub data Limit (S : Type 0) : Type 0 where
    unlimited : Limit S
    fixed : n.R → Limit S
    attribute : (S → Option n.R) → Limit S

  abbrev pub limit_of : {S : Type 0} → Limit S → S → Option n.R
  limit_of unlimited obj = none
  limit_of (fixed x) obj = some x
  limit_of (attribute f) obj = f obj

  -- `lower is None or lower <= new_value`
  abbrev pub above : Option n.R → n.R → Bool
  above none v = true
  above (some l) v = le n l v

  abbrev pub below : Option n.R → n.R → Bool
  below none v = true
  below (some u) v = le n v u

  abbrev pub within : {S : Type 0} → Limit S → Limit S → S → n.R → Bool
  within lower upper obj v = above (limit_of lower obj) v && below (limit_of upper obj) v

  -- `limit_checked`
  unfoldable pub check_limits :
      {S : Type 0} → Limit S → Limit S → Bool → (n.R → Exec S (Unit {0})) → n.R → Exec S (Unit {0})
  check_limits lower upper silent f v obj =
      if within lower upper obj v
      then f v obj
      else if not silent
      then (err limit_violation, obj)
      else (ok tt, obj)

pub both : (a b : Bool) → (a && b) ≡ true → (a ≡ true) × (b ≡ true)
both true b h = (refl, h)
both false b h = cc

abbrev pub or_else : {V : Type 0} → Option V → Option V → Option V
or_else none b = b
or_else (some v) b = some v

module _ {K V : Type 0} ⦃keyed : Keyed K⦄ where
  -- `set(update.keys()) - set(base.keys())`
  abbrev pub all_known : Dict K V → Dict K V → Bool
  all_known base [] = true
  all_known base ((k, v) ∷ rest) = contains k base && all_known base rest

  abbrev pub update : Dict K V → Dict K V → Dict K V
  update base [] = base
  update base ((k, v) ∷ rest) = update (insert k v base) rest

  -- `base_dict` is changed in place: it is the state.
  unfoldable pub dict_strict_update : Dict K V → Exec (Dict K V) (Unit {0})
  dict_strict_update updates base =
      if not (all_known base updates)
      then (err runtime_error, base)
      else (ok tt, update base updates)

  all_known-insert :
      (base updates : Dict K V) (j : K) (v : V)
      → all_known base updates ≡ true
      → all_known (insert j v base) updates ≡ true
  all_known-insert base [] j v h = refl
  all_known-insert base ((k, x) ∷ rest) j v h =
      ground (arith, contains-insert j k v base, all_known-insert base rest j v)

  insert_known :
      (base : Dict K V) (j k : K) (v : V)
      → contains j base ≡ true
      → contains k (insert j v base) ≡ contains k base
  insert_known base j k v h = elim (Bool-cases (j == k)) [
    | inl e ↦
        contains-insert j k v base
        ∙ rw e (subst (λ i. true ≡ contains i base) ((keyed.key_iff j k).0 e) (sym h))
    | inr e ↦ contains-insert j k v base ∙ rw e refl
  ]

  update-contains :
      (base updates : Dict K V) (k : K)
      → all_known base updates ≡ true
      → contains k (update base updates) ≡ contains k base
  update-contains base [] k h = refl
  update-contains base ((j, v) ∷ rest) k h =
      update-contains (insert j v base) rest k (all_known-insert base rest j v (both _ _ h).1)
      ∙ insert_known base j k v (both _ _ h).0

  get-update :
      (base updates : Dict K V) (k : K)
      → DistinctKeys updates
      → get k (update base updates) ≡ or_else (get k updates) (get k base)
  get-update base [] k h = refl
  get-update base ((j, v) ∷ rest) k h =
      get-update (insert j v base) rest k h.1 ∙ elim (Bool-cases (j == k)) [
        | inl e ↦ rw (get-insert j k v base) (
            rw e (
              rw
                (absent-get k rest
                  (subst (λ i. contains i rest ≡ false) ((keyed.key_iff j k).0 e) h.0))
                refl))
        | inr e ↦ rw (get-insert j k v base) (rw e refl)
      ]

  -- Names of the update that the dict does not have.
  unknown :
      (base updates : Dict K V)
      → all_known base updates ≡ false
      → (k : K) × (contains k updates ≡ true) × (contains k base ≡ false)
  unknown base [] h = absurd cc
  unknown base ((k, v) ∷ rest) h = elim (Bool-cases (contains k base)) [
    | inl e ↦
        let (j, among, missing) =
          unknown base rest (sym (ap (λ b. b && all_known base rest) e) ∙ h) in
        (j, ground arith, missing)
    | inr e ↦ (k, rw (beq_refl k) refl, e)
  ]

  -- `dict_strict_update` is all or nothing: when a key of the update is not in the dict it raises
  -- RuntimeError and changes nothing; otherwise the dict has the same keys as before, and the
  -- update's value where the update has one.
  pub dict_strict_update_lem :
      (base updates : Dict K V)
      → DistinctKeys updates
      → ((dict_strict_update updates base ≡ (err runtime_error, base))
          × ((k : K) × (contains k updates ≡ true) × (contains k base ≡ false)))
        ⊎ ((base' : Dict K V) × (dict_strict_update updates base ≡ (ok tt, base'))
            × ((k : K)
                → (contains k base' ≡ contains k base)
                  × (get k base' ≡ or_else (get k updates) (get k base))))
  unfolding dict_strict_update
  dict_strict_update_lem base updates h = elim (Bool-cases (all_known base updates)) [
    | inl e ↦ inr (
      update base updates,
      rw e refl,
      λ k. (update-contains base updates k e, get-update base updates k h),
    )
    | inr e ↦ inl (rw e refl, unknown base updates e)
  ]
