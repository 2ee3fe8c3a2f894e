-- ===== src/Common/Dict/Laws.antt =====
-- What a lookup sees after each operation on a dict.
use lewis.Common.{
  ◌≡◌, refl, true, false, some, none, [], ◌∷◌, ◌++◌, arith, if◌then◌else◌, Bool-cases, inl, inr,
}
use lewis.Common.Dict.Defs.{Keyed, Dict, get, contains, insert, delete, member, keys, ◌==◌}

module _ {ℓ κ} {K : Type ℓ} {V : Type κ} ⦃e : Keyed K⦄ where
  pub get-insert :
      (k j : K) (v : V) (d : Dict K V) → get j (insert k v d) ≡ (if k == j then some v else get j d)
  get-insert k j v [] = refl
  get-insert k j v (i ∷ d) =
      ground (arith, e.key_iff i.0 k, e.key_iff i.0 j, e.key_iff k j, get-insert k j v d)

  pub contains-insert :
      (k j : K) (v : V) (d : Dict K V)
      → contains j (insert k v d) ≡ (if k == j then true else contains j d)
  contains-insert k j v [] = refl
  contains-insert k j v (i ∷ d) =
      ground (arith, e.key_iff i.0 k, e.key_iff i.0 j, e.key_iff k j, contains-insert k j v d)

  pub member-keys : (k : K) (d : Dict K V) → member k (keys d) ≡ contains k d
  member-keys k [] = refl
  member-keys k (i ∷ d) = ground (arith, member-keys k d)

  pub contains-get : (k : K) (d : Dict K V) → contains k d ≡ true → (v : V) × (get k d ≡ some v)
  contains-get k [] h = absurd (cc h)
  contains-get k (i ∷ d) h = elim (Bool-cases (i.0 == k)) [
    | inl here ↦ (i.1, rw here)
    | inr later ↦ let (v, found) = contains-get k d (rw later at h) in (v, rw later found)
  ]

  pub contains-append :
      (k : K) (d d' : Dict K V)
      → contains k (d ++ d') ≡ (if contains k d then true else contains k d')
  contains-append k [] d' = refl
  contains-append k (i ∷ d) d' = ground (arith, contains-append k d d')

  pub contains-delete :
      (k j : K) (d : Dict K V) → contains j (delete k d) ≡ true → contains j d ≡ true
  contains-delete k j [] h = h
  contains-delete k j (i ∷ d) h = ground (arith, contains-delete k j d)

-- No key occurs twice.
abbrev pub DistinctKeys {ℓ κ} : {K : Type ℓ} {V : Type κ} ⦃e : Keyed K⦄ → Dict K V → Type 0
DistinctKeys [] = Unit
DistinctKeys (i ∷ d) = (contains i.0 d ≡ false) × DistinctKeys d

module _ {ℓ κ} {K : Type ℓ} {V : Type κ} ⦃e : Keyed K⦄ where
  pub absent-get : (k : K) (d : Dict K V) → contains k d ≡ false → get k d ≡ none
  absent-get k [] h = refl
  absent-get k (i ∷ d) h = ground (arith, absent-get k d)

  pub get-contains : (k : K) (d : Dict K V) (v : V) → get k d ≡ some v → contains k d ≡ true
  get-contains k [] v h = absurd (cc h)
  get-contains k (i ∷ d) v h = ground (arith, get-contains k d v)

  pub insert-DistinctKeys :
      (k : K) (v : V) (d : Dict K V) → DistinctKeys d → DistinctKeys (insert k v d)
  insert-DistinctKeys k v [] u = (refl, tt)
  insert-DistinctKeys k v (i ∷ d) u = elim (Bool-cases (i.0 == k)) [
    | inl here ↦ rw here u
    | inr later ↦ rw later (
      ground (arith, contains-insert k i.0 v d, e.key_iff i.0 k, e.key_iff k i.0),
      insert-DistinctKeys k v d u.1,
    )
  ]

  contains-delete_ne :
      (k j : K) (d : Dict K V) → contains j d ≡ false → contains j (delete k d) ≡ false
  contains-delete_ne k j [] h = h
  contains-delete_ne k j (i ∷ d) h = ground (arith, contains-delete_ne k j d)

  pub delete-DistinctKeys : (k : K) (d : Dict K V) → DistinctKeys d → DistinctKeys (delete k d)
  delete-DistinctKeys k [] u = tt
  delete-DistinctKeys k (i ∷ d) u = elim (Bool-cases (i.0 == k)) [
    | inl here ↦ rw here u.1
    | inr later ↦ rw later (contains-delete_ne k i.0 d u.0, delete-DistinctKeys k d u.1)
  ]

  pub get-delete :
      (k j : K) (d : Dict K V)
      → DistinctKeys d
      → get j (delete k d) ≡ (if k == j then none else get j d)
  get-delete k j [] u = ground arith
  get-delete k j (i ∷ d) u =
      ground
        (arith, e.key_iff i.0 k, e.key_iff i.0 j, e.key_iff k j, get-delete k j d, absent-get i.0 d)

  pub contains-delete_lem :
      (k j : K) (d : Dict K V)
      → DistinctKeys d
      → contains j (delete k d) ≡ (if k == j then false else contains j d)
  contains-delete_lem k j [] u = ground arith
  contains-delete_lem k j (i ∷ d) u =
      ground (arith, e.key_iff i.0 k, e.key_iff i.0 j, e.key_iff k j, contains-delete_lem k j d)

pub beq_refl {ℓ} : {K : Type ℓ} ⦃e : Keyed K⦄ (k : K) → (k == k) ≡ true
beq_refl ⦃e⦄ k = (e.key_iff k k).1 refl
