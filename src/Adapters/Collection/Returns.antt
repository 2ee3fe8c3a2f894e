-- ===== src/Adapters/Collection/Returns.antt =====
-- Stopping adapters returns (lewis/core/adapters.py).
use lewis.Common.{
  ℕ, true, List, [], ◌∷◌, Result, ok, err, Exec, continue, ◌≡◌, refl, Bool-cases, inl, inr,
}
use lewis.Common.Dict.{Keyed, Dict, contains, keys, contains-get, beq_refl, ◌==◌}
use lewis.Core.Limits.{both}
use lewis.Adapters.Class.{AdapterClass}
use lewis.Adapters.Collection.{
  Collection, stop_adapter, for_each, get_adapters, items, all_registered, disconnect,
}

module _ {K A : Type 0} ⦃e : Keyed K⦄ (c : AdapterClass K A) where
  stop_adapter-returns : (i : ℕ) (s : Collection K A) → (stop_adapter c i s).0 ≡ ok tt
  unfolding stop_adapter
  stop_adapter-returns i s = elim (Bool-cases (contains (c.protocol (s.store i)) s.threads)) [
    | inl there ↦ rw there refl
    | inr absent ↦ rw absent refl
  ]

  continue-returns :
      (r : Result (Unit {0}) × Collection K A) (next : Exec (Collection K A) (Unit {0}))
      → r.0 ≡ ok tt
      → ((s : Collection K A) → (next s).0 ≡ ok tt)
      → (continue (λ _. next) r).0 ≡ ok tt
  continue-returns (ok u, s) next done returns = returns s
  continue-returns (err x, s) next done returns = absurd (cc done)

  stops-return : (is : List ℕ) (s : Collection K A) → (for_each (stop_adapter c) is s).0 ≡ ok tt
  stops-return [] s = refl
  stops-return (i ∷ is) s =
      continue-returns (stop_adapter c i s) (for_each (stop_adapter c) is)
        (stop_adapter-returns i s) (stops-return is)

  items-return :
      (ps : List K) (d : Dict K ℕ)
      → all_registered ps d ≡ true
      → (is : List ℕ) × (items ps d ≡ ok is)
  items-return [] d h = ([], refl)
  items-return (p ∷ ps) d h =
      let (here, later) = both (contains p d) (all_registered ps d) h in
      let (i, found) = contains-get p d here in
      let (is, rest) = items-return ps d later in (i ∷ is, rw found (rw rest refl))

  keys-registered :
      (ks d : Dict K ℕ)
      → ((k : K) → contains k ks ≡ true → contains k d ≡ true)
      → all_registered (keys ks) d ≡ true
  keys-registered [] d all = refl
  keys-registered (i ∷ ks) d all =
      rw (all i.0 (rw (beq_refl i.0) refl)) (keys-registered ks d (λ k h. all k (later i k ks h)))
    where
      later :
          (i : K × ℕ) (k : K) (ks : Dict K ℕ) → contains k ks ≡ true → contains k (i ∷ ks) ≡ true
      later i k ks h = elim (Bool-cases (i.0 == k)) [
        | inl this ↦ rw this refl
        | inr other ↦ rw other h
      ]

  requested-return :
      (args : List K) (d : Dict K ℕ)
      → all_registered args d ≡ true
      → (is : List ℕ) × (get_adapters args d ≡ ok is)
  unfolding get_adapters
  requested-return [] d h = items-return (keys d) d (keys-registered d d (λ k there. there))
  requested-return (p ∷ ps) d h = let (is, found) = items-return (p ∷ ps) d h in (is, rw h found)

  pub disconnect-returns :
      (s : Collection K A) (args : List K)
      → all_registered args s.adapters ≡ true
      → (disconnect c args s).0 ≡ ok tt
  unfolding disconnect
  disconnect-returns s args known =
      let (is, found) = requested-return args s.adapters known in rw found (stops-return is s)
