-- ===== src/Adapters/Collection/Invariant.antt =====
-- What holds of a collection between calls (lewis/core/adapters.py), and that starting and stopping
-- one adapter preserve it.
use lewis.Common.{
  ℕ, true, false, some, ◌≡◌, refl, ap, sym, ◌∙◌, ◌==◌ as same, ==_iff, Bool-cases, inl, inr, arith,
}
use lewis.Common.Dict.{Keyed, Dict, get, contains, ◌==◌, DistinctKeys}
use lewis.Adapters.Class.{AdapterClass}
use lewis.Adapters.Collection.{Thread, Collection, assign}

module _ {K A : Type 0} ⦃e : Keyed K⦄ (c : AdapterClass K A) where
  -- Adapters are registered under their protocol, each thread serves the adapter that is registered
  -- under its key, and the adapters that run are those that have a thread.
  pub record IsSound (s : Collection K A) : Type 0 where
    pub registered : (p : K) (i : ℕ) → get p s.adapters ≡ some i → c.protocol (s.store i) ≡ p
    pub running :
        (p : K) (i : ℕ)
        → get p s.adapters ≡ some i
        → c.is_running (s.store i) ≡ contains p s.threads
    pub serving :
        (p : K) (t : Thread)
        → get p s.threads ≡ some t
        → (get p s.adapters ≡ some t.adapter) × (t.alive ≡ true)
    pub distinct : DistinctKeys s.threads

  -- A registered adapter.
  abbrev pub Registered : Collection K A → ℕ → Type 0
  Registered s i = get (c.protocol (s.store i)) s.adapters ≡ some i

  assign_self : (i : ℕ) (a : A) (store : ℕ → A) → assign i a store i ≡ a
  assign_self i a store = rw ((==_iff i i).1 refl) refl

  assign_ne : (i j : ℕ) (a : A) (store : ℕ → A) → same j i ≡ false → assign i a store j ≡ store j
  assign_ne i j a store h = rw h refl

  module _ (s : Collection K A) (ok_s : IsSound s) (i : ℕ) (reg : Registered s i) where
    same_ref : (j : ℕ) → same j i ≡ true → j ≡ i
    same_ref j e = (==_iff j i).0 e

    registered_ref : (j : ℕ) → get (c.protocol (s.store i)) s.adapters ≡ some j → j ≡ i
    registered_ref j found = cc

    -- Another adapter has another protocol.
    other_protocol :
        (q : K) (j : ℕ)
        → get q s.adapters ≡ some j
        → same j i ≡ false
        → (c.protocol (s.store i) == q) ≡ false
    other_protocol q j found differs = elim (Bool-cases (c.protocol (s.store i) == q)) [
      | inl equal ↦
          let q_is = (e.key_iff (c.protocol (s.store i)) q).0 equal in
          absurd (clash (registered_ref j (rw q_is found)) differs)
      | inr apart ↦ apart
    ]
      where
        clash : {n m : ℕ} → n ≡ m → same n m ≡ false → ⊥
        clash {n = n} {m = m} h k = ground (arith, ==_iff n m)

    -- The adapter and the threads change, for the protocol of this adapter only.
    pub replace-IsSound :
        (a : A) (threads : Dict K Thread)
        → c.protocol a ≡ c.protocol (s.store i)
        → c.is_running a ≡ contains (c.protocol (s.store i)) threads
        → ((q : K)
            → (c.protocol (s.store i) == q) ≡ false
            → contains q threads ≡ contains q s.threads)
        → ((q : K) (t : Thread)
            → get q threads ≡ some t
            → (get q s.adapters ≡ some t.adapter) × (t.alive ≡ true))
        → DistinctKeys threads
        → IsSound (record s { threads = threads; store = assign i a s.store })
    replace-IsSound a threads keeps runs others serves apart = record {
      registered = λ q j found. elim (Bool-cases (same j i)) [
        | inl this ↦ rw this (
            keeps
            ∙ ap (λ k. c.protocol (s.store k)) (sym (same_ref j this))
            ∙ ok_s.registered q j found)
        | inr differs ↦ rw differs (ok_s.registered q j found)
      ];
      running = λ q j found. elim (Bool-cases (same j i)) [
        | inl this ↦ rw this (
            runs
            ∙ ap (λ k. contains k threads)
                (ap (λ k. c.protocol (s.store k)) (sym (same_ref j this))
                  ∙ ok_s.registered q j found))
        | inr differs ↦
            rw differs (ok_s.running q j found ∙ sym (others q (other_protocol q j found differs)))
      ];
      serving = serves;
      distinct = apart;
    }
