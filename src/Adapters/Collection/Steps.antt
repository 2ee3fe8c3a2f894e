-- ===== src/Adapters/Collection/Steps.antt =====
-- `_start_server` and `_stop_server` of lewis/core/adapters.py have their effects on one adapter.
use lewis.Common.{
  ℕ, Bool, true, false, Option, none, some, [], ◌∷◌, Result, ok, err, ◌≡◌, refl, ap, sym, subst,
  ◌∙◌, if◌then◌else◌, ◌==◌ as same, ==_iff, Bool-cases, inl, inr,
}
use lewis.Common.Dict.{
  Keyed, get, contains, insert, delete, ◌==◌, get-insert, contains-insert, insert-DistinctKeys,
  delete-DistinctKeys, get-delete, contains-delete_lem, contains-get, beq_refl,
}
use lewis.Adapters.Class.{AdapterClass, AdapterLaws}
use lewis.Adapters.Collection.{Thread, Collection, assign, start_adapter, stop_adapter, begin_loop}
use lewis.Adapters.Collection.Invariant.{IsSound, Registered, replace-IsSound}
use lewis.Adapters.Collection.Effects.{Effects, Works}

one_test : (b to x : Bool) → (if b then to else x) ≡ (if (if b then true else false) then to else x)
one_test true to x = refl
one_test false to x = refl

some_eq : {X : Type 0} {x y : X} → some x ≡ some y → x ≡ y
some_eq h = cc

none-some : {X : Type 0} {x : X} → ◌≡◌ {A = Option X} none (some x) → ⊥
none-some h = cc

module _ {K A : Type 0} ⦃e : Keyed K⦄ (c : AdapterClass K A) (laws : AdapterLaws K A c) where
  assign-protocol :
      (i : ℕ) (s : Collection K A) (a : A)
      → c.protocol a ≡ c.protocol (s.store i)
      → (j : ℕ) → c.protocol (assign i a s.store j) ≡ c.protocol (s.store j)
  assign-protocol i s a keeps j = elim (Bool-cases (same j i)) [
    | inl this ↦ rw this (keeps ∙ ap (λ k. c.protocol (s.store k)) (sym ((==_iff j i).0 this)))
    | inr differs ↦ rw differs refl
  ]

  -- What `serving` of the invariant asks of a thread.
  abbrev Serves : Collection K A → K → Thread → Type 0
  Serves s q t = (get q s.adapters ≡ some t.adapter) × (t.alive ≡ true)

  serving-insert :
      (i : ℕ) (s : Collection K A)
      → IsSound c s
      → Registered c s i
      → (t : Thread) → t.adapter ≡ i
      → t.alive ≡ true
      → (q : K) (t' : Thread) → get q (insert (c.protocol (s.store i)) t s.threads) ≡ some t'
      → Serves s q t'
  serving-insert i s sound reg t for_i lives q t' found =
      elim (Bool-cases (c.protocol (s.store i) == q)) [
        | inl this ↦
            subst (λ k. Serves s k t') ((e.key_iff (c.protocol (s.store i)) q).0 this)
              (subst (Serves s (c.protocol (s.store i))) {x = t}
                (some_eq
                  (sym (get-insert (c.protocol (s.store i)) q t s.threads ∙ rw this refl) ∙ found))
                (rw for_i reg, lives))
        | inr other ↦
            sound.serving q t'
              (sym (get-insert (c.protocol (s.store i)) q t s.threads ∙ rw other refl) ∙ found)
      ]

  serving-delete :
      (s : Collection K A)
      → IsSound c s
      → (p q : K) (t' : Thread) → get q (delete p s.threads) ≡ some t'
      → Serves s q t'
  serving-delete s sound p q t' found = elim (Bool-cases (p == q)) [
    | inl this ↦
        absurd (none-some (sym (get-delete p q s.threads sound.distinct ∙ rw this refl) ∙ found))
    | inr other ↦
        sound.serving q t' (sym (get-delete p q s.threads sound.distinct ∙ rw other refl) ∙ found)
  ]

  -- The thread of an adapter that was not connected.
  begin_loop-Effects :
      (i : ℕ) (s : Collection K A)
      → IsSound c s
      → Registered c s i
      → (r : Result (Unit {0}) × A) → c.protocol r.1 ≡ c.protocol (s.store i)
      → (r.0 ≡ ok tt → c.is_running r.1 ≡ true)
      → (begin_loop (c.protocol (s.store i)) i r s).0 ≡ ok tt
      → Effects c true (i ∷ []) s (begin_loop (c.protocol (s.store i)) i r s).1
  begin_loop-Effects i s sound reg (err x, a) keeps runs done = absurd (cc done)
  begin_loop-Effects i s sound reg (ok u, a) keeps runs done =
      let p = c.protocol (s.store i) in
      let t : Thread = record { adapter = i; alive = true; running = true } in
      record {
        sound =
            replace-IsSound c s sound i reg a (insert p t s.threads) keeps
              (runs refl ∙ sym (contains-insert p p t s.threads ∙ rw (beq_refl p) refl))
              (λ q apart. contains-insert p q t s.threads ∙ rw apart refl)
              (serving-insert i s sound reg t refl refl)
              (insert-DistinctKeys p t s.threads sound.distinct);
        adapters = refl;
        protocols = assign-protocol i s a keeps;
        threads =
            λ q. contains-insert p q t s.threads ∙ one_test (p == q) true (contains q s.threads);
      }

  -- Nothing is left to do for an adapter that is connected, or not.
  unchanged-Effects :
      (to : Bool) (i : ℕ) (s : Collection K A)
      → IsSound c s
      → contains (c.protocol (s.store i)) s.threads ≡ to
      → Effects c to (i ∷ []) s s
  unchanged-Effects to i s sound is = record {
    sound = sound;
    adapters = refl;
    protocols = λ j. refl;
    threads = λ q. elim (Bool-cases (c.protocol (s.store i) == q)) [
      | inl this ↦ rw this (
          subst (λ k. contains k s.threads ≡ to) ((e.key_iff (c.protocol (s.store i)) q).0 this) is)
      | inr other ↦ rw other refl
    ];
  }

  pub start-Works : Works c true (start_adapter c)
  unfolding start_adapter
  start-Works i s sound reg done = elim (Bool-cases (contains (c.protocol (s.store i)) s.threads)) [
    | inl there ↦ rw there (unchanged-Effects true i s sound there)
    | inr absent ↦ rw absent (
        begin_loop-Effects i s sound reg (c.start_server (c.give_lock (s.store i)))
          (laws.start_protocol (c.give_lock (s.store i)) ∙ laws.lock_protocol (s.store i))
          (laws.start_runs (c.give_lock (s.store i))) (rw absent at done))
  ]

  end_loop-Effects :
      (i : ℕ) (s : Collection K A)
      → IsSound c s
      → Registered c s i
      → Effects c false (i ∷ []) s (record s {
        threads = delete (c.protocol (s.store i)) s.threads;
        store = assign i (c.stop_server (s.store i)).1 s.store;
      })
  end_loop-Effects i s sound reg =
      let p = c.protocol (s.store i) in
      record {
        sound =
            replace-IsSound c s sound i reg (c.stop_server (s.store i)).1 (delete p s.threads)
              (laws.stop_protocol (s.store i))
              (laws.stop_stops (s.store i)
                ∙ sym (contains-delete_lem p p s.threads sound.distinct ∙ rw (beq_refl p) refl))
              (λ q apart. contains-delete_lem p q s.threads sound.distinct ∙ rw apart refl)
              (serving-delete s sound p) (delete-DistinctKeys p s.threads sound.distinct);
        adapters = refl;
        protocols =
            assign-protocol i s (c.stop_server (s.store i)).1 (laws.stop_protocol (s.store i));
        threads = λ q.
            contains-delete_lem p q s.threads sound.distinct
            ∙ one_test (p == q) false (contains q s.threads);
      }

  pub stop-Works : Works c false (stop_adapter c)
  unfolding stop_adapter
  stop-Works i s sound reg done = elim (Bool-cases (contains (c.protocol (s.store i)) s.threads)) [
    | inl there ↦ rw there (
        let (t, found) = contains-get (c.protocol (s.store i)) s.threads there in
        let (here, lives) = sound.serving (c.protocol (s.store i)) t found in
        rw found (rw lives (rw (some_eq (sym here ∙ reg)) (end_loop-Effects i s sound reg))))
    | inr absent ↦ rw absent (unchanged-Effects false i s sound absent)
  ]
