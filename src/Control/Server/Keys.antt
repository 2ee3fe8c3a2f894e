-- ===== src/Control/Server/Keys.antt =====
-- Which functions of a collection belong to an object, by their names (lewis/core/control_server.py).
use lewis.Common.{
  ℕ, Bool, true, false, some, [], ◌∷◌, ◌++◌, ◌≡◌, refl, ap, sym, subst, ◌∙◌, if◌then◌else◌, ◌||◌,
  Bool-cases, inl, inr, arith, append_assoc, All, ◌==◌ as same, ==_iff,
}
use lewis.Common.Dict.{
  Dict, get, contains, insert, delete, ◌==◌, get-insert, contains-insert, beq_refl,
}
use lewis.Control.Names.{
  Name, name_eq, name_test, name_test_eq, startswith, colon, dot, startswith-append, append_test,
}
use lewis.Control.Server.{full_name, belongs}

-- No function belongs to an object of that name.
abbrev pub Unused : {V : Type 0} → Name → Dict Name V → Type 0
Unused name [] = Unit
Unused name (i ∷ d) = (belongs name i.0 ≡ false) × Unused name d

starts-own : (name m : Name) (c : ℕ) → startswith (name ++ (c ∷ m)) (name ++ (c ∷ [])) ≡ true
starts-own name m c =
    subst (λ s. startswith s (name ++ (c ∷ [])) ≡ true) (append_assoc name (c ∷ []) m)
      (startswith-append (name ++ (c ∷ [])) m)

or_right : (a b : Bool) → b ≡ true → (a || b) ≡ true
or_right true b h = refl
or_right false b h = h

pub belongs-full_name : (name m : Name) → belongs name (full_name name m) ≡ true
belongs-full_name name [] = rw (starts-own name [] dot) refl
belongs-full_name name (c ∷ cs) = elim (Bool-cases (same c colon)) [
  | inl e ↦ rw e (
      or_right _ _ (
        subst (λ d. startswith (name ++ (d ∷ cs)) (name ++ (colon ∷ [])) ≡ true)
          (sym ((==_iff c colon).0 e)) (starts-own name cs colon)))
  | inr e ↦ rw e (rw (starts-own name (c ∷ cs) dot) refl)
]

colon_differs :
    (m n : Name)
    → startswith m (colon ∷ []) ≡ true
    → startswith n (colon ∷ []) ≡ false
    → name_test m n ≡ false
colon_differs [] n h k = absurd (cc h)
colon_differs (c ∷ cs) [] h k = refl
colon_differs (c ∷ cs) (d ∷ ds) h k = ground arith

colon_not_dot :
    (m n : Name)
    → startswith m (colon ∷ []) ≡ true
    → (name_test m (dot ∷ n) ≡ false) × (name_test (dot ∷ n) m ≡ false)
colon_not_dot [] n h = absurd (cc h)
colon_not_dot (c ∷ cs) n h = ground arith

name_test_sym : (a b : Name) → name_test a b ≡ false → name_test b a ≡ false
name_test_sym [] [] h = h
name_test_sym [] (d ∷ ds) h = refl
name_test_sym (c ∷ cs) [] h = refl
name_test_sym (c ∷ cs) (d ∷ ds) h = ground (arith, name_test_sym cs ds)

pub full_name_test :
    (name m n : Name) → name_test (full_name name m) (full_name name n) ≡ name_test m n
full_name_test name m n = elim (Bool-cases (startswith m (colon ∷ []))) [
  | inl a ↦ elim (Bool-cases (startswith n (colon ∷ []))) [
    | inl b ↦ rw a (rw b (append_test name m n))
    | inr b ↦ rw a (
        rw b (append_test name m (dot ∷ n) ∙ (colon_not_dot m n a).0 ∙ sym (colon_differs m n a b)))
  ]
  | inr a ↦ elim (Bool-cases (startswith n (colon ∷ []))) [
    | inl b ↦ rw a (
        rw b (
          append_test name (dot ∷ m) n
          ∙ (colon_not_dot n m b).1
          ∙ sym (name_test_sym n m (colon_differs n m b a))))
    | inr b ↦ rw a (rw b (append_test name (dot ∷ m) (dot ∷ n)))
  ]
]

belongs_differs :
    (name a b : Name) → belongs name a ≡ false → belongs name b ≡ true → name_test a b ≡ false
belongs_differs name a b h k = elim (Bool-cases (name_test a b)) [
  | inl equal ↦ absurd (clash (sym h ∙ ap (belongs name) (name_test_eq a b equal) ∙ k))
  | inr apart ↦ apart
]
  where
    clash : false ≡ true → ⊥
    clash e = cc

-- All functions belong to the object.
abbrev pub Own : {V : Type 0} → Name → Dict Name V → Type 0
Own name ext = All (λ i. belongs name i.0 ≡ true) ext

module _ {V : Type 0} where
  -- A function of the object goes behind those of others.
  pub insert-Unused :
      (name k : Name) (v : V) (base ext : Dict Name V)
      → Unused name base
      → belongs name k ≡ true
      → insert k v (base ++ ext) ≡ base ++ insert k v ext
  insert-Unused name k v [] ext free mine = refl
  insert-Unused name k v (i ∷ base) ext free mine =
      rw (belongs_differs name i.0 k free.0 mine)
        (ap (λ d. i ∷ d) (insert-Unused name k v base ext free.1 mine))

  pub delete-Unused :
      (name k : Name) (base ext : Dict Name V)
      → Unused name base
      → belongs name k ≡ true
      → delete k (base ++ ext) ≡ base ++ delete k ext
  delete-Unused name k [] ext free mine = refl
  delete-Unused name k (i ∷ base) ext free mine =
      rw (belongs_differs name i.0 k free.0 mine)
        (ap (λ d. i ∷ d) (delete-Unused name k base ext free.1 mine))

  pub insert-Own :
      (name k : Name) (v : V) (ext : Dict Name V)
      → Own name ext
      → belongs name k ≡ true
      → Own name (insert k v ext)
  insert-Own name k v [] own mine = (mine, tt)
  insert-Own name k v (i ∷ ext) own mine = elim (Bool-cases (i.0 == k)) [
    | inl here ↦ rw here own
    | inr later ↦ rw later (own.0, insert-Own name k v ext own.1 mine)
  ]

  pub delete-insert :
      (k : Name) (v : V) (d : Dict Name V) → contains k d ≡ false → delete k (insert k v d) ≡ d
  delete-insert k v [] h = rw (beq_refl k) refl
  delete-insert k v (i ∷ d) h = elim (Bool-cases (i.0 == k)) [
    | inl here ↦ absurd (clash (sym h ∙ rw here refl))
    | inr later ↦
        rw later (rw later (ap (λ r. i ∷ r) (delete-insert k v d (sym (rw later refl) ∙ h))))
  ]
    where
      clash : false ≡ true → ⊥
      clash e = cc

  pub contains-insert_self : (k : Name) (v : V) (d : Dict Name V) → contains k (insert k v d) ≡ true
  contains-insert_self k v d = contains-insert k k v d ∙ rw (beq_refl k) refl

  pub get-insert_full :
      (name m n : Name) (v : V) (d : Dict Name V)
      → get (full_name name n) (insert (full_name name m) v d)
        ≡ (if name_test m n then some v else get (full_name name n) d)
  get-insert_full name m n v d =
      get-insert (full_name name m) (full_name name n) v d ∙ rw (full_name_test name m n) refl
