-- ===== src/Control/Server/Objects.antt =====
-- Adding objects to a collection, calling them and removing them (lewis/core/control_server.py).
use lewis.Common.{
  false, Option, none, some, [], ◌∷◌, ◌++◌, ok, ◌>>◌, ◌≡◌, refl, ap, sym, subst, ◌∙◌, Bool-cases,
  inl, inr, append-nil,
}
use lewis.Common.Dict.{Dict, get, contains, insert, keys, absent-get, DistinctKeys, beq_refl}
use lewis.Control.Names.{Name, name_eq, name_test, name_test_eq}
use lewis.Control.Server.{
  Exposed, Entry, Collection, method_entry, full_name, add_methods, add_object, remove_functions,
  remove_object,
}
use lewis.Control.Server.Keys.{
  Unused, Own, belongs-full_name, insert-Unused, delete-Unused, insert-Own, delete-insert,
  contains-insert_self, get-insert_full,
}

module _ {W V : Type 0} where
  add_methods-Unused :
      (name : Name) (x : Exposed W V) (is base ext : Dict Name (Entry W V))
      → Unused name base
      → add_methods name x is (base ++ ext) ≡ base ++ add_methods name x is ext
  add_methods-Unused name x [] base ext free = refl
  add_methods-Unused name x (i ∷ is) base ext free =
      rw
        (insert-Unused name (full_name name i.0) (method_entry x i.1) base ext free
          (belongs-full_name name i.0))
        (add_methods-Unused name x is base (insert (full_name name i.0) (method_entry x i.1) ext)
          free)

  add_methods-Own :
      (name : Name) (x : Exposed W V) (is ext : Dict Name (Entry W V))
      → Own name ext
      → Own name (add_methods name x is ext)
  add_methods-Own name x [] ext own = own
  add_methods-Own name x (i ∷ is) ext own = add_methods-Own name x is _ (
      insert-Own name (full_name name i.0) (method_entry x i.1) ext own
        (belongs-full_name name i.0))

  skip-Unused :
      (name : Name) (base d ext : Dict Name (Entry W V))
      → Unused name base
      → remove_functions name (keys (base ++ ext)) d ≡ remove_functions name (keys ext) d
  skip-Unused name [] d ext free = refl
  skip-Unused name (i ∷ base) d ext free =
      rw (free.0, remove_functions) (skip-Unused name base d ext free.1)

  remove-Own :
      (name : Name) (base ext : Dict Name (Entry W V))
      → Unused name base
      → Own name ext
      → remove_functions name (keys ext) (base ++ ext) ≡ base
  remove-Own name base [] free own = append-nil base
  remove-Own name base (i ∷ ext) free own =
      rw (own.0, remove_functions)
        (ap (remove_functions name (keys ext))
            (delete-Unused name i.0 base (i ∷ ext) free own.0 ∙ rw (beq_refl i.0) refl)
          ∙ remove-Own name base ext free own.1)

  restored :
      (name : Name) (x : Exposed W V) (base : Dict Name (Entry W V))
      → Unused name base
      → remove_functions name
          (keys (add_methods name x x.function_map base))
          (add_methods name x x.function_map base)
        ≡ base
  restored name x base free =
      let ext = add_methods name x x.function_map [] in
      let split : add_methods name x x.function_map base ≡ base ++ ext =
        ap (add_methods name x x.function_map) (sym (append-nil base))
        ∙ add_methods-Unused name x x.function_map base [] free in
      rw split (
        skip-Unused name base (base ++ ext) ext free
        ∙ remove-Own name base ext free (add_methods-Own name x x.function_map [] tt))

  -- An object that is added under a new name, where no function in the collection has a name that starts
  -- with that name and a dot or a colon, is removed without a trace: the collection is as before.
  pub remove-add_object :
      (x : Exposed W V) (name : Name) (s : Collection W V)
      → contains name s.object_map ≡ false
      → Unused name s.function_map
      → (add_object x name >> remove_object name) s ≡ (ok tt, s)
  unfolding add_object remove_object
  remove-add_object x name s new free = rw new (
      rw (contains-insert_self name x s.object_map) (
        rw (restored name x s.function_map free) (rw (delete-insert name x s.object_map new) refl)))

  -- What a method of an added object is found as.
  abbrev found_or : Exposed W V → Option (Entry W V) → Option (Entry W V) → Option (Entry W V)
  found_or x before none = before
  found_or x before (some f) = some (method_entry x f)

  get-add_methods :
      (name : Name) (x : Exposed W V) (is base : Dict Name (Entry W V)) (m : Name)
      → DistinctKeys is
      → get (full_name name m) (add_methods name x is base)
        ≡ found_or x (get (full_name name m) base) (get m is)
  get-add_methods name x [] base m apart = refl
  get-add_methods name x (i ∷ is) base m apart = elim (Bool-cases (name_test i.0 m)) [
    | inl here ↦
        get-add_methods name x is _ m apart.1
        ∙ rw
            (absent-get m is (subst (λ n. contains n is ≡ false) (name_test_eq i.0 m here) apart.0))
            (rw (get-insert_full name i.0 m (method_entry x i.1) base) (rw here refl))
    | inr later ↦ rw later (
        get-add_methods name x is _ m apart.1
        ∙ ap (λ b. found_or x b (get m is))
            (get-insert_full name i.0 m (method_entry x i.1) base ∙ rw later refl))
  ]

  -- After an object was added, its name followed by a dot and one of its methods, or by a method that
  -- begins with a colon, is the name of that method.
  pub add_object-get :
      (x : Exposed W V) (name : Name) (s : Collection W V) (m : Name) (f : Entry W V)
      → contains name s.object_map ≡ false
      → DistinctKeys x.function_map
      → get m x.function_map ≡ some f
      → get (full_name name m) (add_object x name s).1.function_map ≡ some (method_entry x f)
  unfolding add_object
  add_object-get x name s m f new apart found =
      rw new (get-add_methods name x x.function_map s.function_map m apart ∙ rw found refl)
