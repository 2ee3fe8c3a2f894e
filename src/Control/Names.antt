-- ===== src/Control/Names.antt =====
-- Names as lists of code points, since the control server builds and takes apart the names of what
-- it exposes (lewis/core/control_server.py).
use lewis.Common.{
  ℕ, Bool, true, false, List, [], ◌∷◌, ◌++◌, ◌≡◌, refl, ◌||◌, if◌then◌else◌, ◌==◌, ==_iff, arith,
}
use lewis.Common.Dict.{Keyed}

abbrev pub Name : Type 0
Name = List ℕ

abbrev pub name_test : Name → Name → Bool
name_test [] [] = true
name_test [] (d ∷ ds) = false
name_test (c ∷ cs) [] = false
name_test (c ∷ cs) (d ∷ ds) = if c == d then name_test cs ds else false

pub name_test_refl : (a : Name) → name_test a a ≡ true
name_test_refl [] = refl
name_test_refl (c ∷ cs) = rw ((==_iff c c).1 refl) (name_test_refl cs)

pub name_test_eq : (a b : Name) → name_test a b ≡ true → a ≡ b
name_test_eq [] [] h = refl
name_test_eq [] (d ∷ ds) h = absurd (cc h)
name_test_eq (c ∷ cs) [] h = absurd (cc h)
name_test_eq (c ∷ cs) (d ∷ ds) h = ground (arith, name_test_eq cs ds)

instance abbrev pub name_eq : Keyed Name
name_eq = record {
  key_test = name_test;
  key_iff = λ a b. (name_test_eq a b, λ e. rw e (name_test_refl b));
}

-- `s.startswith(prefix)`
abbrev pub startswith : Name → Name → Bool
startswith s [] = true
startswith [] (p ∷ ps) = false
startswith (c ∷ cs) (p ∷ ps) = if c == p then startswith cs ps else false

abbrev pub colon : ℕ
colon = 58

abbrev pub dot : ℕ
dot = 46

abbrev pub underscore : ℕ
underscore = 95

-- ":api", ":get", ":set" and "get_objects"
abbrev pub api_name : Name
api_name = 58 ∷ 97 ∷ 112 ∷ 105 ∷ []

abbrev pub get_suffix : Name
get_suffix = 58 ∷ 103 ∷ 101 ∷ 116 ∷ []

abbrev pub set_suffix : Name
set_suffix = 58 ∷ 115 ∷ 101 ∷ 116 ∷ []

abbrev pub get_objects_name : Name
get_objects_name = 103 ∷ 101 ∷ 116 ∷ 95 ∷ 111 ∷ 98 ∷ 106 ∷ 101 ∷ 99 ∷ 116 ∷ 115 ∷ []

-- `sub in s`
abbrev pub occurs : Name → Name → Bool
occurs sub [] = startswith [] sub
occurs sub (c ∷ cs) = startswith (c ∷ cs) sub || occurs sub cs

pub startswith-append : (p s : Name) → startswith (p ++ s) p ≡ true
startswith-append [] s = refl
startswith-append (c ∷ p) s = rw ((==_iff c c).1 refl) (startswith-append p s)

pub append_test : (p a b : Name) → name_test (p ++ a) (p ++ b) ≡ name_test a b
append_test [] a b = refl
append_test (c ∷ p) a b = rw ((==_iff c c).1 refl) (append_test p a b)
