-- ===== src/Common/Dict/Defs.antt =====
-- A Python `dict` in insertion order, as a list of items. Keys are compared by an instance of `Keyed`.
use text.Mathlib.Text.{◌==◌ as str_eq}
use text.Mathlib.TextEquality.{eq_iff}
use lewis.Common.{
  ℕ, String, ◌≡◌, ◌↔◌, Bool, true, false, Option, none, some, List, [], ◌∷◌, if◌then◌else◌,
  ◌==◌ as nat_beq, ==_iff,
}

-- Keys that a dictionary can compare.
pub record Keyed {ℓ} (A : Type ℓ) : Type ℓ where
  pub key_test : A → A → Bool
  pub key_iff : (a b : A) → (key_test a b ≡ true) ↔ (a ≡ b)

infix 50 ◌==◌
abbrev pub ◌==◌ {ℓ} : {A : Type ℓ} ⦃e : Keyed A⦄ → A → A → Bool
◌==◌ ⦃e⦄ = e.key_test

instance abbrev pub string_eq : Keyed String
string_eq = record { key_test = str_eq; key_iff = eq_iff }

instance abbrev pub nat_eq : Keyed ℕ
nat_eq = record { key_test = nat_beq; key_iff = ==_iff }

abbrev pub Dict {ℓ κ} : Type ℓ → Type κ → Type (ℓ ⊔ κ)
Dict K V = List (K × V)

module _ {ℓ} {K : Type ℓ} ⦃e : Keyed K⦄ where
  -- `k in xs`, for a list
  abbrev pub member : K → List K → Bool
  member k [] = false
  member k (x ∷ xs) = if x == k then true else member k xs

module _ {ℓ κ} {K : Type ℓ} {V : Type κ} ⦃e : Keyed K⦄ where
  -- `d.get(k)`
  abbrev pub get : K → Dict K V → Option V
  get k [] = none
  get k (i ∷ d) = if i.0 == k then some i.1 else get k d

  -- `k in d`
  abbrev pub contains : K → Dict K V → Bool
  contains k [] = false
  contains k (i ∷ d) = if i.0 == k then true else contains k d

  -- `d[k] = v`: an old key keeps its place.
  abbrev pub insert : K → V → Dict K V → Dict K V
  insert k v [] = (k, v) ∷ []
  insert k v (i ∷ d) = if i.0 == k then (i.0, v) ∷ d else i ∷ insert k v d

  -- `del d[k]`
  abbrev pub delete : K → Dict K V → Dict K V
  delete k [] = []
  delete k (i ∷ d) = if i.0 == k then d else i ∷ delete k d

  abbrev pub keys : Dict K V → List K
  keys [] = []
  keys (i ∷ d) = i.0 ∷ keys d
