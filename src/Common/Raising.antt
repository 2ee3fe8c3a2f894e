-- ===== src/Common/Raising.antt =====
-- Python code that may raise, and methods that mutate an object and may raise. What was written
-- before a raise stays written, so the state comes back beside the exception.
use mathlib.Core.Path.{◌≡◌, refl}
use mathlib.Core.Bool.{Bool, true, false}

-- The exception classes that the modelled code raises or meets; messages are left out.
pub data Exn : Type 0 where
  type_error attribute_error index_error key_error value_error runtime_error struct_error : Exn
  eof_error state_machine_exception lewis_exception limit_violation : Exn
  access_violation os_error not_implemented_error : Exn

pub data Result {ℓ} (A : Type ℓ) : Type ℓ where
  ok : A → Result A
  err : Exn → Result A

module _ {ℓ κ} {A : Type ℓ} {B : Type κ} where
  abbrev pub and_then : Result A → (A → Result B) → Result B
  and_then (ok a) f = f a
  and_then (err e) f = err e

abbrev pub is_ok {ℓ} : {A : Type ℓ} → Result A → Bool
is_ok (ok _) = true
is_ok (err _) = false

abbrev pub Exec {ℓ} : Type ℓ → Type ℓ → Type ℓ
Exec S A = S → Result A × S

module _ {ℓ} {S A : Type ℓ} where
  abbrev pub pure : A → Exec S A
  pure a s = (ok a, s)

  abbrev pub raise : Exn → Exec S A
  raise e s = (err e, s)

  abbrev pub lift : Result A → Exec S A
  lift r s = (r, s)

module _ {ℓ} {S A B : Type ℓ} where
  -- How an action goes on after a result.
  abbrev pub continue : (A → Exec S B) → Result A × S → Result B × S
  continue f (ok a, s) = f a s
  continue f (err e, s) = (err e, s)

  infixl 5 ◌>>=◌ ◌>>◌
  abbrev pub ◌>>=◌ : Exec S A → (A → Exec S B) → Exec S B
  ◌>>=◌ m f s = continue f (m s)

  abbrev pub ◌>>◌ : Exec S A → Exec S B → Exec S B
  ◌>>◌ m k s = continue (λ _. k) (m s)

module _ {ℓ} {S A B C : Type ℓ} where
  pub continue_assoc :
      (f : A → Exec S B) (g : B → Exec S C) (r : Result A × S)
      → continue g (continue f r) ≡ continue (λ a s. continue g (f a s)) r
  continue_assoc f g (ok a, s) = refl
  continue_assoc f g (err e, s) = refl
