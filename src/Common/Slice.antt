-- ===== src/Common/Slice.antt =====
-- Python's slices of a list by integers, `xs[a:b]` and `xs[a:b] = vs`.
use lewis.Common.{
  ℕ, zero, suc, ◌+◌, ◌-◌, ◌≤◌, min, ◌≡◌, refl, ap, List, [], ◌∷◌, ◌++◌, arith, length, take, drop,
}
use lewis.Common.Int.{ℤ, pos, negsuc}

-- A bound of a slice: a negative one counts from the end, and both ends are cut to the list.
unfoldable pub clamp_index : ℕ → ℤ → ℕ
clamp_index n (pos k) = min k n
clamp_index n (negsuc k) = n - (k + 1)

module _ {ℓ} {A : Type ℓ} where
  -- `xs[a:b]`
  unfoldable pub slice : List A → ℤ → ℤ → List A
  slice xs a b =
      let i = clamp_index (length xs) a in
      let j = clamp_index (length xs) b in take (j - i) (drop i xs)

  -- `xs[a:b] = vs`, for bounds in order.
  unfoldable pub set_slice : List A → ℤ → ℤ → List A → List A
  set_slice xs a b vs =
      let i = clamp_index (length xs) a in
      let j = clamp_index (length xs) b in take i xs ++ (vs ++ drop j xs)

  pub take-length : (xs ys : List A) → take (length xs) (xs ++ ys) ≡ xs
  take-length [] ys = refl
  take-length (x ∷ xs) ys = ap (λ l. x ∷ l) (take-length xs ys)

  pub drop-length : (xs ys : List A) → drop (length xs) (xs ++ ys) ≡ ys
  drop-length [] ys = refl
  drop-length (x ∷ xs) ys = drop-length xs ys

  drop-nil : (n : ℕ) → drop {A = A} n [] ≡ []
  drop-nil zero = refl
  drop-nil (suc n) = refl

  pub drop-drop : (i j : ℕ) (xs : List A) → drop i (drop j xs) ≡ drop (j + i) xs
  drop-drop i zero xs = let e : zero + i ≡ i = omega arith in rw e
  drop-drop i (suc j) [] = simp (drop-nil)
  drop-drop i (suc j) (x ∷ xs) =
      let e : suc j + i ≡ suc (j + i) = omega arith in rw e (drop-drop i j xs)

  -- Past the part that was kept, a spliced list is the new part.
  pub drop-take-append : (i : ℕ) (xs ys : List A) → i ≤ length xs → drop i (take i xs ++ ys) ≡ ys
  drop-take-append zero xs ys h = refl
  drop-take-append (suc i) [] ys h = elim h [ ]
  drop-take-append (suc i) (x ∷ xs) ys h = drop-take-append i xs ys (omega arith)

  -- A read that ends before the splice sees the old list.
  pub take-drop-take_before :
      (n k i : ℕ) (xs ys : List A)
      → k + n ≤ i
      → i ≤ length xs
      → take n (drop k (take i xs ++ ys)) ≡ take n (drop k xs)
  take-drop-take_before zero k i xs ys h l = refl
  take-drop-take_before (suc n) zero zero xs ys h l = absurd (omega arith)
  take-drop-take_before (suc n) zero (suc i) [] ys h l = elim l [ ]
  take-drop-take_before (suc n) zero (suc i) (x ∷ xs) ys h l =
      ap (λ t. x ∷ t) (take-drop-take_before n zero i xs ys (omega arith) (omega arith))
  take-drop-take_before (suc n) (suc k) zero xs ys h l = absurd (omega arith)
  take-drop-take_before (suc n) (suc k) (suc i) [] ys h l = elim l [ ]
  take-drop-take_before (suc n) (suc k) (suc i) (x ∷ xs) ys h l =
      take-drop-take_before (suc n) k i xs ys (omega arith) (omega arith)

  pub take-append_within : (n : ℕ) (xs ys : List A) → n ≤ length xs → take n (xs ++ ys) ≡ take n xs
  take-append_within zero xs ys h = refl
  take-append_within (suc n) [] ys h = elim h [ ]
  take-append_within (suc n) (x ∷ xs) ys h =
      ap (λ l. x ∷ l) (take-append_within n xs ys (omega arith))

  pub drop-append_within :
      (n : ℕ) (xs ys : List A) → n ≤ length xs → drop n (xs ++ ys) ≡ drop n xs ++ ys
  drop-append_within zero xs ys h = refl
  drop-append_within (suc n) [] ys h = elim h [ ]
  drop-append_within (suc n) (x ∷ xs) ys h = drop-append_within n xs ys (omega arith)
