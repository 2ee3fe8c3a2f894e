-- ===== src/Core/Number.antt =====
-- The numbers of device parameters and of time. In the source they are floats and ints; the
-- operations of both, and the laws that the code relies on, are a parameter of the model.
use lewis.Common.{ℕ, suc, ◌≤◌, Bool, true, false, ◌≡◌, ◌||◌, not}
use lewis.Common.Int.{ℤ, pos, negsuc, ltb_ℤ}

-- `int_of` is what a literal stands for, and `decimal n d` a quotient of two literals.
pub record Number : Type 1 where
  pub R : Type 0
  pub int_of : ℤ → R
  pub add : R → R → R
  pub mul : R → R → R
  pub div : R → R → R
  pub lt : R → R → Bool
  -- `int(x)`: towards zero.
  pub truncate : R → ℤ

-- `a > b`, `a == b` and `a <= b` for numbers without NaN.
module _ (n : Number) where
  abbrev pub gt : n.R → n.R → Bool
  gt a b = n.lt b a

  abbrev pub le : n.R → n.R → Bool
  le a b = not (n.lt b a)

  abbrev pub same : n.R → n.R → Bool
  same a b = not (n.lt a b || n.lt b a)

  -- What the code relies on: an order without NaN, and multiplication by 1 and -1, which are exact.
  pub record NumberLaws : Type 0 where
    pub lt_asym : (a b : n.R) → n.lt a b ≡ true → n.lt b a ≡ false
    pub lt-one :
        (a b : n.R) → n.lt (n.mul (n.int_of (pos 1)) a) (n.mul (n.int_of (pos 1)) b) ≡ n.lt a b
    pub lt-minus_one :
        (a b : n.R)
        → n.lt (n.mul (n.int_of (negsuc 0)) a) (n.mul (n.int_of (negsuc 0)) b) ≡ n.lt b a

  -- Further facts about quotients and products by positive integers, and about `int(x)`.
  pub record ScaleLaws : Type 0 where
    pub int_order : (a b : ℤ) → n.lt (n.int_of a) (n.int_of b) ≡ ltb_ℤ a b
    pub div_nonneg :
        (x : n.R) (k : ℕ)
        → n.lt x (n.int_of (pos 0)) ≡ false
        → n.lt (n.div x (n.int_of (pos (suc k)))) (n.int_of (pos 0)) ≡ false
    pub mul_nonneg :
        (x : n.R) (k : ℕ)
        → n.lt x (n.int_of (pos 0)) ≡ false
        → n.lt (n.mul (n.int_of (pos k)) x) (n.int_of (pos 0)) ≡ false
    pub truncate_between :
        (x : n.R) (k : ℕ)
        → n.lt x (n.int_of (pos 0)) ≡ false
        → n.lt (n.int_of (pos k)) x ≡ false
        → (i : ℕ) × (n.truncate x ≡ pos i) × (i ≤ k)
