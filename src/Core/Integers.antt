-- ===== src/Core/Integers.antt =====
-- The integers as the numbers of a device, for examples.
use lewis.Common.{ℕ, suc, ◌+◌, ◌*◌, ◌/◌, ◌≤◌, true, false, ◌≡◌, refl, arith}
use lewis.Common.Int.{ℤ, pos, negsuc, ◌+ℤ◌, ◌*ℤ◌, ltb_ℤ, sub_ℕ, pos_part, neg_part}
use lewis.Core.Number.{Number, NumberLaws, ScaleLaws}

abbrev quotient : ℤ → ℤ → ℤ
quotient (pos a) (pos b) = pos (a / b)
quotient (pos a) (negsuc b) = pos 0
quotient (negsuc a) b = pos 0

abbrev same_integer : ℤ → ℤ
same_integer x = x

abbrev pub integers : Number
integers = record {
  R = ℤ;
  int_of = same_integer;
  add = ◌+ℤ◌;
  mul = ◌*ℤ◌;
  div = quotient;
  lt = ltb_ℤ;
  truncate = same_integer;
}

asym : (a b : ℤ) → ltb_ℤ a b ≡ true → ltb_ℤ b a ≡ false
asym a b h = ground arith

one_times : (a : ℤ) → pos 1 *ℤ a ≡ a
unfolding ◌*ℤ◌
one_times (pos a) = ground arith
one_times (negsuc a) = ground arith

minus_one_times : (a : ℤ) → negsuc 0 *ℤ a ≡ sub_ℕ (neg_part a) (pos_part a)
unfolding ◌*ℤ◌
minus_one_times (pos a) = ground arith
minus_one_times (negsuc a) = ground arith

times_pos : (k a : ℕ) → pos k *ℤ pos a ≡ pos (k * a)
unfolding ◌*ℤ◌
times_pos k a = let zero_product : k * 0 + 0 * a ≡ 0 = omega arith in rw zero_product (ground arith)

one : (a b : ℤ) → ltb_ℤ (pos 1 *ℤ a) (pos 1 *ℤ b) ≡ ltb_ℤ a b
one a b = rw (one_times a) (rw (one_times b) refl)

minus_one : (a b : ℤ) → ltb_ℤ (negsuc 0 *ℤ a) (negsuc 0 *ℤ b) ≡ ltb_ℤ b a
minus_one (pos a) (pos b) =
    rw (minus_one_times (pos a)) (rw (minus_one_times (pos b)) (ground arith))
minus_one (pos a) (negsuc b) =
    rw (minus_one_times (pos a)) (rw (minus_one_times (negsuc b)) (ground arith))
minus_one (negsuc a) (pos b) =
    rw (minus_one_times (negsuc a)) (rw (minus_one_times (pos b)) (ground arith))
minus_one (negsuc a) (negsuc b) =
    rw (minus_one_times (negsuc a)) (rw (minus_one_times (negsuc b)) (ground arith))

quotient-nonneg :
    (x : ℤ) (k : ℕ) → ltb_ℤ x (pos 0) ≡ false → ltb_ℤ (quotient x (pos (suc k))) (pos 0) ≡ false
quotient-nonneg (pos a) k h = ground arith
quotient-nonneg (negsuc a) k h = ground arith

product-nonneg : (x : ℤ) (k : ℕ) → ltb_ℤ x (pos 0) ≡ false → ltb_ℤ (pos k *ℤ x) (pos 0) ≡ false
product-nonneg (pos a) k h = rw (times_pos k a) (ground arith)
product-nonneg (negsuc a) k h = ground arith

between :
    (x : ℤ) (k : ℕ)
    → ltb_ℤ x (pos 0) ≡ false
    → ltb_ℤ (pos k) x ≡ false
    → (i : ℕ) × (x ≡ pos i) × (i ≤ k)
between (pos a) k h h' = (a, refl, ground arith)
between (negsuc a) k h h' = ground arith

pub integers-NumberLaws : NumberLaws integers
integers-NumberLaws = record { lt_asym = asym; lt-one = one; lt-minus_one = minus_one }

pub integers-ScaleLaws : ScaleLaws integers
integers-ScaleLaws = record {
  int_order = λ a b. refl;
  div_nonneg = quotient-nonneg;
  mul_nonneg = product-nonneg;
  truncate_between = between;
}
