-- ===== src/Modbus/Bits/Table.antt =====
-- What `|=` does to each bit of a byte, checked at every byte.
use lewis.Common.{
  ℕ, zero, suc, ◌*◌, ◌^◌, ◌<◌, ◌≡◌, refl, Bool, true, ◌&&◌, bit_or, arith, ltb, ◌==◌, if◌then◌else◌,
}
use lewis.Modbus.Bits.{test_bit}

-- A test of every number below `bound`.
tested_to : ℕ → (ℕ → Bool) → Bool
tested_to zero test = true
tested_to (suc bound) test = tested_to bound test && test bound

tested_to_lem :
    (bound : ℕ) (test : ℕ → Bool) (i : ℕ) → i < bound → tested_to bound test ≡ true → test i ≡ true
unfolding tested_to
tested_to_lem zero test i inside all = absurd (omega arith)
tested_to_lem (suc bound) test i inside all = ground (arith, tested_to_lem bound test i)

-- The byte `b` after bit `k` was set to `bit`, where it was clear.
abbrev after : ℕ → ℕ → ℕ → ℕ
after b k bit = bit_or b (bit * 2 ^ k)

abbrev bit_row : ℕ → ℕ → ℕ → Bool
bit_row b k j =
    if test_bit b k == 0
    then (test_bit (after b k 0) j == test_bit b j)
      && (test_bit (after b k 1) j == (if j == k then 1 else test_bit b j))
    else true

abbrev rows : ℕ → Bool
rows b = tested_to 8 (λ k. tested_to 8 (λ j. bit_row b k j))

table : tested_to 256 rows ≡ true
unfolding tested_to test_bit
table = refl

size_table :
    tested_to 256 (λ b. tested_to 8 (λ k. ltb (after b k 0) 256 && ltb (after b k 1) 256)) ≡ true
unfolding tested_to
size_table = refl

row_holds : (b k j : ℕ) → b < 256 → k < 8 → j < 8 → bit_row b k j ≡ true
row_holds b k j hb hk hj =
    tested_to_lem 8 (λ j. bit_row b k j) j hj
      (tested_to_lem 8 (λ k. tested_to 8 (λ j. bit_row b k j)) k hk
        (tested_to_lem 256 rows b hb table))

-- Setting a clear bit sets that bit and no other.
pub test_bit-after :
    (b k j bit : ℕ)
    → b < 256
    → k < 8
    → j < 8
    → bit < 2
    → test_bit b k ≡ 0
    → test_bit (bit_or b (bit * 2 ^ k)) j ≡ (if j == k then bit else test_bit b j)
test_bit-after b k j zero hb hk hj hc clear = ground (arith, row_holds b k j hb hk hj)
test_bit-after b k j (suc zero) hb hk hj hc clear = ground (arith, row_holds b k j hb hk hj)
test_bit-after b k j (suc (suc c)) hb hk hj hc clear = absurd (omega arith)

pub after-lt : (b k bit : ℕ) → b < 256 → k < 8 → bit < 2 → bit_or b (bit * 2 ^ k) < 256
after-lt b k zero hb hk hc =
    let row =
      tested_to_lem 8 (λ k. ltb (after b k 0) 256 && ltb (after b k 1) 256) k hk
        (tested_to_lem 256 _ b hb size_table) in
    ground arith
after-lt b k (suc zero) hb hk hc =
    let row =
      tested_to_lem 8 (λ k. ltb (after b k 0) 256 && ltb (after b k 1) 256) k hk
        (tested_to_lem 256 _ b hb size_table) in
    ground arith
after-lt b k (suc (suc c)) hb hk hc = absurd (omega arith)
