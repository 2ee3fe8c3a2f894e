-- ===== src/Modbus/Bits/RoundTrip.antt =====
-- The bits that a response carries are the bits that a write takes from the same bytes.
use lewis.Common.{
  ℕ, zero, suc, ◌+◌, ◌-◌, ◌*◌, ◌/◌, ◌%◌, ◌^◌, ◌≤◌, ◌<◌, bit_or, ◌≡◌, ◌≢◌, refl, sym, ◌∙◌, Option,
  none, some, List, [], ◌∷◌, map, false, ok, arith, ltb, ◌==◌, if◌then◌else◌, length, replicate,
  get_elem?, set, All, Bool-cases, Option-cases, inl, inr, length-set, get_elem?-set_self,
  get_elem?-set_ne, length-replicate, lt→ltb, le→not_ltb,
}
use Prim.Native.Nat.{bit_and-bitwise}
use lewis.Common.Int.{pos}
use lewis.Modbus.Bits.{put_bit, pack_from, pack_bits, test_bit, unpack_from, unpack_bits, ceil_8}
use lewis.Modbus.Bits.Table.{test_bit-after, after-lt}

abbrev pub IsBit : ℕ → Type 0
IsBit b = b < 2

abbrev bit_or_zero : Option ℕ → ℕ
bit_or_zero none = 0
bit_or_zero (some b) = b

-- Bit `j` of a list of bytes.
abbrev bit_of : ℕ → Option ℕ → Option ℕ
bit_of k none = none
bit_of k (some b) = some (test_bit b k)

abbrev bit_at : List ℕ → ℕ → Option ℕ
bit_at bytes j = bit_of (j % 8) (get_elem? bytes (j / 8))

pub get_elem?_within {ℓ} :
    {A : Type ℓ} (xs : List A) (i : ℕ) → i < length xs → (a : A) × (get_elem? xs i ≡ some a)
get_elem?_within [] i h = elim h [ ]
get_elem?_within (x ∷ xs) zero h = (x, refl)
get_elem?_within (x ∷ xs) (suc i) h = get_elem?_within xs i (omega arith)

-- The list before the loop reaches bit `i`: bytes, with every bit from `i` on clear.
record IsClear (i : ℕ) (bytes : List ℕ) : Type 0 where
  small : (k b : ℕ) → get_elem? bytes k ≡ some b → b < 256
  clear : (j : ℕ) → i ≤ j → j / 8 < length bytes → bit_at bytes j ≡ some 0

module _ (i bit : ℕ) (bytes : List ℕ) (c : IsClear i bytes) (h : IsBit bit)
    (inside : i < 8 * length bytes) where
  old : (b : ℕ) × (get_elem? bytes (i / 8) ≡ some b)
  old = get_elem?_within bytes (i / 8) (omega arith)

  put_bit_lem :
      (b : ℕ)
      → get_elem? bytes (i / 8) ≡ some b
      → put_bit i bit bytes ≡ set bytes (i / 8) (bit_or b (bit * 2 ^ (i % 8)))
  unfolding put_bit
  put_bit_lem b e = rw e

  length-put_bit : length (put_bit i bit bytes) ≡ length bytes
  unfolding put_bit
  length-put_bit = length-set bytes (i / 8) _

  was_clear : (b : ℕ) → get_elem? bytes (i / 8) ≡ some b → test_bit b (i % 8) ≡ 0
  was_clear b e = cc (rw e at (c.clear i (omega arith) (omega arith)))

  -- Putting bit `i` changes that bit and no other.
  bit_at-put_bit :
      (j : ℕ) → bit_at (put_bit i bit bytes) j ≡ (if j == i then some bit else bit_at bytes j)
  bit_at-put_bit j =
      let (b, e) = old in
      let v = bit_or b (bit * 2 ^ (i % 8)) in
      rw (put_bit_lem b e) (elim (Bool-cases (j / 8 == i / 8)) [
        | inl same ↦
            let q : j / 8 ≡ i / 8 = ground arith in
            rw (q, get_elem?-set_self bytes (i / 8) v (omega arith), e)
              (ground (
                arith,
                test_bit-after b (i % 8) (j % 8) bit (c.small (i / 8) b e) (omega arith)
                    (omega arith) h (was_clear b e),
              ))
        | inr other ↦
            let q : i / 8 ≢ j / 8 = ground arith in
            let n : (j == i) ≡ false = ground arith in rw (get_elem?-set_ne bytes v q, n)
      ])

  put_bit-IsClear : IsClear (i + 1) (put_bit i bit bytes)
  put_bit-IsClear =
      let (b, e) = old in
      let v = bit_or b (bit * 2 ^ (i % 8)) in
      record {
        small = λ k x g. elim (Bool-cases (k == i / 8)) [
          | inl same ↦
              let q : k ≡ i / 8 = ground arith in
              let g' : some v ≡ some x =
                sym (get_elem?-set_self bytes (i / 8) v (omega arith))
                ∙ (rw (put_bit_lem b e, q) at g) in
              let l : v < 256 = after-lt b (i % 8) bit (c.small (i / 8) b e) (omega arith) h in
              ground arith
          | inr other ↦
              let q : i / 8 ≢ k = ground arith in
              c.small k x (sym (get_elem?-set_ne bytes v q) ∙ (rw (put_bit_lem b e) at g))
        ];
        clear = λ j le within.
            let n : (j == i) ≡ false = ground arith in
            rw (bit_at-put_bit j, n) (c.clear j (omega arith) (omega (arith, length-put_bit)));
      }

-- Bit `j` after the loop: an old bit before `i`, then the bits that were packed, then zeros.
abbrev packed_bit : ℕ → List ℕ → List ℕ → ℕ → Option ℕ
packed_bit i bits bytes j =
    if ltb j i then bit_at bytes j else some (bit_or_zero (get_elem? bits (j - i)))

packed_bit_step :
    (i bit : ℕ) (bits bytes bytes' : List ℕ) (j : ℕ)
    → bit_at bytes' j ≡ (if j == i then some bit else bit_at bytes j)
    → packed_bit (i + 1) bits bytes' j ≡ packed_bit i (bit ∷ bits) bytes j
packed_bit_step i bit bits bytes bytes' j h = elim (Bool-cases (ltb j i)) [
  | inl before ↦
      let n : (j == i) ≡ false = ground arith in rw (before, lt→ltb j (i + 1) (ground arith), h, n)
  | inr after ↦ elim (Bool-cases (j == i)) [
    | inl here ↦
        let e : j - i ≡ 0 = ground arith in rw (after, lt→ltb j (i + 1) (ground arith), h, here, e)
    | inr beyond ↦
        let e : j - i ≡ suc (j - (i + 1)) = ground arith in
        rw (after, le→not_ltb j (i + 1) (ground arith), e)
  ]
]

bit_at-pack_from :
    (i : ℕ) (bits bytes : List ℕ) (j : ℕ)
    → All IsBit bits
    → IsClear i bytes
    → i + length bits ≤ 8 * length bytes
    → j < 8 * length bytes
    → bit_at (pack_from i bits bytes) j ≡ packed_bit i bits bytes j
unfolding pack_from
bit_at-pack_from i [] bytes j h c fits within = elim (Bool-cases (ltb j i)) [
  | inl before ↦ rw before
  | inr after ↦ rw after (c.clear j (ground arith) (omega arith))
]
bit_at-pack_from i (bit ∷ bits) bytes j h c fits within =
    let n = length-put_bit i bit bytes c h.0 (omega arith) in
    let ih =
      bit_at-pack_from (i + 1) bits (put_bit i bit bytes) j h.1
        (put_bit-IsClear i bit bytes c h.0 (omega arith)) (omega (arith, n)) (omega (arith, n)) in
    ih
    ∙ packed_bit_step i bit bits bytes (put_bit i bit bytes) j
        (bit_at-put_bit i bit bytes c h.0 (omega arith) j)

unpack_from_step :
    (i bit : ℕ) (bits bytes : List ℕ)
    → bit_at bytes i ≡ some bit
    → unpack_from (length bits) (i + 1) bytes ≡ ok (map pos bits)
    → unpack_from (suc (length bits)) i bytes ≡ ok (pos bit ∷ map pos bits)
unfolding unpack_from
unpack_from_step i bit bits bytes h ih = elim (Option-cases (get_elem? bytes (i / 8))) [
  | inl missing ↦ absurd (cc (rw missing at h))
  | inr (b, e) ↦
      let q : test_bit b (i % 8) ≡ bit = cc (rw e at h) in rw (e, unpack_from) (rw (ih, q))
]

-- A read of the bits one by one gives the list, once each of them is there.
unpack_from_lem :
    (i : ℕ) (bits bytes : List ℕ)
    → ((k : ℕ) → k < length bits → bit_at bytes (i + k) ≡ get_elem? bits k)
    → unpack_from (length bits) i bytes ≡ ok (map pos bits)
unfolding unpack_from
unpack_from_lem i [] bytes h = refl
unpack_from_lem i (bit ∷ bits) bytes h =
    unpack_from_step i bit bits bytes
      (let e : i + 0 ≡ i = omega arith in rw e at (h 0 (omega arith)))
      (unpack_from_lem (i + 1) bits bytes
        (λ k l. let e : i + 1 + k ≡ i + suc k = omega arith in rw e (h (suc k) (omega arith))))

get_elem?-zeros : (n k b : ℕ) → get_elem? (replicate n 0) k ≡ some b → b ≡ 0
get_elem?-zeros zero k b e = cc
get_elem?-zeros (suc n) zero b e = ground arith
get_elem?-zeros (suc n) (suc k) b e = get_elem?-zeros n k b e

test_bit-zero : (k : ℕ) → test_bit 0 k ≡ 0
unfolding test_bit
test_bit-zero k = rw (bit_and-bitwise 0 (2 ^ k))

replicate-zero_IsClear : (n : ℕ) → IsClear 0 (replicate n 0)
replicate-zero_IsClear n = record {
  small = λ k b e. omega (arith, get_elem?-zeros n k b e);
  clear = λ j le within.
      let (b, e) = get_elem?_within (replicate n 0) (j / 8) within in
      rw (e, get_elem?-zeros n (j / 8) b e, test_bit-zero (j % 8));
}

-- Bits that a response packs into bytes are the bits that a write request takes from those bytes.
pub unpack-pack_bits :
    (bits : List ℕ)
    → All IsBit bits
    → unpack_bits (length bits) (pack_bits bits) ≡ ok (map pos bits)
unfolding unpack_bits pack_bits
unpack-pack_bits bits h =
    let n = length-replicate {A = ℕ} (ceil_8 (length bits)) 0 in
    unpack_from_lem 0 bits (pack_from 0 bits (replicate (ceil_8 (length bits)) 0)) λ k l.
      let e : 0 + k ≡ k = omega arith in
      let e' : k - 0 ≡ k = omega arith in
      let (b, g) = get_elem?_within bits k l in
      let z : ltb k 0 ≡ false = le→not_ltb k 0 (omega arith) in
      rw (
        e,
        bit_at-pack_from 0 bits (replicate (ceil_8 (length bits)) 0) k h
            (replicate-zero_IsClear (ceil_8 (length bits))) (omega (arith, n)) (omega (arith, n)),
        z,
        e',
        g,
      )

length-pack_from : (i : ℕ) (bits bytes : List ℕ) → length (pack_from i bits bytes) ≡ length bytes
unfolding pack_from
length-pack_from i [] bytes = refl
length-pack_from i (bit ∷ bits) bytes =
    length-pack_from (i + 1) bits (put_bit i bit bytes) ∙ length-set bytes (i / 8) _

-- Packed bits take one byte for each eight, rounded up.
pub length-pack_bits : (bits : List ℕ) → length (pack_bits bits) ≡ ceil_8 (length bits)
unfolding pack_bits
length-pack_bits bits =
    length-pack_from 0 bits (replicate (ceil_8 (length bits)) 0)
    ∙ length-replicate (ceil_8 (length bits)) 0
