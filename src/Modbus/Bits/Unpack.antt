-- ===== src/Modbus/Bits/Unpack.antt =====
-- What `_handle_write_multiple_coils` takes from the bytes of a request.
use lewis.Common.{
  ℕ, zero, suc, ◌+◌, ◌*◌, ◌/◌, ◌%◌, ◌≤◌, ◌≡◌, refl, ap, List, [], ◌∷◌, map, Result, ok, arith,
  length, All,
}
use lewis.Common.Int.{ℤ, pos}
use lewis.Modbus.Bits.{test_bit, unpack_from, unpack_bits, ceil_8}
use lewis.Modbus.Bits.RoundTrip.{IsBit, get_elem?_within}

test_bit-IsBit : (b k : ℕ) → IsBit (test_bit b k)
unfolding test_bit
test_bit-IsBit b k = ground arith

-- Bits as numbers, with the integers that are stored for them.
pub record Bits (n : ℕ) (r : Result (List ℤ)) : Type 0 where
  pub bits : List ℕ
  pub count : length bits ≡ n
  pub all_bits : All IsBit bits
  pub unpacked : r ≡ ok (map pos bits)

unpack_from-Bits :
    (n i : ℕ) (bytes : List ℕ) → i + n ≤ 8 * length bytes → Bits n (unpack_from n i bytes)
unfolding unpack_from
unpack_from-Bits zero i bytes h = record { bits = []; count = refl; all_bits = tt; unpacked = refl }
unpack_from-Bits (suc n) i bytes h =
    let (b, e) = get_elem?_within bytes (i / 8) (omega arith) in
    let rest = unpack_from-Bits n (i + 1) bytes (omega arith) in
    record {
      bits = test_bit b (i % 8) ∷ rest.bits;
      count = ap suc rest.count;
      all_bits = (test_bit-IsBit b (i % 8), rest.all_bits);
      unpacked = rw (e, unpack_from) (rw rest.unpacked);
    }

-- Enough bytes give as many bits as were asked for, each 0 or 1.
pub unpack_bits-Bits :
    (n : ℕ) (bytes : List ℕ) → ceil_8 n ≤ length bytes → Bits n (unpack_bits n bytes)
unfolding unpack_bits
unpack_bits-Bits n bytes h = unpack_from-Bits n 0 bytes (omega arith)
