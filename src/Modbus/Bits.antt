-- ===== src/Modbus/Bits.antt =====
-- How the coil handlers of lewis/adapters/modbus.py lay bits out in bytes, the first bit lowest
-- in the first byte.
mod Table
pub mod RoundTrip
pub mod Unpack
use lewis.Common.{
  ℕ, zero, suc, ◌+◌, ◌*◌, ◌/◌, ◌%◌, ◌^◌, bit_and, bit_or, Option, none, some, List, [], ◌∷◌, Result,
  ok, err, index_error, and_then, ◌==◌, if◌then◌else◌, length, replicate, get_elem?, set,
}
use lewis.Common.Int.{ℤ, pos}

abbrev byte_or_zero : Option ℕ → ℕ
byte_or_zero none = 0
byte_or_zero (some b) = b

-- `byte_list[i // 8] |= bit << i % 8`
unfoldable pub put_bit : ℕ → ℕ → List ℕ → List ℕ
put_bit i bit bytes =
    let old = byte_or_zero (get_elem? bytes (i / 8)) in
    set bytes (i / 8) (bit_or old (bit * 2 ^ (i % 8)))

-- The loop of `_do_read_bits` over `enumerate(bits)`. The list of bytes is long enough, so the
-- index is never out of range.
unfoldable pub pack_from : ℕ → List ℕ → List ℕ → List ℕ
unfolding put_bit
pack_from i [] bytes = bytes
pack_from i (bit ∷ bits) bytes = pack_from (i + 1) bits (put_bit i bit bytes)

-- `int(ceil(n / 8))`
abbrev pub ceil_8 : ℕ → ℕ
ceil_8 n = (n + 7) / 8

unfoldable pub pack_bits : List ℕ → List ℕ
unfolding pack_from
pack_bits bits = pack_from 0 bits (replicate (ceil_8 (length bits)) 0)

-- `bool(b & (1 << k))`, as 0 or 1
unfoldable pub test_bit : ℕ → ℕ → ℕ
test_bit b k = if bit_and b (2 ^ k) == 0 then 0 else 1

-- The loop of `_handle_write_multiple_coils`, for `n` bits from bit `i` on. `data[i // 8]` raises
-- IndexError where the data is too short.
unfoldable pub unpack_from : ℕ → ℕ → List ℕ → Result (List ℤ)
unfolding test_bit
unpack_from zero i bytes = ok []
unpack_from (suc n) i bytes = elim (get_elem? bytes (i / 8)) [
  | none ↦ err index_error
  | some b ↦ and_then (unpack_from n (i + 1) bytes) (λ r. ok (pos (test_bit b (i % 8)) ∷ r))
]

unfoldable pub unpack_bits : ℕ → List ℕ → Result (List ℤ)
unfolding unpack_from
unpack_bits n bytes = unpack_from n 0 bytes
