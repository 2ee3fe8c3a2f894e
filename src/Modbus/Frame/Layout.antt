-- ===== src/Modbus/Frame/Layout.antt =====
-- Frames and their bytes determine one another.
use lewis.Common.{
  ℕ, ◌+◌, ◌-◌, ◌/◌, ◌%◌, ◌<◌, ◌≡◌, List, [], ◌∷◌, ◌++◌, arith, ok, length, length-append, lt→ltb,
  le→not_ltb,
}
use lewis.Common.Slice.{take-length, drop-length}
use lewis.Modbus.Frame.{Frame, be16, from_bytearray, to_bytearray}

-- The fields fit their widths, and the length field tells the length of the data.
pub record IsWellFormed (f : Frame) : Type 0 where
  pub transaction_fits : f.transaction_id < 65536
  pub protocol_fits : f.protocol_id < 65536
  pub size_fits : f.size < 65536
  pub unit_fits : f.unit_id < 256
  pub fcode_fits : f.fcode < 256
  pub sized : f.size ≡ length f.payload + 2

abbrev pub header : Frame → List ℕ
header f =
    f.transaction_id / 256
    ∷ f.transaction_id % 256
    ∷ f.protocol_id / 256
    ∷ f.protocol_id % 256
    ∷ f.size / 256
    ∷ f.size % 256
    ∷ f.unit_id
    ∷ f.fcode
    ∷ []

-- A frame whose fields fit is written without an error: the header of eight bytes, then the data.
pub to_bytearray_fits :
    (f : Frame)
    → f.transaction_id < 65536
    → f.protocol_id < 65536
    → f.size < 65536
    → f.unit_id < 256
    → f.fcode < 256
    → to_bytearray f ≡ ok (header f ++ f.payload)
unfolding to_bytearray
to_bytearray_fits f t p s u c =
    rw (lt→ltb _ _ t, lt→ltb _ _ p, lt→ltb _ _ s, lt→ltb _ _ u, lt→ltb _ _ c)

to_bytearray_lem : (f : Frame) → IsWellFormed f → to_bytearray f ≡ ok (header f ++ f.payload)
to_bytearray_lem f w =
    to_bytearray_fits f w.transaction_fits w.protocol_fits w.size_fits w.unit_fits w.fcode_fits

be16_split : (x : ℕ) → be16 (x / 256) (x % 256) ≡ x
be16_split x = omega arith

total_size :
    (f : Frame)
    → IsWellFormed f
    → 8 + be16 (f.size / 256) (f.size % 256) - 2 ≡ length (header f ++ f.payload)
total_size f w = omega (arith, w.sized)

-- Reading the bytes of a well-formed frame gives the frame back, and leaves what follows it.
from_bytearray-header :
    (f : Frame) (rest : List ℕ)
    → IsWellFormed f
    → from_bytearray ((header f ++ f.payload) ++ rest) ≡ ok (f, rest)
unfolding from_bytearray
from_bytearray-header f rest w =
    let n = length (header f ++ f.payload) in
    let e : n - 8 ≡ length f.payload = omega arith in
    rw (
      total_size f w,
      le→not_ltb (length ((header f ++ f.payload) ++ rest)) n
          (omega (arith, length-append (header f ++ f.payload) rest)),
      be16_split f.transaction_id,
      be16_split f.protocol_id,
      be16_split f.size,
      e,
      take-length f.payload rest,
      drop-length f.payload rest,
    )

-- A well-formed frame has bytes, and reading them, whatever follows, gives the frame back and
-- leaves what follows.
pub from-to_bytearray :
    (f : Frame)
    → IsWellFormed f
    → (bytes : List ℕ) × (to_bytearray f ≡ ok bytes)
      × ((rest : List ℕ) → from_bytearray (bytes ++ rest) ≡ ok (f, rest))
from-to_bytearray f w =
    (header f ++ f.payload, to_bytearray_lem f w, λ rest. from_bytearray-header f rest w)
