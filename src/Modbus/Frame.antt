-- ===== src/Modbus/Frame.antt =====
-- `ModbusTCPFrame` of lewis/adapters/modbus.py, and the parts of `struct` that it uses. Bytes are
-- numbers below 256, and 16-bit fields are numbers below 65536.
pub mod Layout
pub mod Parse
use lewis.Common.{
  ℕ, ◌+◌, ◌-◌, ◌*◌, ◌/◌, ◌%◌, ◌≤◌, ◌<◌, ◌≡◌, Bool, ◌&&◌, ◌||◌, List, [], ◌∷◌, ◌++◌, arith, Result,
  ok, err, struct_error, eof_error, type_error, and_then, ltb, leb, ◌==◌, if◌then◌else◌, length,
  take, drop, Option, none, some,
}

-- `struct.pack(">H", x)` and `struct.pack(">B", x)`: what is out of range is refused.
unfoldable pub pack_h : ℕ → Result (List ℕ)
pack_h x = if ltb x 65536 then ok (x / 256 ∷ x % 256 ∷ []) else err struct_error

unfoldable pub pack_b : ℕ → Result (List ℕ)
pack_b x = if ltb x 256 then ok (x ∷ []) else err struct_error

-- One field of `>H`, from its two bytes.
abbrev pub be16 : ℕ → ℕ → ℕ
be16 hi lo = hi * 256 + lo

-- `struct.unpack(">HH", data)`
unfoldable pub unpack_hh : List ℕ → Result (ℕ × ℕ)
unpack_hh (a ∷ b ∷ c ∷ d ∷ []) = ok (be16 a b, be16 c d)
unpack_hh _ = err struct_error

-- `struct.unpack(">HHB", data)`
unfoldable pub unpack_hhb : List ℕ → Result (ℕ × ℕ × ℕ)
unpack_hhb (a ∷ b ∷ c ∷ d ∷ e ∷ []) = ok (be16 a b, be16 c d, e)
unpack_hhb _ = err struct_error

pub record Frame : Type 0 where
  pub transaction_id : ℕ
  pub protocol_id : ℕ
  pub size : ℕ  -- the field `length`
  pub unit_id : ℕ
  pub fcode : ℕ
  pub payload : List ℕ  -- the field `data`

-- `from_bytearray`: the frame and what is left of the stream, or EOFError with nothing consumed.
-- `size_total` is `8 + length - 2`, so a length below 2 leaves part of the header in the stream.
unfoldable pub from_bytearray : List ℕ → Result (Frame × List ℕ)
from_bytearray (t1 ∷ t0 ∷ p1 ∷ p0 ∷ l1 ∷ l0 ∷ u ∷ f ∷ rest) =
    let stream = t1 ∷ t0 ∷ p1 ∷ p0 ∷ l1 ∷ l0 ∷ u ∷ f ∷ rest in
    let size = be16 l1 l0 in
    let size_total = 8 + size - 2 in
    if ltb (length stream) size_total
    then err eof_error
    else ok (
      record {
        transaction_id = be16 t1 t0;
        protocol_id = be16 p1 p0;
        size = size;
        unit_id = u;
        fcode = f;
        payload = take (size_total - 8) (drop 8 stream);
      },
      drop size_total stream,
    )
from_bytearray _ = err eof_error

-- `to_bytearray`
unfoldable pub to_bytearray : Frame → Result (List ℕ)
unfolding pack_h pack_b
to_bytearray f = and_then (pack_h f.transaction_id) λ t. and_then (pack_h f.protocol_id) λ p.
    and_then (pack_h f.size) λ l.
      and_then (pack_b f.unit_id)
        λ u. and_then (pack_b f.fcode) λ c. ok ((t ++ (p ++ (l ++ (u ++ c)))) ++ f.payload)

-- `is_valid`
unfoldable pub is_valid : Frame → Bool
is_valid f =
    f.protocol_id == 0 && ((leb 2 f.size && leb f.size 260) && (length f.payload + 2 == f.size))

-- The exception codes of `MBEX` that the handlers use.
abbrev pub illegal_function : ℕ
illegal_function = 0x01

abbrev pub data_address : ℕ
data_address = 0x02

abbrev pub data_value : ℕ
data_value = 0x03

-- `bytearray(text)` without an encoding: Python 3 raises TypeError, whatever the text.
unfoldable pub bytearray_of_text : List ℕ → Result (List ℕ)
bytearray_of_text text = err type_error

-- `create_exception`; `chr(code)` is the text of one character.
unfoldable pub create_exception : Frame → ℕ → Result Frame
unfolding bytearray_of_text
create_exception f code =
    and_then (bytearray_of_text (code ∷ []))
      λ bytes. ok (record f { size = 3; fcode = f.fcode + 0x80; payload = bytes })

-- `create_response`; without data the request's is kept.
unfoldable pub create_response : Frame → Option (List ℕ) → Frame
create_response f none = record f { size = 2 + length f.payload }
create_response f (some bytes) = record f { size = 2 + length bytes; payload = bytes }
