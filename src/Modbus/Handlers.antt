-- ===== src/Modbus/Handlers.antt =====
-- The request handlers of `ModbusProtocol` (lewis/adapters/modbus.py). A handler works on the
-- memory of banks; what it raises is an exception that its caller sees.
pub mod Words
pub mod Responses
pub mod Echo
pub mod ReadBack
pub mod Refusals
use lewis.Common.{
  ℕ, zero, suc, ◌+◌, ◌-◌, ◌*◌, ◌/◌, ◌%◌, bit_and, Bool, true, false, not, ◌&&◌, ◌||◌, Option, none,
  some, List, [], ◌∷◌, ◌++◌, map, Exn, Result, ok, err, Exec, pure, raise, lift, and_then,
  struct_error, ◌>>=◌, ◌>>◌, leb, ◌==◌, if◌then◌else◌, length, take, drop, continue,
}
use lewis.Common.Int.{ℤ, pos, negsuc}
use lewis.Modbus.Bank.{Memory, DataStore, read_bank, write_bank}
use lewis.Modbus.Frame.{
  Frame, be16, pack_h, pack_b, unpack_hh, unpack_hhb, create_exception, create_response,
  illegal_function, data_address, data_value,
}
use lewis.Modbus.Bits.{pack_bits, unpack_bits, ceil_8}

abbrev pub Handler : Type 0
Handler = Frame → Exec Memory Frame

-- `try: … except IndexError: …`: `none` is the branch of the handler.
abbrev pub caught : {A : Type 0} → Result A × Memory → Result (Option A) × Memory
caught (ok a, m) = (ok (some a), m)
caught (err Exn.index_error, m) = (ok none, m)
caught (err e, m) = (err e, m)

abbrev pub attempt : {A : Type 0} → Exec Memory A → Exec Memory (Option A)
attempt action m = caught (action m)

abbrev pub refuse : Frame → ℕ → Exec Memory Frame
refuse request code = lift (create_exception request code)

-- `bool(bit)`, as 0 or 1
unfoldable pub truth : ℤ → ℕ
truth (pos zero) = 0
truth (pos (suc n)) = 1
truth (negsuc n) = 1

-- `word & 0xFFFF`
unfoldable pub low_word : ℤ → ℕ
low_word (pos n) = n % 65536
low_word (negsuc n) = 65535 - n % 65536

-- `struct.pack(">%dH" % len(words), *words)`
unfoldable pub pack_words : List ℕ → Result (List ℕ)
pack_words [] = ok []
pack_words (w ∷ ws) = and_then (pack_h w) (λ b. and_then (pack_words ws) (λ bs. ok (b ++ bs)))

-- `struct.unpack(">%dH" % n, data)`: the data must have exactly 2 * n bytes.
unfoldable pub unpack_words : ℕ → List ℕ → Result (List ℤ)
unpack_words zero [] = ok []
unpack_words (suc n) (hi ∷ lo ∷ bytes) =
    and_then (unpack_words n bytes) (λ ws. ok (pos (be16 hi lo) ∷ ws))
unpack_words n bytes = err struct_error

-- The bytes of a packed list behind their count, `struct.pack(">B%d…" % …, count, *items)`.
abbrev pub counted : ℕ → List ℕ → Result (List ℕ)
counted count bytes = and_then (pack_b count) (λ c. ok (c ++ bytes))

-- The response of `_do_read_bits` to the values that were read, if the address was valid.
unfoldable pub respond_bits : Frame → Option (List ℤ) → Exec Memory Frame
unfolding truth pack_bits
respond_bits request none = refuse request data_address
respond_bits request (some values) = do
  let bits = map truth values
  bytes ← lift (counted (ceil_8 (length bits)) (pack_bits bits))
  pure (create_response request (some bytes))

-- `_do_read_bits`
unfoldable pub do_read_bits : Option ℕ → Handler
unfolding respond_bits
do_read_bits databank request = do
  (addr, count) ← lift (unpack_hh request.payload)
  if not (leb 0x0001 count && leb count 0x07D0)
      then refuse request data_value
      else attempt (read_bank databank addr count) >>= respond_bits request

-- The response of `_do_read_registers`, likewise.
unfoldable pub respond_registers : Frame → Option (List ℤ) → Exec Memory Frame
unfolding low_word pack_words
respond_registers request none = refuse request data_address
respond_registers request (some values) = do
  let words = map low_word values
  bytes ← lift (and_then (pack_words words) (counted (length words * 2)))
  pure (create_response request (some bytes))

-- `_do_read_registers`
unfoldable pub do_read_registers : Option ℕ → Handler
unfolding respond_registers
do_read_registers databank request = do
  (addr, count) ← lift (unpack_hh request.payload)
  if not (leb 0x0001 count && leb count 0x007D)
      then refuse request data_value
      else attempt (read_bank databank addr count) >>= respond_registers request

-- The confirmation that ends each write handler, with the data that it sends back.
unfoldable pub confirm : Frame → Option (List ℕ) → Option (Unit {0}) → Exec Memory Frame
confirm request bytes none = refuse request data_address
confirm request bytes (some _) = pure (create_response request bytes)

-- `{0x0000: False, 0xFF00: True}.get(value, None)`
abbrev pub coil_value : ℕ → Option ℤ
coil_value value =
    if value == 0x0000 then some (pos 0) else if value == 0xFF00 then some (pos 1) else none

unfoldable pub write_coil : DataStore → Frame → ℕ → Option ℤ → Exec Memory Frame
unfolding confirm
write_coil store request addr none = refuse request data_value
write_coil store request addr (some value) =
    attempt (write_bank store.co addr (value ∷ [])) >>= confirm request none

-- `_handle_write_single_coil`
unfoldable pub write_single_coil : DataStore → Handler
unfolding write_coil
write_single_coil store request = do
  (addr, value) ← lift (unpack_hh request.payload)
  write_coil store request addr (coil_value value)

-- `_handle_write_single_register`
unfoldable pub write_single_register : DataStore → Handler
unfolding confirm
write_single_register store request = do
  (addr, value) ← lift (unpack_hh request.payload)
  attempt (write_bank store.hr addr (pos value ∷ [])) >>= confirm request none

-- `_handle_write_multiple_coils`. The bits are taken outside `try`: too few bytes raise IndexError.
unfoldable pub write_multiple_coils : DataStore → Handler
unfolding confirm
write_multiple_coils store request = do
  (addr, bit_count, byte_count) ← lift (unpack_hhb (take 5 request.payload))
  if not (leb 0x0001 bit_count && leb bit_count 0x07B0) || not (byte_count == ceil_8 bit_count)
      then refuse request data_value
      else do
        bits ← lift (unpack_bits bit_count (drop 5 request.payload))
        attempt (write_bank store.co addr bits) >>= confirm request (some (take 4 request.payload))

-- `_handle_write_multiple_registers`
unfoldable pub write_multiple_registers : DataStore → Handler
unfolding confirm unpack_words
write_multiple_registers store request = do
  (addr, reg_count, byte_count) ← lift (unpack_hhb (take 5 request.payload))
  if not (leb 0x0001 reg_count && leb reg_count 0x007B) || not (byte_count == reg_count * 2)
      then refuse request data_value
      else attempt (do
        words ← lift (unpack_words reg_count (drop 5 request.payload))
        write_bank store.hr addr words)
        >>= confirm request (some (take 4 request.payload))

-- `_get_handler`: the table of function codes, and the handler of all other codes.
unfoldable pub get_handler : DataStore → ℕ → Handler
get_handler store fcode =
    if fcode == 0x01
    then do_read_bits store.co
    else if fcode == 0x02
    then do_read_bits store.di
    else if fcode == 0x03
    then do_read_registers store.hr
    else if fcode == 0x04
    then do_read_registers store.ir
    else if fcode == 0x05
    then write_single_coil store
    else if fcode == 0x06
    then write_single_register store
    else if fcode == 0x0F
    then write_multiple_coils store
    else if fcode == 0x10
    then write_multiple_registers store
    else λ request. refuse request illegal_function
