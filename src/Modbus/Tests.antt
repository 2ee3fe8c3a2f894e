-- ===== src/Modbus/Tests.antt =====
-- Examples for the Modbus adapter.
use lewis.Common.{
  ℕ, ◌+◌, some, List, [], ◌∷◌, ◌++◌, map, ok, err, eof_error, type_error, ◌≡◌, refl, inr, drop,
  length, arith,
}
use lewis.Common.Int.{pos, ◌+ℤ◌}
use lewis.Modbus.Bank.{Bank, bank_get, bank_set, DataStore, Memory, read_bank, write_bank}
use lewis.Modbus.Bank.Access.{bank_get_below}
use lewis.Modbus.Bank.Write.{get-set, get-set_disjoint}
use lewis.Common.Slice.{slice, set_slice, clamp_index}
use lewis.Modbus.Frame.{
  pack_h, pack_b, unpack_hh, unpack_hhb, Frame, from_bytearray, to_bytearray, create_response,
}
use lewis.Modbus.Frame.Layout.{IsWellFormed, from-to_bytearray}
use lewis.Modbus.Frame.Parse.{IsRead}
use lewis.Modbus.Bits.{pack_bits, unpack_bits}
use lewis.Modbus.Bits.RoundTrip.{unpack-pack_bits}
use lewis.Modbus.Handlers.{
  get_handler, do_read_bits, do_read_registers, write_multiple_coils, write_multiple_registers,
}
use lewis.Modbus.Handlers.Responses.{IsResponse, Responds}
use lewis.Modbus.Handlers.Echo.{get_handler-Responds}
use lewis.Modbus.Handlers.ReadBack.{registers_read_back, coils_read_back}
use lewis.Modbus.Protocol.{Connection, handle_request, process}
use lewis.Modbus.Protocol.Stream.{arrive, process-append, process-Drained}
use lewis.Modbus.Protocol.Requests.{handle_request_answers, handle_request-Unsupported}

-- Coils from address 10 and registers from address 0.
abbrev coils : Bank
coils = record { entries = pos 0 ∷ pos 1 ∷ pos 0 ∷ pos 0 ∷ []; start_addr = 10 }

abbrev registers : Bank
registers = record { entries = pos 5 ∷ pos 6 ∷ pos 7 ∷ pos 8 ∷ []; start_addr = 0 }

abbrev memory : Memory
memory = coils ∷ registers ∷ []

abbrev store : DataStore
store = record { di = some 0; co = some 0; ir = some 1; hr = some 1 }

abbrev frame : ℕ → List ℕ → Frame
frame fcode payload = record {
  transaction_id = 258;
  protocol_id = 0;
  size = length payload + 2;
  unit_id = 1;
  fcode = fcode;
  payload = payload;
}

abbrev read_request : Frame
read_request = frame 3 (0 ∷ 1 ∷ 0 ∷ 2 ∷ [])

abbrev read_bytes : List ℕ
read_bytes = 1 ∷ 2 ∷ 0 ∷ 0 ∷ 0 ∷ 6 ∷ 1 ∷ 3 ∷ 0 ∷ 1 ∷ 0 ∷ 2 ∷ []

abbrev connection : Connection
connection = record { buffer = []; link = record { memory = memory; sent = [] } }

-- The request is split after its third byte.
process-append_example :
    process store ((1 ∷ 2 ∷ 0 ∷ []) ++ drop 3 read_bytes) connection
    ≡ arrive store (drop 3 read_bytes) (process store (1 ∷ 2 ∷ 0 ∷ []) connection)
process-append_example = process-append store (1 ∷ 2 ∷ 0 ∷ []) (drop 3 read_bytes) connection

abbrev after_read : Connection
after_read = record {
  buffer = 7 ∷ [];
  link = record {
    memory = memory;
    sent = (1 ∷ 2 ∷ 0 ∷ 0 ∷ 0 ∷ 7 ∷ 1 ∷ 3 ∷ 4 ∷ 0 ∷ 6 ∷ 0 ∷ 7 ∷ []) ∷ [];
  };
}

process_test : process store (read_bytes ++ 7 ∷ []) connection ≡ (ok tt, after_read)
unfolding process from_bytearray handle_request to_bytearray get_handler do_read_registers unpack_hh
    read_bank bank_get slice clamp_index ◌+ℤ◌ create_response
process_test = refl

process-Drained_example : from_bytearray after_read.buffer ≡ err eof_error
process-Drained_example =
    process-Drained store (read_bytes ++ 7 ∷ []) connection after_read process_test

abbrev write_registers : Frame
write_registers = frame 16 (0 ∷ 1 ∷ 0 ∷ 2 ∷ 4 ∷ 1 ∷ 2 ∷ 3 ∷ 4 ∷ [])

registers_read_back_example :
    (m' : Memory) × (write_multiple_registers store write_registers memory
      ≡ (ok (create_response write_registers (some (0 ∷ 1 ∷ 0 ∷ 2 ∷ []))), m'))
    × (do_read_registers store.hr read_request m'
        ≡ (ok (create_response read_request (some (4 ∷ 1 ∷ 2 ∷ 3 ∷ 4 ∷ []))), m'))
unfolding unpack_hhb unpack_hh
registers_read_back_example =
    registers_read_back store memory registers 1 2 write_registers read_request refl (omega arith)
      (omega arith) (omega arith) (omega arith) refl
      (omega arith, (omega arith, (omega arith, (omega arith, tt)))) refl refl

abbrev write_coils : Frame
write_coils = frame 15 (0 ∷ 11 ∷ 0 ∷ 3 ∷ 1 ∷ 5 ∷ [])

abbrev read_coils : Frame
read_coils = frame 1 (0 ∷ 11 ∷ 0 ∷ 3 ∷ [])

coils_read_back_example :
    (m' : Memory) × (packed : List ℕ) × (write_multiple_coils store write_coils memory
      ≡ (ok (create_response write_coils (some (0 ∷ 11 ∷ 0 ∷ 3 ∷ []))), m'))
    × (do_read_bits store.co read_coils m'
        ≡ (ok (create_response read_coils (some (1 ∷ packed))), m'))
    × (unpack_bits 3 packed ≡ unpack_bits 3 (5 ∷ []))
unfolding unpack_hhb unpack_hh
coils_read_back_example =
    coils_read_back store memory coils 11 3 write_coils read_coils refl (omega arith) (omega arith)
      (omega arith) (omega arith) refl (omega arith) refl

abbrev written_registers : Bank
written_registers = record { entries = pos 5 ∷ pos 9 ∷ pos 8 ∷ pos 8 ∷ []; start_addr = 0 }

bank_written : bank_set registers 1 (pos 9 ∷ pos 8 ∷ []) ≡ ok written_registers
unfolding bank_set ◌+ℤ◌ set_slice clamp_index
bank_written = refl

get-set_example : bank_get written_registers 1 2 ≡ ok (pos 9 ∷ pos 8 ∷ [])
get-set_example = get-set registers 1 (pos 9 ∷ pos 8 ∷ []) bank_written (omega arith)

get-set_disjoint_example : bank_get written_registers 3 1 ≡ bank_get registers 3 1
get-set_disjoint_example =
    get-set_disjoint registers 1 (pos 9 ∷ pos 8 ∷ []) bank_written 3 1 (omega arith) (omega arith)
      (inr (omega arith))

-- Address 8 lies below the bank, and is answered from its end.
bank_get_below_example : bank_get coils 8 1 ≡ ok (pos 0 ∷ [])
bank_get_below_example = bank_get_below coils 8 1 (omega arith) (omega arith)

abbrev written_memory : Memory
written_memory = coils ∷ written_registers ∷ []

memory_written : write_bank (some 1) 1 (pos 9 ∷ pos 8 ∷ []) memory ≡ (ok tt, written_memory)
unfolding write_bank bank_set ◌+ℤ◌ set_slice clamp_index
memory_written = refl

read_request-IsWellFormed : IsWellFormed read_request
read_request-IsWellFormed = record {
  transaction_fits = omega arith;
  protocol_fits = omega arith;
  size_fits = omega arith;
  unit_fits = omega arith;
  fcode_fits = omega arith;
  sized = refl;
}

from-to_bytearray_example :
    (bytes : List ℕ) × (to_bytearray read_request ≡ ok bytes)
    × ((rest : List ℕ) → from_bytearray (bytes ++ rest) ≡ ok (read_request, rest))
from-to_bytearray_example = from-to_bytearray read_request read_request-IsWellFormed

request_read : from_bytearray read_bytes ≡ ok (read_request, [])
unfolding from_bytearray
request_read = refl

abbrev ten_bits : List ℕ
ten_bits = 1 ∷ 0 ∷ 1 ∷ 1 ∷ 0 ∷ 0 ∷ 0 ∷ 1 ∷ 0 ∷ 1 ∷ []

unpack-pack_bits_example : unpack_bits 10 (pack_bits ten_bits) ≡ ok (map pos ten_bits)
unpack-pack_bits_example = unpack-pack_bits ten_bits (
  omega arith,
  (
    omega arith,
    (
      omega arith,
      (
        omega arith,
        (
          omega arith,
          (omega arith, (omega arith, (omega arith, (omega arith, (omega arith, tt))))),
        ),
      ),
    ),
  ),
)

get_handler-Responds_example : Responds read_request (get_handler store 3 read_request memory)
get_handler-Responds_example = get_handler-Responds read_request store 3 memory

read_request-IsRead : IsRead read_request
read_request-IsRead = record {
  transaction_fits = omega arith;
  protocol_fits = omega arith;
  size_fits = omega arith;
  unit_fits = omega arith;
  fcode_fits = omega arith;
  sized = refl;
  bytes = (omega arith, (omega arith, (omega arith, (omega arith, tt))));
}

request_handled :
    get_handler store 3 read_request memory
    ≡ (ok (create_response read_request (some (4 ∷ 0 ∷ 6 ∷ 0 ∷ 7 ∷ []))), memory)
unfolding get_handler do_read_registers unpack_hh read_bank bank_get slice clamp_index ◌+ℤ◌ pack_h
    pack_b
request_handled = refl

handle_request_answers_example :
    (bytes : List ℕ) × (handle_request store read_request connection.link
      ≡ (ok tt, record { memory = memory; sent = [] ++ bytes ∷ [] }))
    × (from_bytearray bytes ≡ ok (create_response read_request (some (4 ∷ 0 ∷ 6 ∷ 0 ∷ 7 ∷ [])), []))
    × IsResponse read_request (create_response read_request (some (4 ∷ 0 ∷ 6 ∷ 0 ∷ 7 ∷ [])))
handle_request_answers_example =
    handle_request_answers store read_request read_request-IsRead connection.link request_handled

unknown_request-IsRead : IsRead (frame 99 [])
unknown_request-IsRead = record {
  transaction_fits = omega arith;
  protocol_fits = omega arith;
  size_fits = omega arith;
  unit_fits = omega arith;
  fcode_fits = omega arith;
  sized = refl;
  bytes = tt;
}

handle_request-Unsupported_example :
    handle_request store (frame 99 []) connection.link ≡ (err type_error, connection.link)
handle_request-Unsupported_example =
    handle_request-Unsupported store (frame 99 []) connection.link unknown_request-IsRead (
      (λ e. omega arith),
      (λ e. omega arith),
      (λ e. omega arith),
      (λ e. omega arith),
      (λ e. omega arith),
      (λ e. omega arith),
      (λ e. omega arith),
      (λ e. omega arith),
    )
