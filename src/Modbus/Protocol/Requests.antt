-- ===== src/Modbus/Protocol/Requests.antt =====
-- What one request does to a connection.
use lewis.Common.{
  ℕ, ◌≡◌, ◌≢◌, append-nil, List, [], ◌∷◌, ◌++◌, Exn, ok, err, type_error, arith, subst,
}
use lewis.Modbus.Bank.{Memory, DataStore}
use lewis.Modbus.Frame.{Frame, from_bytearray, to_bytearray, create_exception}
use lewis.Modbus.Frame.Layout.{IsWellFormed, header, to_bytearray_fits, from-to_bytearray}
use lewis.Modbus.Frame.Parse.{IsRead}
use lewis.Modbus.Handlers.{get_handler}
use lewis.Modbus.Handlers.Responses.{IsResponse, Responds}
use lewis.Modbus.Handlers.Echo.{get_handler-Responds}
use lewis.Modbus.Protocol.{Link, handle_request}

module _ (store : DataStore) (request : Frame) (read : IsRead request) (l : Link) where
  request_bytes : to_bytearray request ≡ ok (header request ++ request.payload)
  request_bytes =
      to_bytearray_fits request read.transaction_fits read.protocol_fits read.size_fits
        read.unit_fits read.fcode_fits

  response-IsWellFormed : {response : Frame} → IsResponse request response → IsWellFormed response
  response-IsWellFormed r = record {
    transaction_fits = rw r.same_transaction read.transaction_fits;
    protocol_fits = rw r.same_protocol read.protocol_fits;
    size_fits = omega (arith, r.sized, r.short);
    unit_fits = rw r.same_unit read.unit_fits;
    fcode_fits = rw r.same_fcode read.fcode_fits;
    sized = omega (arith, r.sized);
  }

  -- A request whose handler returns a response is answered by exactly one message, from which
  -- a client reads that response, with the identifiers and the function code of the request.
  pub handle_request_answers :
      {response : Frame} {m : Memory}
      → get_handler store request.fcode request l.memory ≡ (ok response, m)
      → (bytes : List ℕ) × (handle_request store request l
          ≡ (ok tt, record { memory = m; sent = l.sent ++ bytes ∷ [] }))
        × (from_bytearray bytes ≡ ok (response, []))
        × IsResponse request response
  unfolding handle_request
  handle_request_answers {response} h =
      let r : IsResponse request response =
        subst (Responds request) h (get_handler-Responds request store request.fcode l.memory) in
      let (bytes, written, reads) = from-to_bytearray response (response-IsWellFormed r) in
      (bytes, rw (request_bytes, h, written) (rw written), rw (append-nil bytes) at (reads []), r)

  -- A request whose handler raises is answered by nothing.
  pub handle_request_raises :
      {e : Exn} {m : Memory}
      → get_handler store request.fcode request l.memory ≡ (err e, m)
      → handle_request store request l ≡ (err e, record l { memory = m })
  unfolding handle_request
  handle_request_raises h = rw (request_bytes, h)

abbrev Unsupported : ℕ → Type 0
Unsupported fcode =
    (fcode ≢ 0x01)
    × (fcode ≢ 0x02)
    × (fcode ≢ 0x03)
    × (fcode ≢ 0x04)
    × (fcode ≢ 0x05)
    × (fcode ≢ 0x06)
    × (fcode ≢ 0x0F)
    × (fcode ≢ 0x10)

get_handler-Unsupported :
    (store : DataStore) (request : Frame) (m : Memory)
    → Unsupported request.fcode
    → get_handler store request.fcode request m ≡ (err type_error, m)
unfolding get_handler create_exception
get_handler-Unsupported store request m u = ground arith

-- A request with a function code that is not in the table raises TypeError where the exception
-- frame is made: no message is sent and no bank changes.
pub handle_request-Unsupported :
    (store : DataStore) (request : Frame) (l : Link)
    → IsRead request
    → Unsupported request.fcode
    → handle_request store request l ≡ (err type_error, l)
handle_request-Unsupported store request l read u =
    handle_request_raises store request read l (get_handler-Unsupported store request l.memory u)
