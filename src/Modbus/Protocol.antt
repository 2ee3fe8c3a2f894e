-- ===== src/Modbus/Protocol.antt =====
-- `ModbusProtocol.process` of lewis/adapters/modbus.py. The callable that sends a response is
-- modelled by the list of what it was given; the device lock is held for the whole call, so a call
-- is one step. The debug messages format both frames, which encodes them.
pub mod Stream
pub mod Requests
use lewis.Common.{
  ℕ, zero, suc, List, [], ◌∷◌, ◌++◌, Result, ok, err, Exec, lift, ◌>>=◌, ◌>>◌, length,
}
use lewis.Modbus.Bank.{Memory, DataStore}
use lewis.Modbus.Frame.{Frame, from_bytearray, to_bytearray}
use lewis.Modbus.Handlers.{get_handler}

-- What the handlers and the sender work on.
pub record Link : Type 0 where
  pub memory : Memory
  pub sent : List (List ℕ)

pub record Connection : Type 0 where
  pub buffer : List ℕ
  pub link : Link

abbrev on_memory : {A : Type 0} → Exec Memory A → Exec Link A
on_memory m l = let (r, memory) = m l.memory in (r, record l { memory = memory })

abbrev delivered : Link → Result (List ℕ) → Result (Unit {0}) × Link
delivered l (ok bytes) = (ok tt, record l { sent = l.sent ++ bytes ∷ [] })
delivered l (err e) = (err e, l)

-- `self._send(response)`
unfoldable pub send : Frame → Exec Link (Unit {0})
send response l = delivered l (to_bytearray response)

-- The body of the loop in `process`.
unfoldable pub handle_request : DataStore → Frame → Exec Link (Unit {0})
unfolding send
handle_request store request = do
  lift (to_bytearray request)
  response ← on_memory (get_handler store request.fcode request)
  lift (to_bytearray response)
  send response

abbrev pub Outcome : Type 0
Outcome = Result (Unit {0}) × Connection

-- After a request: go on with the rest of the buffer, or stop where the handler raised.
abbrev pub next : Result (Unit {0}) × Link → List ℕ → (Link → Outcome) → Outcome
next (ok _, l) rest go = go l
next (err e, l) rest go = (err e, record { buffer = rest; link = l })

-- One round of the generator `_buffered_requests`: a whole frame is taken from the buffer and
-- handled, and EOFError ends the loop.
abbrev pub round :
    DataStore → (List ℕ → Link → Outcome) → List ℕ → Link → Result (Frame × List ℕ) → Outcome
round store go buffer l (err _) = (ok tt, record { buffer = buffer; link = l })
round store go buffer l (ok (request, rest)) = next (handle_request store request l) rest (go rest)

-- The loop of `process`, on fuel; a round takes at least six bytes from the buffer.
unfoldable pub serve : DataStore → ℕ → List ℕ → Link → Outcome
serve store zero buffer l = (ok tt, record { buffer = buffer; link = l })
serve store (suc fuel) buffer l = round store (serve store fuel) buffer l (from_bytearray buffer)

-- `process`
unfoldable pub process : DataStore → List ℕ → Connection → Outcome
unfolding serve
process store bytes c = let buffer = c.buffer ++ bytes in serve store (length buffer) buffer c.link
