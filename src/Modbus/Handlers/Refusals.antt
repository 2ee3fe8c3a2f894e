-- ===== src/Modbus/Handlers/Refusals.antt =====
-- Requests that a handler should answer with an exception frame.
use lewis.Common.{
  ℕ, ◌≡◌, ◌<◌, ◌⊎◌, inl, inr, Option, ok, err, type_error, index_error, arith, false, leb, not,
  ◌&&◌, Bool-cases,
}
use lewis.Modbus.Bank.{Bank, Memory, deref, bank_get, read_bank}
use lewis.Modbus.Frame.{Frame, create_exception, unpack_hh}
use lewis.Modbus.Handlers.{do_read_bits, do_read_registers}

module _ (ref : Option ℕ) (request : Frame) (addr count : ℕ) (m : Memory) (b : Bank)
    (parsed : unpack_hh request.payload ≡ ok (addr, count)) (found : deref ref m ≡ ok b) where
  -- A read of coils or discrete inputs of a count out of range, or of addresses that the bank
  -- refuses, raises TypeError and changes nothing.
  pub read_bits_refused :
      ((count ≡ 0) ⊎ (0x07D0 < count)) ⊎ (bank_get b addr count ≡ err index_error)
      → do_read_bits ref request m ≡ (err type_error, m)
  unfolding do_read_bits read_bank create_exception
  read_bits_refused why = elim (Bool-cases (not (leb 1 count && leb count 0x07D0))) [
    | inl bad ↦ rw (parsed, bad)
    | inr good ↦ rw (parsed, good, found, refused why good)
  ]
    where
      refused :
          ((count ≡ 0) ⊎ (0x07D0 < count)) ⊎ (bank_get b addr count ≡ err index_error)
          → not (leb 1 count && leb count 0x07D0) ≡ false
          → bank_get b addr count ≡ err index_error
      refused why good = ground arith

  -- The same of a read of registers.
  pub read_registers_refused :
      ((count ≡ 0) ⊎ (0x007D < count)) ⊎ (bank_get b addr count ≡ err index_error)
      → do_read_registers ref request m ≡ (err type_error, m)
  unfolding do_read_registers read_bank create_exception
  read_registers_refused why = elim (Bool-cases (not (leb 1 count && leb count 0x007D))) [
    | inl bad ↦ rw (parsed, bad)
    | inr good ↦ rw (parsed, good, found, refused why good)
  ]
    where
      refused :
          ((count ≡ 0) ⊎ (0x007D < count)) ⊎ (bank_get b addr count ≡ err index_error)
          → not (leb 1 count && leb count 0x007D) ≡ false
          → bank_get b addr count ≡ err index_error
      refused why good = ground arith
