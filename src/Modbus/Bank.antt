-- ===== src/Modbus/Bank.antt =====
-- The data banks of lewis/adapters/modbus.py (`ModbusDataBank`, `ModbusBasicDataBank` and
-- `ModbusDataStore`). Entries are Python integers, with `False` and `True` as 0 and 1. Banks are
-- objects that the four fields of a store may share, so they live in a memory and a field is a
-- reference into it, or `none`.
pub mod Access
pub mod Write
pub mod Shared
use lewis.Common.{
  ℕ, ◌+◌, ◌-◌, ◌&&◌, Option, none, some, List, arith, Result, ok, err, index_error, attribute_error,
  Exec, and_then, leb, ◌==◌, if◌then◌else◌, length, replicate, get_elem?, set as list_set,
}
use lewis.Common.Int.{ℤ, pos, sub_ℕ, ◌+ℤ◌, leb_ℤ}
use lewis.Common.Slice.{slice, set_slice}

pub record Bank : Type 0 where
  pub entries : List ℤ
  pub start_addr : ℕ

-- `ModbusBasicDataBank(default_value, start_addr, last_addr)`. Multiplying a list by a count
-- below 1 gives the empty list, as the truncated difference does.
unfoldable pub basic_bank : ℤ → ℕ → ℕ → Bank
basic_bank default start last = record {
  entries = replicate (last + 1 - start) default;
  start_addr = start;
}

-- `ModbusDataBank.get`
unfoldable pub bank_get : Bank → ℕ → ℕ → Result (List ℤ)
bank_get b addr count =
    let a = sub_ℕ addr b.start_addr in
    let values = slice b.entries a (a +ℤ pos count) in
    if length values == count then ok values else err index_error

-- `ModbusDataBank.set`
unfoldable pub bank_set : Bank → ℕ → List ℤ → Result Bank
bank_set b addr values =
    let a = sub_ℕ addr b.start_addr in
    let end = a +ℤ pos (length values) in
    if leb_ℤ (pos 0) a && (leb_ℤ a end && leb_ℤ end (pos (length b.entries)))
    then ok (record b { entries = set_slice b.entries a end values })
    else err index_error

-- `ModbusDataStore`
pub record DataStore : Type 0 where
  pub di : Option ℕ
  pub co : Option ℕ
  pub ir : Option ℕ
  pub hr : Option ℕ

abbrev pub Memory : Type 0
Memory = List Bank

-- The object that a field refers to. A method call on `None` raises; a reference that leads
-- nowhere is no Python state, and is treated alike.
abbrev pub object : Option Bank → Result Bank
object none = err attribute_error
object (some b) = ok b

abbrev pub deref : Option ℕ → Memory → Result Bank
deref none m = err attribute_error
deref (some r) m = object (get_elem? m r)

-- `databank.get(addr, count)` through a field of the store.
unfoldable pub read_bank : Option ℕ → ℕ → ℕ → Exec Memory (List ℤ)
read_bank ref addr count m = (and_then (deref ref m) (λ b. bank_get b addr count), m)

abbrev pub store_at : Option ℕ → Bank → Memory → Memory
store_at none b m = m
store_at (some r) b m = list_set m r b

abbrev pub wrote : Option ℕ → Memory → Result Bank → Result (Unit {0}) × Memory
wrote ref m (ok b) = (ok tt, store_at ref b m)
wrote ref m (err e) = (err e, m)

-- `databank.set(addr, values)` through a field of the store.
unfoldable pub write_bank : Option ℕ → ℕ → List ℤ → Exec Memory (Unit {0})
write_bank ref addr values m = wrote ref m (and_then (deref ref m) (λ b. bank_set b addr values))
