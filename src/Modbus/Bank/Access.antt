-- ===== src/Modbus/Bank/Access.antt =====
-- What a bank answers, and what a write leaves.
use lewis.Common.{
  ℕ, ◌+◌, ◌-◌, ◌≤◌, ◌<◌, ◌≡◌, List, arith, ok, err, index_error, leb, min, if◌then◌else◌, length,
  take, drop, length-take, length-drop, leb→le, Bool-cases, inl, inr,
}
use lewis.Common.Int.{ℤ, pos, negsuc, sub_ℕ, ◌+ℤ◌}
use lewis.Common.Slice.{slice, clamp_index}
use lewis.Modbus.Bank.{Bank, bank_get}

-- Within a list a slice with bounds in order is `take` after `drop`.
slice_within :
    (xs : List ℤ) (i n : ℕ)
    → i + n ≤ length xs
    → slice xs (pos i) (pos (i + n)) ≡ take n (drop i xs)
unfolding slice clamp_index
slice_within xs i n h =
    let a : min i (length xs) ≡ i = omega arith in
    let b : min (i + n) (length xs) ≡ i + n = omega arith in
    let c : i + n - i ≡ n = omega arith in rw (a, b, c)

-- A slice that would end past the list is shorter than its bounds say.
slice_beyond :
    (xs : List ℤ) (i n : ℕ)
    → length xs < i + n
    → 0 < n
    → length (slice xs (pos i) (pos (i + n))) < n
unfolding slice clamp_index
slice_beyond xs i n h p = simp (length-take, length-drop) (omega arith)

-- A slice that begins and ends before the list counts both ends from the end of the list.
slice_tail :
    (xs : List ℤ) (d n : ℕ)
    → n < d
    → d ≤ length xs
    → slice xs (negsuc (d - 1)) (negsuc (d - n - 1)) ≡ take n (drop (length xs - d) xs)
unfolding slice clamp_index
slice_tail xs d n h l =
    let a : length xs - (d - 1 + 1) ≡ length xs - d = omega arith in
    let b : length xs - (d - n - 1 + 1) - (length xs - d) ≡ n = omega arith in rw (a, b)

pub sub_above : (a s : ℕ) → s ≤ a → sub_ℕ a s ≡ pos (a - s)
sub_above a s h = ground arith

pub pos_add : (a n : ℕ) → pos a +ℤ pos n ≡ pos (a + n)
unfolding ◌+ℤ◌
pos_add a n = ground arith

pub sub_below : (a s : ℕ) → a < s → sub_ℕ a s ≡ negsuc (s - a - 1)
sub_below a s h = ground arith

negsuc_add : (d n : ℕ) → n < d → negsuc (d - 1) +ℤ pos n ≡ negsuc (d - n - 1)
unfolding ◌+ℤ◌
negsuc_add d n h = ground arith

-- At or above the start address a read answers exactly when it ends within the bank.
pub bank_get_above :
    (b : Bank) (addr count : ℕ)
    → b.start_addr ≤ addr
    → 0 < count
    → bank_get b addr count ≡ (
        if leb (addr - b.start_addr + count) (length b.entries)
        then ok (take count (drop (addr - b.start_addr) b.entries))
        else err index_error)
unfolding bank_get
bank_get_above b addr count h p =
    let i = addr - b.start_addr in
    rw (sub_above addr b.start_addr h, pos_add i count)
      (elim (Bool-cases (leb (i + count) (length b.entries))) [
        | inl fits ↦
            rw (fits, slice_within b.entries i count (leb→le _ _ fits))
              (ground (arith, length-take count (drop i b.entries), length-drop i b.entries))
        | inr beyond ↦ rw beyond (ground (arith, slice_beyond b.entries i count (ground arith) p))
      ])

-- A read that begins below the start address, by no more than the bank is long, and whose range ends
-- short of the start address by one address or more, is not refused: it answers entries from the end
-- of the bank.
pub bank_get_below :
    (b : Bank) (addr count : ℕ)
    → addr + count < b.start_addr
    → b.start_addr - addr ≤ length b.entries
    → bank_get b addr count
      ≡ ok (take count (drop (length b.entries - (b.start_addr - addr)) b.entries))
unfolding bank_get
bank_get_below b addr count h l =
    let d = b.start_addr - addr in
    rw
      (
        sub_below addr b.start_addr (omega arith),
        negsuc_add d count (omega arith),
        slice_tail b.entries d count (omega arith) l,
      )
      (ground (
        arith,
        length-take count (drop (length b.entries - d) b.entries),
        length-drop (length b.entries - d) b.entries,
      ))

-- A read that succeeds has as many values as were asked for.
pub length-bank_get :
    (b : Bank) (addr count : ℕ) {values : List ℤ}
    → bank_get b addr count ≡ ok values
    → length values ≡ count
unfolding bank_get
length-bank_get b addr count h = ground arith
