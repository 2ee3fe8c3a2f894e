-- ===== src/Modbus/Bank/Write.antt =====
-- What a write to a bank leaves behind, for later reads.
use lewis.Common.{
  ℕ, ◌+◌, ◌-◌, ◌≤◌, ◌<◌, ◌≡◌, refl, sym, ◌∙◌, ◌⊎◌, inl, inr, ◌&&◌, ◌++◌, List, arith, ok, err,
  index_error, leb, min, if◌then◌else◌, length, take, drop, length-append, length-take, length-drop,
  Bool-cases, leb→le, le→leb,
}
use lewis.Common.Int.{ℤ, pos}
use lewis.Common.Slice.{
  set_slice, clamp_index, drop-drop, drop-take-append, take-drop-take_before, take-length,
  drop-length,
}
use lewis.Modbus.Bank.{Bank, bank_get, bank_set}
use lewis.Modbus.Bank.Access.{pos_add, bank_get_above}

-- The bank after a write of `values` at index `i`.
abbrev pub spliced : Bank → ℕ → List ℤ → Bank
spliced b i values = record b {
  entries = take i b.entries ++ (values ++ drop (i + length values) b.entries);
}

set_slice_within :
    (xs vs : List ℤ) (i : ℕ)
    → i + length vs ≤ length xs
    → set_slice xs (pos i) (pos (i + length vs)) vs ≡ take i xs ++ (vs ++ drop (i + length vs) xs)
unfolding set_slice clamp_index
set_slice_within xs vs i h =
    let a : min i (length xs) ≡ i = omega arith in
    let b : min (i + length vs) (length xs) ≡ i + length vs = omega arith in rw (a, b)

-- A write succeeds exactly when all of it lies within the bank, also below the start address.
pub bank_set_lem :
    (b : Bank) (addr : ℕ) (values : List ℤ)
    → bank_set b addr values ≡ (
        if leb b.start_addr addr && leb (addr - b.start_addr + length values) (length b.entries)
        then ok (spliced b (addr - b.start_addr) values)
        else err index_error)
unfolding bank_set
bank_set_lem b addr values = elim (Bool-cases (leb b.start_addr addr)) [
  | inl above ↦
      let i = addr - b.start_addr in
      rw (above, pos_add i (length values))
        (elim (Bool-cases (leb (i + length values) (length b.entries))) [
          | inl fits ↦
              rw (fits, set_slice_within b.entries values i (leb→le _ _ fits)) (ground arith)
          | inr beyond ↦ rw beyond (ground arith)
        ])
  | inr below ↦ rw below (ground arith)
]

written_within_cases :
    (b : Bank) (i addr : ℕ) (values : List ℤ) {b' : Bank}
    → (if leb b.start_addr addr && leb (i + length values) (length b.entries)
        then ok (spliced b i values)
        else err index_error)
      ≡ ok b'
    → (b.start_addr ≤ addr) × (i + length values ≤ length b.entries) × (b' ≡ spliced b i values)
written_within_cases b i addr values written = ground arith

length-spliced :
    (b : Bank) (i : ℕ) (values : List ℤ)
    → i + length values ≤ length b.entries
    → length (spliced b i values).entries ≡ length b.entries
length-spliced b i values fits = simp (length-append, length-take, length-drop) (omega arith)

-- A bank whose entries end as far as `n` after `i` answers a read of them.
read_within :
    (b : Bank) (addr n : ℕ)
    → b.start_addr ≤ addr
    → 0 < n
    → addr - b.start_addr + n ≤ length b.entries
    → bank_get b addr n ≡ ok (take n (drop (addr - b.start_addr) b.entries))
read_within b addr n above p fits = rw (bank_get_above b addr n above p, le→leb _ _ fits)

drop-spliced :
    (b : Bank) (i k : ℕ) (values : List ℤ)
    → i + length values ≤ length b.entries
    → i + length values ≤ k
    → drop k (spliced b i values).entries ≡ drop k b.entries
drop-spliced b i k values fits after =
    let n = length values in
    let e : k ≡ i + (n + (k - (i + n))) = omega arith in
    let e' : i + n + (k - (i + n)) ≡ i + (n + (k - (i + n))) = omega arith in
    rw (
      e,
      ← drop-drop (n + (k - (i + n))) i (spliced b i values).entries,
      drop-take-append i b.entries (values ++ drop (i + n) b.entries) (omega arith),
      ← drop-drop (k - (i + n)) n (values ++ drop (i + n) b.entries),
      drop-length values (drop (i + n) b.entries),
      drop-drop (k - (i + n)) (i + n) b.entries,
      e',
    )

module _ (b : Bank) (addr : ℕ) (values : List ℤ) {b' : Bank}
    (written : bank_set b addr values ≡ ok b') where
  -- A write that succeeded lay within the bank and spliced its values in.
  pub written_within :
      (b.start_addr ≤ addr)
      × (addr - b.start_addr + length values ≤ length b.entries)
      × (b' ≡ spliced b (addr - b.start_addr) values)
  written_within =
      written_within_cases b (addr - b.start_addr) addr values
        (sym (bank_set_lem b addr values) ∙ written)

  -- A write changes neither the size of a bank nor its start address.
  pub bank_set-keeps : (length b'.entries ≡ length b.entries) × (b'.start_addr ≡ b.start_addr)
  bank_set-keeps =
      let (above, fits, e) = written_within in
      let i = addr - b.start_addr in
      rw e (simp (length-append, length-take, length-drop) (omega arith), refl)

  -- Reading the address that was written gives the values back.
  pub get-set : 0 < length values → bank_get b' addr (length values) ≡ ok values
  get-set p =
      let (above, fits, e) = written_within in
      let i = addr - b.start_addr in
      let size = length-spliced b i values fits in
      rw (
        e,
        read_within (spliced b i values) addr (length values) above p (omega (arith, size)),
        drop-take-append i b.entries (values ++ drop (i + length values) b.entries) (omega arith),
        take-length values (drop (i + length values) b.entries),
      )

  -- After a write that succeeded, a read of one address or more that starts at or above the bank's
  -- start address, and ends before the written range or begins after it, answers as before. Below the
  -- start address this fails, since a read there may answer entries from the end of the bank.
  pub get-set_disjoint :
      (a n : ℕ)
      → b.start_addr ≤ a
      → 0 < n
      → (a + n ≤ addr) ⊎ (addr + length values ≤ a)
      → bank_get b' a n ≡ bank_get b a n
  get-set_disjoint a n above' p side =
      let (above, fits, e) = written_within in
      let i = addr - b.start_addr in
      let k = a - b.start_addr in
      rw
        (
          e,
          bank_get_above (spliced b i values) a n above' p,
          bank_get_above b a n above' p,
          length-spliced b i values fits,
        )
        (elim side [
          | inl before ↦ rw (take-drop-take_before n k i b.entries _ (omega arith) (omega arith))
          | inr after ↦ rw (drop-spliced b i k values fits (omega arith))
        ])
