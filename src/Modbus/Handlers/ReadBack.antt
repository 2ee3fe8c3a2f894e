-- ===== src/Modbus/Handlers/ReadBack.antt =====
-- What a write request stores, a read request of the same addresses returns.
use lewis.Common.{
  ℕ, zero, suc, ◌+◌, ◌-◌, ◌*◌, ◌≤◌, ◌<◌, ◌≡◌, refl, sym, ◌∙◌, ap, subst, Option, some, List, [],
  ◌∷◌, map, ok, arith, length, take, drop, All, le→leb, length-map, lt→ltb, true, ◌==◌, ==_iff,
}
use lewis.Common.Int.{ℤ, pos}
use lewis.Modbus.Bank.{Bank, Memory, DataStore, deref, read_bank, write_bank, store_at}
use lewis.Modbus.Bank.Write.{spliced, bank_set_lem}
use lewis.Modbus.Bank.Shared.{read-write_bank}
use lewis.Modbus.Bits.{unpack_bits, pack_bits, ceil_8}
use lewis.Modbus.Bits.RoundTrip.{IsBit, unpack-pack_bits}
use lewis.Modbus.Bits.Unpack.{unpack_bits-Bits}
use lewis.Modbus.Frame.{Frame, create_response, unpack_hh, unpack_hhb, pack_b}
use lewis.Modbus.Frame.Parse.{IsByte}
use lewis.Modbus.Handlers.{
  truth, low_word, respond_bits, respond_registers, do_read_bits, do_read_registers,
  write_multiple_coils, write_multiple_registers,
}
use lewis.Modbus.Handlers.Words.{word_bytes, pack_words_lem, All-low_word, unpack_words-Words}

-- A write that fits within its bank succeeds.
write_bank-within :
    (ref : Option ℕ) (addr : ℕ) (values : List ℤ) (m : Memory) {b : Bank}
    → deref ref m ≡ ok b
    → b.start_addr ≤ addr
    → addr - b.start_addr + length values ≤ length b.entries
    → write_bank ref addr values m
      ≡ (ok tt, store_at ref (spliced b (addr - b.start_addr) values) m)
unfolding write_bank
write_bank-within ref addr values m {b} d above fits =
    rw (d, bank_set_lem b addr values, le→leb _ _ above, le→leb _ _ fits)

-- A read of registers answers with the bytes of the values that the bank gives.
read_registers_lem :
    (ref : Option ℕ) (request : Frame) (addr n : ℕ) (values : List ℤ) (m : Memory)
    → unpack_hh request.payload ≡ ok (addr, n)
    → 0 < n
    → n ≤ 125
    → read_bank ref addr n m ≡ (ok values, m)
    → length values ≡ n
    → do_read_registers ref request m
      ≡ (ok (create_response request (some (n * 2 ∷ word_bytes (map low_word values)))), m)
unfolding do_read_registers respond_registers pack_b
read_registers_lem ref request addr n values m r p q answer count = rw (
  r,
  le→leb 1 n p,
  le→leb n 0x007D q,
  answer,
  pack_words_lem (map low_word values) (All-low_word values),
  length-map values low_word,
  count,
  lt→ltb (n * 2) 256 (omega arith),
)

truth-pos : (bits : List ℕ) → All IsBit bits → map truth (map pos bits) ≡ bits
unfolding truth
truth-pos [] h = refl
truth-pos (zero ∷ bits) h = ap (λ l. 0 ∷ l) (truth-pos bits h.1)
truth-pos (suc zero ∷ bits) h = ap (λ l. 1 ∷ l) (truth-pos bits h.1)
truth-pos (suc (suc b) ∷ bits) h = absurd (omega arith)

-- A read of coils answers with the packed bits of the values that the bank gives.
read_bits_lem :
    (ref : Option ℕ) (request : Frame) (addr n : ℕ) (bits : List ℕ) (m : Memory)
    → unpack_hh request.payload ≡ ok (addr, n)
    → 0 < n
    → n ≤ 2000
    → read_bank ref addr n m ≡ (ok (map pos bits), m)
    → length bits ≡ n
    → All IsBit bits
    → do_read_bits ref request m
      ≡ (ok (create_response request (some (ceil_8 n ∷ pack_bits bits))), m)
unfolding do_read_bits respond_bits pack_b
read_bits_lem ref request addr n bits m r p q answer count all_bits = rw (
  r,
  le→leb 1 n p,
  le→leb n 0x07D0 q,
  answer,
  truth-pos bits all_bits,
  count,
  lt→ltb (ceil_8 n) 256 (omega arith),
)

equal_self : (n : ℕ) → (n == n) ≡ true
equal_self n = (==_iff n n).1 refl

-- A write of registers that fits its bank is confirmed, and a read of the same registers, at the
-- bank that was written, then returns the bytes of the request.
pub registers_read_back :
    (store : DataStore) (m : Memory) (b : Bank) (addr n : ℕ) (write read : Frame)
    → deref store.hr m ≡ ok b
    → b.start_addr ≤ addr
    → addr - b.start_addr + n ≤ length b.entries
    → 0 < n
    → n ≤ 123
    → unpack_hhb (take 5 write.payload) ≡ ok (addr, n, n * 2)
    → All IsByte (drop 5 write.payload)
    → length (drop 5 write.payload) ≡ n * 2
    → unpack_hh read.payload ≡ ok (addr, n)
    → (m' : Memory) × (write_multiple_registers store write m
        ≡ (ok (create_response write (some (take 4 write.payload))), m'))
      × (do_read_registers store.hr read m'
          ≡ (ok (create_response read (some (n * 2 ∷ drop 5 write.payload))), m'))
unfolding write_multiple_registers
registers_read_back store m b addr n write read d above fits p q w bytes size r =
    let words = unpack_words-Words n (drop 5 write.payload) bytes size in
    let stored = write_bank-within store.hr addr words.words m d above (rw words.count fits) in
    let m' = store_at store.hr (spliced b (addr - b.start_addr) words.words) m in
    let answer = read-write_bank store.hr addr words.words m stored (rw words.count p) in
    (
      m',
      rw (w, le→leb 1 n p, le→leb n 0x007B q, equal_self (n * 2), words.unpacked, stored),
      read_registers_lem store.hr read addr n words.words m' r p (omega arith)
            (subst (λ k. read_bank store.hr addr k m' ≡ (ok words.words, m')) words.count answer)
            words.count
          ∙ ap (λ bs. (ok (create_response read (some (n * 2 ∷ bs))), m')) words.same_bytes,
    )

-- A write of coils that fits its bank is confirmed, and a read of the same coils then returns
-- bytes that carry the same bits as the bytes of the request.
pub coils_read_back :
    (store : DataStore) (m : Memory) (b : Bank) (addr n : ℕ) (write read : Frame)
    → deref store.co m ≡ ok b
    → b.start_addr ≤ addr
    → addr - b.start_addr + n ≤ length b.entries
    → 0 < n
    → n ≤ 1968
    → unpack_hhb (take 5 write.payload) ≡ ok (addr, n, ceil_8 n)
    → ceil_8 n ≤ length (drop 5 write.payload)
    → unpack_hh read.payload ≡ ok (addr, n)
    → (m' : Memory) × (packed : List ℕ) × (write_multiple_coils store write m
        ≡ (ok (create_response write (some (take 4 write.payload))), m'))
      × (do_read_bits store.co read m' ≡ (ok (create_response read (some (ceil_8 n ∷ packed))), m'))
      × (unpack_bits n packed ≡ unpack_bits n (drop 5 write.payload))
unfolding write_multiple_coils
coils_read_back store m b addr n write read d above fits p q w size r =
    let taken = unpack_bits-Bits n (drop 5 write.payload) size in
    let values = map pos taken.bits in
    let count : length values ≡ n = length-map taken.bits pos ∙ taken.count in
    let stored = write_bank-within store.co addr values m d above (rw count fits) in
    let m' = store_at store.co (spliced b (addr - b.start_addr) values) m in
    let answer = read-write_bank store.co addr values m stored (rw count p) in
    (
      m',
      pack_bits taken.bits,
      rw (w, le→leb 1 n p, le→leb n 0x07B0 q, equal_self (ceil_8 n), taken.unpacked, stored),
      read_bits_lem store.co read addr n taken.bits m' r p (omega arith)
          (subst (λ k. read_bank store.co addr k m' ≡ (ok values, m')) count answer) taken.count
          taken.all_bits,
      subst (λ k. unpack_bits k (pack_bits taken.bits) ≡ ok values) taken.count
            (unpack-pack_bits taken.bits taken.all_bits)
          ∙ sym taken.unpacked,
    )
