-- ===== src/Modbus/Bank/Shared.antt =====
-- Reads and writes through the fields of a store, some of which may be the same bank.
use lewis.Common.{
  ℕ, ◌<◌, ◌≡◌, ◌≢◌, refl, sym, ◌∙◌, ap, Option, none, some, List, [], ◌∷◌, Result, ok, err,
  and_then, Option-cases, inl, inr, length, get_elem?, get_elem?-set_self, get_elem?-set_ne, arith,
  zero, suc,
}
use lewis.Common.Int.{ℤ}
use lewis.Modbus.Bank.{Bank, Memory, deref, bank_set, read_bank, write_bank, store_at, wrote}
use lewis.Modbus.Bank.Write.{get-set}

get_elem?-lt {ℓ} :
    {A : Type ℓ} (xs : List A) (i : ℕ) {a : A} → get_elem? xs i ≡ some a → i < length xs
get_elem?-lt [] i h = cc
get_elem?-lt (x ∷ xs) zero h = omega arith
get_elem?-lt (x ∷ xs) (suc i) h = omega (arith, get_elem?-lt xs i h)

-- A write that succeeded found a bank, and put a written bank in its place.
pub record Written (ref : Option ℕ) (addr : ℕ) (values : List ℤ) (m m' : Memory) : Type 0 where
  pub before : Bank
  pub after : Bank
  pub found : deref ref m ≡ ok before
  pub written : bank_set before addr values ≡ ok after
  pub stored : m' ≡ store_at ref after m
  pub found_after : deref ref m' ≡ ok after

deref-store_at :
    (ref : Option ℕ) (m : Memory) (b : Bank) {old : Bank}
    → deref ref m ≡ ok old
    → deref ref (store_at ref b m) ≡ ok b
deref-store_at none m b h = cc
deref-store_at (some r) m b h = elim (Option-cases (get_elem? m r)) [
  | inl missing ↦ absurd (cc (rw missing at h))
  | inr (old, e) ↦ rw (get_elem?-set_self m r b (get_elem?-lt m r e))
]

wrote-Written :
    (ref : Option ℕ) (addr : ℕ) (values : List ℤ) (m : Memory) {m' : Memory} (b b' : Result Bank)
    → deref ref m ≡ b
    → and_then b (λ b. bank_set b addr values) ≡ b'
    → wrote ref m b' ≡ (ok tt, m')
    → Written ref addr values m m'
wrote-Written ref addr values m (err e) (ok b') d s h = cc
wrote-Written ref addr values m b (err e) d s h = cc
wrote-Written ref addr values m (ok b) (ok b') d s h = record {
  before = b;
  after = b';
  found = d;
  written = s;
  stored = sym (ap (λ (p : Result (Unit {0}) × Memory). p.1) h);
  found_after =
      ap (λ (p : Result (Unit {0}) × Memory). deref ref p.1) (sym h) ∙ deref-store_at ref m b' d;
}

deref-wrote_ne :
    (ref : Option ℕ) (m : Memory) (b : Result Bank) (other : ℕ)
    → ref ≢ some other
    → deref (some other) (wrote ref m b).1 ≡ deref (some other) m
deref-wrote_ne ref m (err e) other ne = refl
deref-wrote_ne none m (ok b) other ne = refl
deref-wrote_ne (some r) m (ok b) other ne =
    rw (get_elem?-set_ne m b (λ (e : r ≡ other). ne (ap some e)))

module _ (ref : Option ℕ) (addr : ℕ) (values : List ℤ) (m : Memory) where
  pub write_bank-Written :
      {m' : Memory} → write_bank ref addr values m ≡ (ok tt, m') → Written ref addr values m m'
  unfolding write_bank
  write_bank-Written h = wrote-Written ref addr values m (deref ref m) _ refl refl h

  -- Values that were written through a field are read back through it.
  pub read-write_bank :
      {m' : Memory}
      → write_bank ref addr values m ≡ (ok tt, m')
      → 0 < length values
      → read_bank ref addr (length values) m' ≡ (ok values, m')
  unfolding read_bank
  read-write_bank h p =
      let w = write_bank-Written h in rw (w.found_after, get-set w.before addr values w.written p)

  -- A bank under another reference is as it was, whatever the write does.
  pub deref-write_bank_ne :
      (other : ℕ)
      → ref ≢ some other
      → deref (some other) (write_bank ref addr values m).1 ≡ deref (some other) m
  unfolding write_bank
  deref-write_bank_ne other ne = deref-wrote_ne ref m _ other ne
