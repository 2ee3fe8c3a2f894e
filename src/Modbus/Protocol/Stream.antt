-- ===== src/Modbus/Protocol/Stream.antt =====
-- How `process` consumes a stream of bytes, whatever pieces it comes in.
use lewis.Common.{
  ℕ, zero, suc, ◌≤◌, ◌≡◌, refl, ap, subst, ◌∙◌, List, [], ◌∷◌, ◌++◌, arith, Exn, Result, ok, err,
  eof_error, length, append_assoc,
}
use lewis.Modbus.Bank.{DataStore}
use lewis.Modbus.Frame.{Frame, from_bytearray}
use lewis.Modbus.Frame.Parse.{from_bytearray-append, from_bytearray-shorter, from_bytearray_err}
use lewis.Modbus.Protocol.{Link, Connection, Outcome, next, round, handle_request, serve, process}

from_bytearray-nil : from_bytearray [] ≡ err eof_error
unfolding from_bytearray
from_bytearray-nil = refl

module _ (store : DataStore) where
  next-fuel :
      (r : Result (Unit {0}) × Link) (rest : List ℕ) (go go' : Link → Outcome)
      → ((l : Link) → go l ≡ go' l)
      → next r rest go ≡ next r rest go'
  next-fuel (ok _, l) rest go go' h = h l
  next-fuel (err e, l) rest go go' h = refl

  round-fuel :
      (go go' : List ℕ → Link → Outcome) (buffer : List ℕ) (l : Link)
      (parsed : Result (Frame × List ℕ))
      → ((request : Frame) (rest : List ℕ)
          → parsed ≡ ok (request, rest)
          → (l : Link) → go rest l ≡ go' rest l)
      → round store go buffer l parsed ≡ round store go' buffer l parsed
  round-fuel go go' buffer l (err _) h = refl
  round-fuel go go' buffer l (ok (request, rest)) h =
      next-fuel (handle_request store request l) rest (go rest) (go' rest) (h request rest refl)

  -- One round of fuel for each byte is enough: more changes nothing.
  pub serve-fuel :
      (n m : ℕ) (buffer : List ℕ) (l : Link)
      → length buffer ≤ n
      → length buffer ≤ m
      → serve store n buffer l ≡ serve store m buffer l
  unfolding serve
  serve-fuel zero zero buffer l hn hm = refl
  serve-fuel zero (suc m) [] l hn hm = rw from_bytearray-nil
  serve-fuel zero (suc m) (b ∷ buffer) l hn hm = absurd (omega arith)
  serve-fuel (suc n) zero [] l hn hm = rw from_bytearray-nil
  serve-fuel (suc n) zero (b ∷ buffer) l hn hm = absurd (omega arith)
  serve-fuel (suc n) (suc m) buffer l hn hm =
      round-fuel (serve store n) (serve store m) buffer l (from_bytearray buffer)
        λ request rest e l.
          let short = from_bytearray-shorter buffer e in
          serve-fuel n m rest l (omega arith) (omega arith)

  -- Bytes that arrive after a call: they are processed with what it left in the buffer, or stay
  -- behind it where the call raised.
  abbrev pub arrive : List ℕ → Outcome → Outcome
  arrive bytes (ok _, c) = process store bytes c
  arrive bytes (err e, c) = (err e, record c { buffer = c.buffer ++ bytes })

  next-append :
      (bytes : List ℕ) (r : Result (Unit {0}) × Link) (rest : List ℕ) (go go' : Link → Outcome)
      → ((l : Link) → go' l ≡ arrive bytes (go l))
      → next r (rest ++ bytes) go' ≡ arrive bytes (next r rest go)
  next-append bytes (ok _, l) rest go go' h = h l
  next-append bytes (err e, l) rest go go' h = refl

  serve-eof :
      (n : ℕ) (buffer : List ℕ) (l : Link) {e : Exn}
      → from_bytearray buffer ≡ err e
      → serve store n buffer l ≡ (ok tt, record { buffer = buffer; link = l })
  unfolding serve
  serve-eof zero buffer l h = refl
  serve-eof (suc n) buffer l h = rw h

  serve-request :
      (n : ℕ) (buffer : List ℕ) (l : Link) {request : Frame} {rest : List ℕ}
      → from_bytearray buffer ≡ ok (request, rest)
      → serve store (suc n) buffer l
        ≡ next (handle_request store request l) rest (serve store n rest)
  unfolding serve
  serve-request n buffer l h = rw h

  serve-append :
      (n : ℕ) (buffer bytes : List ℕ) (l : Link)
      → length buffer ≤ n
      → serve store (length (buffer ++ bytes)) (buffer ++ bytes) l
        ≡ arrive bytes (serve store n buffer l)
  unfolding process
  serve-append zero [] bytes l h = refl
  serve-append zero (b ∷ buffer) bytes l h = absurd (omega arith)
  serve-append (suc n) buffer bytes l h =
      go (from_bytearray buffer) refl (λ rest l q. serve-append n rest bytes l q)
    where
      go :
          (parsed : Result (Frame × List ℕ))
          → from_bytearray buffer ≡ parsed
          → ((rest : List ℕ) (l : Link)
              → length rest ≤ n
              → serve store (length (rest ++ bytes)) (rest ++ bytes) l
                ≡ arrive bytes (serve store n rest l))
          → serve store (length (buffer ++ bytes)) (buffer ++ bytes) l
            ≡ arrive bytes (serve store (suc n) buffer l)
      go (err e) p ih = rw (serve-eof (suc n) buffer l p)
      go (ok (request, rest)) p ih =
          let m = length (buffer ++ bytes) in
          let short = from_bytearray-shorter buffer p in
          let short' =
            from_bytearray-shorter (buffer ++ bytes) (from_bytearray-append buffer bytes p) in
          rw
            (
              serve-fuel m (suc m) (buffer ++ bytes) l (omega arith) (omega arith),
              serve-request m (buffer ++ bytes) l (from_bytearray-append buffer bytes p),
              serve-request n buffer l p,
            )
            (next-append bytes (handle_request store request l) rest (serve store n rest)
              (serve store m (rest ++ bytes))
              λ l'.
                serve-fuel m (length (rest ++ bytes)) (rest ++ bytes) l' (omega arith) (omega arith)
                ∙ ih rest l' (omega arith))

  -- A stream may be cut anywhere: processing two pieces one after the other is processing them in
  -- one call. Where the first piece raises, the second only waits in the buffer.
  pub process-append :
      (first second : List ℕ) (c : Connection)
      → process store (first ++ second) c ≡ arrive second (process store first c)
  unfolding process
  process-append first second c =
      rw (← append_assoc c.buffer first second)
        (serve-append (length (c.buffer ++ first)) (c.buffer ++ first) second c.link (omega arith))

  abbrev Drained : Outcome → Type 0
  Drained (ok _, c) = from_bytearray c.buffer ≡ err eof_error
  Drained (err e, c) = Unit {0}

  next-Drained :
      (r : Result (Unit {0}) × Link) (rest : List ℕ) (go : Link → Outcome)
      → ((l : Link) → Drained (go l))
      → Drained (next r rest go)
  next-Drained (ok _, l) rest go h = h l
  next-Drained (err e, l) rest go h = tt

  serve-Drained :
      (n : ℕ) (buffer : List ℕ) (l : Link) → length buffer ≤ n → Drained (serve store n buffer l)
  serve-Drained zero [] l h = rw (serve-eof zero [] l from_bytearray-nil) from_bytearray-nil
  serve-Drained zero (b ∷ buffer) l h = absurd (omega arith)
  serve-Drained (suc n) buffer l h =
      go (from_bytearray buffer) refl (λ rest l q. serve-Drained n rest l q)
    where
      go :
          (parsed : Result (Frame × List ℕ))
          → from_bytearray buffer ≡ parsed
          → ((rest : List ℕ) (l : Link) → length rest ≤ n → Drained (serve store n rest l))
          → Drained (serve store (suc n) buffer l)
      go (err e) p ih = rw (serve-eof (suc n) buffer l p, p) (ap err (from_bytearray_err buffer p))
      go (ok (request, rest)) p ih =
          let short = from_bytearray-shorter buffer p in
          rw (serve-request n buffer l p) (
            next-Drained (handle_request store request l) rest (serve store n rest)
              λ l'. ih rest l' (omega arith))

  -- When `process` returns without raising, no whole frame is left in the buffer.
  pub process-Drained :
      (bytes : List ℕ) (c c' : Connection)
      → process store bytes c ≡ (ok tt, c')
      → from_bytearray c'.buffer ≡ err eof_error
  unfolding process
  process-Drained bytes c c' h =
      subst Drained h
        (serve-Drained (length (c.buffer ++ bytes)) (c.buffer ++ bytes) c.link (omega arith))
