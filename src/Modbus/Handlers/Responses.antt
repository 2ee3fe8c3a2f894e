-- ===== src/Modbus/Handlers/Responses.antt =====
-- The frames that handlers return.
use lewis.Common.{
  ℕ, ◌+◌, ◌*◌, ◌≤◌, ◌≡◌, refl, Option, none, some, List, map, Exn, Result, ok, err, Exec, lift,
  arith, length, continue, Bool, true, false, leb, if◌then◌else◌, length-map, ltb, lt→ltb, not,
  ◌&&◌, and_then,
}
use lewis.Common.Int.{ℤ}
use lewis.Modbus.Bits.{ceil_8}
use lewis.Modbus.Bits.RoundTrip.{length-pack_bits}
use lewis.Modbus.Bank.Access.{length-bank_get}
use lewis.Modbus.Bank.{Bank, bank_get, deref, Memory, read_bank}
use lewis.Modbus.Frame.{Frame, create_exception, create_response, unpack_hh, pack_b}
use lewis.Modbus.Handlers.Words.{pack_words_lem, All-low_word, length-word_bytes}
use lewis.Modbus.Handlers.{
  caught, truth, low_word, refuse, attempt, respond_bits, respond_registers, do_read_bits,
  do_read_registers,
}

-- A response to `request`: the identifiers and the function code are the request's, and the
-- length field tells the length of at most 252 bytes of data.
pub record IsResponse (request response : Frame) : Type 0 where
  pub same_transaction : response.transaction_id ≡ request.transaction_id
  pub same_protocol : response.protocol_id ≡ request.protocol_id
  pub same_unit : response.unit_id ≡ request.unit_id
  pub same_fcode : response.fcode ≡ request.fcode
  pub sized : response.size ≡ 2 + length response.payload
  pub short : length response.payload ≤ 252

-- Whatever an action returns is a response; it may also raise.
abbrev pub Responds : Frame → Result Frame × Memory → Type 0
Responds request (ok response, m) = IsResponse request response
Responds request (err e, m) = Unit {0}

pub Responds-refuse :
    (request : Frame) (code : ℕ) (m : Memory) → Responds request (refuse request code m)
unfolding create_exception
Responds-refuse request code m = tt

-- A property of what an action returns, whatever it does when it raises.
abbrev pub Returns : {A : Type 0} → (A → Type 0) → Result A × Memory → Type 0
Returns P (ok a, m) = P a
Returns P (err e, m) = Unit {0}

pub Responds-continue :
    {A : Type 0} (P : A → Type 0) (request : Frame) (f : A → Exec Memory Frame)
    → ((a : A) (m : Memory) → P a → Responds request (f a m))
    → (r : Result A × Memory) → Returns P r
    → Responds request (continue f r)
Responds-continue P request f h (ok a, m) p = h a m p
Responds-continue P request f h (err e, m) p = tt

abbrev OfLength : ℕ → Option (List ℤ) → Type 0
OfLength n none = Unit {0}
OfLength n (some values) = length values ≡ n

caught-OfLength :
    (n : ℕ) (r : Result (List ℤ)) (m : Memory)
    → ((values : List ℤ) → r ≡ ok values → length values ≡ n)
    → Returns (OfLength n) (caught (r, m))
caught-OfLength n (ok values) m h = h values refl
caught-OfLength n (err Exn.index_error) m h = tt
caught-OfLength n (err e) m h = tt

length-read :
    (r : Result Bank) (addr count : ℕ) {values : List ℤ}
    → and_then r (λ b. bank_get b addr count) ≡ ok values
    → length values ≡ count
length-read (ok b) addr count h = length-bank_get b addr count h
length-read (err e) addr count h = cc

attempt-read_bank :
    (ref : Option ℕ) (addr count : ℕ) (m : Memory)
    → Returns (OfLength count) (attempt (read_bank ref addr count) m)
unfolding read_bank
attempt-read_bank ref addr count m =
    caught-OfLength count _ m (λ values h. length-read (deref ref m) addr count h)

pub Responds-respond_bits :
    (request : Frame) (n : ℕ) (r : Option (List ℤ)) (m : Memory)
    → n ≤ 2000
    → OfLength n r
    → Responds request (respond_bits request r m)
unfolding respond_bits pack_b create_response
Responds-respond_bits request n none m h e = Responds-refuse request _ m
Responds-respond_bits request n (some values) m h e =
    let bits = map truth values in
    let k = length-map values truth in
    let c : ltb (ceil_8 (length bits)) 256 ≡ true = lt→ltb _ _ (omega (arith, k)) in
    rw c (record {
      same_transaction = refl;
      same_protocol = refl;
      same_unit = refl;
      same_fcode = refl;
      sized = refl;
      short = omega (arith, length-pack_bits bits, k);
    })

pub Responds-respond_registers :
    (request : Frame) (n : ℕ) (r : Option (List ℤ)) (m : Memory)
    → n ≤ 125
    → OfLength n r
    → Responds request (respond_registers request r m)
unfolding respond_registers pack_b create_response
Responds-respond_registers request n none m h e = Responds-refuse request _ m
Responds-respond_registers request n (some values) m h e =
    let words = map low_word values in
    let k = length-map values low_word in
    let c : ltb (length words * 2) 256 ≡ true = lt→ltb _ _ (omega (arith, k)) in
    rw (pack_words_lem words (All-low_word values), c)
      (record {
        same_transaction = refl;
        same_protocol = refl;
        same_unit = refl;
        same_fcode = refl;
        sized = refl;
        short = omega (arith, length-word_bytes words, k);
      })

pub Responds-if :
    (b : Bool) (request : Frame) (x y : Exec Memory Frame) (m : Memory)
    → Responds request (x m)
    → (b ≡ false → Responds request (y m))
    → Responds request ((if b then x else y) m)
Responds-if true request x y m hx hy = hx
Responds-if false request x y m hx hy = hy refl

pub Returns-any : {A : Type 0} (r : Result A × Memory) → Returns (λ _. Unit {0}) r
Returns-any (ok a, m) = tt
Returns-any (err e, m) = tt

count_bound : (count top : ℕ) → not (leb 1 count && leb count top) ≡ false → count ≤ top
count_bound count top h = ground arith

module _ (request : Frame) where
  pub Responds-read_bits :
      (databank : Option ℕ) (m : Memory) → Responds request (do_read_bits databank request m)
  unfolding do_read_bits
  Responds-read_bits databank m =
      Responds-continue (λ _. Unit {0}) request _
        (λ a m _.
          Responds-if (not (leb 0x0001 a.1 && leb a.1 0x07D0)) request _ _ m
            (Responds-refuse request _ m)
            λ h.
              Responds-continue (OfLength a.1) request (respond_bits request)
                (λ o m e. Responds-respond_bits request a.1 o m (count_bound a.1 0x07D0 h) e)
                (attempt (read_bank databank a.0 a.1) m) (attempt-read_bank databank a.0 a.1 m))
        (lift (unpack_hh request.payload) m) (Returns-any _)

  pub Responds-read_registers :
      (databank : Option ℕ) (m : Memory) → Responds request (do_read_registers databank request m)
  unfolding do_read_registers
  Responds-read_registers databank m =
      Responds-continue (λ _. Unit {0}) request _
        (λ a m _.
          Responds-if (not (leb 0x0001 a.1 && leb a.1 0x007D)) request _ _ m
            (Responds-refuse request _ m)
            λ h.
              Responds-continue (OfLength a.1) request (respond_registers request)
                (λ o m e. Responds-respond_registers request a.1 o m (count_bound a.1 0x007D h) e)
                (attempt (read_bank databank a.0 a.1) m) (attempt-read_bank databank a.0 a.1 m))
        (lift (unpack_hh request.payload) m) (Returns-any _)
