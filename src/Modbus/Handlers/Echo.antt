-- ===== src/Modbus/Handlers/Echo.antt =====
-- Every handler answers its request.
use lewis.Common.{
  ℕ, ◌*◌, ◌≤◌, ◌≡◌, refl, Option, none, some, List, [], ◌∷◌, Result, ok, err, struct_error, lift,
  arith, length, take, length-take, continue, leb, ◌==◌, not, ◌&&◌, ◌||◌,
}
use lewis.Common.Int.{ℤ}
use lewis.Modbus.Bank.{Memory, DataStore}
use lewis.Modbus.Bits.{unpack_bits, ceil_8}
use lewis.Modbus.Frame.{Frame, create_response, unpack_hh, unpack_hhb}
use lewis.Modbus.Handlers.{
  confirm, write_coil, coil_value, write_single_coil, write_single_register, write_multiple_coils,
  write_multiple_registers, get_handler,
}
use lewis.Modbus.Handlers.Responses.{
  Responds, Returns, Returns-any, Responds-refuse, Responds-continue, Responds-if,
  Responds-read_bits, Responds-read_registers,
}

module _ (request : Frame) where
  Responds-confirm :
      (bytes : Option (List ℕ)) (o : Option (Unit {0})) (m : Memory)
      → length (create_response request bytes).payload ≤ 252
      → Responds request (confirm request bytes o m)
  unfolding confirm create_response
  Responds-confirm bytes none m h = Responds-refuse request _ m
  Responds-confirm none (some _) m h = record {
    same_transaction = refl;
    same_protocol = refl;
    same_unit = refl;
    same_fcode = refl;
    sized = refl;
    short = h;
  }
  Responds-confirm (some b) (some _) m h = record {
    same_transaction = refl;
    same_protocol = refl;
    same_unit = refl;
    same_fcode = refl;
    sized = refl;
    short = h;
  }

  -- The end of a write handler, after the write was attempted.
  Responds-write :
      (bytes : Option (List ℕ)) (r : Result (Option (Unit {0})) × Memory)
      → length (create_response request bytes).payload ≤ 252
      → Responds request (continue (confirm request bytes) r)
  Responds-write bytes r h =
      Responds-continue (λ _. Unit {0}) request (confirm request bytes)
        (λ o m _. Responds-confirm bytes o m h) r (Returns-any r)

  short_prefix : length (create_response request (some (take 4 request.payload))).payload ≤ 252
  unfolding create_response
  short_prefix = omega (arith, length-take 4 request.payload)

  Responds-write_multiple_coils :
      (store : DataStore) (m : Memory) → Responds request (write_multiple_coils store request m)
  unfolding write_multiple_coils
  Responds-write_multiple_coils store m =
      Responds-continue (λ _. Unit {0}) request _
        (λ a m _.
          Responds-if (not (leb 0x0001 a.1 && leb a.1 0x07B0) || not (a.2 == ceil_8 a.1)) request _
            _ m (Responds-refuse request _ m)
            λ h.
              Responds-continue (λ _. Unit {0}) request _
                (λ bits m _. Responds-write (some (take 4 request.payload)) _ short_prefix)
                (lift (unpack_bits a.1 _) m) (Returns-any _))
        (lift (unpack_hhb (take 5 request.payload)) m) (Returns-any _)

  Responds-write_multiple_registers :
      (store : DataStore) (m : Memory) → Responds request (write_multiple_registers store request m)
  unfolding write_multiple_registers
  Responds-write_multiple_registers store m =
      Responds-continue (λ _. Unit {0}) request _
        (λ a m _.
          Responds-if (not (leb 0x0001 a.1 && leb a.1 0x007B) || not (a.2 == a.1 * 2)) request _ _ m
            (Responds-refuse request _ m)
            λ h. Responds-write (some (take 4 request.payload)) _ short_prefix)
        (lift (unpack_hhb (take 5 request.payload)) m) (Returns-any _)

abbrev FourBytes : List ℕ → Result (ℕ × ℕ) → Type 0
FourBytes bytes (ok _) = length bytes ≡ 4
FourBytes bytes (err e) = e ≡ struct_error

-- Two words are unpacked from exactly four bytes.
unpack_hh-FourBytes : (bytes : List ℕ) → FourBytes bytes (unpack_hh bytes)
unfolding unpack_hh
unpack_hh-FourBytes (a ∷ b ∷ c ∷ d ∷ []) = refl
unpack_hh-FourBytes _ = refl

unpack_hh-Returns :
    (bytes : List ℕ) (m : Memory) → Returns (λ _. length bytes ≡ 4) (lift (unpack_hh bytes) m)
unpack_hh-Returns bytes m = from_four (unpack_hh bytes) (unpack_hh-FourBytes bytes)
  where
    from_four :
        (r : Result (ℕ × ℕ)) → FourBytes bytes r → Returns (λ _. length bytes ≡ 4) (lift r m)
    from_four (ok _) h = h
    from_four (err e) h = tt

module _ (request : Frame) where
  whole_payload : length request.payload ≡ 4 → length (create_response request none).payload ≤ 252
  unfolding create_response
  whole_payload h = omega arith

  Responds-write_coil :
      (store : DataStore) (addr : ℕ) (value : Option ℤ) (m : Memory)
      → length request.payload ≡ 4
      → Responds request (write_coil store request addr value m)
  unfolding write_coil
  Responds-write_coil store addr none m h = Responds-refuse request _ m
  Responds-write_coil store addr (some value) m h = Responds-write request none _ (whole_payload h)

  Responds-write_single_coil :
      (store : DataStore) (m : Memory) → Responds request (write_single_coil store request m)
  unfolding write_single_coil
  Responds-write_single_coil store m =
      Responds-continue (λ _. length request.payload ≡ 4) request _
        (λ a m h. Responds-write_coil store a.0 (coil_value a.1) m h)
        (lift (unpack_hh request.payload) m) (unpack_hh-Returns request.payload m)

  Responds-write_single_register :
      (store : DataStore) (m : Memory) → Responds request (write_single_register store request m)
  unfolding write_single_register
  Responds-write_single_register store m =
      Responds-continue (λ _. length request.payload ≡ 4) request _
        (λ a m h. Responds-write request none _ (whole_payload h))
        (lift (unpack_hh request.payload) m) (unpack_hh-Returns request.payload m)

  -- Whatever the function code, the data and the memory: a frame that a handler returns carries
  -- the identifiers and the function code of the request, and its length field tells the length
  -- of its data, which is at most 252 bytes.
  pub get_handler-Responds :
      (store : DataStore) (fcode : ℕ) (m : Memory)
      → Responds request (get_handler store fcode request m)
  unfolding get_handler
  get_handler-Responds store fcode m = ground (
    arith,
    Responds-read_bits request store.co m,
    Responds-read_bits request store.di m,
    Responds-read_registers request store.hr m,
    Responds-read_registers request store.ir m,
    Responds-write_single_coil store m,
    Responds-write_single_register store m,
    Responds-write_multiple_coils request store m,
    Responds-write_multiple_registers request store m,
    Responds-refuse request 1 m,
  )
