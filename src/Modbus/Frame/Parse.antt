-- ===== src/Modbus/Frame/Parse.antt =====
-- What `from_bytearray` consumes, and what it makes of any stream of bytes.
use lewis.Common.{
  ℕ, ◌+◌, ◌-◌, ◌≤◌, ◌<◌, ◌≡◌, refl, ap, ◌∙◌, subst, Exn, List, ◌∷◌, ◌++◌, arith, Result, ok, inl,
  inr, err, eof_error, All, All-drop, All-take, ltb, length, length-append, le→not_ltb, Bool-cases,
  and_then, length-drop, length-take,
}
use lewis.Common.Slice.{take-append_within, drop-append_within}
use lewis.Modbus.Frame.{Frame, be16, from_bytearray}

abbrev pub IsByte : ℕ → Type 0
IsByte b = b < 256

abbrev append_rest : List ℕ → Result (Frame × List ℕ) → Result (Frame × List ℕ)
append_rest t r = and_then r λ p. ok (p.0, p.1 ++ t)

from_bytearray-append_ok :
    (s t : List ℕ) {f : Frame} {rest : List ℕ}
    → from_bytearray s ≡ ok (f, rest)
    → from_bytearray (s ++ t) ≡ append_rest t (from_bytearray s)
unfolding from_bytearray
from_bytearray-append_ok (t1 ∷ t0 ∷ p1 ∷ p0 ∷ l1 ∷ l0 ∷ u ∷ c ∷ s) t h =
    let all = t1 ∷ t0 ∷ p1 ∷ p0 ∷ l1 ∷ l0 ∷ u ∷ c ∷ s in
    let n = 8 + be16 l1 l0 - 2 in
    elim (Bool-cases (ltb (length all) n)) [
      | inl short ↦ absurd (cc (rw short at h))
      | inr enough ↦
          let fits : n ≤ length all = ground arith in
          rw (
            enough,
            le→not_ltb (length (all ++ t)) n (omega (arith, length-append all t)),
            take-append_within (n - 8) s t (omega arith),
            drop-append_within n all t fits,
          )
    ]
from_bytearray-append_ok _ t h = cc

-- Once a stream begins with a whole frame, bytes that arrive later do not change it.
pub from_bytearray-append :
    (s t : List ℕ) {f : Frame} {rest : List ℕ}
    → from_bytearray s ≡ ok (f, rest)
    → from_bytearray (s ++ t) ≡ ok (f, rest ++ t)
from_bytearray-append s t h = from_bytearray-append_ok s t h ∙ ap (append_rest t) h

abbrev Consumed : List ℕ → Result (Frame × List ℕ) → Type 0
Consumed s (ok (f, rest)) = length rest + 6 ≤ length s
Consumed s (err e) = e ≡ eof_error

-- A read takes at least six bytes, or fails with EOFError.
pub from_bytearray-Consumed : (s : List ℕ) → Consumed s (from_bytearray s)
unfolding from_bytearray
from_bytearray-Consumed (t1 ∷ t0 ∷ p1 ∷ p0 ∷ l1 ∷ l0 ∷ u ∷ c ∷ s) =
    let all = t1 ∷ t0 ∷ p1 ∷ p0 ∷ l1 ∷ l0 ∷ u ∷ c ∷ s in
    let n = 8 + be16 l1 l0 - 2 in
    elim (Bool-cases (ltb (length all) n)) [
      | inl short ↦ rw short refl
      | inr enough ↦
          let fits : n ≤ length all = ground arith in rw enough (omega (arith, length-drop n all))
    ]
from_bytearray-Consumed _ = refl

-- The fields of a frame that was read from bytes fit their widths.
pub record IsRead (f : Frame) : Type 0 where
  pub transaction_fits : f.transaction_id < 65536
  pub protocol_fits : f.protocol_id < 65536
  pub size_fits : f.size < 65536
  pub unit_fits : f.unit_id < 256
  pub fcode_fits : f.fcode < 256
  pub sized : length f.payload ≡ f.size - 2
  pub bytes : All IsByte f.payload

abbrev ReadsBytes : Result (Frame × List ℕ) → Type 0
ReadsBytes (ok (f, rest)) = IsRead f × All IsByte rest
ReadsBytes (err e) = Unit {0}

from_bytearray-ReadsBytes : (s : List ℕ) → All IsByte s → ReadsBytes (from_bytearray s)
unfolding from_bytearray
from_bytearray-ReadsBytes (t1 ∷ t0 ∷ p1 ∷ p0 ∷ l1 ∷ l0 ∷ u ∷ c ∷ s) h =
    let all = t1 ∷ t0 ∷ p1 ∷ p0 ∷ l1 ∷ l0 ∷ u ∷ c ∷ s in
    let n = 8 + be16 l1 l0 - 2 in
    elim (Bool-cases (ltb (length all) n)) [
      | inl short ↦ rw short tt
      | inr enough ↦
          let fits : n ≤ length all = ground arith in
          rw enough (
            record {
              transaction_fits = omega arith;
              protocol_fits = omega arith;
              size_fits = omega arith;
              unit_fits = omega arith;
              fcode_fits = omega arith;
              sized = omega (arith, length-take (n - 8) s);
              bytes = All-take IsByte (n - 8) s h.1.1.1.1.1.1.1.1;
            },
            All-drop IsByte n all h,
          )
    ]
from_bytearray-ReadsBytes _ h = tt

-- A whole frame that is read from bytes has fields that fit and data of the length that its
-- length field tells, and bytes are left.
pub from_bytearray-IsRead :
    (s : List ℕ) {f : Frame} {rest : List ℕ}
    → All IsByte s
    → from_bytearray s ≡ ok (f, rest)
    → IsRead f × All IsByte rest
from_bytearray-IsRead s h e = subst ReadsBytes e (from_bytearray-ReadsBytes s h)

pub from_bytearray-shorter :
    (s : List ℕ) {f : Frame} {rest : List ℕ}
    → from_bytearray s ≡ ok (f, rest)
    → length rest + 6 ≤ length s
from_bytearray-shorter s e = subst (Consumed s) e (from_bytearray-Consumed s)

pub from_bytearray_err : (s : List ℕ) {e : Exn} → from_bytearray s ≡ err e → e ≡ eof_error
from_bytearray_err s h = subst (Consumed s) h (from_bytearray-Consumed s)
