-- ===== src/Linkam/Status.antt =====
-- The bytes of a status of the Linkam T95.
use lewis.Common.{
  ℕ, ◌+◌, ◌-◌, ◌*◌, ◌/◌, ◌%◌, ◌≤◌, ◌<◌, String, Bool, true, false, Option, none, some, List, [],
  ◌∷◌, map, ok, ◌≡◌, refl, sym, ap, ◌∙◌, arith, if◌then◌else◌, ltb, lt→ltb, length, drop, All,
  get_or,
}
use lewis.Common.Dict.{string_eq, ◌==◌}
use lewis.Common.Int.{ℤ, pos, negsuc, ◌+ℤ◌}
use lewis.Core.Number.{Number}
use lewis.Linkam.Device.{Device}
use lewis.Linkam.Interface.{
  status_code, held, low_16, hex_digit, hex_4, bytes_of, tenths, get_status,
}
use lewis.Linkam.Safety.{IsSafe}

-- The value of a hexadecimal digit, and of a sequence of them.
abbrev pub digit_of : ℕ → ℕ
digit_of c = if ltb c 58 then c - 48 else c - 87

abbrev pub read_hex : ℕ → List ℕ → ℕ
read_hex v [] = v
read_hex v (c ∷ cs) = read_hex (16 * v + digit_of c) cs

digit_of-hex : (k : ℕ) → k < 16 → digit_of (hex_digit k) ≡ k
digit_of-hex k h = ground arith

hex_digit_bound : (k : ℕ) → k < 16 → hex_digit k < 256
hex_digit_bound k h = ground arith

read-hex_4 : (v : ℕ) → v < 65536 → read_hex 0 (hex_4 v) ≡ v
read-hex_4 v h = rw (digit_of-hex (v / 4096) (omega arith)) (
    rw (digit_of-hex (v / 256 % 16) (omega arith)) (
      rw (digit_of-hex (v / 16 % 16) (omega arith))
        (rw (digit_of-hex (v % 16) (omega arith)) (omega arith))))

low_16_bound : (i : ℤ) → low_16 i < 65536
low_16_bound (pos k) = omega arith
low_16_bound (negsuc k) = omega arith

add_pos : (a b : ℕ) → pos a +ℤ pos b ≡ pos (a + b)
unfolding ◌+ℤ◌
add_pos a b = ground arith

pick_bound : (b : Bool) (x y : ℕ) → x < 256 → y < 256 → (if b then x else y) < 256
pick_bound true x y hx hy = hx
pick_bound false x y hx hy = hy

status_code_bound : (state : Option String) → status_code state < 256
status_code_bound none = omega arith
status_code_bound (some state) = pick_bound (state == "stopped") 1 _ (omega arith) (
    pick_bound (state == "heat") 16 _ (omega arith) (
      pick_bound (state == "cool") 32 _ (omega arith)
        (pick_bound (state == "hold") 48 1 (omega arith) (omega arith))))

held_bound : (b : Bool) (code : ℕ) → code < 256 → held b code < 256
held_bound b code h = pick_bound _ 80 code (omega arith) h

bytes_of-map : (l : List ℕ) → All (λ b. b < 256) l → bytes_of (map pos l) ≡ ok l
bytes_of-map [] h = refl
bytes_of-map (b ∷ l) h = rw (lt→ltb b 256 h.0) (rw (bytes_of-map l h.1) refl)

hex_4_bytes : (v : ℕ) → v < 65536 → All (λ b. b < 256) (hex_4 v)
hex_4_bytes v h = (
  hex_digit_bound (v / 4096) (omega arith),
  (
    hex_digit_bound (v / 256 % 16) (omega arith),
    (hex_digit_bound (v / 16 % 16) (omega arith), (hex_digit_bound (v % 16) (omega arith), tt)),
  ),
)

module _ (n : Number) where
  -- Whenever the pump is in its range, a status request is answered, with ten bytes: the third
  -- is the pump's speed above 0x80, and the last four, read as a hexadecimal number, are the
  -- temperature in tenths of a degree, modulo 2^16.
  pub get_status-reports :
      (state : Option String) (d : Device n)
      → IsSafe n d
      → (reply : List ℕ) × ((get_status n state d).0 ≡ ok reply)
        × (length reply ≡ 10)
        × All (λ b. b < 256) reply
        × (pos (get_or reply 2 0 - 128) ≡ d.pump_speed)
        × (read_hex 0 (drop 6 reply) ≡ tenths n d.temperature)
  unfolding get_status
  get_status-reports state d s =
      let (i, e, h) = s.pump_bound in
      (
        reply i,
        ap bytes_of (ap with_pump (ap (λ z. pos 128 +ℤ z) e ∙ add_pos 128 i))
            ∙ bytes_of-map (reply i) (bytes i h),
        refl,
        bytes i h,
        sym (e ∙ ap pos (omega arith)),
        read-hex_4 _ (low_16_bound _),
      )
    where
      first : ℕ
      first = held d.hold_commanded (status_code state)

      second : ℕ
      second = if d.pump_overspeed then 129 else 128

      reply : ℕ → List ℕ
      reply i = first ∷ second ∷ (128 + i) ∷ 128 ∷ 128 ∷ 128 ∷ hex_4 (tenths n d.temperature)

      with_pump : ℤ → List ℤ
      with_pump z =
          pos first
          ∷ pos second
          ∷ z
          ∷ pos 128
          ∷ pos 128
          ∷ pos 128
          ∷ map pos (hex_4 (tenths n d.temperature))

      bytes : (i : ℕ) → i ≤ 30 → All (λ b. b < 256) (reply i)
      bytes i h = (
        held_bound d.hold_commanded _ (status_code_bound state),
        (
          pick_bound d.pump_overspeed 129 128 (omega arith) (omega arith),
          (
            omega arith,
            (omega arith, (omega arith, (omega arith, hex_4_bytes _ (low_16_bound _)))),
          ),
        ),
      )
