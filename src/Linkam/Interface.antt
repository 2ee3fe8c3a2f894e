-- ===== src/Linkam/Interface.antt =====
-- `LinkamT95StreamInterface` (lewis/devices/linkam_t95/interfaces/stream_interface.py). Requests and
-- replies are bytes. A parameter is what its command's pattern lets through.
use lewis.Common.{
  ℕ, suc, ◌+◌, ◌-◌, ◌/◌, ◌%◌, String, Bool, true, false, Option, none, some, List, [], ◌∷◌, map,
  Result, ok, err, value_error, Exec, ◌&&◌, if◌then◌else◌, ltb, leb, and_then,
}
use lewis.Common.Dict.{◌==◌, nat_eq, string_eq}
use lewis.Common.Int.{ℤ, pos, negsuc, ◌+ℤ◌, leb_ℤ}
use lewis.Core.Number.{Number}
use lewis.Core.Digits.{digits_value}
use lewis.Linkam.Device.{Device, lit, over}

abbrev pub is_prefix : List ℕ → List ℕ → Bool
is_prefix [] l = true
is_prefix (x ∷ xs) [] = false
is_prefix (x ∷ xs) (c ∷ cs) = x == c && is_prefix xs cs

abbrev pub after_first : Option ℕ → Option ℕ
after_first none = none
after_first (some i) = some (suc i)

-- `lookup.index(param)`, or `none` when `param in lookup` is false.
abbrev pub index_of : List ℕ → List ℕ → Option ℕ
index_of sub [] = if is_prefix sub [] then some 0 else none
index_of sub (c ∷ cs) =
    let later = index_of sub cs in if is_prefix sub (c ∷ cs) then some 0 else after_first later

-- `b"0123456789:;<=>?@ABCDEFGHIJKLMN"`
abbrev pub speed_lookup : List ℕ
speed_lookup =
    48 ∷ 49 ∷ 50 ∷ 51 ∷ 52 ∷ 53 ∷ 54 ∷ 55 ∷ 56 ∷ 57 ∷ 58 ∷ 59 ∷ 60 ∷ 61 ∷ 62 ∷ 63 ∷ 64 ∷ 65 ∷ 66
    ∷ 67 ∷ 68 ∷ 69 ∷ 70 ∷ 71 ∷ 72 ∷ 73 ∷ 74 ∷ 75 ∷ 76 ∷ 77 ∷ 78 ∷ []

abbrev pub same_bytes : List ℕ → List ℕ → Bool
same_bytes [] [] = true
same_bytes [] (c ∷ cs) = false
same_bytes (x ∷ xs) [] = false
same_bytes (x ∷ xs) (c ∷ cs) = x == c && same_bytes xs cs

-- `{…}.get(state, 0x01)`
abbrev pub status_code : Option String → ℕ
status_code none = 1
status_code (some state) =
    if state == "stopped"
    then 1
    else if state == "heat"
    then 16
    else if state == "cool"
    then 32
    else if state == "hold"
    then 48
    else 1

abbrev pub held : Bool → ℕ → ℕ
held hold_commanded code = if code == 48 && hold_commanded then 80 else code

-- `i & 0xFFFF`
abbrev pub low_16 : ℤ → ℕ
low_16 (pos k) = k % 65536
low_16 (negsuc k) = 65535 - k % 65536

-- `ord` of a hexadecimal digit.
abbrev pub hex_digit : ℕ → ℕ
hex_digit k = if ltb k 10 then 48 + k else 87 + k

-- `[ord(x) for x in "%04x" % v]` for v below 65536
abbrev pub hex_4 : ℕ → List ℕ
hex_4 v =
    hex_digit (v / 4096)
    ∷ hex_digit (v / 256 % 16)
    ∷ hex_digit (v / 16 % 16)
    ∷ hex_digit (v % 16)
    ∷ []

abbrev byte_of : ℤ → Result ℕ
byte_of (pos k) = if ltb k 256 then ok k else err value_error
byte_of (negsuc k) = err value_error

-- `bytes(…)` raises ValueError for what is no byte.
abbrev pub bytes_of : List ℤ → Result (List ℕ)
bytes_of [] = ok []
bytes_of (x ∷ xs) = and_then (byte_of x) λ b. and_then (bytes_of xs) λ bs. ok (b ∷ bs)

module _ (n : Number) where
  abbrev pub tenths : n.R → ℕ
  tenths temperature = low_16 (n.truncate (n.mul temperature (lit n 10)))

  abbrev pub status_bytes : Option String → Device n → List ℤ
  status_bytes state d =
      pos (held d.hold_commanded (status_code state))
      ∷ pos (if d.pump_overspeed then 129 else 128)
      ∷ (pos 128 +ℤ d.pump_speed)
      ∷ pos 128
      ∷ pos 128
      ∷ pos 128
      ∷ map pos (hex_4 (tenths d.temperature))

  -- `get_status`; `state` is the state of the device's machine.
  unfoldable pub get_status : Option String → Exec (Device n) (List ℕ)
  get_status state d =
      let d' = record d { serial_command_mode = true } in (bytes_of (status_bytes state d'), d')

  -- `set_rate`
  unfoldable pub set_rate : List ℕ → Exec (Device n) (List ℕ)
  set_rate param d =
      let rate = digits_value 0 param in
      (
        ok [],
        if leb 1 rate && leb rate 15000
            then record d { temperature_rate = over n (lit n rate) 100 }
            else d,
      )

  -- `set_limit`
  unfoldable pub set_limit : List ℕ → Exec (Device n) (List ℕ)
  set_limit param d =
      let limit = pos (digits_value 0 param) in
      (
        ok [],
        if leb_ℤ (negsuc 1999) limit && leb_ℤ limit (pos 6000)
            then record d { temperature_limit = over n (n.int_of limit) 10 }
            else d,
      )

  unfoldable pub start : Exec (Device n) (List ℕ)
  start d = (ok [], record d { start_commanded = true })

  unfoldable pub stop : Exec (Device n) (List ℕ)
  stop d = (ok [], record d { stop_commanded = true })

  unfoldable pub hold : Exec (Device n) (List ℕ)
  hold d = (ok [], record d { hold_commanded = true })

  unfoldable pub heat : Exec (Device n) (List ℕ)
  heat d = (ok [], record d { hold_commanded = false })

  unfoldable pub cool : Exec (Device n) (List ℕ)
  cool d = (ok [], record d { hold_commanded = false })

  abbrev pub set_target : Option ℕ → Device n → Device n
  set_target none d = d
  set_target (some i) d = record d { manual_target_speed = i }

  -- `pump_command`, with the parameters b"a0", b"m0" and a speed.
  unfoldable pub pump_command : List ℕ → Exec (Device n) (List ℕ)
  pump_command param d = (
    ok [],
    if same_bytes param (97 ∷ 48 ∷ [])
        then record d { pump_manual_mode = false }
        else if same_bytes param (109 ∷ 48 ∷ [])
        then record d { pump_manual_mode = true }
        else set_target (index_of param speed_lookup) d,
  )

  -- The commands of the interface, with the parameters that they take.
  pub data Command : Type 0 where
    status_command start_command stop_command hold_command heat_command cool_command : Command
    rate_command limit_command speed_command : List ℕ → Command

  unfoldable pub command : Option String → Command → Exec (Device n) (List ℕ)
  unfolding get_status set_rate set_limit start stop hold heat cool pump_command
  command state status_command = get_status state
  command state start_command = start
  command state stop_command = stop
  command state hold_command = hold
  command state heat_command = heat
  command state cool_command = cool
  command state (rate_command param) = set_rate param
  command state (limit_command param) = set_limit param
  command state (speed_command param) = pump_command param
