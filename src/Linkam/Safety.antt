-- ===== src/Linkam/Safety.antt =====
-- The speeds of the pump and the rate of the Linkam T95 under commands and in states.
use lewis.Common.{
  ℕ, suc, ◌+◌, ◌≤◌, ◌<◌, String, Bool, true, false, Option, none, some, List, [], ◌∷◌, ◌≡◌, refl,
  sym, ap, ◌∙◌, subst, arith, Bool-cases, ◌⊎◌, inl, inr, if◌then◌else◌, ◌&&◌, ltb, leb, length,
}
use lewis.Common.Dict.{string_eq}
use lewis.Common.Int.{ℤ, pos}
use lewis.Core.Number.{Number, ScaleLaws, gt}
use lewis.Core.Digits.{digits_value}
use lewis.Linkam.Device.{
  Device, lit, over, initialize_data, stopped_entry, started_entry, heat_during, cool_during,
  cool_exit, requested_speed,
}
use lewis.Linkam.Interface.{
  is_prefix, index_of, after_first, speed_lookup, set_rate, set_limit, pump_command, set_target,
  Command, status_command, start_command, stop_command, hold_command, heat_command, cool_command,
  rate_command, limit_command, speed_command, command,
}

index_of_bound : (c : ℕ) (sub l : List ℕ) (i : ℕ) → index_of (c ∷ sub) l ≡ some i → i < length l
index_of_bound c sub [] i h = absurd cc
index_of_bound c sub (x ∷ l) i h =
    go (is_prefix (c ∷ sub) (x ∷ l)) (index_of (c ∷ sub) l) (index_of_bound c sub l) h
  where
    go :
        (b : Bool) (o : Option ℕ)
        → ((j : ℕ) → o ≡ some j → j < length l)
        → (if b then some 0 else after_first o) ≡ some i
        → i < suc (length l)
    go true o ih h = ground arith
    go false none ih h = absurd cc
    go false (some j) ih h = ground (arith, ih j refl)

target_bound : (param : List ℕ) (i : ℕ) → index_of param speed_lookup ≡ some i → i ≤ 30
target_bound [] i h = ground arith
target_bound (c ∷ sub) i h = omega (arith, index_of_bound c sub speed_lookup i h)

module _ (n : Number) where
  -- The pump's speeds are at most 30, and the rate is not negative.
  pub record IsSafe (d : Device n) : Type 0 where
    pub manual_bound : d.manual_target_speed ≤ 30
    pub pump_bound : (i : ℕ) × (d.pump_speed ≡ pos i) × (i ≤ 30)
    pub rate_bound : n.lt d.temperature_rate (lit n 0) ≡ false

  module _ (laws : ScaleLaws n) where
    lit_nonneg : (k : ℕ) → n.lt (lit n k) (lit n 0) ≡ false
    lit_nonneg k = laws.int_order (pos k) (pos 0) ∙ below_zero
      where
        below_zero : ltb (k + 0) 0 ≡ false
        below_zero = ground arith

    rate_nonneg : (k : ℕ) → n.lt (over n (lit n k) 100) (lit n 0) ≡ false
    rate_nonneg k = laws.div_nonneg (lit n k) 99 (lit_nonneg k)

    pub initial-IsSafe : IsSafe (initialize_data n)
    unfolding initialize_data
    initial-IsSafe = record {
      manual_bound = omega arith;
      pump_bound = (0, refl, omega arith);
      rate_bound = laws.int_order (pos 5) (pos 0);
    }

    set_target-IsSafe :
        (o : Option ℕ) (d : Device n)
        → ((i : ℕ) → o ≡ some i → i ≤ 30)
        → IsSafe d
        → IsSafe (set_target n o d)
    set_target-IsSafe none d h s = s
    set_target-IsSafe (some i) d h s = record {
      manual_bound = h i refl;
      pump_bound = s.pump_bound;
      rate_bound = s.rate_bound;
    }

    -- What a command does to the parts of the device that `IsSafe` does not read.
    flags-IsSafe :
        (d d' : Device n)
        → d'.manual_target_speed ≡ d.manual_target_speed
        → d'.pump_speed ≡ d.pump_speed
        → d'.temperature_rate ≡ d.temperature_rate
        → IsSafe d
        → IsSafe d'
    flags-IsSafe d d' e e' e'' s = record {
      manual_bound = subst (λ k. k ≤ 30) (sym e) s.manual_bound;
      pump_bound = (s.pump_bound.0, e' ∙ s.pump_bound.1, s.pump_bound.2);
      rate_bound = ap (λ r. n.lt r (lit n 0)) e'' ∙ s.rate_bound;
    }

    set_rate-IsSafe : (param : List ℕ) (d : Device n) → IsSafe d → IsSafe (set_rate n param d).1
    unfolding set_rate
    set_rate-IsSafe param d s =
        go (leb 1 (digits_value 0 param) && leb (digits_value 0 param) 15000)
      where
        go :
            (b : Bool)
            → IsSafe (
                if b
                then record d { temperature_rate = over n (lit n (digits_value 0 param)) 100 }
                else d)
        go true = record {
          manual_bound = s.manual_bound;
          pump_bound = s.pump_bound;
          rate_bound = rate_nonneg (digits_value 0 param);
        }
        go false = s

    set_limit-IsSafe : (param : List ℕ) (d : Device n) → IsSafe d → IsSafe (set_limit n param d).1
    unfolding set_limit
    set_limit-IsSafe param d s = go _
      where
        go :
            (b : Bool)
            → IsSafe (
                if b
                then record d {
                  temperature_limit = over n (n.int_of (pos (digits_value 0 param))) 10;
                }
                else d)
        go true = flags-IsSafe d _ refl refl refl s
        go false = s

    pump_command-IsSafe :
        (param : List ℕ) (d : Device n) → IsSafe d → IsSafe (pump_command n param d).1
    unfolding pump_command
    pump_command-IsSafe param d s = go _ _
      where
        go :
            (b c : Bool)
            → IsSafe (
                if b
                then record d { pump_manual_mode = false }
                else if c
                then record d { pump_manual_mode = true }
                else set_target n (index_of param speed_lookup) d)
        go true c = flags-IsSafe d _ refl refl refl s
        go false true = flags-IsSafe d _ refl refl refl s
        go false false = set_target-IsSafe (index_of param speed_lookup) d (target_bound param) s

    -- No command, whatever its parameter, takes the pump's speeds out of their range or the rate below
    -- zero.
    pub command-IsSafe :
        (state : Option String) (c : Command n) (d : Device n)
        → IsSafe d
        → IsSafe (command n state c d).1
    unfolding command
    command-IsSafe state status_command d s = flags-IsSafe d _ refl refl refl s
    command-IsSafe state start_command d s = flags-IsSafe d _ refl refl refl s
    command-IsSafe state stop_command d s = flags-IsSafe d _ refl refl refl s
    command-IsSafe state hold_command d s = flags-IsSafe d _ refl refl refl s
    command-IsSafe state heat_command d s = flags-IsSafe d _ refl refl refl s
    command-IsSafe state cool_command d s = flags-IsSafe d _ refl refl refl s
    command-IsSafe state (rate_command param) d s = set_rate-IsSafe param d s
    command-IsSafe state (limit_command param) d s = set_limit-IsSafe param d s
    command-IsSafe state (speed_command param) d s = pump_command-IsSafe param d s

    requested-nonneg : (d : Device n) → IsSafe d → n.lt (requested_speed n d) (lit n 0) ≡ false
    requested-nonneg d s = go d.pump_manual_mode
      where
        go :
            (b : Bool)
            → n.lt
                (if b
                  then lit n d.manual_target_speed
                  else n.mul (lit n 30) (over n d.temperature_rate 50))
                (lit n 0)
              ≡ false
        go true = lit_nonneg d.manual_target_speed
        go false = laws.mul_nonneg _ 30 (laws.div_nonneg d.temperature_rate 49 s.rate_bound)

    cool_during-IsSafe : (dt : n.R) (d : Device n) → IsSafe d → IsSafe (cool_during n dt d)
    unfolding cool_during
    cool_during-IsSafe dt d s = record {
      manual_bound = s.manual_bound;
      pump_bound = go (Bool-cases (gt n (requested_speed n d) (lit n 30)));
      rate_bound = s.rate_bound;
    }
      where
        speed : Bool → ℤ
        speed fast = if fast then pos 30 else n.truncate (requested_speed n d)

        go :
            (gt n (requested_speed n d) (lit n 30) ≡ true)
              ⊎ (gt n (requested_speed n d) (lit n 30) ≡ false)
            → (i : ℕ) × (speed (gt n (requested_speed n d) (lit n 30)) ≡ pos i) × (i ≤ 30)
        go (inl e) = (30, ap speed e, omega arith)
        go (inr e) =
            let (i, e', h) =
              laws.truncate_between (requested_speed n d) 30 (requested-nonneg d s) e in
            (i, ap speed e ∙ e', h)

    -- Every method of the states that changes the device keeps the pump's speeds in their range and the
    -- rate from going below zero, for any time step.
    pub states-IsSafe :
        (dt : n.R) (d : Device n)
        → IsSafe d
        → IsSafe (stopped_entry n dt d)
          × IsSafe (started_entry n dt d)
          × IsSafe (heat_during n dt d)
          × IsSafe (cool_during n dt d)
          × IsSafe (cool_exit n dt d)
    unfolding stopped_entry started_entry heat_during cool_exit
    states-IsSafe dt d s = (
      flags-IsSafe d _ refl refl refl s,
      flags-IsSafe d _ refl refl refl s,
      flags-IsSafe d _ refl refl refl s,
      cool_during-IsSafe dt d s,
      record {
        manual_bound = s.manual_bound;
        pump_bound = (0, refl, omega arith);
        rate_bound = s.rate_bound;
      },
    )
