-- ===== src/Core/Approaches.antt =====
-- `linear` of lewis/core/approaches.py.
use lewis.Common.{
  Bool, true, false, ◌≡◌, refl, sym, ◌∙◌, if◌then◌else◌, ◌⊎◌, inl, inr, Bool-cases, not, ◌||◌, ltb,
}
use lewis.Common.Int.{ℤ, pos, negsuc}
use lewis.Core.Number.{Number, NumberLaws, gt, same}

not_either : (a b : Bool) → not (a || b) ≡ true → (a ≡ false) × (b ≡ false)
not_either false false h = (refl, refl)
not_either false true h = cc
not_either true b h = cc

module _ (n : Number) where
  -- `(target > current) - (target < current)`
  abbrev pub direction : Bool → Bool → ℤ
  direction true true = pos 0
  direction true false = pos 1
  direction false true = negsuc 0
  direction false false = pos 0

  abbrev is_nonzero : ℤ → Bool
  is_nonzero (pos k) = ltb 0 k
  is_nonzero (negsuc k) = true

  -- `if sign * new_value > sign * target: return target`
  abbrev pub not_beyond : n.R → n.R → n.R → n.R
  not_beyond sign target new_value =
      if gt n (n.mul sign new_value) (n.mul sign target) then target else new_value

  abbrev pub towards : ℤ → n.R → n.R → n.R → n.R → n.R
  towards sign current target rate dt =
      if not (is_nonzero sign)
      then current
      else not_beyond (n.int_of sign) target (n.add current (n.mul (n.mul (n.int_of sign) rate) dt))

  unfoldable pub linear : n.R → n.R → n.R → n.R → n.R
  linear current target rate dt =
      towards (direction (gt n target current) (n.lt target current)) current target rate dt

  module _ (laws : NumberLaws n) where
    lt_irrefl : (a : n.R) → n.lt a a ≡ false
    lt_irrefl a = elim (Bool-cases (n.lt a a)) [ inl h ↦ laws.lt_asym a a h | inr h ↦ h ]

    from_below : (target v : n.R) → n.lt target (not_beyond (n.int_of (pos 1)) target v) ≡ false
    from_below target v =
        elim (Bool-cases (gt n (n.mul (n.int_of (pos 1)) v) (n.mul (n.int_of (pos 1)) target))) [
          | inl beyond ↦ rw beyond (lt_irrefl target)
          | inr short ↦ rw short (sym (laws.lt-one target v) ∙ short)
        ]

    from_above : (target v : n.R) → n.lt (not_beyond (n.int_of (negsuc 0)) target v) target ≡ false
    from_above target v =
        elim (Bool-cases
          (gt n (n.mul (n.int_of (negsuc 0)) v) (n.mul (n.int_of (negsuc 0)) target))) [
            | inl beyond ↦ rw beyond (lt_irrefl target)
            | inr short ↦ rw short (sym (laws.lt-minus_one target v) ∙ short)
          ]

    linear-below :
        (current target rate dt : n.R)
        → n.lt current target ≡ true
        → n.lt target (linear current target rate dt) ≡ false
    unfolding linear
    linear-below current target rate dt below =
        rw below (rw (laws.lt_asym current target below) (from_below target _))

    linear-above :
        (current target rate dt : n.R)
        → n.lt target current ≡ true
        → n.lt (linear current target rate dt) target ≡ false
    unfolding linear
    linear-above current target rate dt above =
        rw above (rw (laws.lt_asym target current above) (from_above target _))

    linear-same :
        (current target rate dt : n.R)
        → same n current target ≡ true
        → linear current target rate dt ≡ current
    unfolding linear
    linear-same current target rate dt h =
        let (a, b) = not_either (n.lt current target) (n.lt target current) h in rw a (rw b refl)

    -- Whatever the rate and the time step, `linear` does not overshoot: from below the target it
    -- does not come above it, from above it does not come below it, and at the target it stays.
    pub linear-never_overshoots :
        (current target rate dt : n.R)
        → ((n.lt current target ≡ true) × (n.lt target (linear current target rate dt) ≡ false))
          ⊎ (((n.lt target current ≡ true) × (n.lt (linear current target rate dt) target ≡ false))
              ⊎ ((same n current target ≡ true) × (linear current target rate dt ≡ current)))
    linear-never_overshoots current target rate dt = elim (Bool-cases (n.lt current target)) [
      | inl below ↦ inl (below, linear-below current target rate dt below)
      | inr e ↦ elim (Bool-cases (n.lt target current)) [
        | inl above ↦ inr (inl (above, linear-above current target rate dt above))
        | inr e' ↦
            let level : same n current target ≡ true = rw e (rw e' refl) in
            inr (inr (level, linear-same current target rate dt level))
      ]
    ]
