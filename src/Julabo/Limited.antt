-- ===== src/Julabo/Limited.antt =====
-- The parameters of the Julabo stay within their limits.
use lewis.Common.{
  ℕ, zero, suc, Bool, true, false, List, [], ◌∷◌, Exn, Result, err, limit_violation, value_error,
  Exec, ◌&&◌, if◌then◌else◌, ◌≡◌, refl, ◌⊎◌, inl, inr,
}
use lewis.Core.Number.{Number, le}
use lewis.Core.Digits.{digits_value}
use lewis.Core.Limits.{fixed, check_limits, within, both}
use lewis.Julabo.Device.{
  Device, lit, tenth, assign, set_set_point, set_circulating, set_internal_p, set_internal_i,
  set_internal_d, set_external_p, set_external_i, set_external_d, Command, set_point_command,
  p_internal, i_internal, d_internal, p_external, i_external, d_external, circulating_command,
  with_int, command,
}

module _ (n : Number) where
  -- lower <= x <= upper
  abbrev pub Between : n.R → n.R → n.R → Type 0
  Between lower upper x = (le n lower x ≡ true) × (le n x upper ≡ true)

  -- The parameters of both controllers are within their limits, the set point is within those of
  -- the device, and the two flags of the circulation agree.
  abbrev pub IsLimited : Device n → Type 0
  IsLimited d =
      Between (tenth n 1) (tenth n 999) d.internal_p
      × Between (lit n 3) (lit n 9999) d.internal_i
      × Between (lit n 0) (lit n 999) d.internal_d
      × Between (tenth n 1) (tenth n 999) d.external_p
      × Between (lit n 3) (lit n 9999) d.external_i
      × Between (lit n 0) (lit n 999) d.external_d
      × Between d.temperature_low_limit d.temperature_high_limit d.set_point_temperature
      × (d.is_circulating ≡ (if d.circulate_commanded then 1 else 0))

  -- A setter with limits keeps what its assignment keeps for a value within them.
  check_limits-keeps :
      (P : Device n → Type 0) (lower upper : n.R) (f : n.R → Device n → Device n) (x : n.R)
      (d : Device n)
      → P d
      → (Between lower upper x → P (f x d))
      → P (check_limits n (fixed lower) (fixed upper) false (assign n f) x d).1
  unfolding check_limits
  check_limits-keeps P lower upper f x d kept h = go (within n (fixed lower) (fixed upper) d x) refl
    where
      go :
          (b : Bool)
          → (le n lower x && le n x upper) ≡ b
          → P (if b then assign n f x d else (err limit_violation, d)).1
      go true e = h (both _ _ e)
      go false e = kept

  set_set_point-IsLimited :
      (x : n.R) (d : Device n) → IsLimited d → IsLimited (set_set_point n x d).1
  unfolding set_set_point
  set_set_point-IsLimited x d h = go _ refl
    where
      go :
          (b : Bool)
          → (le n d.temperature_low_limit x && le n x d.temperature_high_limit) ≡ b
          → IsLimited (if b then record d { set_point_temperature = x } else d)
      go true e = (h.0, h.1, h.2, h.3, h.4, h.5, both _ _ e, h.7)
      go false e = h

  set_circulating-IsLimited :
      (k : ℕ) (d : Device n) → IsLimited d → IsLimited (set_circulating n k d).1
  unfolding set_circulating
  set_circulating-IsLimited zero d h = (h.0, h.1, h.2, h.3, h.4, h.5, h.6, refl)
  set_circulating-IsLimited (suc zero) d h = (h.0, h.1, h.2, h.3, h.4, h.5, h.6, refl)
  set_circulating-IsLimited (suc (suc k)) d h = h

  with_int-IsLimited :
      (f : ℕ → Exec (Device n) (Unit {0})) (text : List ℕ) (d : Device n)
      → IsLimited d
      → ((k : ℕ) → IsLimited (f k d).1)
      → IsLimited (with_int n f text d).1
  with_int-IsLimited f [] d h set = h
  with_int-IsLimited f (c ∷ cs) d h set = set (digits_value 0 (c ∷ cs))

  -- Whatever the command and the text of its argument, and whether or not it raises, the parameters
  -- stay within their limits and the flags of the circulation agree.
  pub command-IsLimited :
      (float_of : List ℕ → n.R) (c : Command n) (d : Device n)
      → IsLimited d
      → IsLimited (command n float_of c d).1
  unfolding command set_internal_p set_internal_i set_internal_d set_external_p set_external_i
      set_external_d
  command-IsLimited float_of (set_point_command text) d h =
      set_set_point-IsLimited (float_of text) d h
  command-IsLimited float_of (circulating_command text) d h =
      with_int-IsLimited (set_circulating n) text d h (λ k. set_circulating-IsLimited k d h)
  command-IsLimited float_of (p_internal text) d h =
      check_limits-keeps IsLimited (tenth n 1) (tenth n 999) (λ x d. record d { internal_p = x })
        (float_of text) d h (λ b. (b, h.1, h.2, h.3, h.4, h.5, h.6, h.7))
  command-IsLimited float_of (i_internal text) d h =
      with_int-IsLimited (λ k. set_internal_i n (lit n k)) text d h
        (λ k.
          check_limits-keeps IsLimited (lit n 3) (lit n 9999) (λ x d. record d { internal_i = x })
            (lit n k) d h (λ b. (h.0, b, h.2, h.3, h.4, h.5, h.6, h.7)))
  command-IsLimited float_of (d_internal text) d h =
      with_int-IsLimited (λ k. set_internal_d n (lit n k)) text d h
        (λ k.
          check_limits-keeps IsLimited (lit n 0) (lit n 999) (λ x d. record d { internal_d = x })
            (lit n k) d h (λ b. (h.0, h.1, b, h.3, h.4, h.5, h.6, h.7)))
  command-IsLimited float_of (p_external text) d h =
      check_limits-keeps IsLimited (tenth n 1) (tenth n 999) (λ x d. record d { external_p = x })
        (float_of text) d h (λ b. (h.0, h.1, h.2, b, h.4, h.5, h.6, h.7))
  command-IsLimited float_of (i_external text) d h =
      with_int-IsLimited (λ k. set_external_i n (lit n k)) text d h
        (λ k.
          check_limits-keeps IsLimited (lit n 3) (lit n 9999) (λ x d. record d { external_i = x })
            (lit n k) d h (λ b. (h.0, h.1, h.2, h.3, b, h.5, h.6, h.7)))
  command-IsLimited float_of (d_external text) d h =
      with_int-IsLimited (λ k. set_external_d n (lit n k)) text d h
        (λ k.
          check_limits-keeps IsLimited (lit n 0) (lit n 999) (λ x d. record d { external_d = x })
            (lit n k) d h (λ b. (h.0, h.1, h.2, h.3, h.4, b, h.6, h.7)))

  check_limits-raises :
      (lower upper : n.R) (f : n.R → Device n → Device n) (x : n.R) (d : Device n) (e : Exn)
      → (check_limits n (fixed lower) (fixed upper) false (assign n f) x d).0 ≡ err e
      → check_limits n (fixed lower) (fixed upper) false (assign n f) x d ≡ (err limit_violation, d)
  unfolding check_limits
  check_limits-raises lower upper f x d e h = go (within n (fixed lower) (fixed upper) d x) h
    where
      go :
          (b : Bool)
          → (if b then assign n f x d else (err limit_violation, d)).0 ≡ err e
          → (if b then assign n f x d else (err limit_violation, d)) ≡ (err limit_violation, d)
      go true h = absurd cc
      go false h = refl

  -- What a command that raises may have done: nothing, for a value out of its limits, or for an empty
  -- text where an integer is expected.
  abbrev pub IsRefused : Device n → Result (Unit {0}) × Device n → Type 0
  IsRefused d o = (o ≡ (err limit_violation, d)) ⊎ (o ≡ (err value_error, d))

  with_int-IsRefused :
      (f : ℕ → Exec (Device n) (Unit {0})) (text : List ℕ) (d : Device n) (e : Exn)
      → ((k : ℕ) → (f k d).0 ≡ err e → f k d ≡ (err limit_violation, d))
      → (with_int n f text d).0 ≡ err e
      → IsRefused d (with_int n f text d)
  with_int-IsRefused f [] d e raises h = inr refl
  with_int-IsRefused f (c ∷ cs) d e raises h = inl (raises (digits_value 0 (c ∷ cs)) h)

  set_circulating_returns :
      (k : ℕ) (d : Device n) (e : Exn)
      → (set_circulating n k d).0 ≡ err e
      → set_circulating n k d ≡ (err limit_violation, d)
  unfolding set_circulating
  set_circulating_returns zero d e h = absurd cc
  set_circulating_returns (suc zero) d e h = absurd cc
  set_circulating_returns (suc (suc k)) d e h = absurd cc

  -- A command that raises, LimitViolationException or ValueError, leaves the device as it was.
  pub command-raises :
      (float_of : List ℕ → n.R) (c : Command n) (d : Device n) (e : Exn)
      → (command n float_of c d).0 ≡ err e
      → IsRefused d (command n float_of c d)
  unfolding command set_set_point set_internal_p set_internal_i set_internal_d set_external_p
      set_external_i set_external_d
  command-raises float_of (set_point_command text) d e h = absurd cc
  command-raises float_of (circulating_command text) d e h =
      with_int-IsRefused (set_circulating n) text d e (λ k. set_circulating_returns k d e) h
  command-raises float_of (p_internal text) d e h = inl (
      check_limits-raises (tenth n 1) (tenth n 999) (λ x d. record d { internal_p = x })
        (float_of text) d e h)
  command-raises float_of (i_internal text) d e h =
      with_int-IsRefused (λ k. set_internal_i n (lit n k)) text d e
        (λ k.
          check_limits-raises (lit n 3) (lit n 9999) (λ x d. record d { internal_i = x }) (lit n k)
            d e)
        h
  command-raises float_of (d_internal text) d e h =
      with_int-IsRefused (λ k. set_internal_d n (lit n k)) text d e
        (λ k.
          check_limits-raises (lit n 0) (lit n 999) (λ x d. record d { internal_d = x }) (lit n k) d
            e)
        h
  command-raises float_of (p_external text) d e h = inl (
      check_limits-raises (tenth n 1) (tenth n 999) (λ x d. record d { external_p = x })
        (float_of text) d e h)
  command-raises float_of (i_external text) d e h =
      with_int-IsRefused (λ k. set_external_i n (lit n k)) text d e
        (λ k.
          check_limits-raises (lit n 3) (lit n 9999) (λ x d. record d { external_i = x }) (lit n k)
            d e)
        h
  command-raises float_of (d_external text) d e h =
      with_int-IsRefused (λ k. set_external_d n (lit n k)) text d e
        (λ k.
          check_limits-raises (lit n 0) (lit n 999) (λ x d. record d { external_d = x }) (lit n k) d
            e)
        h
