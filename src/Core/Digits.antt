-- ===== src/Core/Digits.antt =====
-- `int` of a text that is digits only.
use lewis.Common.{ℕ, ◌+◌, ◌-◌, ◌*◌, List, [], ◌∷◌}

abbrev pub digits_value : ℕ → List ℕ → ℕ
digits_value v [] = v
digits_value v (c ∷ cs) = digits_value (10 * v + (c - 48)) cs
