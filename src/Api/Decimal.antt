-- ===== src/Api/Decimal.antt =====
-- The digits that `WriteUint16` of Arduino/EasySD/CartApi.cpp writes.
use easy_sd_gemini.Prelude.{ℕ, ◌+◌, ◌-◌, ◌*◌, List, [], ◌∷◌}

-- The value of a row of decimal digits behind the value `acc`.
abbrev pub value_from : ℕ → List ℕ → ℕ
value_from acc [] = acc
value_from acc (c ∷ cs) = value_from (acc * 10 + (c - 48)) cs
