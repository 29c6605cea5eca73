-- ===== src/Api/EndAddress.antt =====
-- The end address in the two headers of Arduino/EasySD/CartApi.cpp.
use easy_sd_gemini.Prelude.{ℕ, ◌+◌, ◌*◌, ◌%◌, ◌^◌, ◌≤◌, ◌<◌, ◌≡◌, ◌≢◌, ◌⊎◌, inl, inr, arith}
use easy_sd_gemini.Api.Headers.{quotient_256, remainder_256, widen, end_address}

-- The two end bytes of a header, as one address.
abbrev pub end_bytes : ℕ → ℕ
end_bytes end_at = remainder_256 end_at % 256 + 256 * (quotient_256 end_at % 256)

-- The end address in `SendHeader` for a program that ends below 2 ^ 16: the address behind the
-- program where that starts below 0x8000 or ends at a page boundary, and otherwise one page too
-- high, since the start is an `int`, and the division of a negative `long` truncates.
pub end_address_lem :
    (low high n : ℕ)
    → low < 256
    → high < 256
    → low + high * 256 + n < 2 ^ 16
    → ((high < 128) ⊎ ((low + n) % 256 ≡ 0)
        → end_bytes (end_address low high n) ≡ low + high * 256 + n)
      × (128 ≤ high
          → (low + n) % 256 ≢ 0
          → end_bytes (end_address low high n) ≡ (low + high * 256 + n + 256) % 2 ^ 16)
unfolding end_address quotient_256 remainder_256 widen
end_address_lem low high n hl hh small = (right, wrong)
  where
    right :
        (high < 128) ⊎ ((low + n) % 256 ≡ 0)
        → end_bytes (end_address low high n) ≡ low + high * 256 + n
    right (inl below) = ground (arith, hl, hh, small, below)
    right (inr boundary) = ground (arith, hl, hh, small, boundary)

    wrong :
        128 ≤ high
        → (low + n) % 256 ≢ 0
        → end_bytes (end_address low high n) ≡ (low + high * 256 + n + 256) % 2 ^ 16
    wrong above inside = ground (arith, hl, hh, small, above, inside)
