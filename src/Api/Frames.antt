-- ===== src/Api/Frames.antt =====
-- What the handlers of Arduino/EasySD/CartApi.cpp send, whole: a response, then pages of 256 bytes.
use easy_sd_gemini.Prelude.{
  ℕ, ◌-◌, ◌^◌, ◌≤◌, ◌<◌, ◌≡◌, ◌⊎◌, List, [], ◌++◌, none, ◌▷◌, arith, length, replicate,
}
use easy_sd_gemini.SdFat.{SdFat}
use easy_sd_gemini.Cart.{Cart, reset_index}
use easy_sd_gemini.Cart.Listen.{soft_end_listening}
use easy_sd_gemini.Cart.Delivery.{delivered}
use easy_sd_gemini.Api.{Api, with_cart, handle_response, successful, code}
use easy_sd_gemini.Api.Files.{size_bytes, little_endian}

-- The four bytes of a size, read back.
pub little_endian-size_bytes : (n : ℕ) → n < 2 ^ 32 → little_endian (size_bytes n) ≡ n
unfolding little_endian size_bytes
little_endian-size_bytes n h = omega arith

module _ ⦃sd : SdFat⦄ where
  -- The part of `HandleReadFile` before the transfer, and the part behind it.
  abbrev ready_to_send : Api → Api
  ready_to_send s =
      handle_response (code successful) 1 (with_cart (λ c. c ▷ reset_index ▷ soft_end_listening) s)

  -- From `s` to `t` the bytes of the file `f` were handed over, `total` in all.
  pub record SendsFile (total : ℕ) (f : sd.File) (s t : Api) : Type 0 where
    pub sent : List ℕ
    pub more : List ℕ
    pub parts : sd.rest f ≡ sent ++ more
    pub fits : length sent ≤ total
    pub bytes :
        delivered t.cart.signals
        ≡ delivered s.cart.signals ++ (sent ++ replicate (total - length sent) 0)
    pub index : t.cart.transfer_index ≡ 0
    pub ended : (length sent ≡ total) ⊎ ((more ≡ []) ⊎ (t.working_file ≡ none))
