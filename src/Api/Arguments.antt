-- ===== src/Api/Arguments.antt =====
-- The argument readers of Arduino/EasySD/CartApi.cpp.
use easy_sd_gemini.Prelude.{
  ℕ, zero, suc, ◌+◌, ◌≤◌, ◌<◌, ◌≡◌, Bool, false, List, [], ◌∷◌, ◌⊎◌, get_or,
}
use easy_sd_gemini.SdFat.{SdFat}
use easy_sd_gemini.Receiver.{sub32}
use easy_sd_gemini.Cart.{Cart}
use easy_sd_gemini.Api.{Api, Wait, Round, args_timeout_ms, zero_fill, store_argument}

module _ ⦃sd : SdFat⦄ where
  -- Every wait has a round whose clock ends it.
  abbrev pub Expires : Wait → List Round → Type 0
  Expires w [] = ⊥
  Expires w (r ∷ rs) = (args_timeout_ms ≤ sub32 r.clock w.start_ms) ⊎ Expires w rs

  -- As many waits as arguments, each with an end.
  abbrev pub AllExpire : ℕ → List Wait → Type 0
  AllExpire zero ws = Unit
  AllExpire (suc count) [] = ⊥
  AllExpire (suc count) (w ∷ ws) = Expires w w.rounds × AllExpire count ws

  -- What a reader of `count` arguments from `i` on leaves: all of them were read, or it timed out at
  -- the `k`th and the others are zeros.
  pub data Gets (count i : ℕ) (ok : Bool) (t : Api) : Type 0 where
    complete : t.args_ok ≡ ok → Gets count i ok t
    timed_out :
        (k : ℕ)
        → k < count
        → t.args_ok ≡ false
        → ((j : ℕ) → k ≤ j → j < count → get_or t.shared_buf (i + j) 0 ≡ 0)
        → Gets count i ok t

  abbrev stored : ℕ → ℕ → Cart → Api → Api
  stored i v c s = store_argument i v (record s { cart = c })

  abbrev gave_up : ℕ → ℕ → Cart → Api → Api
  gave_up count i c s = record s {
    cart = c;
    args_ok = false;
    shared_buf = zero_fill count i s.shared_buf;
  }
