-- ===== src/Api/Streams/Shown.antt =====
-- A whole stream of `HandleStream`, Arduino/EasySD/CartApi.cpp.
use easy_sd_gemini.Prelude.{ℕ, ◌≡◌, Bool, true, List, [], ◌∷◌, ◌++◌, ◌==◌, if◌then◌else◌}
use easy_sd_gemini.SdFat.{SdFat}
use easy_sd_gemini.Cart.{Cart}
use easy_sd_gemini.Api.{Api}
use easy_sd_gemini.Api.Streams.{
  Stream, StreamEvent, request, poll, double_buffered_streaming, refill,
}
use easy_sd_gemini.Api.Streams.Polled.{pages}
use easy_sd_gemini.Api.Streams.Requests.{ahead, refilled}

module _ ⦃sd : SdFat⦄ where
  -- The loop waits for the half in use.
  abbrev pub is_waiting : Stream → Bool
  is_waiting st = st.used_buffer == (if st.refills_second then 1 else 0)

  -- The requests come slowly enough for the loop: none uses the last byte of a half while the other
  -- one is due for a refill.
  abbrev pub Timely : ℕ → List StreamEvent → Stream → Type 0
  Timely pad [] st = Unit
  Timely pad (request now ∷ es) st =
      (st.index ≡ 63 → is_waiting st ≡ true) × Timely pad es (double_buffered_streaming now st)
  Timely pad (poll now ∷ es) st = Timely pad es (if is_waiting st then st else refill pad st)

  -- From `st` to `t` the pages `xs` were shown, and `n` halves were read.
  pub record Shown (pad : ℕ) (second : Bool) (st t : Stream) : Type 0 where
    pub n : ℕ
    pub xs : List ℕ
    pub now_second : Bool
    pub pages_lem : pages t.cart.signals ≡ pages st.cart.signals ++ xs
    pub order : xs ++ ahead now_second t ≡ ahead second st ++ refilled pad n (sd.rest st.file)
