-- ===== src/Api/Streams/Whole.antt =====
-- A whole stream of `HandleNonInterruptedStream`, Arduino/EasySD/CartApi.cpp.
use Prim.Native.Nat.{bit_and}
use easy_sd_gemini.Prelude.{
  ℕ, suc, ◌*◌, ◌≤◌, ◌<◌, ◌≡◌, refl, ap, ◌∙◌, Bool, true, false, List, [], ◌∷◌, ◌++◌, append_assoc,
  none, some, ltb, ◌==◌, arith, length, ◌▷◌,
}
use easy_sd_gemini.SdFat.{SdFat}
use easy_sd_gemini.Cart.{
  Cart, Listener, set_page, drive, disable_cartridge, settle_bus_change, delay_microseconds,
}
use easy_sd_gemini.Cart.Listen.{
  soft_end_listening, start_listening, attach, reset_receive, reset_receive_no_state_change,
}
use easy_sd_gemini.Api.{Api, argument, successful, code, with_cart, handle_response}
use easy_sd_gemini.Api.Launch.Bytes.{Serves, fill}
use easy_sd_gemini.Api.Launch.Program.{is_shown}
use easy_sd_gemini.Api.Streams.{read_and_pad_final_aware, ni_stream, non_interrupted_stream}
use easy_sd_gemini.Api.Streams.Blocks.{Blocks, read_and_pad_final_aware-ReadsBlock}
use easy_sd_gemini.Api.Streams.Polled.{
  Strobe, levels_of, InTime, pages, latch_all-pages, ni_loop-Streams,
}

-- The end of a stream shows no page.
closing_lem :
    (c : Cart)
    → let d = c ▷ disable_cartridge ▷ start_listening in
      (pages d.signals ≡ pages c.signals)
      × (is_shown d.signals ≡ false)
      × (d.listener ≡ Listener.receive)
unfolding disable_cartridge settle_bus_change drive delay_microseconds start_listening attach
    reset_receive
closing_lem c = (refl, refl, refl)

module _ ⦃sd : SdFat⦄ where
  -- The interface where the stream starts.
  abbrev ready : Api → Api
  ready s =
      handle_response (code successful) 0
        (with_cart (λ c. c ▷ set_page 0 ▷ set_page 0 ▷ soft_end_listening) s)

  ready_lem :
      (s : Api) → pages (ready s).cart.signals ≡ pages s.cart.signals ++ (0 ∷ 0 ∷ 0 ∷ 0 ∷ 0x80 ∷ [])
  unfolding handle_response with_cart set_page drive soft_end_listening attach
      reset_receive_no_state_change
  ready_lem s =
      append_assoc (((pages s.cart.signals ++ (0 ∷ [])) ++ (0 ∷ [])) ++ (0 ∷ [])) (0 ∷ [])
        (0x80 ∷ [])
      ∙ append_assoc ((pages s.cart.signals ++ (0 ∷ [])) ++ (0 ∷ [])) (0 ∷ []) (0 ∷ 0x80 ∷ [])
      ∙ append_assoc (pages s.cart.signals ++ (0 ∷ [])) (0 ∷ []) (0 ∷ 0 ∷ 0x80 ∷ [])
      ∙ append_assoc (pages s.cart.signals) (0 ∷ []) (0 ∷ 0 ∷ 0 ∷ 0x80 ∷ [])

  handler_step :
      (levels : List Bool) (s : Api) (f : sd.File)
      → s.args_ok ≡ true
      → 0 < argument 0 s
      → argument 0 s ≤ 50
      → s.working_file ≡ some f
      → non_interrupted_stream levels s ≡ (elim (ni_stream (argument 0 s * 8) f levels s) [
        | none ↦ none
        | some (exit, f', t) ↦ some (record t {
          cart = t.cart ▷ disable_cartridge ▷ start_listening;
          working_file = some f';
        })
      ])
  unfolding non_interrupted_stream
  handler_step levels s f ok low high opened =
      let nonzero : (argument 0 s == 0) ≡ false = ground (arith, low) in
      let fits : ltb 50 (argument 0 s) ≡ false = ground (arith, high) in
      simp (ok, nonzero, fits, opened) refl

  -- A stream of an open file in blocks of `len` bytes, 8 to 400, to a Commodore 64 that strobes in time for
  -- each of their bytes: the handler returns, at the end of the file. Behind the response the pages
  -- shown are the file's bytes from its position on, in order, one for each strobe, with zeros up to
  -- the end of the last block; no block follows the one that reaches the end. The cartridge is
  -- hidden then, and the receiver listens.
  pub non_interrupted_stream_lem :
      (ts : List Strobe) (more : List Bool) (k : ℕ) (s : Api) (f : sd.File)
      → s.args_ok ≡ true
      → 0 < argument 0 s
      → argument 0 s ≤ 50
      → s.working_file ≡ some f
      → Serves
      → Blocks k (argument 0 s * 8) (length (sd.rest f))
      → length ts ≡ k * (argument 0 s * 8)
      → InTime ts
      → (t : Api) × (g : sd.File) × (non_interrupted_stream (levels_of ts more) s ≡ some t)
        × (t.working_file ≡ some g)
        × (sd.rest g ≡ [])
        × (pages t.cart.signals
            ≡ pages s.cart.signals
              ++ (0 ∷ 0 ∷ 0 ∷ 0 ∷ 0x80 ∷ fill (k * (argument 0 s * 8)) (sd.rest f)))
        × (is_shown t.cart.signals ≡ false)
        × (t.cart.listener ≡ Listener.receive)
  unfolding ni_stream
  non_interrupted_stream_lem ts more k s f ok low high opened serves blocks count h =
      let len : ℕ = argument 0 s * 8 in
      let bytes : List ℕ = fill (k * len) (sd.rest f) in
      let d : ℕ = bit_and (ready s).cart.pins.portd 0x0f in
      let p : ℕ = bit_and (ready s).cart.pins.portc 0xf0 in
      let r =
        ni_loop-Streams (suc (length (sd.rest f))) d p k len true f
          (read_and_pad_final_aware len 0x00 f) ts more (ready s) serves
          (read_and_pad_final_aware-ReadsBlock len f serves) blocks (omega (arith, low))
          (omega arith) count h in
      let ended = r.done.cart ▷ disable_cartridge ▷ start_listening in
      let (same, hidden, listens) = closing_lem r.done.cart in
      (
        record (r.done) { cart = ended; working_file = some r.file },
        r.file,
        handler_step (levels_of ts more) s f ok low high opened
            ∙ ap
                (λ o. elim o [
                  | none ↦ none
                  | some (exit, f', t) ↦ some (record t {
                    cart = t.cart ▷ disable_cartridge ▷ start_listening;
                    working_file = some f';
                  })
                ])
                r.result,
        refl,
        r.at_end,
        same
            ∙ ap (λ c. pages c.signals) r.latched
            ∙ latch_all-pages d p bytes (ready s).cart
            ∙ ap (λ b. b ++ bytes) (ready_lem s)
            ∙ append_assoc (pages s.cart.signals) (0 ∷ 0 ∷ 0 ∷ 0 ∷ 0x80 ∷ []) bytes,
        hidden,
        listens,
      )
