-- ===== src/Api/Place/Streams.antt =====
-- The streaming commands of Arduino/EasySD/CartApi.cpp leave the directory where it is.
use easy_sd_gemini.Prelude.{
  ℕ, zero, suc, ◌*◌, ◌≡◌, ◌▷◌, refl, ap, Bool, true, false, not, ◌||◌, List, Option, none, some,
  ltb, ◌==◌, if◌then◌else◌, arith,
}
use easy_sd_gemini.SdFat.{SdFat}
use easy_sd_gemini.Dir.{DirState}
use easy_sd_gemini.Dir.Located.{place}
use easy_sd_gemini.Dir.Placed.{if_has}
use easy_sd_gemini.Api.Place.{Remains}
use easy_sd_gemini.Api.{
  Api, code, invalid_argument, file_is_not_opened, argument, handle_response, with_cart,
}
use easy_sd_gemini.Cart.{Cart, disable_cartridge}
use easy_sd_gemini.Cart.Listen.{start_listening}
use easy_sd_gemini.Api.Koala.{put_at}
use easy_sd_gemini.Api.Streams.{
  NiExit, eof, StreamEvent, send_block, ni_loop, ni_stream, non_interrupted_stream,
  read_and_pad_final_aware, stream_file,
}

module _ ⦃sd : SdFat⦄ where
  pub stream_file-Remains :
      (now : ℕ) (events : List StreamEvent) (s : Api) → Remains s.dir (stream_file now events s)
  unfolding stream_file handle_response
  stream_file-Remains now events s = ground arith

  -- The state that a polled stream ends with, if it ends, stands in `d`.
  abbrev Ends : DirState → Option (NiExit × sd.File × Api) → Type 0
  Ends d none = Unit
  Ends d (some (_, _, t)) = t.dir ≡ d

  ni_loop-Ends :
      (fuel port_d port_c len : ℕ) (first : Bool) (block : Bool × List ℕ × sd.File)
      → (levels : List Bool) → (s : Api)
      → Ends s.dir (ni_loop fuel port_d port_c len first block levels s)
  unfolding ni_loop
  ni_loop-Ends zero port_d port_c len first block levels s = tt
  ni_loop-Ends (suc fuel) port_d port_c len first (last, bytes, f) levels s =
      by_block (send_block port_d port_c first bytes levels s.cart) last (λ levels' c.
        ni_loop-Ends fuel port_d port_c len false (read_and_pad_final_aware len 0x00 f) levels'
          (record s { cart = c; shared_buf = put_at 0 bytes s.shared_buf }))
    where
      next : List Bool → Cart → Option (NiExit × sd.File × Api)
      next levels' c =
          ni_loop fuel port_d port_c len false (read_and_pad_final_aware len 0x00 f) levels'
            (record s { cart = c; shared_buf = put_at 0 bytes s.shared_buf })

      by_block :
          (o : Option (Option NiExit × List Bool × Cart)) (last : Bool)
          → ((levels' : List Bool) (c : Cart) → Ends s.dir (next levels' c))
          → let sent =
              λ (c : Cart). record s { cart = c; shared_buf = put_at 0 bytes s.shared_buf } in
            Ends s.dir (elim o [
              | none ↦ none
              | some (some exit, levels', c) ↦ some (exit, f, sent c)
              | some (none, levels', c) ↦ elim last [
                | true ↦ some (eof, f, sent c)
                | false ↦ next levels' c
              ]
            ])
      by_block none last ih = tt
      by_block (some (some exit, levels', c)) last ih = refl
      by_block (some (none, levels', c)) true ih = refl
      by_block (some (none, levels', c)) false ih = ih levels' c

  ni_stream-Ends :
      (len : ℕ) (f : sd.File) (levels : List Bool) (s : Api) → Ends s.dir (ni_stream len f levels s)
  unfolding ni_stream handle_response with_cart
  ni_stream-Ends len f levels s = ni_loop-Ends _ _ _ len true _ levels _

  pub non_interrupted_stream-Remains :
      (levels : List Bool) (s : Api) → Remains s.dir (non_interrupted_stream levels s)
  unfolding non_interrupted_stream handle_response
  non_interrupted_stream-Remains levels s =
      let count = argument 0 s in
      let refused : Option Api = some (handle_response (code invalid_argument) 0 s) in
      let streamed : Option Api = elim s.working_file [
        | none ↦ some (handle_response (code file_is_not_opened) 0 s)
        | some f ↦ elim (ni_stream (count * 8) f levels s) [
          | none ↦ none
          | some (exit, f', t) ↦ some (record t {
            cart = t.cart ▷ disable_cartridge ▷ start_listening;
            working_file = some f';
          })
        ]
      ] in
      let outside = (count == 0) || ltb 50 count in
      if_has (Remains s.dir) (not s.args_ok) (some s) (if outside then refused else streamed) refl (
        if_has (Remains s.dir) outside refused streamed refl
          (by_file s.working_file (λ f. ni_stream-Ends (argument 0 s * 8) f levels s)))
    where
      by_stream :
          (o : Option (NiExit × sd.File × Api))
          → Ends s.dir o
          → Remains s.dir (elim o [
            | none ↦ none
            | some (exit, f', t) ↦ some (record t {
              cart = t.cart ▷ disable_cartridge ▷ start_listening;
              working_file = some f';
            })
          ])
      by_stream none e = tt
      by_stream (some (exit, f', t)) e = ap place e

      by_file :
          (o : Option sd.File)
          → ((f : sd.File) → Ends s.dir (ni_stream (argument 0 s * 8) f levels s))
          → Remains s.dir (elim o [
            | none ↦ some (handle_response (code file_is_not_opened) 0 s)
            | some f ↦ elim (ni_stream (argument 0 s * 8) f levels s) [
              | none ↦ none
              | some (exit, f', t) ↦ some (record t {
                cart = t.cart ▷ disable_cartridge ▷ start_listening;
                working_file = some f';
              })
            ]
          ])
      by_file none h = refl
      by_file (some f) h = by_stream (ni_stream (argument 0 s * 8) f levels s) (h f)
