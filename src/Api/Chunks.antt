-- ===== src/Api/Chunks.antt =====
-- `HandleReadNextChunk` of Arduino/EasySD/CartApi.cpp.
use easy_sd_gemini.Prelude.{
  ℕ, zero, suc, ◌+◌, ◌-◌, ◌*◌, ◌%◌, ◌^◌, min, List, Option, none, some, ltb, leb, if◌then◌else◌,
  length,
}
use easy_sd_gemini.SdFat.{SdFat}
use easy_sd_gemini.Cart.{Cart, delay_microseconds, transmit_byte_fast_mk3}
use easy_sd_gemini.Cart.Delivery.{transmit_all}
use easy_sd_gemini.Api.{
  Api, Wait, file_is_not_opened, code, argument, get_arguments_static, handle_response,
}
use easy_sd_gemini.Api.Files.{buffer_size}

module _ ⦃sd : SdFat⦄ where
  -- The loop with `sent` of `total` bytes sent, on `uint32_t`: a read of -1 takes one off. `none`
  -- means that the loop still runs when the fuel ends.
  unfoldable pub chunk_loop : ℕ → ℕ → ℕ → sd.File → Cart → Option (sd.File × Cart)
  chunk_loop zero total sent f c = if leb total sent then some (f, c) else none
  chunk_loop (suc fuel) total sent f c =
      let (got, f') = sd.read (min buffer_size (total - sent)) f in
      let silence = chunk_loop fuel total (sent + 1) f (transmit_byte_fast_mk3 0x80 c) in
      if leb total sent
      then some (f, c)
      else if ltb 0 (sd.available f)
      then (elim got [
        | none ↦ chunk_loop fuel total ((sent + 2 ^ 32 - 1) % 2 ^ 32) f' c
        | some bytes ↦
            chunk_loop fuel total (sent + length bytes) f'
              (transmit_all transmit_byte_fast_mk3 bytes c)
      ])
      else silence

  -- The status: 0x81 with the last block. One round for each byte is allowed for.
  unfoldable pub read_next_chunk : Api → Option Api
  read_next_chunk s = elim s.working_file [
    | none ↦ some (handle_response (code file_is_not_opened) 0 s)
    | some f ↦
        let total = argument 0 s * 256 in
        let status = if leb (sd.available f) total then 0x81 else 0x80 in
        let ready = handle_response status 1 s in
        elim (chunk_loop total total 0 f (delay_microseconds 1000 ready.cart)) [
          | none ↦ none
          | some (f', c) ↦ some (record ready { cart = c; working_file = some f' })
        ]
  ]

  unfoldable pub handle_read_next_chunk : List Wait → Api → Option (Api × List Wait)
  handle_read_next_chunk ws s = elim (get_arguments_static 1 ws s) [
    | none ↦ none
    | some (s', ws') ↦ elim (read_next_chunk s') [ none ↦ none | some s'' ↦ some (s'', ws') ]
  ]
