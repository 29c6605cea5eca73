-- ===== src/Tests/Launching.antt =====
-- The launches and the streams at concrete inputs.
use Prim.Native.Nat.{bit_and}
use easy_sd_gemini.Prelude.{
  ℕ, ◌+◌, ◌-◌, ◌*◌, ◌^◌, ◌≤◌, ◌≡◌, ◌≢◌, ◌%◌, ◌<◌, ◌⊎◌, inl, refl, List, [], ◌∷◌, ◌++◌, true, false,
  Option, none, some, arith, length, drop, replicate,
}
use easy_sd_gemini.Pins
use easy_sd_gemini.Pins.{Pins}
use easy_sd_gemini.Cart.{Listener}
use easy_sd_gemini.Cart.Delivery.{delivered}
use easy_sd_gemini.Dir.Located.{Located}
use easy_sd_gemini.Api.{Api}
use easy_sd_gemini.Api.Headers.{
  type_standard_prg, pad_bytes, transfer_pages, header, header_to_address, end_address,
}
use easy_sd_gemini.Api.EndAddress.{end_bytes, end_address_lem}
use easy_sd_gemini.Api.Launch.{launch_opened}
use easy_sd_gemini.Api.Launch.Bytes.{Serves, fill}
use easy_sd_gemini.Api.Launch.Program.{image, is_shown}
use easy_sd_gemini.Api.Launch.Whole.{launch_opened_lem}
use easy_sd_gemini.Api.Koala.{
  koa_load_addr, koa_plugin_addr, koa_payload_size, koa_transfer_length, send_koala,
}
use easy_sd_gemini.Api.Koala.Image.{memory, send_koala_lem}
use easy_sd_gemini.Api.Streams.{StreamEvent, request, poll, latch, non_interrupted_stream}
use easy_sd_gemini.Api.Streams.Polled.{Strobe, levels_of, pages}
use easy_sd_gemini.Api.Streams.Blocks.{Blocks}
use easy_sd_gemini.Api.Streams.Whole.{non_interrupted_stream_lem}
use easy_sd_gemini.Api.Streams.Latch.{written, written-latch}
use easy_sd_gemini.Tests.Serial.{idle_cart}
use easy_sd_gemini.Tests.Card.{disk}
use easy_sd_gemini.Tests.Commands.{api}

pub serves : Serves ⦃sd = disk⦄
serves n f e = cc

-- A program of three bytes for 0x0801 is open.
abbrev program : Api ⦃sd = disk⦄
program = record api { working_file = some (1 ∷ 8 ∷ 7 ∷ 8 ∷ 9 ∷ []) }

launch_opened_lem_example :
    let t = launch_opened ⦃sd = disk⦄ (0x4c ∷ []) 1 program in
    (delivered t.cart.signals
      ≡ delivered program.cart.signals
        ++ image (header 1 8 (transfer_pages 3) 3 type_standard_prg) (0x4c ∷ []) (7 ∷ 8 ∷ 9 ∷ []) 3)
    × (length {A = ℕ} ((7 ∷ 8 ∷ 9 ∷ []) ++ replicate (pad_bytes 3) 0) ≡ 256 * transfer_pages 3)
    × (is_shown t.cart.signals ≡ false)
    × (t.cart.transfer_index ≡ 0)
    × (t.working_file ≡ none)
launch_opened_lem_example =
    launch_opened_lem ⦃sd = disk⦄ (0x4c ∷ []) 1 1 8 (7 ∷ 8 ∷ 9 ∷ []) program
      (1 ∷ 8 ∷ 7 ∷ 8 ∷ 9 ∷ []) refl refl serves refl refl (omega arith)

abbrev viewer : List ℕ
viewer = 5 ∷ 6 ∷ []

send_koala_lem_example :
    let n = koa_transfer_length (length viewer) in
    let (read_ok, t) = send_koala ⦃sd = disk⦄ [] (7 ∷ 8 ∷ 9 ∷ []) viewer idle_cart in
    (picture : List ℕ) × (length picture ≡ koa_payload_size)
    × (delivered t.signals
        ≡ delivered idle_cart.signals
          ++ image
              (header_to_address 0x00 0xc0 0x00 0x20 (transfer_pages n) n type_standard_prg)
              []
              (memory picture viewer)
              n)
    × (length (memory picture viewer) ≡ n)
    × (drop (koa_plugin_addr - koa_load_addr) (memory picture viewer) ≡ viewer)
    × (t.transfer_index ≡ 0)
    × (is_shown t.signals ≡ false)
    × (read_ok ≡ true → picture ≡ fill koa_payload_size (disk.rest (7 ∷ 8 ∷ 9 ∷ [])))
send_koala_lem_example =
    send_koala_lem ⦃sd = disk⦄ [] viewer (7 ∷ 8 ∷ 9 ∷ []) idle_cart (omega arith)

end_address_lem_example :
    ((0xc0 < 128) ⊎ ((0x10 + 100) % 256 ≡ 0)
      → end_bytes (end_address 0x10 0xc0 100) ≡ 0x10 + 0xc0 * 256 + 100)
    × (128 ≤ 0xc0
        → (0x10 + 100) % 256 ≢ 0
        → end_bytes (end_address 0x10 0xc0 100) ≡ (0x10 + 0xc0 * 256 + 100 + 256) % 2 ^ 16)
end_address_lem_example = end_address_lem 0x10 0xc0 100 (omega arith) (omega arith) (omega arith)

-- Eight strobes, the first of which comes late.
abbrev strobes : List Strobe
strobes =
    record { high = 900; low = 1 }
    ∷ record { high = 3; low = 2 }
    ∷ record { high = 3; low = 2 }
    ∷ record { high = 3; low = 2 }
    ∷ record { high = 3; low = 2 }
    ∷ record { high = 3; low = 2 }
    ∷ record { high = 3; low = 2 }
    ∷ record { high = 3; low = 2 }
    ∷ []

one_block : Blocks 1 8 3
one_block = record { enough = omega arith; needed = inl refl }

non_interrupted_stream_lem_example :
    (t : Api ⦃sd = disk⦄) × (g : List ℕ) × (non_interrupted_stream ⦃sd = disk⦄
        (levels_of strobes [])
        api
      ≡ some t)
    × (t.working_file ≡ some g)
    × (g ≡ [])
    × (pages t.cart.signals
        ≡ pages api.cart.signals ++ (0 ∷ 0 ∷ 0 ∷ 0 ∷ 0x80 ∷ fill 8 (7 ∷ 8 ∷ 9 ∷ [])))
    × (is_shown t.cart.signals ≡ false)
    × (t.cart.listener ≡ Listener.receive)
non_interrupted_stream_lem_example =
    non_interrupted_stream_lem ⦃sd = disk⦄ strobes [] 1 api (7 ∷ 8 ∷ 9 ∷ []) refl (omega arith)
      (omega arith) refl serves one_block refl (omega arith)

abbrev pins : Pins
pins = record { portb = 3; portc = 0x35; portd = 0x9c; ddrb = 0; ddrc = 0x0f; ddrd = 0xf4 }

written-latch_example :
    written (latch (bit_and 0x9c 0x0f) (bit_and 0x35 0xf0)) (0x12 ∷ 0xfe ∷ []) pins
    ≡ written Pins.set_page (0x12 ∷ 0xfe ∷ []) pins
written-latch_example =
    written-latch (0x12 ∷ 0xfe ∷ []) pins (omega arith)
      (record { portc = omega arith; portd = omega arith })

-- Two requests, and the end after 100 ms of silence.
abbrev events : List StreamEvent
events = request 5 ∷ request 6 ∷ poll 50 ∷ poll 200 ∷ []

abbrev streamed : Option (Api ⦃sd = disk⦄) → Api ⦃sd = disk⦄
streamed none = api
streamed (some t) = t
