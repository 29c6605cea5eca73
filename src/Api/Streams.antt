-- ===== src/Api/Streams.antt =====
-- The streaming commands of Arduino/EasySD/CartApi.cpp: `HandleStream`, whose bytes an interrupt
-- handler shows at each read of the Commodore 64, and `HandleNonInterruptedStream`, which polls IO2.
pub mod Blocks
pub mod Polled
pub mod Whole
pub mod Latch
pub mod Buffers
pub mod Shown
pub mod Requests
use Prim.Native.Nat.{bit_and, bit_or}
use easy_sd_gemini.Prelude.{
  ℕ, zero, suc, ◌+◌, ◌-◌, ◌*◌, ◌%◌, ◌/◌, ◌^◌, Bool, true, false, not, ◌&&◌, ◌||◌, List, [], ◌∷◌,
  ◌++◌, Option, none, some, ltb, leb, ◌==◌, if◌then◌else◌, ◌▷◌, length, take, drop, get_or,
  replicate,
}
use easy_sd_gemini.SdFat.{SdFat}
use easy_sd_gemini.Receiver.{sub32}
use easy_sd_gemini.Pins
use easy_sd_gemini.Pins.{Pins}
use easy_sd_gemini.Cart.{Cart, Listener, page, drive, set_page, enable_cartridge, disable_cartridge}
use easy_sd_gemini.Cart.Listen.{attach, start_listening, soft_end_listening}
use easy_sd_gemini.Api.{
  Api, Wait, file_is_not_opened, invalid_argument, successful, code, argument, with_cart,
  get_arguments_static, handle_response,
}
use easy_sd_gemini.Api.Launch.{bytes_of}
use easy_sd_gemini.Api.Koala.{put_at}

abbrev pub double_buffer_size : ℕ
double_buffer_size = 64

abbrev pub stream_timeout_ms : ℕ
stream_timeout_ms = 100

abbrev pub io2_edge_timeout_loops : ℕ
io2_edge_timeout_loops = 0xffff

abbrev pub io2_first_byte_retries : ℕ
io2_first_byte_retries = 6

-- `NiExitReason`.
pub data NiExit : Type 0 where
  eof first_byte_timeout io2_fall_timeout io2_rise_timeout : NiExit

-- `while (PIND & 0x08)` over the levels of IO2 that it sees: whether the line fell in time, and the
-- levels left. `none` means that it still polls when they end.
unfoldable pub wait_fall : ℕ → ℕ → List Bool → Option (Bool × List Bool)
wait_fall retries loops [] = none
wait_fall retries loops (false ∷ levels) = some (true, levels)
wait_fall retries loops (true ∷ levels) =
    let full = loops + 1 == io2_edge_timeout_loops in
    let rest =
      wait_fall (if full then retries - 1 else retries) (if full then 0 else loops + 1) levels in
    if full && (retries == 1) then some (false, levels) else rest

-- `while ((PIND & 0x08) == 0)`.
unfoldable pub wait_rise : ℕ → List Bool → Option (Bool × List Bool)
wait_rise loops [] = none
wait_rise loops (true ∷ levels) = some (true, levels)
wait_rise loops (false ∷ levels) =
    let rest = wait_rise (loops + 1) levels in
    if loops + 1 == io2_edge_timeout_loops then some (false, levels) else rest

-- `PORTD = outD; PORTC = outC`, from the latches saved at the start of the stream.
unfoldable pub latch : ℕ → ℕ → ℕ → Pins → Pins
latch port_d port_c value p = record p {
  portd = bit_or port_d (bit_and value 0xf0);
  portc = bit_or port_c (bit_and value 0x0f);
}

unfoldable pub latch_byte : ℕ → ℕ → ℕ → Cart → Cart
latch_byte port_d port_c value = drive (page value) (latch port_d port_c value)

-- A byte waits for IO2 to fall and to rise: the exit where it waits in vain, the levels left.
unfoldable pub await_strobe : Bool → List Bool → Option (Option NiExit × List Bool)
await_strobe first levels =
    elim (wait_fall (if first then io2_first_byte_retries else 1) 0 levels) [
      | none ↦ none
      | some (fell, levels') ↦ elim fell [
        | false ↦ some (some (if first then first_byte_timeout else io2_fall_timeout), levels')
        | true ↦ elim (wait_rise 0 levels') [
          | none ↦ none
          | some (rose, levels'') ↦ some (if rose then none else some io2_rise_timeout, levels'')
        ]
      ]
    ]

-- The bytes of one buffer.
unfoldable pub send_block :
    ℕ → ℕ → Bool → List ℕ → List Bool → Cart → Option (Option NiExit × List Bool × Cart)
send_block port_d port_c first [] levels c = some (none, levels, c)
send_block port_d port_c first (b ∷ bs) levels c = elim (await_strobe first levels) [
  | none ↦ none
  | some (some exit, levels') ↦ some (some exit, levels', c)
  | some (none, levels') ↦ send_block port_d port_c false bs levels' (latch_byte port_d port_c b c)
]

-- What `DoubleBufferedStreaming` and the loop of `HandleStream` share: the buffers lie at the start
-- of the shared buffer. `refills_second` says that the loop waits for the second buffer to be used
-- up.
pub record Stream ⦃sd : SdFat⦄ : Type 0 where
  pub cart : Cart
  pub file : sd.File
  pub buffer : List ℕ
  pub index : ℕ
  pub used_buffer : ℕ
  pub current_byte : ℕ
  pub last_request_ms : ℕ
  pub refills_second : Bool

-- What happens during a stream: IO2 falls, or the loop looks at `usedBuffer` and the clock.
pub data StreamEvent : Type 0 where
  request poll : ℕ → StreamEvent

module _ ⦃sd : SdFat⦄ where
  -- `ReadAndPadBuffer`: the count, the buffer, and the file.
  unfoldable pub read_and_pad_buffer : ℕ → ℕ → sd.File → ℕ × List ℕ × sd.File
  read_and_pad_buffer len pad f =
      let (got, f') = sd.read len f in
      let bytes = bytes_of got in (length bytes, bytes ++ replicate (len - length bytes) pad, f')

  -- `ReadAndPadFinalAware`: whether the block is the last.
  unfoldable pub read_and_pad_final_aware : ℕ → ℕ → sd.File → Bool × List ℕ × sd.File
  read_and_pad_final_aware len pad f =
      let (count, block, f') = read_and_pad_buffer len pad f in
      (ltb count len || (sd.available f' == 0), block, f')

  -- The loop of `HandleNonInterruptedStream` from a block that is read on: the exit, the file and
  -- the state.
  unfoldable pub ni_loop :
      ℕ
      → ℕ
      → ℕ
      → ℕ
      → Bool
      → Bool × List ℕ × sd.File
      → List Bool
      → Api
      → Option (NiExit × sd.File × Api)
  ni_loop zero port_d port_c len first block levels s = none
  ni_loop (suc fuel) port_d port_c len first (last, bytes, f) levels s =
      let filled = put_at 0 bytes s.shared_buf in
      elim (send_block port_d port_c first bytes levels s.cart) [
        | none ↦ none
        | some (some exit, levels', c) ↦ some (exit, f, record s { cart = c; shared_buf = filled })
        | some (none, levels', c) ↦
            let sent = record s { cart = c; shared_buf = filled } in
            elim last [
              | true ↦ some (eof, f, sent)
              | false ↦
                  ni_loop fuel port_d port_c len false (read_and_pad_final_aware len 0x00 f) levels'
                    sent
            ]
      ]

  -- The stream from an open file, with blocks of `len` bytes; a block that is not the last takes a
  -- byte of the file at least.
  unfoldable pub ni_stream : ℕ → sd.File → List Bool → Api → Option (NiExit × sd.File × Api)
  ni_stream len f levels s =
      let block = read_and_pad_final_aware len 0x00 f in
      let ready =
        handle_response (code successful) 0
          (with_cart (λ c. c ▷ set_page 0 ▷ set_page 0 ▷ soft_end_listening) s) in
      ni_loop (suc (length (sd.rest f))) (bit_and ready.cart.pins.portd 0x0f)
        (bit_and ready.cart.pins.portc 0xf0) len true block levels ready

  -- `HandleNonInterruptedStream` behind its arguments.
  unfoldable pub non_interrupted_stream : List Bool → Api → Option Api
  non_interrupted_stream levels s =
      let count = argument 0 s in
      if not s.args_ok
      then some s
      else if (count == 0) || ltb 50 count
      then some (handle_response (code invalid_argument) 0 s)
      else (elim s.working_file [
        | none ↦ some (handle_response (code file_is_not_opened) 0 s)
        | some f ↦ elim (ni_stream (count * 8) f levels s) [
          | none ↦ none
          | some (exit, f', t) ↦ some (record t {
            cart = t.cart ▷ disable_cartridge ▷ start_listening;
            working_file = some f';
          })
        ]
      ])

  unfoldable pub handle_non_interrupted_stream :
      List Bool → List Wait → Api → Option (Api × List Wait)
  handle_non_interrupted_stream levels ws s = elim (get_arguments_static 1 ws s) [
    | none ↦ none
    | some (s', ws') ↦ elim (non_interrupted_stream levels s') [
      | none ↦ none
      | some t ↦ some (t, ws')
    ]
  ]

  -- `DoubleBufferedStreaming`, with `millis()`.
  unfoldable pub double_buffered_streaming : ℕ → Stream → Stream
  double_buffered_streaming now st =
      let from = if st.used_buffer == 0 then st.index else double_buffer_size + st.index in
      let shown = record st {
        cart = set_page st.current_byte st.cart;
        current_byte = get_or st.buffer from 0;
        last_request_ms = now;
      } in
      if st.index + 1 == double_buffer_size
      then record shown { index = 0; used_buffer = 1 - st.used_buffer }
      else record shown { index = st.index + 1 }

  -- The second buffer, or the first, anew from the file.
  unfoldable pub refill : ℕ → Stream → Stream
  refill pad st =
      let (_, block, f) = read_and_pad_buffer double_buffer_size pad st.file in
      record st {
        file = f;
        buffer = put_at (if st.refills_second then double_buffer_size else 0) block st.buffer;
        refills_second = not st.refills_second;
      }

  -- The loop of `HandleStream`. A refill is one step: the requests that come during it use the
  -- other buffer. `none` means that the stream goes on when the events end.
  unfoldable pub run_stream : ℕ → List StreamEvent → Stream → Option Stream
  run_stream pad [] st = none
  run_stream pad (request now ∷ es) st = run_stream pad es (double_buffered_streaming now st)
  run_stream pad (poll now ∷ es) st =
      let in_use = st.used_buffer == (if st.refills_second then 1 else 0) in
      elim in_use [
        | false ↦ run_stream pad es (refill pad st)
        | true ↦ elim (ltb stream_timeout_ms (sub32 now st.last_request_ms)) [
          | true ↦ some st
          | false ↦ run_stream pad es st
        ]
      ]

  -- The start of `HandleStream` with an open file: both buffers are read, and the first byte is
  -- ready.
  unfoldable pub start_stream : ℕ → ℕ → sd.File → Api → Stream
  start_stream pad now f s =
      let (_, first, f1) = read_and_pad_buffer double_buffer_size pad f in
      let (_, second, f2) = read_and_pad_buffer double_buffer_size pad f1 in
      let buffer = put_at double_buffer_size second (put_at 0 first s.shared_buf) in
      record {
        cart =
            (handle_response (code successful) 0 s).cart
            ▷ enable_cartridge
            ▷ attach Listener.double_buffered;
        file = f2;
        buffer = buffer;
        index = 1;
        used_buffer = 0;
        current_byte = get_or buffer 0 0;
        last_request_ms = now;
        refills_second = false;
      }

  -- `HandleStream` behind its arguments; `now` is `millis()` at the start.
  unfoldable pub stream_file : ℕ → List StreamEvent → Api → Option Api
  stream_file now events s =
      let pad = argument 2 s in
      elim s.working_file [
        | none ↦ some (handle_response (code file_is_not_opened) 0 s)
        | some f ↦ elim (run_stream pad events (start_stream pad now f s)) [
          | none ↦ none
          | some st ↦ some (record s {
            cart = st.cart ▷ disable_cartridge ▷ start_listening;
            working_file = some st.file;
            shared_buf = st.buffer;
          })
        ]
      ]

  unfoldable pub handle_stream : ℕ → List StreamEvent → List Wait → Api → Option (Api × List Wait)
  handle_stream now events ws s = elim (get_arguments_static 3 ws s) [
    | none ↦ none
    | some (s', ws') ↦ elim (stream_file now events s') [ none ↦ none | some t ↦ some (t, ws') ]
  ]
