-- ===== src/Api.antt =====
-- `CartApi` of Arduino/EasySD/CartApi.cpp and CartApi.h: its state, the arguments of a command and
-- the responses. Handlers mask the interrupts while they transmit; edges come only where a handler
-- waits for a byte.
pub mod Files
pub mod Named
pub mod Chunks
pub mod Listing
pub mod PageCache
pub mod Marks
pub mod Transfer
pub mod Decimal
pub mod Arguments
pub mod Rows
pub mod Frames
pub mod ListingFrames
pub mod Headers
pub mod Launch
pub mod EndAddress
pub mod Koala
pub mod Invoke
pub mod Streams
pub mod Dispatch
pub mod Place
use easy_sd_gemini.Prelude.{
  ℕ, zero, suc, ◌+◌, ◌-◌, ◌*◌, ◌%◌, ◌/◌, ◌^◌, Bool, true, false, not, List, [], ◌∷◌, ◌++◌, Option,
  none, some, ltb, ◌==◌, if◌then◌else◌, ◌▷◌, get_or, set, drop, length,
}
use easy_sd_gemini.SdFat.{SdFat}
use easy_sd_gemini.Receiver.{sub32}
use easy_sd_gemini.Receiver.Pulses.{run_edges}
use easy_sd_gemini.Cart.{Cart, set_page, read, delay}
use easy_sd_gemini.Cart.Handler.{with_rx}
use easy_sd_gemini.Dir.{DirState}

-- The response codes, and their bytes.
pub data Response : Type 0 where
  file_not_found file_cannot_be_opened file_is_not_opened file_write_has_failed : Response
  write_not_complete file_deletion_failed cant_seek invalid_argument dir_not_found : Response
  dir_deletion_failed dir_already_exists dir_creation_failed invalid_content successful : Response

abbrev pub code : Response → ℕ
code file_not_found = 0x02
code file_cannot_be_opened = 0x03
code file_is_not_opened = 0x04
code file_write_has_failed = 0x05
code write_not_complete = 0x06
code file_deletion_failed = 0x07
code cant_seek = 0x08
code invalid_argument = 0x09
code dir_not_found = 0x0b
code dir_deletion_failed = 0x0c
code dir_already_exists = 0x0d
code dir_creation_failed = 0x0e
code invalid_content = 0x11
code successful = 0x80

-- A page boundary of the listing: `s_wm_name` and `s_wm_isDir`, and the like.
pub record Mark : Type 0 where
  pub name : List ℕ
  pub is_dir : Bool

abbrev pub first_mark : Mark
first_mark = record { name = []; is_dir = true }

-- The members of `CartApi` and the file-scope variables, with the objects that they refer to.
-- `shared_buf` is the union `sharedBuf`, with the arguments at its start.
pub record Api ⦃sd : SdFat⦄ : Type 0 where
  pub cart : Cart
  pub dir : DirState
  pub working_file : Option sd.File
  pub args_ok : Bool
  pub shared_buf : List ℕ
  pub wm : Mark
  pub wm_prev : Mark
  pub wm_pp : Mark
  pub sort_cached_page : ℕ
  pub page_entry_count : ℕ
  pub page_entry_page : ℕ
  pub last_session_activity_ms : ℕ
  pub session_saw_command : Bool

-- One round of the loop of `AwaitByte`: the edges before `Read`, those before `millis()`, and what
-- it returns; and a call, with the time at its start.
pub record Round : Type 0 where
  pub before_read : List ℕ
  pub before_clock : List ℕ
  pub clock : ℕ

pub record Wait : Type 0 where
  pub start_ms : ℕ
  pub rounds : List Round

abbrev pub args_timeout_ms : ℕ
args_timeout_ms = 120

-- `AwaitByte`: the byte or -1. The outer `none` means that it still waits when the rounds end.
unfoldable pub await_byte : ℕ → ℕ → List Round → Cart → Option (Option ℕ × Cart)
await_byte timeout start [] c = none
await_byte timeout start (r ∷ rs) c =
    let (value, c') = read (with_rx (run_edges r.before_read) c) in
    let waited = with_rx (run_edges r.before_clock) c' in
    let again = await_byte timeout start rs waited in
    elim value [
      | some v ↦ some (some v, c')
      | none ↦ if ltb (sub32 r.clock start) timeout then again else some (none, waited)
    ]

-- `for (; i < n; i++) Arguments[i] = 0`, with `count` places left.
unfoldable pub zero_fill : ℕ → ℕ → List ℕ → List ℕ
zero_fill zero i buffer = buffer
zero_fill (suc count) i buffer = zero_fill count (i + 1) (set buffer i 0)

module _ ⦃sd : SdFat⦄ where
  abbrev pub argument : ℕ → Api → ℕ
  argument i s = get_or s.shared_buf i 0

  unfoldable pub with_cart : (Cart → Cart) → Api → Api
  with_cart f s = record s { cart = f s.cart }

  unfoldable pub store_argument : ℕ → ℕ → Api → Api
  store_argument i v s = record s { shared_buf = set s.shared_buf i v }

  -- The loop of `GetArgumentsStatic` with `count` arguments left, the next one at `i`. Each call of
  -- `AwaitByte` takes a `Wait`.
  unfoldable pub static_from : ℕ → ℕ → List Wait → Api → Option (Api × List Wait)
  static_from zero i ws s = some (s, ws)
  static_from (suc count) i [] s = none
  static_from (suc count) i (w ∷ ws) s =
      elim (await_byte args_timeout_ms w.start_ms w.rounds s.cart) [
        | none ↦ none
        | some (some v, c) ↦
            static_from count (i + 1) ws (store_argument i v (record s { cart = c }))
        | some (none, c) ↦ some (
          record s { cart = c; args_ok = false; shared_buf = zero_fill (suc count) i s.shared_buf },
          ws,
        )
      ]

  unfoldable pub get_arguments_static : ℕ → List Wait → Api → Option (Api × List Wait)
  get_arguments_static n ws s = static_from n 0 ws (record s { args_ok = true })

  -- The loop of `GetArgumentsDynamic`: a timeout leaves the other places as they are.
  unfoldable pub dynamic_from : ℕ → ℕ → List Wait → Api → Option (Api × List Wait)
  dynamic_from zero i ws s = some (s, ws)
  dynamic_from (suc count) i [] s = none
  dynamic_from (suc count) i (w ∷ ws) s =
      elim (await_byte args_timeout_ms w.start_ms w.rounds s.cart) [
        | none ↦ none
        | some (some v, c) ↦
            dynamic_from count (i + 1) ws (store_argument i v (record s { cart = c }))
        | some (none, c) ↦ some (record s { cart = c; args_ok = false }, ws)
      ]

  -- The length, at most 127, and the bytes that it announces.
  unfoldable pub announced : ℕ → List Wait → Api → Option (Api × List Wait)
  announced n [] s = none
  announced n (w ∷ ws) s = elim (await_byte args_timeout_ms w.start_ms w.rounds s.cart) [
    | none ↦ none
    | some (none, c) ↦ some (record s { cart = c; args_ok = false }, ws)
    | some (some v, c) ↦
        let got = record s { cart = c } in
        let bytes = dynamic_from v (n + 1) ws (store_argument n v got) in
        if ltb 127 v then some (record got { args_ok = false }, ws) else bytes
  ]

  unfoldable pub get_arguments_dynamic : ℕ → List Wait → Api → Option (Api × List Wait)
  get_arguments_dynamic n ws s = elim (get_arguments_static n ws s) [
    | none ↦ none
    | some (s', ws') ↦ if s'.args_ok then announced n ws' s' else some (s', ws')
  ]

  -- `HandleResponse`.
  unfoldable pub handle_response : ℕ → ℕ → Api → Api
  handle_response response wait s =
      let answered = s.cart ▷ set_page 0 ▷ set_page 0 ▷ set_page response in
      record s { cart = if wait == 0 then answered else delay wait answered }

  unfoldable pub invalidate_page_entry_cache : Api → Api
  invalidate_page_entry_cache s = record s { page_entry_count = 0; page_entry_page = 0xff }

-- The C string at an offset of the buffer.
unfoldable pub c_string : List ℕ → List ℕ
c_string [] = []
c_string (c ∷ cs) = if c == 0 then [] else c ∷ c_string cs

module _ ⦃sd : SdFat⦄ where
  -- `fileName = &Arguments[at]`, ended by a NUL at its length, or at its last byte.
  unfoldable pub terminate : ℕ → ℕ → Api → Api
  terminate at len s = store_argument (at + (if ltb len 128 then len else 127)) 0 s

  unfoldable pub name_at : ℕ → Api → List ℕ
  name_at at s = c_string (drop at s.shared_buf)
