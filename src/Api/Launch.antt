-- ===== src/Api/Launch.antt =====
-- The launch of an open file, of Arduino/EasySD/CartApi.cpp, and the transfer of the menu.
-- `stub` and `cartridge_data` are the generated arrays `stubData` and `cartridgeData`.
pub mod Bytes
pub mod Program
pub mod Whole
pub mod Menu
use easy_sd_gemini.Prelude.{
  ℕ, zero, suc, ◌+◌, ◌-◌, ◌*◌, ◌%◌, ◌/◌, ◌^◌, min, Bool, true, false, not, ◌&&◌, List, [], ◌∷◌,
  ◌++◌, Option, none, some, ltb, ◌==◌, if◌then◌else◌, ◌▷◌, length, get_or, drop, replicate,
}
use easy_sd_gemini.SdFat.{SdFat, rdonly}
use easy_sd_gemini.Receiver.{sub32, in_transmission}
use easy_sd_gemini.Receiver.Pulses.{run_edges}
use easy_sd_gemini.Cart.{
  Cart, delay, delay_microseconds, reset_index, reset_c64, enable_cartridge, disable_cartridge,
  transmit_byte_fast,
}
use easy_sd_gemini.Cart.Listen.{start_listening, end_listening}
use easy_sd_gemini.Cart.Handler.{Moment, with_rx, receive_handler}
use easy_sd_gemini.Cart.Delivery.{transmit_all}
use easy_sd_gemini.Names.{entry_type_crt, detect_entry_type_from_name}
use easy_sd_gemini.Dir.{prepare}
use easy_sd_gemini.Dir.Navigate.{is_empty, re_init}
use easy_sd_gemini.Api.{Api, with_cart}
use easy_sd_gemini.Api.Files.{buffer_size}
use easy_sd_gemini.Api.Headers.{
  type_menu, type_standard_prg, type_cartridge, pad_bytes, transfer_pages, send_header,
  send_loader_stub, transmit_memory_bytes, transmit_zero_bytes,
}

-- What a read leaves in the buffer; a negative count counts as 0.
abbrev pub bytes_of : Option (List ℕ) → List ℕ
bytes_of none = []
bytes_of (some bytes) = bytes

-- `(uint8_t)file.read()`: -1 is 255.
abbrev pub byte_of_read : Option (List ℕ) → ℕ
byte_of_read none = 255
byte_of_read (some []) = 255
byte_of_read (some (b ∷ _)) = b

-- "easysd.prg" and "EASYSD.PRG"
abbrev pub menu_names : List (List ℕ)
menu_names =
    (b'e' ∷ b'a' ∷ b's' ∷ b'y' ∷ b's' ∷ b'd' ∷ b'.' ∷ b'p' ∷ b'r' ∷ b'g' ∷ [])
    ∷ (b'E' ∷ b'A' ∷ b'S' ∷ b'Y' ∷ b'S' ∷ b'D' ∷ b'.' ∷ b'P' ∷ b'R' ∷ b'G' ∷ [])
    ∷ []

-- One round of the wait for a plugin: the edges before the clock is read, and the call of
-- `ReceiveHandler`.
pub record Beat : Type 0 where
  pub edges : List ℕ
  pub clock : ℕ
  pub moment : Moment

-- The wait for a plugin's handshake, at most 250 ms. `none` means that it waits when the list ends.
unfoldable pub await_session : ℕ → List Beat → Cart → Option Cart
await_session start [] c = none
await_session start (b ∷ bs) c =
    let waited = with_rx (run_edges b.edges) c in
    elim (ltb (sub32 b.clock start) 250) [
      | false ↦ some waited
      | true ↦ elim (receive_handler b.moment waited) [
        | none ↦ none
        | some c' ↦ elim (c'.rx.receive_state == in_transmission) [
          | true ↦ some c'
          | false ↦ await_session start bs c'
        ]
      ]
    ]

module _ ⦃sd : SdFat⦄ where
  -- A single byte of a file.
  unfoldable pub read_byte : sd.File → ℕ × sd.File
  read_byte f = let (got, f') = sd.read 1 f in (byte_of_read got, f')

  -- The loop of `TransmitFileBytes` with `count` bytes left and `read_ok` so far; each round sends a
  -- byte at least.
  unfoldable pub file_bytes_from : ℕ → ℕ → Bool → sd.File → Cart → Bool × sd.File × Cart
  file_bytes_from zero count read_ok f c = (read_ok, f, c)
  file_bytes_from (suc fuel) count read_ok f c =
      let want = min count buffer_size in
      let (got, f') = sd.read want f in
      let bytes = bytes_of got in
      let sent =
        c
        ▷ transmit_all transmit_byte_fast bytes
        ▷ transmit_all transmit_byte_fast (replicate (want - length bytes) 0) in
      let rest = file_bytes_from fuel (count - want) (read_ok && not (is_empty bytes)) f' sent in
      if count == 0 then (read_ok, f, c) else rest

  -- `TransmitFileBytes`.
  unfoldable pub transmit_file_bytes : ℕ → sd.File → Cart → Bool × sd.File × Cart
  transmit_file_bytes count f c = file_bytes_from count count true f c

  -- The load address and the length of a program, and the file behind the address. `contentLength`
  -- has 16 bits.
  unfoldable pub prg_start : sd.File → ℕ × ℕ × ℕ × sd.File
  prg_start f =
      let (low, f1) = read_byte f in
      let (high, f2) = read_byte f1 in
      (low, high, (sd.file_size f % 2 ^ 16 + 2 ^ 16 - 2) % 2 ^ 16, f2)

  -- The same of a cartridge image, whose address stands at 76, the high byte first, and whose bytes
  -- start at 80.
  unfoldable pub crt_start : sd.File → ℕ × ℕ × ℕ × sd.File
  crt_start f =
      let (_, f1) = sd.seek_set 76 f in
      let (high, f2) = read_byte f1 in
      let (low, f3) = read_byte f2 in
      let (_, f4) = sd.seek_set 80 f3 in
      (low, high, (sd.file_size f % 2 ^ 16 + 2 ^ 16 - 80) % 2 ^ 16, f4)

  -- The transfer of `LoadAndLaunchOpenedFile`: whether its reads were all right, and the interface.
  unfoldable pub send_program : List ℕ → ℕ → ℕ × ℕ × ℕ × sd.File → Cart → Bool × Cart
  send_program stub type (low, high, transfer_length, f) c =
      let started =
        c
        ▷ reset_index
        ▷ enable_cartridge
        ▷ reset_c64
        ▷ delay 200
        ▷ send_header low high (transfer_pages transfer_length) transfer_length type
        ▷ send_loader_stub stub in
      let (read_ok, f', sent) = transmit_file_bytes transfer_length f started in
      (
        read_ok,
        sent
            ▷ transmit_zero_bytes (pad_bytes transfer_length)
            ▷ delay_microseconds 30
            ▷ disable_cartridge,
      )

  -- `LoadAndLaunchOpenedFile` up to the wait for a plugin.
  unfoldable pub launch_opened : List ℕ → ℕ → Api → Api
  launch_opened stub entry_type s =
      let quiet = with_cart end_listening s in
      elim s.working_file [
        | none ↦ quiet
        | some f ↦
            let is_crt = entry_type == entry_type_crt in
            let (_, c) =
              send_program stub (if is_crt then type_cartridge else type_standard_prg)
                (if is_crt then crt_start f else prg_start f) quiet.cart in
            record quiet { cart = c; working_file = none }
      ]

  -- `LoadAndLaunchOpenedFile`. Where no file is open, it does not wait.
  unfoldable pub load_and_launch_opened_file : List ℕ → Bool → ℕ → List Beat → ℕ → Api → Option Api
  load_and_launch_opened_file stub expect_plugin_session start beats entry_type s =
      let launched = launch_opened stub entry_type s in
      elim s.working_file [
        | none ↦ some launched
        | some f ↦ elim expect_plugin_session [
          | false ↦ some launched
          | true ↦ elim (await_session start beats (start_listening launched.cart)) [
            | none ↦ none
            | some c ↦ some (record launched { cart = c })
          ]
        ]
      ]

  -- `LoadAndLaunchFile`.
  unfoldable pub load_and_launch_file : List ℕ → Bool → ℕ → List Beat → List ℕ → Api → Option Api
  load_and_launch_file stub expect_plugin_session start beats name s =
      let (file, card) = sd.open_file name rdonly s.dir.card in
      load_and_launch_opened_file stub expect_plugin_session start beats
        (detect_entry_type_from_name name)
        (record s { working_file = file; dir = record (s.dir) { card = card } })

  -- The loop of `OpenMenuFromSdRoot` over the names left.
  unfoldable pub open_menu_from : List (List ℕ) → sd.Card → Option sd.File × sd.Card
  open_menu_from [] card = (none, card)
  open_menu_from (name ∷ names) card =
      let (file, card') = sd.open_file name rdonly card in
      elim (sd.exists name card) [
        | false ↦ open_menu_from names card
        | true ↦ elim file [ none ↦ open_menu_from names card' | some f ↦ (some f, card') ]
      ]

  -- The bytes of the menu's file, one read for each.
  unfoldable pub menu_bytes_from : ℕ → sd.File → Cart → sd.File × Cart
  menu_bytes_from zero f c = (f, c)
  menu_bytes_from (suc n) f c =
      let (value, f') = read_byte f in menu_bytes_from n f' (transmit_byte_fast value c)

  -- The header and the stub of `TransferMenu`.
  unfoldable pub send_menu_start : List ℕ → ℕ → ℕ → ℕ → Cart → Cart
  send_menu_start stub low high transfer_length c =
      c
      ▷ send_header low high (transfer_pages transfer_length) transfer_length type_menu
      ▷ reset_index
      ▷ send_loader_stub stub

  -- The transfer of the menu from a file, or from the program memory.
  unfoldable pub send_menu : List ℕ → List ℕ → Option sd.File → Cart → Cart
  send_menu stub cartridge_data none c =
      let transfer_length = (length cartridge_data + 2 ^ 32 - 2) % 2 ^ 32 in
      c
      ▷ send_menu_start stub (get_or cartridge_data 0 0) (get_or cartridge_data 1 0) transfer_length
      ▷ transmit_memory_bytes (drop 2 cartridge_data)
      ▷ transmit_zero_bytes (pad_bytes transfer_length)
  send_menu stub cartridge_data (some f) c =
      let size = sd.file_size f % 2 ^ 32 in
      let transfer_length = (size + 2 ^ 32 - 2) % 2 ^ 32 in
      let (low, f1) = read_byte f in
      let (high, f2) = read_byte f1 in
      let (f3, sent) =
        menu_bytes_from (size - 2) f2 (send_menu_start stub low high transfer_length c) in
      transmit_zero_bytes (pad_bytes transfer_length) sent

  -- `TransferMenu`.
  unfoldable pub transfer_menu : List ℕ → List ℕ → Api → Api
  transfer_menu stub cartridge_data s =
      let d = prepare (re_init s.dir) in
      let (file, card) = open_menu_from menu_names d.card in
      let c =
        s.cart
        ▷ end_listening
        ▷ enable_cartridge
        ▷ reset_c64
        ▷ delay 300
        ▷ send_menu stub cartridge_data file
        ▷ delay_microseconds 30
        ▷ disable_cartridge
        ▷ start_listening in
      record s { cart = c; dir = record d { card = card }; working_file = none }

  -- `ResetNoCartridge`.
  unfoldable pub reset_no_cartridge : Api → Api
  reset_no_cartridge = with_cart (λ c. c ▷ disable_cartridge ▷ reset_c64)
