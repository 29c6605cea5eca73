-- ===== src/Api/Koala.antt =====
-- The launch of a Koala picture with its viewer, of Arduino/EasySD/CartApi.cpp: two files in one
-- transfer, the picture at 0x2000 and the plugin at 0xC000.
pub mod Image
use easy_sd_gemini.Prelude.{
  ℕ, ◌+◌, ◌-◌, ◌*◌, ◌%◌, ◌/◌, ◌^◌, Bool, true, false, not, ◌&&◌, ◌||◌, List, [], ◌∷◌, ◌++◌, Option,
  none, some, ltb, leb, ◌==◌, if◌then◌else◌, ◌▷◌, length, take, drop,
}
use easy_sd_gemini.SdFat.{SdFat, rdonly}
use easy_sd_gemini.Cart.{
  Cart, delay, delay_microseconds, reset_index, reset_c64, enable_cartridge, disable_cartridge,
}
use easy_sd_gemini.Cart.Listen.{end_listening}
use easy_sd_gemini.Dir.Navigate.{is_empty, navigate_to_path}
use easy_sd_gemini.Api.{
  Api, Response, file_not_found, cant_seek, invalid_content, successful, code, handle_response,
}
use easy_sd_gemini.Api.Headers.{
  type_standard_prg, pad_bytes, transfer_pages, send_header_to_address, send_loader_stub,
  transmit_memory_bytes, transmit_zero_bytes,
}
use easy_sd_gemini.Api.Launch.{bytes_of, read_byte, transmit_file_bytes}

abbrev pub koa_load_addr : ℕ
koa_load_addr = 0x2000

abbrev pub koa_payload_size : ℕ
koa_payload_size = 10001

abbrev pub koa_plugin_addr : ℕ
koa_plugin_addr = 0xc000

abbrev pub koa_gap_size : ℕ
koa_gap_size = koa_plugin_addr - koa_load_addr - koa_payload_size

abbrev pub koa_plugin_buffer_offset : ℕ
koa_plugin_buffer_offset = 194

abbrev pub koa_plugin_payload_max : ℕ
koa_plugin_payload_max = 206

-- "/PLUGINS/KOAPLUGIN.PRG"
abbrev pub koa_plugin_path : List ℕ
koa_plugin_path =
    b'/' ∷ b'P' ∷ b'L' ∷ b'U' ∷ b'G' ∷ b'I' ∷ b'N' ∷ b'S' ∷ b'/' ∷ b'K' ∷ b'O' ∷ b'A' ∷ b'P' ∷ b'L'
    ∷ b'U' ∷ b'G' ∷ b'I' ∷ b'N' ∷ b'.' ∷ b'P' ∷ b'R' ∷ b'G' ∷ []

-- `transferLength` of a plugin of `n` bytes.
unfoldable pub koa_transfer_length : ℕ → ℕ
koa_transfer_length n = koa_plugin_addr - koa_load_addr + n

-- Bytes that a handler writes into the buffer at an offset.
unfoldable pub put_at : ℕ → List ℕ → List ℕ → List ℕ
put_at offset bytes buffer = take offset buffer ++ (bytes ++ drop (offset + length bytes) buffer)

module _ ⦃sd : SdFat⦄ where
  -- The test and the seek of the picture: the file at its first byte, or the error.
  unfoldable pub open_media : sd.File → Response × Option sd.File
  open_media f =
      let size = sd.file_size f in
      let (moved, f') = sd.seek_set 2 f in
      if size == 10003
      then (if moved then (successful, some f') else (cant_seek, none))
      else if size == koa_payload_size
      then (successful, some f)
      else (invalid_content, none)

  -- The tests of the plugin's file: its bytes behind the address, or the error, which leaves in the
  -- buffer what was read before it.
  unfoldable pub load_plugin : sd.File → Bool × List ℕ
  load_plugin f =
      let size = sd.file_size f in
      let (low, f1) = read_byte f in
      let (high, f2) = read_byte f1 in
      let (got, f3) = sd.read (size - 2) f2 in
      if leb size 2
      then (false, [])
      else if ltb koa_plugin_payload_max (size - 2)
      then (false, [])
      else if not ((low == 0x00) && (high == 0xc0))
      then (false, [])
      else (length (bytes_of got) == size - 2, bytes_of got)

  -- `RestorePathIfProvided`; `nullptr` is the empty path.
  unfoldable pub restore_path_if_provided : List ℕ → Api → Api
  restore_path_if_provided path s =
      if is_empty path then s else record s { dir = (navigate_to_path path s.dir).1 }

  -- An error: the picture is closed, the path restored, the response sent.
  unfoldable pub koa_fail : List ℕ → Response → Api → Api
  koa_fail return_path response s =
      handle_response (code response) 0
        (restore_path_if_provided return_path (record s { working_file = none }))

  -- The transfer.
  unfoldable pub send_koala : List ℕ → sd.File → List ℕ → Cart → Bool × Cart
  send_koala stub media plugin c =
      let transfer_length = koa_transfer_length (length plugin) in
      let started =
        c
        ▷ reset_index
        ▷ enable_cartridge
        ▷ reset_c64
        ▷ delay 200
        ▷ send_header_to_address 0x00 0xc0 0x00 0x20 (transfer_pages transfer_length)
            transfer_length type_standard_prg
        ▷ send_loader_stub stub in
      let (read_ok, f', sent) = transmit_file_bytes koa_payload_size media started in
      (
        read_ok,
        sent
            ▷ transmit_zero_bytes koa_gap_size
            ▷ transmit_memory_bytes plugin
            ▷ transmit_zero_bytes (pad_bytes transfer_length)
            ▷ delay_microseconds 30
            ▷ disable_cartridge,
      )

  -- The end of the handler with both files good.
  unfoldable pub launch_koala : List ℕ → sd.File → List ℕ → Api → Api
  launch_koala stub media plugin s =
      let answered = handle_response (code successful) 0 s in
      record answered {
        cart = (send_koala stub media plugin (end_listening answered.cart)).1;
        working_file = none;
      }

  -- The plugin's part of the handler, with the picture at its first byte.
  unfoldable pub koala_with_plugin : List ℕ → List ℕ → sd.File → Api → Api
  koala_with_plugin stub return_path media s =
      let (file, card) = sd.open_file koa_plugin_path rdonly s.dir.card in
      let looked = record s { dir = record (s.dir) { card = card } } in
      elim file [
        | none ↦ koa_fail return_path file_not_found looked
        | some f ↦
            let (ok, plugin) = load_plugin f in
            let read = record looked {
              shared_buf = put_at koa_plugin_buffer_offset plugin looked.shared_buf;
            } in
            if ok
            then launch_koala stub media plugin read
            else koa_fail return_path invalid_content read
      ]

  -- `HandleKoalaInvokeFromOpenFile`, which its callers call with an open file.
  unfoldable pub handle_koala_invoke_from_open_file : List ℕ → List ℕ → Api → Api
  handle_koala_invoke_from_open_file stub return_path s = elim s.working_file [
    | none ↦ koa_fail return_path invalid_content s
    | some f ↦
        let (response, media) = open_media f in
        elim media [
          | none ↦ koa_fail return_path response s
          | some m ↦ koala_with_plugin stub return_path m s
        ]
  ]

  -- `HandleKoalaInvoke`.
  unfoldable pub handle_koala_invoke : List ℕ → List ℕ → List ℕ → Api → Api
  handle_koala_invoke stub media_path return_path s =
      let (file, card) = sd.open_file media_path rdonly s.dir.card in
      let opened = record s { working_file = file; dir = record (s.dir) { card = card } } in
      elim file [
        | none ↦
            handle_response (code file_not_found) 0 (restore_path_if_provided return_path opened)
        | some f ↦ handle_koala_invoke_from_open_file stub return_path opened
      ]
