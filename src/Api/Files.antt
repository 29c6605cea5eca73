-- ===== src/Api/Files.antt =====
-- The commands on the working file and on names, of Arduino/EasySD/CartApi.cpp.
use easy_sd_gemini.Prelude.{
  ℕ, zero, suc, ◌+◌, ◌-◌, ◌*◌, ◌%◌, ◌/◌, ◌^◌, min, Bool, true, false, not, List, [], ◌∷◌, ◌++◌,
  Option, none, some, ltb, ◌==◌, if◌then◌else◌, ◌▷◌, length, replicate, take, drop,
}
use easy_sd_gemini.SdFat.{SdFat}
use easy_sd_gemini.Cart.{
  Cart, delay_microseconds, reset_index, transmit_byte_fast, transmit_byte_fast_std,
}
use easy_sd_gemini.Cart.Listen.{soft_start_listening, soft_end_listening}
use easy_sd_gemini.Cart.Delivery.{transmit_all}
use easy_sd_gemini.Dir.Navigate.{has_slash}
use easy_sd_gemini.Api.{
  Api, Wait, file_is_not_opened, file_write_has_failed, write_not_complete, cant_seek, successful,
  code, argument, with_cart, get_arguments_static, handle_response,
}

abbrev pub buffer_size : ℕ
buffer_size = 16

abbrev pub write_buffer_size : ℕ
write_buffer_size = 32

-- `strcmp(a, b) == 0`
unfoldable pub same_string : List ℕ → List ℕ → Bool
same_string [] [] = true
same_string [] (y ∷ ys) = false
same_string (x ∷ xs) [] = false
same_string (x ∷ xs) (y ∷ ys) = let rest = same_string xs ys in if x == y then rest else false

-- What follows the last slash.
unfoldable pub base_name : List ℕ → List ℕ
base_name [] = []
base_name (c ∷ cs) =
    let rest = base_name cs in if has_slash cs then rest else if c == b'/' then cs else c ∷ cs

-- The digits of `WriteUint16` from the divisor 10 ^ n down.
unfoldable pub digits_from : ℕ → Bool → ℕ → List ℕ
digits_from zero started value = (48 + value) ∷ []
digits_from (suc n) started value =
    let digit = value / 10 ^ suc n in
    let shown = (48 + digit) ∷ digits_from n true (value % 10 ^ suc n) in
    let skipped = digits_from n started (value % 10 ^ suc n) in
    if digit == 0 then (if started then shown else skipped) else shown

unfoldable pub write_uint16 : ℕ → List ℕ
write_uint16 value = digits_from 4 false value

-- A page of 256 bytes: `ResetIndex`, the bytes, and the pause of 20 µs.
unfoldable pub send_page : List ℕ → Cart → Cart
send_page bytes c = c ▷ reset_index ▷ transmit_all transmit_byte_fast bytes ▷ delay_microseconds 20

-- The two labels of the memory status, `kMemStatusPrefix` and the one behind the number.
abbrev pub sram_label : List ℕ
sram_label = 32 ∷ 32 ∷ 32 ∷ 77 ∷ 67 ∷ 85 ∷ 32 ∷ 83 ∷ 82 ∷ 65 ∷ 77 ∷ 58 ∷ []

abbrev pub stack_label : List ℕ
stack_label = 66 ∷ 32 ∷ 67 ∷ 54 ∷ 52 ∷ 32 ∷ 83 ∷ 84 ∷ 75 ∷ 58 ∷ []

-- `seekPosition` out of the bytes, the lowest first.
unfoldable pub little_endian : List ℕ → ℕ
little_endian [] = 0
little_endian (b ∷ bs) = b + 256 * little_endian bs

-- The four bytes of a size of 32 bits, the lowest first.
unfoldable pub size_bytes : ℕ → List ℕ
size_bytes n = n % 256 ∷ n / 256 % 256 ∷ n / 65536 % 256 ∷ n / 16777216 % 256 ∷ []

-- The page of `HandleGetInfoForFile`.
unfoldable pub info_page : ℕ → List ℕ
info_page size = replicate 28 0 ++ (size_bytes size ++ replicate 224 0)

unfoldable pub padded_to : ℕ → List ℕ → List ℕ
padded_to n bytes = bytes ++ replicate (n - length bytes) 0

module _ ⦃sd : SdFat⦄ where
  -- A handler's body behind the arguments.
  abbrev pub behind : Option (Api × List Wait) → (Api → Api) → Option (Api × List Wait)
  behind got body = elim got [ none ↦ none | some (s, ws) ↦ some (body s, ws) ]

  -- The loop of `HandleReadFile`: what is left to send, the file, the interface, and whether a
  -- read failed.
  unfoldable pub read_loop : ℕ → ℕ → sd.File → Cart → ℕ × sd.File × Cart × Bool
  read_loop zero left f c = (left, f, c, false)
  read_loop (suc fuel) left f c =
      let (got, f') = sd.read (min left buffer_size) f in
      if left == 0
      then (left, f, c, false)
      else if sd.available f == 0
      then (left, f, c, false)
      else (elim got [
        | none ↦ (left, f', c, true)
        | some [] ↦ (left, f', c, true)
        | some (b ∷ bs) ↦
            read_loop fuel (left - length (b ∷ bs)) f'
              (c ▷ transmit_all transmit_byte_fast_std (b ∷ bs) ▷ delay_microseconds 100)
      ])

  -- The transfer of `HandleReadFile` from an open file; each round of the loop sends a byte.
  unfoldable pub transfer_file : ℕ → sd.File → Cart → sd.File × Cart × Bool
  transfer_file total f c =
      let (left, f', c', stalled) = read_loop total total f c in
      (f', transmit_all transmit_byte_fast (replicate left 0) c', stalled)

  unfoldable pub read_file : Api → Api
  read_file s =
      let total = argument 0 s * 256 in
      let quiet = with_cart (λ c. c ▷ reset_index ▷ soft_end_listening) s in
      elim s.working_file [
        | none ↦ with_cart soft_start_listening (handle_response (code file_is_not_opened) 0 quiet)
        | some f ↦
            let ready = handle_response (code successful) 1 quiet in
            let (f', c, stalled) = transfer_file total f (delay_microseconds 1000 ready.cart) in
            record ready {
              cart = soft_start_listening c;
              working_file = if stalled then none else some f';
            }
      ]

  unfoldable pub handle_read_file : List Wait → Api → Option (Api × List Wait)
  handle_read_file ws s = behind (get_arguments_static 1 ws s) read_file

  unfoldable pub close_file : Api → Api
  close_file s = elim s.working_file [
    | none ↦ handle_response (code file_is_not_opened) 1 s
    | some f ↦ handle_response (code successful) 1 (record s { working_file = none })
  ]

  unfoldable pub handle_close_file : List Wait → Api → Option (Api × List Wait)
  handle_close_file ws s = behind (get_arguments_static 0 ws s) close_file

  unfoldable pub write_file : Api → Api
  write_file s = elim s.working_file [
    | none ↦ handle_response (code file_is_not_opened) 0 s
    | some f ↦
        let (written, f') = sd.write (take write_buffer_size s.shared_buf) f in
        let (synced, f'') = sd.sync f' in
        if (if written == 0 then true else sd.write_error f')
        then handle_response (code file_write_has_failed) 0
            (record s { working_file = some (sd.clear_write_error f') })
        else if ltb written write_buffer_size
        then handle_response (code write_not_complete) 0 (record s { working_file = some f' })
        else if not synced
        then handle_response (code file_write_has_failed) 0 (record s { working_file = some f'' })
        else handle_response (code successful) 0 (record s { working_file = some f'' })
  ]

  unfoldable pub handle_write_file : List Wait → Api → Option (Api × List Wait)
  handle_write_file ws s = behind (get_arguments_static 32 ws s) write_file

  -- The seek by its direction; an unknown direction fails.
  unfoldable pub seek : ℕ → ℕ → sd.File → Bool × sd.File
  seek direction position f =
      if direction == 0
      then sd.seek_set position f
      else if direction == 1
      then sd.seek_cur position f
      else if direction == 2
      then sd.seek_end position f
      else (false, f)

  -- `HandleSeekFile` and `HandleLongSeekFile` behind their arguments, which differ in the width of
  -- the position and in the pause.
  unfoldable pub seek_file : ℕ → ℕ → Api → Api
  seek_file width wait s = elim s.working_file [
    | none ↦ handle_response (code file_is_not_opened) wait s
    | some f ↦
        let (ok, f') = seek (argument 0 s) (little_endian (take width (tail s.shared_buf))) f in
        handle_response (code (if ok then successful else cant_seek)) wait
          (record s { working_file = some f' })
  ]
    where
      tail : List ℕ → List ℕ
      tail [] = []
      tail (_ ∷ bytes) = bytes

  unfoldable pub handle_seek_file : List Wait → Api → Option (Api × List Wait)
  handle_seek_file ws s = behind (get_arguments_static 3 ws s) (seek_file 2 1)

  unfoldable pub handle_long_seek_file : List Wait → Api → Option (Api × List Wait)
  handle_long_seek_file ws s = behind (get_arguments_static 5 ws s) (seek_file 4 0)

  unfoldable pub get_info_for_file : Api → Api
  get_info_for_file s = elim s.working_file [
    | none ↦ handle_response (code file_is_not_opened) 0 s
    | some f ↦
        with_cart (send_page (info_page (sd.file_size f))) (handle_response (code successful) 1 s)
  ]

  unfoldable pub handle_get_info_for_file : List Wait → Api → Option (Api × List Wait)
  handle_get_info_for_file ws s = behind (get_arguments_static 0 ws s) get_info_for_file

  -- `HandleGetPath`: 64 bytes of the array `currentPath`, which behind its NUL has `stale`.
  unfoldable pub get_path : List ℕ → Api → Api
  get_path stale s =
      with_cart (send_page (padded_to 256 (take 64 (s.dir.current_path ++ (0 ∷ stale)))))
        (handle_response (code successful) 1 s)

  unfoldable pub handle_get_path : List ℕ → List Wait → Api → Option (Api × List Wait)
  handle_get_path stale ws s = behind (get_arguments_static 0 ws s) (get_path stale)

  -- `HandleGetMemoryStatus`; `free` is what `FreeAvrSram` returns.
  unfoldable pub get_memory_status : ℕ → Api → Api
  get_memory_status free s =
      let page = padded_to 256 (sram_label ++ (write_uint16 free ++ stack_label)) in
      let built = record s { shared_buf = page ++ drop 256 s.shared_buf } in
      with_cart (send_page page) (handle_response (code successful) 1 built)

  unfoldable pub handle_get_memory_status : ℕ → List Wait → Api → Option (Api × List Wait)
  handle_get_memory_status free ws s = behind (get_arguments_static 0 ws s) (get_memory_status free)
