-- ===== src/Api/Headers.antt =====
-- What goes before a launched program, of Arduino/EasySD/CartApi.cpp: the header of ten bytes, and
-- the page of the loader stub. A `long` is its two's complement of 32 bits.
use easy_sd_gemini.Prelude.{
  ℕ, ◌+◌, ◌-◌, ◌*◌, ◌%◌, ◌/◌, ◌^◌, List, [], ◌∷◌, ◌++◌, ltb, leb, ◌==◌, if◌then◌else◌, ◌▷◌, length,
  replicate,
}
use easy_sd_gemini.Cart.{
  Cart, transmit_byte_slow, transmit_byte_fast, transmit_byte_fast_std, reset_index,
}
use easy_sd_gemini.Cart.Delivery.{transmit_all}

abbrev pub type_menu : ℕ
type_menu = 0

abbrev pub type_standard_prg : ℕ
type_standard_prg = 1

abbrev pub type_cartridge : ℕ
type_cartridge = 2

abbrev pub transfer_mode : ℕ
transfer_mode = 0

-- `n / 256` and `n % 256` of a `long`, which truncate towards zero.
unfoldable pub quotient_256 : ℕ → ℕ
quotient_256 n = if leb (2 ^ 31) n then (2 ^ 32 - (2 ^ 32 - n) / 256) % 2 ^ 32 else n / 256

unfoldable pub remainder_256 : ℕ → ℕ
remainder_256 n = if leb (2 ^ 31) n then (2 ^ 32 - (2 ^ 32 - n) % 256) % 2 ^ 32 else n % 256

-- `padBytes` and `transferPages` of a transfer.
unfoldable pub pad_bytes : ℕ → ℕ
pad_bytes n = if remainder_256 n == 0 then 0 else (256 + (2 ^ 32 - remainder_256 n)) % 2 ^ 32

unfoldable pub transfer_pages : ℕ → ℕ
transfer_pages n = (quotient_256 n + (if ltb 0 (pad_bytes n) then 1 else 0)) % 256

-- An `int` of 16 bits as a `long`.
unfoldable pub widen : ℕ → ℕ
widen n = if leb (2 ^ 15) n then n + (2 ^ 32 - 2 ^ 16) else n

-- The end address of `SendHeader`: `startLow + startHigh*256` is an `int`, which wraps.
unfoldable pub end_address : ℕ → ℕ → ℕ → ℕ
end_address low high data_length = (widen ((low + high * 256) % 2 ^ 16) + data_length) % 2 ^ 32

unfoldable pub transmit_slow : List ℕ → Cart → Cart
transmit_slow = transmit_all transmit_byte_slow

-- The ten bytes of `SendHeader`.
unfoldable pub header : ℕ → ℕ → ℕ → ℕ → ℕ → List ℕ
header low high pages data_length type =
    let end_at = end_address low high data_length in
    low
    ∷ high
    ∷ pages
    ∷ low
    ∷ high
    ∷ (remainder_256 end_at % 256)
    ∷ (quotient_256 end_at % 256)
    ∷ type
    ∷ transfer_mode
    ∷ 0
    ∷ []

unfoldable pub send_header : ℕ → ℕ → ℕ → ℕ → ℕ → Cart → Cart
send_header low high pages data_length type = transmit_slow (header low high pages data_length type)

-- The ten bytes of `SendHeaderToAddress`, which launches at one address and loads at another.
unfoldable pub header_to_address : ℕ → ℕ → ℕ → ℕ → ℕ → ℕ → ℕ → List ℕ
header_to_address launch_low launch_high actual_low actual_high pages data_length type =
    let end_at = (actual_low + actual_high * 256 + data_length + 1) % 2 ^ 32 in
    launch_low
    ∷ launch_high
    ∷ pages
    ∷ actual_low
    ∷ actual_high
    ∷ (remainder_256 end_at % 256)
    ∷ (quotient_256 end_at % 256)
    ∷ type
    ∷ transfer_mode
    ∷ 0
    ∷ []

unfoldable pub send_header_to_address : ℕ → ℕ → ℕ → ℕ → ℕ → ℕ → ℕ → Cart → Cart
send_header_to_address launch_low launch_high actual_low actual_high pages data_length type =
    transmit_slow
      (header_to_address launch_low launch_high actual_low actual_high pages data_length type)

-- The page of the stub, with spaces behind it.
unfoldable pub stub_page : List ℕ → List ℕ
stub_page stub = stub ++ replicate (256 - length stub) 0x20

-- `SendLoaderStub`; `stub` is the generated `stubData`.
unfoldable pub send_loader_stub : List ℕ → Cart → Cart
send_loader_stub stub c = c ▷ transmit_all transmit_byte_fast_std (stub_page stub) ▷ reset_index

-- `TransmitMemoryBytes` and `TransmitZeroBytes`.
unfoldable pub transmit_memory_bytes : List ℕ → Cart → Cart
transmit_memory_bytes = transmit_all transmit_byte_fast

unfoldable pub transmit_zero_bytes : ℕ → Cart → Cart
transmit_zero_bytes n = transmit_all transmit_byte_fast (replicate n 0)
