-- ===== src/Cart.antt =====
-- `CartInterface` of Arduino/EasySD/CartInterface.cpp: the receiver, the pins, and what the Commodore 64
-- sees of them as a list of signals, the newest first.
pub mod Listen
pub mod Handler
pub mod Delivery
pub mod Handshake
use easy_sd_gemini.Prelude.{
  ℕ, ◌+◌, ◌%◌, ◌^◌, Bool, true, false, Option, none, some, List, [], ◌∷◌, ◌++◌, ltb, ◌==◌,
  if◌then◌else◌, ◌▷◌, not, ◌&&◌,
}
use easy_sd_gemini.Receiver.{Receiver}
use easy_sd_gemini.ByteQueue
use easy_sd_gemini.Pins
use easy_sd_gemini.Pins.{Pins}

-- `page n`: `SetPage` put `n` on the page-select lines.
pub data Signal : Type 0 where
  page : ℕ → Signal
  nmi_low nmi_high reset_low reset_high exrom_low exrom_high : Signal
  wait_us wait_ms : ℕ → Signal

-- The interrupt handler that IO2 is attached to.
pub data Listener : Type 0 where
  detached receive double_buffered : Listener

pub record Cart : Type 0 where
  pub rx : Receiver
  pub pins : Pins
  pub listener : Listener
  pub transfer_index : ℕ
  pub identifier_state_change_ms : ℕ
  pub signals : List Signal

-- A change of the pins that the Commodore 64 sees as one signal.
unfoldable pub drive : Signal → (Pins → Pins) → Cart → Cart
drive s f c = record c { pins = f c.pins; signals = s ∷ c.signals }

unfoldable pub delay_microseconds : ℕ → Cart → Cart
delay_microseconds n c = record c { signals = wait_us n ∷ c.signals }

unfoldable pub delay : ℕ → Cart → Cart
delay n c = record c { signals = wait_ms n ∷ c.signals }

unfoldable pub set_page : ℕ → Cart → Cart
set_page value = drive (page value) (Pins.set_page value)

unfoldable pub set_nmi_low : Cart → Cart
set_nmi_low = drive nmi_low Pins.nmi_low

unfoldable pub set_nmi_high : Cart → Cart
set_nmi_high = drive nmi_high Pins.nmi_high

unfoldable pub set_reset_low : Cart → Cart
set_reset_low = drive reset_low Pins.reset_low

unfoldable pub set_reset_high : Cart → Cart
set_reset_high = drive reset_high Pins.reset_high

unfoldable pub settle_bus_change : Cart → Cart
settle_bus_change = delay_microseconds 1

unfoldable pub reset_c64 : Cart → Cart
reset_c64 c = c ▷ set_reset_low ▷ delay_microseconds 1000 ▷ set_reset_high

unfoldable pub transmit_byte_slow : ℕ → Cart → Cart
transmit_byte_slow val c =
    c ▷ set_page val ▷ set_nmi_low ▷ delay_microseconds 10 ▷ set_nmi_high ▷ delay_microseconds 75

unfoldable pub transmit_byte_block_end : ℕ → Cart → Cart
transmit_byte_block_end val c =
    c ▷ set_page val ▷ set_nmi_low ▷ delay_microseconds 6 ▷ set_nmi_high ▷ delay_microseconds 100

unfoldable pub stream_byte : ℕ → Cart → Cart
stream_byte value c = c ▷ set_page value ▷ set_nmi_low ▷ delay_microseconds 10 ▷ set_nmi_high

unfoldable pub reset_index : Cart → Cart
reset_index c = record c { transfer_index = 0 }

-- `transferIndex++` on an `unsigned int`, 16 bits on the AVR.
unfoldable pub next_index : Cart → Cart
next_index c = record c { transfer_index = (c.transfer_index + 1) % 2 ^ 16 }

-- `TransmitByteFast`, `TransmitByteFastStd` and `TransmitByteFastMK3` differ in the delay after a
-- byte that does not end a block.
unfoldable pub transmit_paced : ℕ → ℕ → Cart → Cart
transmit_paced after_us val c =
    let shown = set_page val c in
    if shown.transfer_index == 255
    then shown
      ▷ set_nmi_low
      ▷ delay_microseconds 10
      ▷ set_nmi_high
      ▷ delay_microseconds 80
      ▷ reset_index
    else shown
      ▷ set_nmi_low
      ▷ delay_microseconds 10
      ▷ set_nmi_high
      ▷ delay_microseconds after_us
      ▷ next_index

unfoldable pub transmit_byte_fast : ℕ → Cart → Cart
transmit_byte_fast = transmit_paced 50

unfoldable pub transmit_byte_fast_std : ℕ → Cart → Cart
transmit_byte_fast_std = transmit_paced 50

unfoldable pub transmit_byte_fast_mk3 : ℕ → Cart → Cart
transmit_byte_fast_mk3 = transmit_paced 35

unfoldable pub enable_cartridge : Cart → Cart
enable_cartridge c =
    settle_bus_change c ▷ drive exrom_low (λ p. Pins.exrom_low (Pins.drive_page_pins p))

unfoldable pub enable_exrom_only : Cart → Cart
enable_exrom_only c =
    settle_bus_change c ▷ drive exrom_low (λ p. Pins.exrom_low (Pins.release_page_select_pins p))

unfoldable pub enable_data_bus : Cart → Cart
enable_data_bus c =
    let settled = settle_bus_change c in record settled { pins = Pins.drive_page_pins settled.pins }

unfoldable pub disable_cartridge : Cart → Cart
disable_cartridge c = settle_bus_change c ▷ drive exrom_high Pins.exrom_high

unfoldable pub init_transfer : Cart → Cart
init_transfer c = c ▷ set_page 0x80 ▷ enable_cartridge ▷ reset_c64

-- `Read`: the oldest byte, or `none` for -1.
unfoldable pub read : Cart → Option ℕ × Cart
read c =
    if ByteQueue.is_available c.rx.read_queue
    then (let (val, rest) = ByteQueue.dequeue c.rx.read_queue in
        (some val, record c { rx = record (c.rx) { read_queue = rest } }))
    else (none, c)
