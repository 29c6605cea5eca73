-- ===== src/Cart/Listen.antt =====
-- Attaching and detaching the receiver: the listening functions of CartInterface.cpp.
use Prim.Native.Nat.{bit_or}
use easy_sd_gemini.Prelude.{Bool, if◌then◌else◌, ◌▷◌}
use easy_sd_gemini.ByteQueue
use easy_sd_gemini.Receiver.{bit_started, idle}
use easy_sd_gemini.Pins
use easy_sd_gemini.Pins.{Pins}
use easy_sd_gemini.Cart.{
  Cart, Listener, exrom_high, drive, delay, set_reset_high, set_nmi_high, reset_c64,
  disable_cartridge,
}

-- `ResetReceiveNoStateChange`. `currentByte` is left as it is.
unfoldable pub reset_receive_no_state_change : Cart → Cart
reset_receive_no_state_change c = record c {
  rx = record (c.rx) {
    bit_state = bit_started;
    bit_mask = 1;
    read_queue = ByteQueue.reset c.rx.read_queue;
  };
}

unfoldable pub reset_receive : Cart → Cart
reset_receive c = record c {
  rx = record (c.rx) {
    bit_state = bit_started;
    receive_state = idle;
    bit_mask = 1;
    read_queue = ByteQueue.reset c.rx.read_queue;
  };
}

-- attachInterrupt and detachInterrupt on IO2.
unfoldable pub attach : Listener → Cart → Cart
attach l c = record c { listener = l }

unfoldable pub start_listening : Cart → Cart
start_listening c = c ▷ reset_receive ▷ attach Listener.receive

unfoldable pub end_listening : Cart → Cart
end_listening c = c ▷ attach Listener.detached ▷ reset_receive ▷ disable_cartridge

unfoldable pub soft_start_listening : Cart → Cart
soft_start_listening c = c ▷ reset_receive_no_state_change ▷ attach Listener.receive

unfoldable pub soft_end_listening : Cart → Cart
soft_end_listening c = c ▷ attach Listener.detached ▷ reset_receive_no_state_change

unfoldable pub enter_basic_safe_mode : Cart → Cart
enter_basic_safe_mode c = c ▷ attach Listener.detached ▷ reset_receive ▷ disable_cartridge

unfoldable pub release_to_basic : Bool → Cart → Cart
release_to_basic pulse_reset c =
    let safe = enter_basic_safe_mode c in
    if pulse_reset then reset_c64 safe else safe ▷ delay 2 ▷ set_reset_high

-- `IOSetup`. pinMode on IO2 and PHI2 makes inputs of pins that nothing here drives.
unfoldable pub io_setup : Cart → Cart
io_setup c =
    c
    ▷ drive exrom_high (λ p. let up = Pins.exrom_high p in record up { ddrd = bit_or up.ddrd 0x04 })
    ▷ set_reset_high
    ▷ set_nmi_high

unfoldable pub set_address_pins_output : Cart → Cart
set_address_pins_output c = record c { pins = Pins.drive_page_pins c.pins }

unfoldable pub init : Cart → Cart
init c = c ▷ io_setup ▷ set_address_pins_output ▷ start_listening
