-- ===== src/Api/Dispatch/Ending.antt =====
-- How a session of `HandleApi` ends, Arduino/EasySD/CartApi.cpp.
use easy_sd_gemini.Prelude.{ℕ, ◌≡◌, refl, true, false, some}
use easy_sd_gemini.SdFat.{SdFat}
use easy_sd_gemini.ByteQueue
use easy_sd_gemini.Receiver.{idle, bit_started}
use easy_sd_gemini.Cart.{set_page, disable_cartridge, settle_bus_change, drive, delay_microseconds}
use easy_sd_gemini.Cart.Listen.{reset_receive}
use easy_sd_gemini.Api.{Api, with_cart}
use easy_sd_gemini.Api.Launch.Program.{is_shown}
use easy_sd_gemini.Api.Dispatch.{
  Flash, Inputs, Command, command_of, run_command, forget_session, drop_session,
}

module _ ⦃sd : SdFat⦄ where
  -- No session: the cartridge is hidden, the receiver has no byte and no bit and waits for the first
  -- identifier, and the session's clock and flag are as at the start.
  pub record Closed (s : Api) : Type 0 where
    pub hidden : is_shown s.cart.signals ≡ false
    pub state : s.cart.rx.receive_state ≡ idle
    pub bits : (s.cart.rx.bit_state ≡ bit_started) × (s.cart.rx.bit_mask ≡ 1)
    pub queue : ByteQueue.is_available s.cart.rx.read_queue ≡ false
    pub clock : s.last_session_activity_ms ≡ 0
    pub saw : s.session_saw_command ≡ false

  pub drop_session-Closed : (s : Api) → Closed (drop_session s)
  unfolding drop_session forget_session with_cart disable_cartridge settle_bus_change drive
      delay_microseconds reset_receive ByteQueue.reset ByteQueue.is_available
  drop_session-Closed s = record {
    hidden = refl;
    state = refl;
    bits = (refl, refl);
    queue = refl;
    clock = refl;
    saw = refl;
  }

  -- The end of a command: a session closed after a timeout, or the handler's state with page 0 shown.
  pub record Obeyed (rom : Flash) (i : Inputs) (byte : ℕ) (s t : Api) : Type 0 where
    pub command : Command
    pub handled : Api
    pub known : command_of byte ≡ some command
    pub run : run_command rom command i s ≡ some handled
    pub timed_out : handled.args_ok ≡ false → Closed t
    pub in_time : handled.args_ok ≡ true → t ≡ with_cart (set_page 0) handled
