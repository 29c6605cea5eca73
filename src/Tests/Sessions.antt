-- ===== src/Tests/Sessions.antt =====
-- Sessions, commands and passes of the loop at concrete inputs.
use easy_sd_gemini.Prelude.{
  ℕ, ◌≡◌, inl, inr, refl, List, [], ◌∷◌, true, false, Option, none, some, arith,
}
use easy_sd_gemini.ByteQueue
use easy_sd_gemini.Cart.{drive, delay, set_page}
use easy_sd_gemini.Cart.Listen.{reset_receive, attach, start_listening, init}
use easy_sd_gemini.Cart.Handler.{with_rx, is_stale, receive_handler}
use easy_sd_gemini.Receiver.{in_transmission}
use easy_sd_gemini.Button.{
  suppress_buttons_for, rearm_sel_tracking, is_guarded, loop_button, run_passes, boot_button,
}
use easy_sd_gemini.Boot.{init_sd, init_sd_from, init_api}
use easy_sd_gemini.Api.{Api, with_cart, invalidate_page_entry_cache}
use easy_sd_gemini.Api.Dispatch.{handle_api, Flash, Inputs, Turn, run_turns}
use easy_sd_gemini.Api.Dispatch.Ending.{Closed}
use easy_sd_gemini.Api.Dispatch.Idle.{Open, run_turns-Closed}
use easy_sd_gemini.Main.{Firmware, Power, LoopPass, setup, act, loop}
use easy_sd_gemini.Main.Reached.{Reached, reached-Placed}
use easy_sd_gemini.Dir.Placed.{Placed}
use easy_sd_gemini.Tests.Serial.{idle_cart, queue_with}
use easy_sd_gemini.Tests.Card.{disk}
use easy_sd_gemini.Tests.Commands.{api}
use easy_sd_gemini.Tests.Buttons.{pass_at, presses}

abbrev rom : Flash
rom = record { stub = 0x4c ∷ []; cartridge_data = 1 ∷ 8 ∷ 7 ∷ [] }

abbrev inputs : Inputs
inputs = record {
  waits = [];
  session = record { start = 0; beats = [] };
  levels = [];
  stream_start_ms = 0;
  events = [];
  stale_path = [];
  free_sram = 400;
}

abbrev turn_at : ℕ → Turn
turn_at ms = record {
  edges = [];
  moment = record { checked_ms = ms; changed_ms = ms; wait_start_us = 0; polls = [] };
  begun_ms = ms;
  command_ms = ms;
  idle_ms = ms;
  inputs = inputs;
}

-- A session that began at 1000 ms, without a command and with one.
abbrev in_session : Api ⦃sd = disk⦄
in_session = record api {
  cart = record idle_cart {
    rx = record (idle_cart.rx) { receive_state = in_transmission; read_queue = queue_with [] 0 0 };
  };
  last_session_activity_ms = 1000;
  session_saw_command = false;
}

abbrev at_work : Api ⦃sd = disk⦄
at_work = record in_session { session_saw_command = true }

in_session-Open : Open ⦃sd = disk⦄ in_session
unfolding ByteQueue.is_available
in_session-Open = record { state = refl; queue = refl; clock = omega arith }

abbrev turns : List Turn
turns = turn_at 1100 ∷ turn_at 1250 ∷ turn_at 1251 ∷ turn_at 1400 ∷ []

run_turns-Closed_example :
    (r : Api ⦃sd = disk⦄) × (run_turns ⦃sd = disk⦄ rom turns in_session ≡ some r)
    × Closed ⦃sd = disk⦄ r
run_turns-Closed_example =
    run_turns-Closed ⦃sd = disk⦄ rom turns in_session (refl, (refl, (refl, (refl, tt))))
      in_session-Open refl (inr (inr (inl refl)))

-- The button comes up at 900 ms, in the middle of a session, with a card that was not ready.
abbrev running : Firmware ⦃sd = disk⦄
running = record {
  button = run_passes presses (boot_button 0 1023 0);
  runtime_ready = false;
  api = at_work;
}

abbrev released : LoopPass
released = record { pass = pass_at 900 1023; begin = λ n. true; turn = turn_at 900 }

-- The first pass behind `setup`, with no press and no edge.
abbrev power : Power
power = record { begin = λ n. true; suppress_ms = 0; rearm_sample = 1023; rearm_ms = 0 }

abbrev quiet_pass : LoopPass
quiet_pass = record { pass = pass_at 20 1023; begin = λ n. true; turn = turn_at 20 }

abbrev passed : Option (Firmware ⦃sd = disk⦄) → Firmware ⦃sd = disk⦄
passed none = running
passed (some w) = w

abbrev behind_setup : Firmware ⦃sd = disk⦄
behind_setup = passed (loop ⦃sd = disk⦄ rom quiet_pass (setup ⦃sd = disk⦄ power at_work))

ends :
    (loop ⦃sd = disk⦄ rom quiet_pass (setup ⦃sd = disk⦄ power at_work) ≡ some behind_setup)
    × (behind_setup.runtime_ready ≡ true)
unfolding drive delay set_page reset_receive attach start_listening init with_rx is_stale
    receive_handler suppress_buttons_for rearm_sel_tracking is_guarded loop_button boot_button
    init_sd_from init_sd init_api with_cart invalidate_page_entry_cache handle_api setup act loop
ends = (refl, refl)

reached-Placed_example : Placed ⦃sd = disk⦄ behind_setup.api.dir
reached-Placed_example =
    reached-Placed ⦃sd = disk⦄ rom behind_setup
      (Reached.passed quiet_pass (setup ⦃sd = disk⦄ power at_work) behind_setup
        (Reached.powered power at_work) ends.0)
      ends.1
