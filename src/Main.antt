-- ===== src/Main.antt =====
-- `setup` and `loop` of Arduino/EasySD/EasySD.ino, which join the button, the start and the
-- dispatch.
pub mod Running
pub mod Reached
use easy_sd_gemini.Prelude.{ℕ, Bool, true, false, Option, none, some, if◌then◌else◌, ◌▷◌}
use easy_sd_gemini.SdFat.{SdFat}
use easy_sd_gemini.Cart.{delay}
use easy_sd_gemini.Cart.Listen.{init}
use easy_sd_gemini.Button.{Button, Pass, Action, nothing, menu, basic, loop_button, boot_button}
use easy_sd_gemini.Boot.{init_sd, init_api, ensure_runtime_ready}
use easy_sd_gemini.Api.{Api, with_cart}
use easy_sd_gemini.Api.Launch.{transfer_menu, reset_no_cartridge}
use easy_sd_gemini.Api.Dispatch.{Flash, Turn, handle_api}

-- The whole state of the firmware.
pub record Firmware ⦃sd : SdFat⦄ : Type 0 where
  pub button : Button
  pub runtime_ready : Bool
  pub api : Api

-- What `setup` reads: the calls of `sd.begin`, the clocks and the sample of the button.
pub record Power : Type 0 where
  pub begin : ℕ → Bool
  pub suppress_ms : ℕ
  pub rearm_sample : ℕ
  pub rearm_ms : ℕ

-- What a pass through `loop` reads: the button's clocks and samples, the calls of `sd.begin` where
-- the card is not ready, and what `HandleApi` sees.
pub record LoopPass : Type 0 where
  pub pass : Pass
  pub begin : ℕ → Bool
  pub turn : Turn

module _ ⦃sd : SdFat⦄ where
  -- `setup`, from the members as they are at power-up.
  unfoldable pub setup : Power → Api → Firmware
  setup p s =
      let started = with_cart (λ c. c ▷ init ▷ delay 300) s in
      let ok = (init_sd p.begin).0 in
      record {
        button = boot_button p.suppress_ms p.rearm_sample p.rearm_ms;
        runtime_ready = ok;
        api = if ok then init_api started else started;
      }

  -- What a pass does for the button's action: whether the card is ready, and the state.
  unfoldable pub act : Flash → (ℕ → Bool) → Action → Bool → Api → Bool × Api
  act rom begin nothing ready s = (ready, s)
  act rom begin basic ready s = (ready, reset_no_cartridge s)
  act rom begin menu ready s =
      let (ok, s') = ensure_runtime_ready begin ready s in
      if ok then (true, transfer_menu rom.stub rom.cartridge_data s') else (ready, s')

  -- `loop`.
  unfoldable pub loop : Flash → LoopPass → Firmware → Option Firmware
  loop rom p w =
      let (action, button) = loop_button p.pass w.button in
      let (ready, s) = act rom p.begin action w.runtime_ready w.api in
      elim ready [
        | false ↦ some (record { button = button; runtime_ready = false; api = s })
        | true ↦ elim (handle_api rom p.turn s) [
          | none ↦ none
          | some s' ↦ some (record { button = button; runtime_ready = true; api = s' })
        ]
      ]
