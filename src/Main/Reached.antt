-- ===== src/Main/Reached.antt =====
-- The states that `setup` and `loop` of Arduino/EasySD/EasySD.ino reach, and the directory in them.
use easy_sd_gemini.Prelude.{
  ℕ, ◌▷◌, ◌≡◌, refl, sym, subst, Bool, true, false, [], Option, none, some, if◌then◌else◌,
}
use easy_sd_gemini.SdFat.{SdFat}
use easy_sd_gemini.Cart.{delay}
use easy_sd_gemini.Cart.Listen.{init}
use easy_sd_gemini.Button.{Button, Action, nothing, menu, basic, loop_button}
use easy_sd_gemini.Boot.{init_sd, init_api, init_api-Located, ensure_runtime_ready}
use easy_sd_gemini.Dir.Placed.{Placed}
use easy_sd_gemini.Api.{Api, with_cart}
use easy_sd_gemini.Api.Launch.{transfer_menu, reset_no_cartridge}
use easy_sd_gemini.Api.Dispatch.{Flash, handle_api}
use easy_sd_gemini.Api.Place.{Stays}
use easy_sd_gemini.Api.Place.Named.{InPlace}
use easy_sd_gemini.Api.Place.Commands.{transfer_menu-InPlace}
use easy_sd_gemini.Api.Place.Turns.{handle_api-Stays}
use easy_sd_gemini.Main.{Firmware, Power, LoopPass, setup, act, loop}

module _ ⦃sd : SdFat⦄ where
  -- What `setup` leaves, and what a pass through `loop` that ends leaves behind a state reached.
  pub data Reached (rom : Flash) : Firmware → Type 0 where
    powered : (p : Power) (s : Api) → Reached rom (setup p s)
    passed :
        (p : LoopPass) (w w' : Firmware) → Reached rom w → loop rom p w ≡ some w' → Reached rom w'

  -- The directory is placed once the card is ready.
  abbrev IsPlaced : Bool → Api → Type 0
  IsPlaced ready s = ready ≡ true → InPlace s

  setup-IsPlaced : (p : Power) (s : Api) → IsPlaced (setup p s).runtime_ready (setup p s).api
  unfolding setup
  setup-IsPlaced p s ready =
      let started = with_cart (λ c. c ▷ init ▷ delay 300) s in
      subst (λ b. InPlace (if b then init_api started else started)) (sym ready)
        ([], (init_api-Located started).0)

  act-IsPlaced :
      (rom : Flash) (begin : ℕ → Bool) (action : Action) (ready : Bool) (s : Api)
      → IsPlaced ready s
      → IsPlaced (act rom begin action ready s).0 (act rom begin action ready s).1
  unfolding act ensure_runtime_ready reset_no_cartridge with_cart
  act-IsPlaced rom begin nothing ready s p = p
  act-IsPlaced rom begin basic ready s p = p
  act-IsPlaced rom begin menu true s p = λ e. transfer_menu-InPlace rom s
  act-IsPlaced rom begin menu false s p = by_card (init_sd begin).0
    where
      by_card :
          (b : Bool)
          → let ensured : Bool × Api = if b then (true, init_api s) else (false, s) in
            let r : Bool × Api =
              if ensured.0
              then (true, transfer_menu rom.stub rom.cartridge_data ensured.1)
              else (false, ensured.1) in
            IsPlaced r.0 r.1
      by_card true e = transfer_menu-InPlace rom (init_api s)
      by_card false e = absurd cc

  -- What a pass leaves, if it ends.
  abbrev Holds : Option Firmware → Type 0
  Holds none = Unit
  Holds (some w) = IsPlaced w.runtime_ready w.api

  loop-Holds :
      (rom : Flash) (p : LoopPass) (w : Firmware)
      → IsPlaced w.runtime_ready w.api
      → Holds (loop rom p w)
  unfolding loop
  loop-Holds rom p w q =
      let (action, button) = loop_button p.pass w.button in
      let (ready, s) = act rom p.begin action w.runtime_ready w.api in
      by_ready button ready s (act-IsPlaced rom p.begin action w.runtime_ready w.api q)
    where
      by_handled :
          (button : Button) (o : Option Api)
          → Stays o
          → Holds (elim o [
            | none ↦ none
            | some s' ↦ some (record { button = button; runtime_ready = true; api = s' })
          ])
      by_handled button none h = tt
      by_handled button (some s') h = λ e. h

      by_ready :
          (button : Button) (ready : Bool) (s : Api)
          → IsPlaced ready s
          → Holds (elim ready [
            | false ↦ some (record { button = button; runtime_ready = false; api = s })
            | true ↦ elim (handle_api rom p.turn s) [
              | none ↦ none
              | some s' ↦ some (record { button = button; runtime_ready = true; api = s' })
            ]
          ])
      by_ready button false s h = h
      by_ready button true s h =
          by_handled button (handle_api rom p.turn s) (handle_api-Stays rom p.turn s (h refl))

  -- In every state that `setup` and passes of `loop` reach in which the card is ready, after any
  -- commands, presses and answers of the card: the path is that of a list of segments, none empty or
  -- with a slash, starts with a slash and fits its 64 bytes, the depth is the number of segments, and
  -- the flag of a subdirectory says whether there are any.
  pub reached-Placed :
      (rom : Flash) (w : Firmware) → Reached rom w → w.runtime_ready ≡ true → Placed w.api.dir
  reached-Placed rom w (Reached.powered p s) ready = setup-IsPlaced p s ready
  reached-Placed rom w' (Reached.passed p w _ r e) ready =
      subst Holds e (loop-Holds rom p w (reached-Placed rom w r)) ready
