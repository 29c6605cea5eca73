-- ===== src/Main/Running.antt =====
-- A pass through `loop` of Arduino/EasySD/EasySD.ino in which the button asks for the menu.
use easy_sd_gemini.Prelude.{◌≡◌, true, [], none}
use easy_sd_gemini.SdFat.{SdFat}
use easy_sd_gemini.Cart.{Listener}
use easy_sd_gemini.Dir.Located.{Located}
use easy_sd_gemini.Api.{Api}
use easy_sd_gemini.Api.Dispatch.Ending.{Closed}
use easy_sd_gemini.Main.{Firmware}

module _ ⦃sd : SdFat⦄ where
  -- The firmware as it is with the menu just started.
  pub record AtMenu (w : Firmware) : Type 0 where
    pub ready : w.runtime_ready ≡ true
    pub closed : Closed w.api
    pub listens : w.api.cart.listener ≡ Listener.receive
    pub no_file : w.api.working_file ≡ none
    pub at_root : Located [] w.api.dir
