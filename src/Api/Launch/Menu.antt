-- ===== src/Api/Launch/Menu.antt =====
-- `TransferMenu` of Arduino/EasySD/CartApi.cpp, which starts the menu on the Commodore 64.
use easy_sd_gemini.Prelude.{ℕ, ◌≡◌, refl, false, List, [], none, ◌▷◌}
use easy_sd_gemini.SdFat.{SdFat}
use easy_sd_gemini.ByteQueue
use easy_sd_gemini.Receiver.{idle, bit_started}
use easy_sd_gemini.Cart.{
  Cart, Listener, drive, delay, delay_microseconds, settle_bus_change, reset_c64, enable_cartridge,
  disable_cartridge,
}
use easy_sd_gemini.Cart.Listen.{start_listening, end_listening, attach, reset_receive}
use easy_sd_gemini.Cart.Delivery.{delivered}
use easy_sd_gemini.Dir.{prepare}
use easy_sd_gemini.Dir.Navigate.{re_init}
use easy_sd_gemini.Dir.Located.{Located, to_root-Located, prepare-Located}
use easy_sd_gemini.Api.{Api}
use easy_sd_gemini.Api.Launch.{menu_names, open_menu_from, send_menu, transfer_menu}
use easy_sd_gemini.Api.Launch.Program.{is_shown}

pub record IsListening (c : Cart) : Type 0 where
  pub hidden : is_shown c.signals ≡ false
  pub listens : c.listener ≡ Listener.receive
  pub state : c.rx.receive_state ≡ idle
  pub bits : (c.rx.bit_state ≡ bit_started) × (c.rx.bit_mask ≡ 1)
  pub queue : ByteQueue.is_available c.rx.read_queue ≡ false

listening_lem :
    (c : Cart)
    → let d = c ▷ delay_microseconds 30 ▷ disable_cartridge ▷ start_listening in
      IsListening d × (delivered d.signals ≡ delivered c.signals)
unfolding disable_cartridge settle_bus_change drive delay_microseconds start_listening attach
    reset_receive ByteQueue.reset ByteQueue.is_available
listening_lem c = (
  record { hidden = refl; listens = refl; state = refl; bits = (refl, refl); queue = refl },
  refl,
)

module _ ⦃sd : SdFat⦄ where
  pub transfer_menu-IsListening :
      (stub cartridge_data : List ℕ) (s : Api)
      → let t = transfer_menu stub cartridge_data s in
        IsListening t.cart × (t.working_file ≡ none) × Located [] t.dir
  unfolding transfer_menu re_init
  transfer_menu-IsListening stub cartridge_data s =
      let file = (open_menu_from menu_names (prepare (re_init s.dir)).card).0 in
      let start = s.cart ▷ end_listening ▷ enable_cartridge ▷ reset_c64 ▷ delay 300 in
      let at_root = prepare-Located [] _ (to_root-Located s.dir) in
      (
        (listening_lem (send_menu stub cartridge_data file start)).0,
        refl,
        record {
          path = at_root.path;
          depth = at_root.depth;
          sub = at_root.sub;
          segments = at_root.segments;
          fits = at_root.fits;
        },
      )
