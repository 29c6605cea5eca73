-- ===== src/Api/Launch/Program.antt =====
-- The programs that `LoadAndLaunchOpenedFile` of Arduino/EasySD/CartApi.cpp sends.
use easy_sd_gemini.Prelude.{
  ℕ, ◌+◌, ◌/◌, ◌%◌, ◌^◌, ◌<◌, ◌≡◌, refl, sym, ap, ◌∙◌, Bool, true, false, List, [], ◌∷◌, ◌++◌,
  append-nil, append_assoc, ◌▷◌, arith, length, length-append, length-replicate, replicate,
}
use easy_sd_gemini.SdFat.{SdFat}
use easy_sd_gemini.Cart.{
  Cart, Signal, drive, set_page, set_nmi_low, set_nmi_high, set_reset_low, set_reset_high, delay,
  delay_microseconds, settle_bus_change, reset_index, reset_c64, enable_cartridge,
  disable_cartridge, transmit_byte_slow,
}
use easy_sd_gemini.Cart.Delivery.{delivered, transmit_all}
use easy_sd_gemini.Api.Transfer.{Delivers, fast-Delivers, fast_std-Delivers, Delivers-trans}
use easy_sd_gemini.Api.Headers.{
  pad_bytes, transfer_pages, remainder_256, quotient_256, header, send_header, transmit_slow,
  stub_page, send_loader_stub, transmit_zero_bytes,
}
use easy_sd_gemini.Api.Launch.{transmit_file_bytes, send_program}
use easy_sd_gemini.Api.Launch.Bytes.{Serves, fill, transmit_file_bytes_lem}

-- The padding of a transfer of fewer than 2 ^ 31 bytes fills its last page.
pub pad_bytes_lem :
    (n : ℕ)
    → n < 2 ^ 31
    → ((n + pad_bytes n) % 256 ≡ 0)
      × (pad_bytes n < 256)
      × (transfer_pages n ≡ (n + pad_bytes n) / 256 % 256)
unfolding pad_bytes transfer_pages remainder_256 quotient_256
pad_bytes_lem n h = (ground arith, ground arith, ground arith)

-- A slow byte is handed over by one NMI, and not counted.
pub slow_lem :
    (xs : List ℕ) (c : Cart)
    → (delivered (transmit_slow xs c).signals ≡ delivered c.signals ++ xs)
      × ((transmit_slow xs c).transfer_index ≡ c.transfer_index)
unfolding transmit_slow transmit_all transmit_byte_slow drive set_page set_nmi_low set_nmi_high
    delay_microseconds
slow_lem [] c = (sym (append-nil (delivered c.signals)), refl)
slow_lem (x ∷ xs) c =
    let (bytes, index) = slow_lem xs (transmit_byte_slow x c) in
    (bytes ∙ append_assoc (delivered c.signals) (x ∷ []) xs, index)

-- The stub is a page of its own.
pub stub_lem :
    (stub : List ℕ) (c : Cart)
    → c.transfer_index < 256
    → (delivered (send_loader_stub stub c).signals ≡ delivered c.signals ++ stub_page stub)
      × ((send_loader_stub stub c).transfer_index ≡ 0)
unfolding send_loader_stub reset_index
stub_lem stub c h = ((fast_std-Delivers (stub_page stub) c h).bytes, refl)

-- The Commodore 64 sees the cartridge.
abbrev pub is_shown : List Signal → Bool
is_shown [] = false
is_shown (Signal.exrom_low ∷ s) = true
is_shown (Signal.exrom_high ∷ s) = false
is_shown (_ ∷ s) = is_shown s

-- The interface reset for a launch.
pub reset_lem :
    (c : Cart)
    → let d = c ▷ reset_index ▷ enable_cartridge ▷ reset_c64 ▷ delay 200 in
      (delivered d.signals ≡ delivered c.signals) × (d.transfer_index ≡ 0)
unfolding reset_index enable_cartridge reset_c64 delay settle_bus_change drive set_reset_low
    set_reset_high delay_microseconds
reset_lem c = (refl, refl)

-- The end of a launch.
pub hidden_lem :
    (c : Cart)
    → let d = c ▷ delay_microseconds 30 ▷ disable_cartridge in
      (delivered d.signals ≡ delivered c.signals)
      × (d.transfer_index ≡ c.transfer_index)
      × (is_shown d.signals ≡ false)
unfolding disable_cartridge settle_bus_change drive delay_microseconds
hidden_lem c = (refl, refl, refl)

-- The header, the page of the stub, and the `n` bytes of the payload with their padding.
abbrev pub image : List ℕ → List ℕ → List ℕ → ℕ → List ℕ
image head stub payload n = head ++ (stub_page stub ++ (payload ++ replicate (pad_bytes n) 0))

-- What goes out behind the reset, each part with what it leaves.
pub image_lem :
    (head stub payload : List ℕ) (n : ℕ) (c d e : Cart)
    → c.transfer_index ≡ 0
    → n < 2 ^ 31
    → length payload ≡ n
    → d ≡ (c ▷ transmit_slow head ▷ send_loader_stub stub)
    → Delivers payload d e
    → let t = transmit_zero_bytes (pad_bytes n) e in
      (delivered t.signals ≡ delivered c.signals ++ image head stub payload n)
      × (t.transfer_index ≡ 0)
unfolding transmit_zero_bytes
image_lem head stub payload n c d e zeroed small all start sends =
    let (headed, kept) = slow_lem head c in
    let (stubbed, cleared) = stub_lem stub (transmit_slow head c) (omega (arith, kept, zeroed)) in
    let at_d : delivered d.signals ≡ (delivered c.signals ++ head) ++ stub_page stub =
      ap (λ x. delivered x.signals) start ∙ stubbed ∙ ap (λ b. b ++ stub_page stub) headed in
    let d_index : d.transfer_index ≡ 0 = ap (λ x. x.transfer_index) start ∙ cleared in
    let zeros : List ℕ = replicate (pad_bytes n) 0 in
    let tail =
      Delivers-trans payload zeros d e _ sends
        (fast-Delivers zeros e (omega (arith, sends.index))) in
    let (whole, _, _) = pad_bytes_lem n small in
    (
      tail.bytes
          ∙ ap (λ b. b ++ (payload ++ zeros)) at_d
          ∙ append_assoc (delivered c.signals ++ head) (stub_page stub) (payload ++ zeros)
          ∙ append_assoc (delivered c.signals) head (stub_page stub ++ (payload ++ zeros)),
      omega (
        arith,
        tail.index,
        d_index,
        length-append payload zeros,
        length-replicate {A = ℕ} (pad_bytes n) 0,
        all,
        whole,
      ),
    )

module _ ⦃sd : SdFat⦄ where
  -- From `c` to `r` the Commodore 64 gets a launch of the file `f` to `low` and `high`, `n` bytes long.
  pub record Launches (stub : List ℕ) (type : ℕ) (start : ℕ × ℕ × ℕ × sd.File) (c : Cart)
      (r : Bool × Cart) : Type 0 where
    pub payload : List ℕ
    pub all : length payload ≡ start.2
    pub bytes :
        delivered r.1.signals
        ≡ delivered c.signals
          ++ image
              (header start.0 start.1 (transfer_pages start.2) start.2 type)
              stub
              payload
              start.2
    pub index : r.1.transfer_index ≡ 0
    pub hidden : is_shown r.1.signals ≡ false
    pub right : r.0 ≡ true → payload ≡ fill start.2 (sd.rest start.3)
    pub served : Serves → payload ≡ fill start.2 (sd.rest start.3)

  -- The transfer of a launch.
  pub send_program-Launches :
      (stub : List ℕ) (type low high n : ℕ) (f : sd.File) (c : Cart)
      → n < 2 ^ 31
      → Launches stub type (low, high, n, f) c (send_program stub type (low, high, n, f) c)
  unfolding send_program send_header
  send_program-Launches stub type low high n f c small =
      let (quiet, zeroed) = reset_lem c in
      let head = header low high (transfer_pages n) n type in
      let ready = c ▷ reset_index ▷ enable_cartridge ▷ reset_c64 ▷ delay 200 in
      let started = ready ▷ transmit_slow head ▷ send_loader_stub stub in
      let (stubbed, cleared) =
        stub_lem stub (transmit_slow head ready) (omega (arith, (slow_lem head ready).1, zeroed)) in
      let (payload, all, sends, right, served) =
        transmit_file_bytes_lem n f started (omega (arith, cleared)) in
      let sent = (transmit_file_bytes n f started).2 in
      let (bytes, index) =
        image_lem head stub payload n ready started sent zeroed small all refl sends in
      let (same, kept, hidden) = hidden_lem (transmit_zero_bytes (pad_bytes n) sent) in
      record {
        payload = payload;
        all = all;
        bytes = same ∙ bytes ∙ ap (λ b. b ++ image head stub payload n) quiet;
        index = kept ∙ index;
        hidden = hidden;
        right = right;
        served = served;
      }
