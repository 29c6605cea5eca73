-- ===== src/Pins/Pages.antt =====
-- What a write of the page-select lines in CartInterface.cpp leaves on the pins.
use Prim.Native.Nat.{bit_and, bit_or}
use easy_sd_gemini.Prelude.{ℕ, ◌+◌, ◌*◌, ◌/◌, ◌%◌, ◌<◌, ◌≡◌, refl, ap₂, ◌∙◌, arith}
use easy_sd_gemini.Prelude.Bits.{bit_and_low, bit_and_high, bit_or_low, bit_or_high}
use easy_sd_gemini.Pins.{Pins, set_page, page}

-- The port latches hold bytes.
pub record IsBytes (p : Pins) : Type 0 where
  pub portc : p.portc < 256
  pub portd : p.portd < 256

-- A byte's low nibble joined with another's high nibble.
low_joined :
    (x v : ℕ) → x < 256 → v < 256 → bit_or (bit_and x 0x0f) (bit_and v 0xf0) ≡ v / 16 * 16 + x % 16
low_joined x v hx hv =
    ap₂ bit_or (bit_and_low x hx) (bit_and_high v hv)
    ∙ bit_or_low (v / 16) (x % 16) (omega arith) (omega arith)

high_joined :
    (x v : ℕ) → x < 256 → v < 256 → bit_or (bit_and x 0xf0) (bit_and v 0x0f) ≡ x / 16 * 16 + v % 16
high_joined x v hx hv =
    ap₂ bit_or (bit_and_high x hx) (bit_and_low v hv)
    ∙ bit_or_high (x / 16) (v % 16) (omega arith) (omega arith)

pub page_parts : (p : Pins) → IsBytes p → page p ≡ p.portd / 16 * 16 + p.portc % 16
unfolding page
page_parts p b = high_joined p.portd p.portc b.portd b.portc

pub set_page_parts :
    (v : ℕ) (p : Pins)
    → v < 256
    → IsBytes p
    → ((set_page v p).portd ≡ v / 16 * 16 + p.portd % 16)
      × ((set_page v p).portc ≡ p.portc / 16 * 16 + v % 16)
unfolding set_page
set_page_parts v p hv b = (low_joined p.portd v b.portd hv, high_joined p.portc v b.portc hv)

pub set_page-IsBytes : (v : ℕ) (p : Pins) → v < 256 → IsBytes p → IsBytes (set_page v p)
set_page-IsBytes v p hv b =
    let parts = set_page_parts v p hv b in
    record { portc = omega (arith, parts.1, b.portc); portd = omega (arith, parts.0, b.portd) }

-- `SetPage` puts exactly the byte on the page-select lines, and touches no other line: D0-D3, with
-- EXROM among them, and A4-A7 keep their latches, and port B and the directions are left alone.
pub page-set_page :
    (v : ℕ) (p : Pins)
    → v < 256
    → IsBytes p
    → (page (set_page v p) ≡ v)
      × ((set_page v p).portd % 16 ≡ p.portd % 16)
      × ((set_page v p).portc / 16 ≡ p.portc / 16)
      × ((set_page v p).portb ≡ p.portb)
      × ((set_page v p).ddrb ≡ p.ddrb)
      × ((set_page v p).ddrc ≡ p.ddrc)
      × ((set_page v p).ddrd ≡ p.ddrd)
unfolding set_page
page-set_page v p hv b =
    let parts = set_page_parts v p hv b in
    (
      omega (arith, page_parts (set_page v p) (set_page-IsBytes v p hv b), parts.0, parts.1),
      omega (arith, parts.0),
      omega (arith, parts.1),
      refl,
      refl,
      refl,
      refl,
    )
