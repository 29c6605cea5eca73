-- ===== src/Pins.antt =====
-- The AVR port registers as Arduino/EasySD/CartInterface.cpp drives them.
-- D4-D7 and A0-A3 select the EPROM page that the Commodore 64 reads; D2 is EXROM, B0 is /NMI, B1 is /RESET.
pub mod Pages
use Prim.Native.Nat.{bit_and, bit_or}
use easy_sd_gemini.Prelude.{ℕ}

pub record Pins : Type 0 where
  pub portb : ℕ
  pub portc : ℕ
  pub portd : ℕ
  pub ddrb : ℕ
  pub ddrc : ℕ
  pub ddrd : ℕ

unfoldable pub set_page : ℕ → Pins → Pins
set_page value p = record p {
  portd = bit_or (bit_and p.portd 0x0f) (bit_and value 0xf0);
  portc = bit_or (bit_and p.portc 0xf0) (bit_and value 0x0f);
}

-- The page that the select lines carry while they are outputs.
unfoldable pub page : Pins → ℕ
page p = bit_or (bit_and p.portd 0xf0) (bit_and p.portc 0x0f)

-- D4-D7 and A0-A3 as outputs.
unfoldable pub drive_page_pins : Pins → Pins
drive_page_pins p = record p { ddrd = bit_or p.ddrd 0xf0; ddrc = bit_or p.ddrc 0x0f }

unfoldable pub release_page_select_pins : Pins → Pins
release_page_select_pins p = record p {
  portd = bit_and p.portd 0x0f;
  portc = bit_and p.portc 0xf0;
  ddrd = bit_and p.ddrd 0x0f;
  ddrc = bit_and p.ddrc 0xf0;
}

-- EXROM is the latch of D2: low shows the cartridge to the Commodore 64.
unfoldable pub exrom_low : Pins → Pins
exrom_low p = record p { portd = bit_and p.portd 0xfb }

unfoldable pub exrom_high : Pins → Pins
exrom_high p = record p { portd = bit_or p.portd 0x04 }

unfoldable pub reset_low : Pins → Pins
reset_low p = record p { portb = bit_and p.portb 0xfd; ddrb = bit_or p.ddrb 0x02 }

unfoldable pub reset_high : Pins → Pins
reset_high p = record p { ddrb = bit_and p.ddrb 0xfd; portb = bit_or p.portb 0x02 }

unfoldable pub nmi_low : Pins → Pins
nmi_low p = record p { portb = bit_and p.portb 0xfe; ddrb = bit_or p.ddrb 0x01 }

unfoldable pub nmi_high : Pins → Pins
nmi_high p = record p { ddrb = bit_and p.ddrb 0xfe; portb = bit_or p.portb 0x01 }
