-- ===== src/Api/Streams/Latch.antt =====
-- The port writes of `HandleNonInterruptedStream`, Arduino/EasySD/CartApi.cpp, against `SetPage`.
use Prim.Native.Nat.{bit_and, bit_or}
use easy_sd_gemini.Prelude.{ℕ, ◌*◌, ◌/◌, ◌%◌, ◌≡◌, refl, sym, ap, ap₂, ◌∙◌, List, [], ◌∷◌, Bytes}
use easy_sd_gemini.Prelude.Bits.{bit_and_low, bit_and_high}
use easy_sd_gemini.Pins.{Pins, set_page}
use easy_sd_gemini.Pins.Pages.{IsBytes, page-set_page, set_page-IsBytes}
use easy_sd_gemini.Api.Streams.{latch}

-- The bytes of a stream, each written by a function.
abbrev pub written : (ℕ → Pins → Pins) → List ℕ → Pins → Pins
written write [] p = p
written write (b ∷ bs) p = written write bs (write b p)

-- The lines that are no page lines are as they were saved.
one_latch :
    (v : ℕ) (start p : Pins)
    → IsBytes start
    → IsBytes p
    → p.portd % 16 ≡ start.portd % 16
    → p.portc / 16 ≡ start.portc / 16
    → latch (bit_and start.portd 0x0f) (bit_and start.portc 0xf0) v p ≡ set_page v p
unfolding latch set_page
one_latch v start p hs hp low high =
    let d : bit_and start.portd 0x0f ≡ bit_and p.portd 0x0f =
      bit_and_low start.portd hs.portd ∙ sym low ∙ sym (bit_and_low p.portd hp.portd) in
    let c : bit_and start.portc 0xf0 ≡ bit_and p.portc 0xf0 =
      bit_and_high start.portc hs.portc
      ∙ ap (λ x. x * 16) (sym high)
      ∙ sym (bit_and_high p.portc hp.portc) in
    ap₂ (λ x y. record p { portd = bit_or x (bit_and v 0xf0); portc = bit_or y (bit_and v 0x0f) }) d
      c

from_saved :
    (bs : List ℕ) (start p : Pins)
    → Bytes bs
    → IsBytes start
    → IsBytes p
    → p.portd % 16 ≡ start.portd % 16
    → p.portc / 16 ≡ start.portc / 16
    → written (latch (bit_and start.portd 0x0f) (bit_and start.portc 0xf0)) bs p
      ≡ written set_page bs p
from_saved [] start p h hs hp low high = refl
from_saved (b ∷ bs) start p (hb, h) hs hp low high =
    let kept = page-set_page b p hb hp in
    ap (written (latch (bit_and start.portd 0x0f) (bit_and start.portc 0xf0)) bs)
      (one_latch b start p hs hp low high)
    ∙ from_saved bs start (set_page b p) h hs (set_page-IsBytes b p hb hp) (kept.1 ∙ low)
        (kept.2 ∙ high)

-- A stream that writes the ports from the latches saved at its start drives the pins exactly as
-- `SetPage` of each of its bytes does, which reads the latches back every time.
pub written-latch :
    (bs : List ℕ) (p : Pins)
    → Bytes bs
    → IsBytes p
    → written (latch (bit_and p.portd 0x0f) (bit_and p.portc 0xf0)) bs p ≡ written set_page bs p
written-latch bs p h hp = from_saved bs p p h hp hp refl refl
