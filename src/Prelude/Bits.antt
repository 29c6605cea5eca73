-- ===== src/Prelude/Bits.antt =====
-- Bytes by evaluation: a claim on every byte is a table.
use Prim.Native.Nat.{ℕ, zero, suc, ◌+◌, ◌*◌, ◌/◌, ◌%◌, ◌<◌, bit_and, bit_or}
use mathlib.Core.Path.{◌≡◌, refl, ap, ◌∙◌}
use mathlib.Core.Logic.{◌⊎◌, inl, inr}
use mathlib.Core.Bool.{Bool, true, false, ◌&&◌}
use native.Mathlib.Omega.{arith}
use easy_sd_gemini.Prelude.{◌==◌, ==_iff, if◌then◌else◌}

-- A table of the first `n` numbers, and what it says of one of them.
unfoldable pub tabulated : (ℕ → Bool) → ℕ → Bool
tabulated holds zero = true
tabulated holds (suc n) = let before = tabulated holds n in if holds n then before else false

pub look_up :
    (holds : ℕ → Bool) (n : ℕ) → tabulated holds n ≡ true → (x : ℕ) → x < n → holds x ≡ true
unfolding tabulated
look_up holds zero full x below = elim below [ ]
look_up holds (suc n) full x below =
    let (here, before) = both (holds n) (tabulated holds n) full in
    elim (last_or_before x n below) [
      | inl e ↦ ap holds e ∙ here
      | inr earlier ↦ look_up holds n before x earlier
    ]
  where
    both : (a b : Bool) → (if a then b else false) ≡ true → (a ≡ true) × (b ≡ true)
    both a b e = ground arith

    last_or_before : (x n : ℕ) → x < suc n → (x ≡ n) ⊎ (x < n)
    last_or_before x n below = ground arith

-- A byte's nibbles, and the two joined again.
low_table : tabulated (λ x. bit_and x 0x0f == (x % 16)) 256 ≡ true
unfolding tabulated
low_table = refl

pub bit_and_low : (x : ℕ) → x < 256 → bit_and x 0x0f ≡ x % 16
bit_and_low x h = (==_iff _ _).0 (look_up _ 256 low_table x h)

high_table : tabulated (λ x. bit_and x 0xf0 == (x / 16 * 16)) 256 ≡ true
unfolding tabulated
high_table = refl

pub bit_and_high : (x : ℕ) → x < 256 → bit_and x 0xf0 ≡ x / 16 * 16
bit_and_high x h = (==_iff _ _).0 (look_up _ 256 high_table x h)

join_table :
    tabulated
      (λ h.
        tabulated
          (λ l. (bit_or l (h * 16) == (h * 16 + l)) && (bit_or (h * 16) l == (h * 16 + l)))
          16)
      16
    ≡ true
unfolding tabulated
join_table = refl

join_sound :
    (h l : ℕ)
    → h < 16
    → l < 16
    → ((bit_or l (h * 16) == (h * 16 + l)) && (bit_or (h * 16) l == (h * 16 + l))) ≡ true
join_sound h l hh hl = look_up _ 16 (look_up _ 16 join_table h hh) l hl

&&_parts : (a b : Bool) → (a && b) ≡ true → (a ≡ true) × (b ≡ true)
&&_parts a b e = ground arith

pub bit_or_low : (h l : ℕ) → h < 16 → l < 16 → bit_or l (h * 16) ≡ h * 16 + l
bit_or_low h l hh hl = (==_iff _ _).0 (&&_parts _ _ (join_sound h l hh hl)).0

pub bit_or_high : (h l : ℕ) → h < 16 → l < 16 → bit_or (h * 16) l ≡ h * 16 + l
bit_or_high h l hh hl = (==_iff _ _).0 (&&_parts _ _ (join_sound h l hh hl)).1
