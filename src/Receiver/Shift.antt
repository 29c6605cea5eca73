-- ===== src/Receiver/Shift.antt =====
-- The bits that `ReceiveInterrupt` shifts into `currentByte`, and the bytes that they make.
use Prim.Native.Nat.{bit_or}
use easy_sd_gemini.Prelude.{
  ℕ, zero, suc, ◌*◌, ◌/◌, ◌%◌, ◌<◌, ◌≡◌, refl, sym, ap, ◌∙◌, Bool, true, false, ◌&&◌, List, [], ◌∷◌,
  ◌++◌, append_assoc, append-nil, arith, ◌==◌, if◌then◌else◌, Bytes,
}
use easy_sd_gemini.Prelude.Bits.{tabulated, look_up}

-- Bytes finished, and the partial byte with its mask.
pub record Shift : Type 0 where
  pub done : List ℕ
  pub partial : ℕ
  pub mask : ℕ

-- A byte is finished when its mask has run out.
unfoldable pub complete : Shift → Shift
complete a =
    if a.mask == 0 then record { done = a.done ++ (a.partial ∷ []); partial = 0; mask = 1 } else a

unfoldable pub shift : Bool → Shift → Shift
unfolding complete
shift b a = complete (record {
  done = a.done;
  partial = if b then bit_or a.partial a.mask else a.partial;
  mask = a.mask * 2 % 256;
})

unfoldable pub shifts : List Bool → Shift → Shift
shifts [] a = a
shifts (b ∷ bs) a = shifts bs (shift b a)

-- A byte's bits, the lowest first.
abbrev pub bits : ℕ → ℕ → List Bool
bits zero x = []
bits (suc n) x = ((x % 2) == 1) ∷ bits n (x / 2)

abbrev pub byte_bits : List ℕ → List Bool
byte_bits [] = []
byte_bits (x ∷ xs) = bits 8 x ++ byte_bits xs

-- Eight bits make their byte: by evaluation for each byte, over any bytes finished before.
abbrev pub fresh : List ℕ → Shift
fresh done = record { done = done; partial = 0; mask = 1 }

makes : List ℕ → ℕ → Bool
makes [] b = false
makes (x ∷ []) b = x == b
makes (x ∷ y ∷ ys) b = false

byte_table :
    tabulated
      (λ b.
        let a = shifts (bits 8 b) (fresh []) in
        makes a.done b && ((a.partial == 0) && (a.mask == 1)))
      256
    ≡ true
unfolding tabulated shifts shift makes
byte_table = refl

after : List ℕ → Shift → Shift
after done a = record { done = done ++ a.done; partial = a.partial; mask = a.mask }

complete-after : (done : List ℕ) (a : Shift) → complete (after done a) ≡ after done (complete a)
unfolding complete after
complete-after done a = ground (arith, append_assoc done a.done (a.partial ∷ []))

shifts-after :
    (bs : List Bool) (done : List ℕ) (a : Shift)
    → shifts bs (after done a) ≡ after done (shifts bs a)
unfolding shifts shift after
shifts-after [] done a = refl
shifts-after (b ∷ bs) done a =
    ap (shifts bs) (complete-after done _) ∙ shifts-after bs done (shift b a)

makes_sound : (xs : List ℕ) (b : ℕ) → makes xs b ≡ true → xs ≡ b ∷ []
unfolding makes
makes_sound [] b e = cc
makes_sound (x ∷ []) b e = ground arith
makes_sound (x ∷ y ∷ ys) b e = cc

byte-fresh : (b : ℕ) → b < 256 → shifts (bits 8 b) (fresh []) ≡ fresh (b ∷ [])
byte-fresh b h =
    ground (arith, look_up _ 256 byte_table b h, makes_sound (shifts (bits 8 b) (fresh [])).done b)

byte-shifts :
    (b : ℕ) (done : List ℕ) → b < 256 → shifts (bits 8 b) (fresh done) ≡ fresh (done ++ (b ∷ []))
unfolding after
byte-shifts b done h =
    ap (λ d. shifts (bits 8 b) (fresh d)) (sym (append-nil done))
    ∙ shifts-after (bits 8 b) done (fresh [])
    ∙ ap (after done) (byte-fresh b h)

shifts-append : (xs ys : List Bool) (a : Shift) → shifts (xs ++ ys) a ≡ shifts ys (shifts xs a)
unfolding shifts
shifts-append [] ys a = refl
shifts-append (x ∷ xs) ys a = shifts-append xs ys (shift x a)

-- The bits of a row of bytes make these bytes.
pub shifts-Bytes :
    (xs done : List ℕ) → Bytes xs → shifts (byte_bits xs) (fresh done) ≡ fresh (done ++ xs)
unfolding shifts
shifts-Bytes [] done h = ap fresh (sym (append-nil done))
shifts-Bytes (x ∷ xs) done h =
    shifts-append (bits 8 x) (byte_bits xs) (fresh done)
    ∙ ap (shifts (byte_bits xs)) (byte-shifts x done h.0)
    ∙ shifts-Bytes xs (done ++ (x ∷ [])) h.1
    ∙ ap fresh (append_assoc done (x ∷ []) xs)
