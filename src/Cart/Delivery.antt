-- ===== src/Cart/Delivery.antt =====
-- What the Commodore 64 gets from the transmit functions of CartInterface.cpp: the page in force at each
-- NMI, and the pauses between.
use easy_sd_gemini.Prelude.{
  ℕ, suc, ◌+◌, ◌-◌, ◌*◌, ◌/◌, ◌%◌, ◌≤◌, ◌<◌, ◌≡◌, refl, sym, ap, ◌∙◌, List, [], ◌∷◌, ◌++◌,
  append-nil, append_assoc, arith, length, ◌==◌, Bool-cases, inl, inr,
}
use easy_sd_gemini.Cart.{
  Cart, Signal, page, nmi_low, wait_us, drive, set_page, set_nmi_low, set_nmi_high,
  delay_microseconds, reset_index, next_index, transmit_paced,
}

-- The page that the select lines carry after the signals, the newest of which stands first.
abbrev pub shown_page : List Signal → ℕ
shown_page [] = 0
shown_page (page v ∷ s) = v
shown_page (_ ∷ s) = shown_page s

-- The bytes that the NMIs have handed over, oldest first.
abbrev pub delivered : List Signal → List ℕ
delivered [] = []
delivered (nmi_low ∷ s) = delivered s ++ (shown_page s ∷ [])
delivered (_ ∷ s) = delivered s

-- The microseconds paused.
abbrev pub paused : List Signal → ℕ
paused [] = 0
paused (wait_us n ∷ s) = n + paused s
paused (_ ∷ s) = paused s

-- A row of bytes, each by the same transmit function.
unfoldable pub transmit_all : (ℕ → Cart → Cart) → List ℕ → Cart → Cart
transmit_all send [] c = c
transmit_all send (x ∷ xs) c = transmit_all send xs (send x c)

-- One byte: what it adds to the signals, and the next index.
pub record Sent (us : ℕ) (xs : List ℕ) (c d : Cart) : Type 0 where
  pub bytes : delivered d.signals ≡ delivered c.signals ++ xs
  pub index : d.transfer_index ≡ (c.transfer_index + length xs) % 256
  pub pauses :
      paused d.signals
      ≡ paused c.signals
        + (10 + us) * length xs
        + (80 - us) * ((c.transfer_index + length xs) / 256)

one-Sent :
    (us x : ℕ) (c : Cart)
    → us ≤ 80
    → c.transfer_index < 256
    → Sent us (x ∷ []) c (transmit_paced us x c)
unfolding transmit_paced drive set_page set_nmi_low set_nmi_high delay_microseconds reset_index
    next_index
one-Sent us x c hu h = elim (Bool-cases (c.transfer_index == 255)) [
  | inl full ↦ simp full (record { bytes = refl; index = ground arith; pauses = ground arith })
  | inr room ↦ simp room (record { bytes = refl; index = ground arith; pauses = ground arith })
]

-- Each byte of a row is handed over by one NMI, in order and with no other byte; the index counts
-- the bytes modulo 256; a byte is followed by `us` µs, and by 80 µs where it ends a block of 256.
pub transmit_all-Sent :
    (us : ℕ) (xs : List ℕ) (c : Cart)
    → us ≤ 80
    → c.transfer_index < 256
    → Sent us xs c (transmit_all (transmit_paced us) xs c)
unfolding transmit_all
transmit_all-Sent us [] c hu h = record {
  bytes = sym (append-nil (delivered c.signals));
  index = omega arith;
  pauses = ground arith;
}
transmit_all-Sent us (x ∷ xs) c hu h =
    let one = one-Sent us x c hu h in
    let rest = transmit_all-Sent us xs (transmit_paced us x c) hu (omega (arith, one.index)) in
    record {
      bytes =
          rest.bytes ∙ ap (λ d. d ++ xs) one.bytes ∙ append_assoc (delivered c.signals) (x ∷ []) xs;
      index = omega (arith, one.index, rest.index);
      pauses = omega (
        arith,
        one.pauses,
        rest.pauses,
        one.index,
        ap (λ k. (80 - us) * k)
            (blocks c.transfer_index (transmit_paced us x c).transfer_index (length xs) one.index),
      );
    }
  where
    blocks : (i j n : ℕ) → j ≡ (i + 1) % 256 → (i + suc n) / 256 ≡ (i + 1) / 256 + (j + n) / 256
    blocks i j n e = omega arith
