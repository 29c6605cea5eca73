-- ===== src/Api/Transfer.antt =====
-- What `HandleReadFile` of Arduino/EasySD/CartApi.cpp sends of a file.
use easy_sd_gemini.Prelude.{
  ℕ, zero, suc, ◌+◌, ◌-◌, ◌%◌, ◌≤◌, ◌<◌, min, ◌≡◌, refl, sym, ap, subst, ◌∙◌, ◌⊎◌, inl, inr, Bool,
  true, false, List, [], ◌∷◌, ◌++◌, append-nil, append_assoc, Option, none, some, ◌▷◌, arith, ◌==◌,
  ==_iff, if◌then◌else◌, length, length-append, replicate,
}
use easy_sd_gemini.SdFat.{SdFat}
use easy_sd_gemini.Cart.{Cart, delay_microseconds, transmit_byte_fast, transmit_byte_fast_std}
use easy_sd_gemini.Cart.Delivery.{delivered, transmit_all, transmit_all-Sent}
use easy_sd_gemini.Api.Files.{buffer_size, read_loop, transfer_file}

-- From `c` to `d` the NMIs hand over exactly `xs`, and the index counts them.
pub record Delivers (xs : List ℕ) (c d : Cart) : Type 0 where
  pub bytes : delivered d.signals ≡ delivered c.signals ++ xs
  pub index : d.transfer_index ≡ (c.transfer_index + length xs) % 256

pub fast-Delivers :
    (xs : List ℕ) (c : Cart)
    → c.transfer_index < 256
    → Delivers xs c (transmit_all transmit_byte_fast xs c)
unfolding transmit_byte_fast
fast-Delivers xs c h =
    let s = transmit_all-Sent 50 xs c (omega arith) h in record { bytes = s.bytes; index = s.index }

pub fast_std-Delivers :
    (xs : List ℕ) (c : Cart)
    → c.transfer_index < 256
    → Delivers xs c (transmit_all transmit_byte_fast_std xs c)
unfolding transmit_byte_fast_std
fast_std-Delivers xs c h =
    let s = transmit_all-Sent 50 xs c (omega arith) h in record { bytes = s.bytes; index = s.index }

pub Delivers-trans :
    (xs ys : List ℕ) (c d e : Cart) → Delivers xs c d → Delivers ys d e → Delivers (xs ++ ys) c e
Delivers-trans xs ys c d e p q = record {
  bytes = q.bytes ∙ ap (λ b. b ++ ys) p.bytes ∙ append_assoc (delivered c.signals) xs ys;
  index = omega (arith, p.index, q.index, length-append xs ys);
}

pub Delivers-nil : (c : Cart) → c.transfer_index < 256 → Delivers [] c c
Delivers-nil c h = record { bytes = sym (append-nil (delivered c.signals)); index = omega arith }

pub Delivers-delay :
    (us : ℕ) (xs : List ℕ) (c d : Cart) → Delivers xs c d → Delivers xs c (delay_microseconds us d)
unfolding delay_microseconds
Delivers-delay us xs c d p = record { bytes = p.bytes; index = p.index }

module _ ⦃sd : SdFat⦄ where
  -- The loop hands over `xs` of the file.
  record Loops (left : ℕ) (f : sd.File) (c : Cart) (r : ℕ × sd.File × Cart × Bool) : Type 0 where
    xs : List ℕ
    more : List ℕ
    taken : sd.rest f ≡ xs ++ more
    count : length xs + r.0 ≡ left
    sends : Delivers xs c r.2
    ended : r.3 ≡ false → (more ≡ sd.rest r.1) × ((r.0 ≡ 0) ⊎ (more ≡ []))

  idle_loop :
      (left : ℕ) (f : sd.File) (c : Cart) (stalled : Bool)
      → c.transfer_index < 256
      → (stalled ≡ false → (left ≡ 0) ⊎ (sd.rest f ≡ []))
      → Loops left f c (left, f, c, stalled)
  idle_loop left f c stalled h done = record {
    xs = [];
    more = sd.rest f;
    taken = refl;
    count = omega arith;
    sends = Delivers-nil c h;
    ended = λ e. (refl, done e);
  }

  failed_read :
      (left : ℕ) (f f' : sd.File) (c : Cart)
      → c.transfer_index < 256
      → Loops left f c (left, f', c, true)
  failed_read left f f' c h = record {
    xs = [];
    more = sd.rest f;
    taken = refl;
    count = omega arith;
    sends = Delivers-nil c h;
    ended = λ e. absurd cc;
  }

  none_left : (f : sd.File) → (sd.available f == 0) ≡ true → sd.rest f ≡ []
  none_left f e = empty (sd.rest f) (ground (arith, sd.available-rest f))
    where
      empty : (l : List ℕ) → min (length l) 32767 ≡ 0 → l ≡ []
      empty [] e = refl
      empty (x ∷ xs) e = absurd (omega arith)

  read_loop-Loops :
      (fuel left : ℕ) (f : sd.File) (c : Cart)
      → left ≤ fuel
      → c.transfer_index < 256
      → Loops left f c (read_loop fuel left f c)
  unfolding read_loop
  read_loop-Loops zero left f c enough h = idle_loop left f c false h (λ _. inl (omega arith))
  read_loop-Loops (suc fuel) left f c enough h =
      either (left == 0) (sd.available f == 0) (sd.read (min left buffer_size) f) refl refl refl
        (λ l g d. read_loop-Loops fuel l g d)
    where
      after_read :
          (bytes : List ℕ) (f' : sd.File)
          → sd.rest f ≡ bytes ++ sd.rest f'
          → 0 < length bytes
          → length bytes ≤ left
          → ((l : ℕ) (g : sd.File) (d : Cart)
              → l ≤ fuel
              → d.transfer_index < 256
              → Loops l g d (read_loop fuel l g d))
          → Loops left f c (
              read_loop fuel
                (left - length bytes)
                f'
                (delay_microseconds 100 (transmit_all transmit_byte_fast_std bytes c)))
      after_read bytes f' parts some_bytes fits ih =
          let c' = delay_microseconds 100 (transmit_all transmit_byte_fast_std bytes c) in
          let sent : Delivers bytes c c' =
            Delivers-delay 100 bytes c _ (fast_std-Delivers bytes c h) in
          let next = ih (left - length bytes) f' c' (omega arith) (omega (arith, sent.index)) in
          record {
            xs = bytes ++ next.xs;
            more = next.more;
            taken =
                parts
                ∙ ap (λ r. bytes ++ r) next.taken
                ∙ sym (append_assoc bytes next.xs next.more);
            count = omega (arith, length-append bytes next.xs, next.count);
            sends = Delivers-trans bytes next.xs c c' _ sent next.sends;
            ended = next.ended;
          }

      either :
          (z a : Bool) (r : Option (List ℕ) × sd.File)
          → (left == 0) ≡ z
          → (sd.available f == 0) ≡ a
          → sd.read (min left buffer_size) f ≡ r
          → ((l : ℕ) (g : sd.File) (d : Cart)
              → l ≤ fuel
              → d.transfer_index < 256
              → Loops l g d (read_loop fuel l g d))
          → Loops left f c (
              if z then (left, f, c, false) else if a then (left, f, c, false) else (elim (r.0) [
                | none ↦ (left, r.1, c, true)
                | some [] ↦ (left, r.1, c, true)
                | some (b ∷ bs) ↦
                    read_loop fuel
                      (left - length (b ∷ bs))
                      (r.1)
                      (c ▷ transmit_all transmit_byte_fast_std (b ∷ bs) ▷ delay_microseconds 100)
              ]))
      either true a r ez ea er ih = idle_loop left f c false h (λ _. inl ((==_iff left 0).0 ez))
      either false true r ez ea er ih = idle_loop left f c false h (λ _. inr (none_left f ea))
      either false false (none, f') ez ea er ih = failed_read left f f' c h
      either false false (some [], f') ez ea er ih = failed_read left f f' c h
      either false false (some (b ∷ bs), f') ez ea er ih =
          let (parts, fits) = sd.read_lem (min left buffer_size) f f' (b ∷ bs) er in
          after_read (b ∷ bs) f' parts (omega arith) (omega (arith, fits)) ih

  -- The transfer of `HandleReadFile` hands over exactly `total` bytes, a multiple of 256 or not:
  -- bytes of the file from its position on, in order, then zeros. Where no read failed, the file
  -- is behind the bytes handed over, and zeros follow only at its end.
  pub transfer_file_lem :
      (total : ℕ) (f : sd.File) (c : Cart)
      → c.transfer_index < 256
      → let (f', d, stalled) = transfer_file total f c in
        (xs : List ℕ) × (more : List ℕ) × (sd.rest f ≡ xs ++ more)
        × (length xs ≤ total)
        × Delivers (xs ++ replicate (total - length xs) 0) c d
        × (stalled ≡ false → (more ≡ sd.rest f') × ((length xs ≡ total) ⊎ (more ≡ [])))
  unfolding transfer_file
  transfer_file_lem total f c h =
      let r = read_loop total total f c in
      let l = read_loop-Loops total total f c (omega arith) h in
      let left : total - length l.xs ≡ r.0 = omega (arith, l.count) in
      (
        l.xs,
        l.more,
        l.taken,
        omega (arith, l.count),
        Delivers-trans l.xs (replicate (total - length l.xs) 0) c r.2 _ l.sends (
            subst
              (λ n.
                Delivers (replicate n 0) r.2
                  (transmit_all transmit_byte_fast (replicate r.0 0) r.2))
              (sym left) (fast-Delivers (replicate r.0 0) r.2 (omega (arith, l.sends.index)))),
        λ e.
            let (same, end) = l.ended e in
            (same, elim end [ inl z ↦ inl (omega (arith, l.count, z)) | inr done ↦ inr done ]),
      )
