-- ===== src/Api/Streams/Blocks.antt =====
-- The blocks that `HandleNonInterruptedStream` of Arduino/EasySD/CartApi.cpp reads of a file.
use easy_sd_gemini.Prelude.{
  ℕ, zero, suc, ◌+◌, ◌-◌, ◌*◌, ◌≤◌, ◌<◌, min, ◌≡◌, ◌≢◌, refl, sym, ap, subst, ◌∙◌, ◌⊎◌, inl, inr,
  Bool, ◌||◌, List, [], ◌∷◌, ◌++◌, append-nil, Option, none, some, ltb, leb, ◌==◌, arith, length,
  length-append, drop, replicate,
}
use easy_sd_gemini.SdFat.{SdFat}
use easy_sd_gemini.Api.Launch.Bytes.{
  Serves, fill, fill-append, zero_plus, suc_plus, empty_of_length,
}
use easy_sd_gemini.Api.Launch.{bytes_of}
use easy_sd_gemini.Api.Streams.{read_and_pad_buffer, read_and_pad_final_aware}

pub drop-nil : (n : ℕ) → drop {A = ℕ} n [] ≡ []
drop-nil zero = refl
drop-nil (suc n) = refl

-- A row of `a + b` bytes in two parts.
pub fill-plus : (a b : ℕ) (xs : List ℕ) → fill (a + b) xs ≡ fill a xs ++ fill b (drop a xs)
fill-plus zero b xs = ap (λ n. fill n xs) (zero_plus b)
fill-plus (suc a) b [] =
    ap (λ n. fill n []) (suc_plus a b)
    ∙ ap (◌∷◌ 0) (fill-plus a b [] ∙ ap (λ r. fill a [] ++ fill b r) (drop-nil a))
fill-plus (suc a) b (x ∷ xs) =
    ap (λ n. fill n (x ∷ xs)) (suc_plus a b) ∙ ap (◌∷◌ x) (fill-plus a b xs)

pub length-drop {ℓ} : {A : Type ℓ} (n : ℕ) (xs : List A) → length (drop n xs) ≡ length xs - n
length-drop zero xs = omega arith
length-drop (suc n) [] = omega arith
length-drop (suc n) (x ∷ xs) = omega (arith, length-drop n xs)

drop_past :
    (bytes more : List ℕ) (n : ℕ)
    → length bytes ≤ n
    → (length bytes ≡ n) ⊎ (more ≡ [])
    → drop n (bytes ++ more) ≡ more
drop_past [] more zero h e = refl
drop_past [] more (suc n) h (inl e) = absurd (omega (arith, e))
drop_past [] more (suc n) h (inr e) = subst (λ m. drop (suc n) m ≡ m) (sym e) refl
drop_past (x ∷ xs) more zero h e = elim h [ ]
drop_past (x ∷ xs) more (suc n) h (inl e) =
    drop_past xs more n (omega arith) (inl (omega (arith, e)))
drop_past (x ∷ xs) more (suc n) h (inr e) = drop_past xs more n (omega arith) (inr e)

-- `k` blocks of `len` bytes are enough for `n` bytes, and no block of them is without need but the
-- first.
pub record Blocks (k len n : ℕ) : Type 0 where
  pub enough : n ≤ k * len
  pub needed : (k ≡ 1) ⊎ ((k - 1) * len < n)

module _ ⦃sd : SdFat⦄ where
  -- What a block is: the next bytes of the file, with zeros behind its end; whether it is the last;
  -- and the file behind it.
  pub record ReadsBlock (len : ℕ) (f : sd.File) (r : Bool × List ℕ × sd.File) : Type 0 where
    pub last : r.0 ≡ leb (length (sd.rest f)) len
    pub block : r.1 ≡ fill len (sd.rest f)
    pub more : sd.rest r.2 ≡ drop len (sd.rest f)

  pub read_and_pad_final_aware-ReadsBlock :
      (len : ℕ) (f : sd.File) → Serves → ReadsBlock len f (read_and_pad_final_aware len 0x00 f)
  unfolding read_and_pad_final_aware read_and_pad_buffer
  read_and_pad_final_aware-ReadsBlock len f serves = by_read (sd.read len f) refl (serves len f)
    where
      by_read :
          (r : Option (List ℕ) × sd.File)
          → sd.read len f ≡ r
          → r.0 ≢ none
          → ReadsBlock len f (
            ltb (length (bytes_of r.0)) len || (sd.available r.1 == 0),
            bytes_of r.0 ++ replicate (len - length (bytes_of r.0)) 0x00,
            r.1,
          )
      by_read (none, g) e answered = absurd (answered refl)
      by_read (some bytes, g) e answered =
          let (parts, fits) = sd.read_lem len f g bytes e in
          let whole = sd.read_full len f g bytes e in
          let total = ap length parts ∙ length-append bytes (sd.rest g) in
          let ending = ends (length (sd.rest g)) whole total refl in
          record {
            last = ground (arith, total, whole, sd.available-rest g);
            block =
                sym (append-nil _)
                ∙ sym (fill-append bytes (sd.rest g) len 0 fits ending)
                ∙ ap (λ n. fill n (bytes ++ sd.rest g)) (plus_zero len)
                ∙ ap (fill len) (sym parts);
            more = sym (drop_past bytes (sd.rest g) len fits ending) ∙ ap (drop len) (sym parts);
          }
        where
          plus_zero : (n : ℕ) → n + 0 ≡ n
          plus_zero n = omega arith

          ends :
              (n : ℕ)
              → length bytes ≡ min len (length (sd.rest f))
              → length (sd.rest f) ≡ length bytes + n
              → length (sd.rest g) ≡ n
              → (length bytes ≡ len) ⊎ (sd.rest g ≡ [])
          ends zero p q e = inr (empty_of_length (sd.rest g) e)
          ends (suc n) p q e = inl (omega (arith, p, q))
