-- ===== src/Api/Launch/Bytes.antt =====
-- What `TransmitFileBytes` of Arduino/EasySD/CartApi.cpp sends of a file.
use easy_sd_gemini.Prelude.{
  ℕ, zero, suc, ◌+◌, ◌-◌, ◌≤◌, ◌<◌, min, ◌≡◌, ◌≢◌, refl, sym, ap, subst, ◌∙◌, ◌⊎◌, inl, inr, Bool,
  true, false, not, ◌&&◌, List, [], ◌∷◌, ◌++◌, Option, none, some, ◌▷◌, arith, ◌==◌, ==_iff,
  if◌then◌else◌, length, length-append, length-replicate, replicate,
}
use native.Mathlib.Numerals.{unary_clauses}
use easy_sd_gemini.SdFat.{SdFat}
use easy_sd_gemini.Cart.{Cart, transmit_byte_fast}
use easy_sd_gemini.Cart.Delivery.{transmit_all}
use easy_sd_gemini.Dir.Navigate.{is_empty}
use easy_sd_gemini.Api.Files.{buffer_size}
use easy_sd_gemini.Api.Transfer.{Delivers, fast-Delivers, Delivers-trans, Delivers-nil}
use easy_sd_gemini.Api.Launch.{bytes_of, file_bytes_from, transmit_file_bytes}

-- The first `n` bytes, with zeros where there are fewer.
abbrev pub fill : ℕ → List ℕ → List ℕ
fill zero xs = []
fill (suc n) [] = 0 ∷ fill n []
fill (suc n) (x ∷ xs) = x ∷ fill n xs

pub length-fill : (n : ℕ) (xs : List ℕ) → length (fill n xs) ≡ n
length-fill zero xs = refl
length-fill (suc n) [] = ap suc (length-fill n [])
length-fill (suc n) (x ∷ xs) = ap suc (length-fill n xs)

pub zero_plus : (n : ℕ) → 0 + n ≡ n
zero_plus n = omega arith

pub suc_plus : (m n : ℕ) → suc m + n ≡ suc (m + n)
suc_plus m n = omega arith

pub fill-nil : (m k : ℕ) → fill (m + k) [] ≡ replicate m 0 ++ fill k []
fill-nil zero k = ap (λ n. fill n []) (zero_plus k)
fill-nil (suc m) k = ap (λ n. fill n []) (suc_plus m k) ∙ ap (◌∷◌ 0) (fill-nil m k)

-- A block that is whole, or the last.
pub fill-append :
    (bytes more : List ℕ) (want left : ℕ)
    → length bytes ≤ want
    → (length bytes ≡ want) ⊎ (more ≡ [])
    → fill (want + left) (bytes ++ more)
      ≡ (bytes ++ replicate (want - length bytes) 0) ++ fill left more
fill-append [] more want left h (inr none_more) = simp unary_clauses (
    subst (λ m. fill (want + left) m ≡ replicate want 0 ++ fill left m) (sym none_more)
      (fill-nil want left))
fill-append [] more zero left h (inl e) = ap (λ n. fill n more) (zero_plus left)
fill-append [] more (suc w) left h (inl e) = absurd (omega (arith, e))
fill-append (x ∷ xs) more zero left h e = elim h [ ]
fill-append (x ∷ xs) more (suc w) left h e = simp unary_clauses (
    ap (λ n. fill n (x ∷ (xs ++ more))) (suc_plus w left)
    ∙ ap (◌∷◌ x) (fill-append xs more w left (omega arith) (smaller e)))
  where
    smaller : (suc (length xs) ≡ suc w) ⊎ (more ≡ []) → (length xs ≡ w) ⊎ (more ≡ [])
    smaller (inl p) = inl (omega (arith, p))
    smaller (inr p) = inr p

pub empty_of_length : (xs : List ℕ) → length xs ≡ 0 → xs ≡ []
empty_of_length [] e = refl
empty_of_length (x ∷ xs) e = absurd (omega arith)

and_true : (a b : Bool) → (a && b) ≡ true → (a ≡ true) × (b ≡ true)
and_true true true e = (refl, refl)
and_true true false e = absurd cc
and_true false b e = absurd cc

module _ ⦃sd : SdFat⦄ where
  -- The card answers every read.
  abbrev pub Serves : Type 0
  Serves = (n : ℕ) (f : sd.File) → (sd.read n f).0 ≢ none

  -- Between `c` and `r` a row of `count` bytes went out; where the reads were all right, it is the
  -- file from its position on.
  record Fills (count : ℕ) (f : sd.File) (c : Cart) (ok : Bool) (r : Bool × sd.File × Cart)
      : Type 0 where
    xs : List ℕ
    all : length xs ≡ count
    sends : Delivers xs c r.2
    right : r.0 ≡ true → (ok ≡ true) × (xs ≡ fill count (sd.rest f))
    served : Serves → xs ≡ fill count (sd.rest f)

  -- A read that does not fail fills its block, or has reached the end.
  block_lem :
      (want left : ℕ) (f : sd.File)
      → (sd.read want f).0 ≢ none
      → (length (bytes_of (sd.read want f).0) ≤ want)
        × (fill (want + left) (sd.rest f)
            ≡ (bytes_of (sd.read want f).0
                ++ replicate (want - length (bytes_of (sd.read want f).0)) 0)
              ++ fill left (sd.rest (sd.read want f).1))
  block_lem want left f answered = by_read (sd.read want f) refl answered
    where
      by_read :
          (r : Option (List ℕ) × sd.File)
          → sd.read want f ≡ r
          → r.0 ≢ none
          → (length (bytes_of r.0) ≤ want)
            × (fill (want + left) (sd.rest f)
                ≡ (bytes_of r.0 ++ replicate (want - length (bytes_of r.0)) 0)
                  ++ fill left (sd.rest r.1))
      by_read (none, f') e answered = absurd (answered refl)
      by_read (some bytes, f') e answered =
          let (parts, fits) = sd.read_lem want f f' bytes e in
          let whole = sd.read_full want f f' bytes e in
          let total = ap length parts ∙ length-append bytes (sd.rest f') in
          (
            fits,
            subst
                (λ xs.
                  fill (want + left) xs
                  ≡ (bytes ++ replicate (want - length bytes) 0) ++ fill left (sd.rest f'))
                (sym parts)
                (fill-append bytes (sd.rest f') want left fits
                  (ends (length (sd.rest f')) whole total refl)),
          )
        where
          ends :
              (n : ℕ)
              → length bytes ≡ min want (length (sd.rest f))
              → length (sd.rest f) ≡ length bytes + n
              → length (sd.rest f') ≡ n
              → (length bytes ≡ want) ⊎ (sd.rest f' ≡ [])
          ends zero p q e = inr (empty_of_length (sd.rest f') e)
          ends (suc n) p q e = inl (omega (arith, p, q))

  fits_lem : (want : ℕ) (f : sd.File) → length (bytes_of (sd.read want f).0) ≤ want
  fits_lem want f = by_read (sd.read want f) refl
    where
      by_read : (r : Option (List ℕ) × sd.File) → sd.read want f ≡ r → length (bytes_of r.0) ≤ want
      by_read (none, f') e = omega arith
      by_read (some bytes, f') e = (sd.read_lem want f f' bytes e).1

  file_bytes_from-Fills :
      (fuel count : ℕ) (ok : Bool) (f : sd.File) (c : Cart)
      → count ≤ fuel
      → c.transfer_index < 256
      → Fills count f c ok (file_bytes_from fuel count ok f c)
  unfolding file_bytes_from
  file_bytes_from-Fills zero count ok f c enough h = record {
    xs = [];
    all = omega arith;
    sends = Delivers-nil c h;
    right = λ e. (e, subst (λ n. [] ≡ fill n (sd.rest f)) (none_left count enough) refl);
    served = λ _. subst (λ n. [] ≡ fill n (sd.rest f)) (none_left count enough) refl;
  }
    where
      none_left : (n : ℕ) → n ≤ 0 → 0 ≡ n
      none_left n p = omega arith
  file_bytes_from-Fills (suc fuel) count ok f c enough h =
      either (count == 0) refl (λ l ok' g d. file_bytes_from-Fills fuel l ok' g d)
    where
      want : ℕ
      want = min count buffer_size

      bytes : List ℕ
      bytes = bytes_of (sd.read want f).0

      zeros : List ℕ
      zeros = replicate (want - length bytes) 0

      sent : Cart
      sent = c ▷ transmit_all transmit_byte_fast bytes ▷ transmit_all transmit_byte_fast zeros

      either :
          (z : Bool)
          → (count == 0) ≡ z
          → ((l : ℕ) (ok' : Bool) (g : sd.File) (d : Cart)
              → l ≤ fuel
              → d.transfer_index < 256
              → Fills l g d ok' (file_bytes_from fuel l ok' g d))
          → Fills count f c ok (
              if z
              then (ok, f, c)
              else file_bytes_from fuel
                  (count - want)
                  (ok && not (is_empty bytes))
                  (sd.read want f).1
                  sent)
      either true e ih = record {
        xs = [];
        all = omega (arith, (==_iff count 0).0 e);
        sends = Delivers-nil c h;
        right = λ r. (r, subst (λ n. [] ≡ fill n (sd.rest f)) (sym ((==_iff count 0).0 e)) refl);
        served = λ _. subst (λ n. [] ≡ fill n (sd.rest f)) (sym ((==_iff count 0).0 e)) refl;
      }
      either false e ih =
          let first = fast-Delivers bytes c h in
          let mid = transmit_all transmit_byte_fast bytes c in
          let second = fast-Delivers zeros mid (omega (arith, first.index)) in
          let block : Delivers (bytes ++ zeros) c sent =
            Delivers-trans bytes zeros c mid sent first second in
          let fits = fits_lem want f in
          let some_left : 0 < count = ground (arith, e) in
          let next =
            ih (count - want) (ok && not (is_empty bytes)) (sd.read want f).1 sent (omega arith)
              (omega (arith, block.index)) in
          record {
            xs = (bytes ++ zeros) ++ next.xs;
            all = omega (
              arith,
              length-append (bytes ++ zeros) next.xs,
              length-append bytes zeros,
              length-replicate {A = ℕ} (want - length bytes) 0,
              fits,
              next.all,
            );
            sends = Delivers-trans (bytes ++ zeros) next.xs c sent _ block next.sends;
            right = λ r.
                let (both, same) = next.right r in
                let (good, nonempty) = and_true ok (not (is_empty bytes)) both in
                (good, ap (λ t. (bytes ++ zeros) ++ t) same ∙ filled (answers nonempty));
            served = λ serves.
                ap (λ t. (bytes ++ zeros) ++ t) (next.served serves) ∙ filled (serves want f);
          }
        where
          answers : not (is_empty bytes) ≡ true → (sd.read want f).0 ≢ none
          answers some_byte = λ failed. absurd (cc (some_byte))

          parts : (n : ℕ) → min n buffer_size + (n - min n buffer_size) ≡ n
          parts n = omega arith

          filled :
              (sd.read want f).0 ≢ none
              → (bytes ++ zeros) ++ fill (count - want) (sd.rest (sd.read want f).1)
                ≡ fill count (sd.rest f)
          filled answered =
              sym (block_lem want (count - want) f answered).1
              ∙ ap (λ n. fill n (sd.rest f)) (parts count)

  -- `TransmitFileBytes` sends exactly `count` bytes, one NMI for each; where every read brought a
  -- byte, they are those of the file from its position on, with zeros behind its end.
  pub transmit_file_bytes_lem :
      (count : ℕ) (f : sd.File) (c : Cart)
      → c.transfer_index < 256
      → let (read_ok, f', d) = transmit_file_bytes count f c in
        (xs : List ℕ) × (length xs ≡ count)
        × Delivers xs c d
        × (read_ok ≡ true → xs ≡ fill count (sd.rest f))
        × (Serves → xs ≡ fill count (sd.rest f))
  unfolding transmit_file_bytes
  transmit_file_bytes_lem count f c h =
      let l = file_bytes_from-Fills count count true f c (omega arith) h in
      (l.xs, l.all, l.sends, λ e. (l.right e).1, l.served)
