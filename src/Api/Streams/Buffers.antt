-- ===== src/Api/Streams/Buffers.antt =====
-- The two buffers of `HandleStream`, Arduino/EasySD/CartApi.cpp: what `DoubleBufferedStreaming` shows
-- while the loop refills the buffer that is not in use.
use easy_sd_gemini.Prelude.{
  ℕ, zero, suc, ◌+◌, ◌≤◌, ◌<◌, ◌≡◌, refl, ap, subst, ◌∙◌, Bool, true, false, not, List, [], ◌∷◌,
  ◌++◌, arith, length, length-append, length-take, take, drop, get_or, if◌then◌else◌,
}
use easy_sd_gemini.Api.Koala.{put_at}
use easy_sd_gemini.Api.Streams.Blocks.{length-drop}

-- The two buffers.
abbrev pub half : Bool → List ℕ → List ℕ
half false buffer = take 64 buffer
half true buffer = take 64 (drop 64 buffer)

pub cut_whole :
    (xs ys : List ℕ) (n : ℕ) → length xs ≡ n → (take n (xs ++ ys) ≡ xs) × (drop n (xs ++ ys) ≡ ys)
cut_whole [] ys n e = subst (λ k. (take k ys ≡ []) × (drop k ys ≡ ys)) e (refl, refl)
cut_whole (x ∷ xs) ys zero e = absurd (omega (arith, e))
cut_whole (x ∷ xs) ys (suc n) e =
    let (a, b) = cut_whole xs ys n (omega (arith, e)) in (ap (◌∷◌ x) a, b)

pub drop-suc : (i : ℕ) (xs : List ℕ) → i < length xs → drop i xs ≡ get_or xs i 0 ∷ drop (suc i) xs
drop-suc i [] h = elim h [ ]
drop-suc zero (x ∷ xs) h = refl
drop-suc (suc i) (x ∷ xs) h = drop-suc i xs (omega arith)

pub drop_all : (n : ℕ) (xs : List ℕ) → length xs ≤ n → drop n xs ≡ []
drop_all zero [] h = refl
drop_all zero (x ∷ xs) h = elim h [ ]
drop_all (suc n) [] h = refl
drop_all (suc n) (x ∷ xs) h = drop_all n xs (omega arith)

get_or-take : (n i : ℕ) (xs : List ℕ) → i < n → get_or (take n xs) i 0 ≡ get_or xs i 0
get_or-take zero i xs h = elim h [ ]
get_or-take (suc n) i [] h = refl
get_or-take (suc n) zero (x ∷ xs) h = refl
get_or-take (suc n) (suc i) (x ∷ xs) h = get_or-take n i xs (omega arith)

get_or-drop : (n i : ℕ) (xs : List ℕ) → get_or (drop n xs) i 0 ≡ get_or xs (n + i) 0
get_or-drop zero i xs = ap (λ k. get_or xs k 0) (zero_plus i)
  where
    zero_plus : (k : ℕ) → k ≡ 0 + k
    zero_plus k = omega arith
get_or-drop (suc n) i [] = refl
get_or-drop (suc n) i (x ∷ xs) = get_or-drop n i xs ∙ ap (λ k. get_or (x ∷ xs) k 0) (suc_plus n i)
  where
    suc_plus : (a b : ℕ) → suc (a + b) ≡ suc a + b
    suc_plus a b = omega arith

-- A byte of a half as the interrupt handler reads it.
pub half_byte :
    (second : Bool) (i : ℕ) (buffer : List ℕ)
    → i < 64
    → get_or (half second buffer) i 0 ≡ get_or buffer (if second then 64 + i else i) 0
half_byte false i buffer h = get_or-take 64 i buffer h
half_byte true i buffer h = get_or-take 64 i (drop 64 buffer) h ∙ get_or-drop 64 i buffer

pub length-half :
    (second : Bool) (buffer : List ℕ) → 128 ≤ length buffer → length (half second buffer) ≡ 64
length-half false buffer h = omega (arith, length-take 64 buffer)
length-half true buffer h = omega (arith, length-take 64 (drop 64 buffer), length-drop 64 buffer)

-- A refill writes one half and leaves the other.
pub put_half :
    (second : Bool) (block buffer : List ℕ)
    → length block ≡ 64
    → 128 ≤ length buffer
    → let after = put_at (if second then 64 else 0) block buffer in
      (half second after ≡ block)
      × (half (not second) after ≡ half (not second) buffer)
      × (length after ≡ length buffer)
unfolding put_at
put_half false block buffer e h =
    let rest : List ℕ = drop (0 + length block) buffer in
    let (a, b) = cut_whole block rest 64 e in
    (
      a,
      ap (take 64) (b ∙ ap (λ k. drop k buffer) (sixty_four (length block) e)),
      omega (arith, length-append block rest, length-drop (0 + length block) buffer, e),
    )
  where
    sixty_four : (n : ℕ) → n ≡ 64 → 0 + n ≡ 64
    sixty_four n p = omega (arith, p)
put_half true block buffer e h =
    let rest : List ℕ = drop (64 + length block) buffer in
    let front : length (take 64 buffer) ≡ 64 = omega (arith, length-take 64 buffer) in
    let (a, b) = cut_whole (take 64 buffer) (block ++ rest) 64 front in
    let (c, d) = cut_whole block rest 64 e in
    (
      ap (take 64) b ∙ c,
      a,
      omega (
        arith,
        length-append (take 64 buffer) (block ++ rest),
        length-append block rest,
        length-drop (64 + length block) buffer,
        front,
        e,
      ),
    )
