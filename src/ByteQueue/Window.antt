-- ===== src/ByteQueue/Window.antt =====
-- The bytes of the array behind ByteQueue.cpp that lie between two ring indices.
use easy_sd_gemini.Prelude.{
  ℕ, zero, suc, ◌+◌, ◌%◌, ◌<◌, ◌≡◌, refl, ap, ap₂, ◌∙◌, List, [], ◌∷◌, ◌++◌, arith, length, get_or,
  set, get_or-set_self, get_or-set_ne,
}

-- `n` bytes from index `h` on, round the ring of 31 places.
abbrev pub window : List ℕ → ℕ → ℕ → List ℕ
window buf h zero = []
window buf h (suc n) = get_or buf h 0 ∷ window buf ((h + 1) % 31) n

pub length-window : (buf : List ℕ) (h n : ℕ) → length (window buf h n) ≡ n
length-window buf h zero = refl
length-window buf h (suc n) = ap suc (length-window buf ((h + 1) % 31) n)

-- A window grows at its far end by the byte that stands there.
window-suc :
    (buf : List ℕ) (h n i : ℕ)
    → h < 31
    → i ≡ (h + n) % 31
    → window buf h (suc n) ≡ window buf h n ++ (get_or buf i 0 ∷ [])
window-suc buf h zero i hh e = ap (λ k. get_or buf k 0 ∷ []) (omega arith)
window-suc buf h (suc n) i hh e =
    ap (◌∷◌ (get_or buf h 0)) (window-suc buf ((h + 1) % 31) n i (omega arith) (omega arith))

-- A write outside a window leaves it.
window-set_ne :
    (buf : List ℕ) (h n i x : ℕ)
    → h < 31
    → n < 31
    → i ≡ (h + n) % 31
    → (m : ℕ) (j : ℕ) → j < 31
    → (j + m) % 31 ≡ i
    → m < 31
    → window (set buf i x) j m ≡ window buf j m
window-set_ne buf h n i x hh hn e zero j hj ej hm = refl
window-set_ne buf h n i x hh hn e (suc m) j hj ej hm =
    ap₂ ◌∷◌ (get_or-set_ne buf i j x 0 (omega arith))
      (window-set_ne buf h n i x hh hn e m ((j + 1) % 31) (omega arith) (omega arith) (omega arith))

-- A byte written just past a window extends the window by it.
pub window-set :
    (buf : List ℕ) (h n i x : ℕ)
    → length buf ≡ 31
    → h < 31
    → n < 31
    → i ≡ (h + n) % 31
    → window (set buf i x) h (suc n) ≡ window buf h n ++ (x ∷ [])
window-set buf h n i x hl hh hn e =
    window-suc (set buf i x) h n i hh e
    ∙ ap₂ ◌++◌ (window-set_ne buf h n i x hh hn e n h hh (omega arith) hn)
        (ap (λ b. b ∷ []) (get_or-set_self buf i x 0 (omega arith)))
