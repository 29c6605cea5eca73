-- ===== src/Api/Rows.antt =====
-- The rows that `HandleReadDirectory` of Arduino/EasySD/CartApi.cpp leaves in the cache, against
-- the slots that share its bytes.
use easy_sd_gemini.Prelude.{
  ℕ, zero, suc, ◌+◌, ◌*◌, ◌%◌, ◌/◌, ◌≤◌, ◌<◌, ◌≡◌, ◌≢◌, ◌⊎◌, inl, inr, Bool-cases, refl, sym, ap,
  ap₂, subst, ◌∙◌, Bool, true, false, List, arith, ltb, lt→ltb, if◌then◌else◌, length, length-set,
  get_or, get_or-set_self, get_or-set_ne, set,
}
use easy_sd_gemini.Api.PageCache.{
  invalid_dir_idx, set_cached_page_dir_idx, get_cached_page_dir_idx, clear_from,
  clear_cached_page_dir_idx, slot_dir_idx, cache_from, cache_page,
}

length-set_cached :
    (row v : ℕ) (buffer : List ℕ) → length (set_cached_page_dir_idx row v buffer) ≡ length buffer
unfolding set_cached_page_dir_idx
length-set_cached row v buffer =
    length-set (set buffer (358 + row * 2) (v % 256)) (358 + row * 2 + 1) (v / 256)
    ∙ length-set buffer (358 + row * 2) (v % 256)

-- A byte outside a row is left alone.
set_cached_ne :
    (row v i : ℕ) (buffer : List ℕ)
    → 358 + row * 2 ≢ i
    → 358 + row * 2 + 1 ≢ i
    → get_or (set_cached_page_dir_idx row v buffer) i 0 ≡ get_or buffer i 0
unfolding set_cached_page_dir_idx
set_cached_ne row v i buffer p q =
    get_or-set_ne (set buffer (358 + row * 2) (v % 256)) (358 + row * 2 + 1) i (v / 256) 0 q
    ∙ get_or-set_ne buffer (358 + row * 2) i (v % 256) 0 p

-- A row reads back what was stored.
get_cached-set_cached :
    (row v : ℕ) (buffer : List ℕ)
    → row < 21
    → length buffer ≡ 400
    → get_cached_page_dir_idx row (set_cached_page_dir_idx row v buffer) ≡ v
unfolding get_cached_page_dir_idx set_cached_page_dir_idx
get_cached-set_cached row v buffer h l =
    let low = set buffer (358 + row * 2) (v % 256) in
    let first : get_or (set low (358 + row * 2 + 1) (v / 256)) (358 + row * 2) 0 ≡ v % 256 =
      get_or-set_ne low (358 + row * 2 + 1) (358 + row * 2) (v / 256) 0 (omega arith)
      ∙ get_or-set_self buffer (358 + row * 2) (v % 256) 0 (omega (arith, l, h)) in
    let second : get_or (set low (358 + row * 2 + 1) (v / 256)) (358 + row * 2 + 1) 0 ≡ v / 256 =
      get_or-set_self low (358 + row * 2 + 1) (v / 256) 0
        (omega (arith, length-set buffer (358 + row * 2) (v % 256), l, h)) in
    omega (arith, first, second)

other_row :
    (row v other : ℕ) (buffer : List ℕ)
    → row ≢ other
    → get_cached_page_dir_idx other (set_cached_page_dir_idx row v buffer)
      ≡ get_cached_page_dir_idx other buffer
unfolding get_cached_page_dir_idx
other_row row v other buffer h =
    ap₂ (λ a b. a + 256 * b)
      (set_cached_ne row v (358 + other * 2) buffer (omega arith) (omega arith))
      (set_cached_ne row v (358 + other * 2 + 1) buffer (omega arith) (omega arith))

-- The rows begin behind the first 18 slots.
slot_kept :
    (row v i : ℕ) (buffer : List ℕ)
    → i < 18
    → slot_dir_idx i (set_cached_page_dir_idx row v buffer) ≡ slot_dir_idx i buffer
unfolding slot_dir_idx
slot_kept row v i buffer h =
    ap₂ (λ a b. a + 256 * b) (set_cached_ne row v (i * 19 + 16) buffer (omega arith) (omega arith))
      (set_cached_ne row v (i * 19 + 17) buffer (omega arith) (omega arith))

cache_step :
    (n i row : ℕ) (buffer : List ℕ)
    → row < 21
    → cache_from (suc n) i row buffer
      ≡ cache_from n (i + 1) (row + 1) (set_cached_page_dir_idx row (slot_dir_idx i buffer) buffer)
unfolding cache_from
cache_step n i row buffer h = simp (lt→ltb row 21 h)

-- The loop leaves the rows before its first one.
row_kept :
    (n i row other : ℕ) (buffer : List ℕ)
    → other < row
    → get_cached_page_dir_idx other (cache_from n i row buffer).1
      ≡ get_cached_page_dir_idx other buffer
unfolding cache_from
row_kept zero i row other buffer h = refl
row_kept (suc n) i row other buffer h = elim (Bool-cases (ltb row 21)) [
  | inl more ↦ simp more (
      row_kept n (i + 1) (row + 1) other _ (omega arith)
      ∙ other_row row (slot_dir_idx i buffer) other buffer (omega arith))
  | inr full ↦ simp full
]

row_stored :
    (n i row j : ℕ) (buffer : List ℕ)
    → j < n
    → row + j < 21
    → i + j < 18
    → length buffer ≡ 400
    → get_cached_page_dir_idx (row + j) (cache_from n i row buffer).1 ≡ slot_dir_idx (i + j) buffer
row_stored zero i row j buffer h r k l = elim h [ ]
row_stored (suc n) i row zero buffer h r k l =
    let stored = set_cached_page_dir_idx row (slot_dir_idx i buffer) buffer in
    let at : row + 0 ≡ row = omega arith in
    let slot : i ≡ i + 0 = omega arith in
    ap (λ x. get_cached_page_dir_idx x (cache_from (suc n) i row buffer).1) at
    ∙ ap (λ b. get_cached_page_dir_idx row b.1) (cache_step n i row buffer (omega arith))
    ∙ row_kept n (i + 1) (row + 1) row stored (omega arith)
    ∙ get_cached-set_cached row (slot_dir_idx i buffer) buffer (omega arith) l
    ∙ ap (λ x. slot_dir_idx x buffer) slot
row_stored (suc n) i row (suc j) buffer h r k l =
    let stored = set_cached_page_dir_idx row (slot_dir_idx i buffer) buffer in
    let at : row + suc j ≡ row + 1 + j = omega arith in
    let slot : i + 1 + j ≡ i + suc j = omega arith in
    ap (λ x. get_cached_page_dir_idx x (cache_from (suc n) i row buffer).1) at
    ∙ ap (λ b. get_cached_page_dir_idx (row + 1 + j) b.1) (cache_step n i row buffer (omega arith))
    ∙ row_stored n (i + 1) (row + 1) j stored (omega arith) (omega arith) (omega arith)
        (length-set_cached row (slot_dir_idx i buffer) buffer ∙ l)
    ∙ slot_kept row (slot_dir_idx i buffer) (i + 1 + j) buffer (omega arith)
    ∙ ap (λ x. slot_dir_idx x buffer) slot

clear_kept :
    (n row i : ℕ) (buffer : List ℕ)
    → i < 18
    → (slot_dir_idx i (clear_from n row buffer) ≡ slot_dir_idx i buffer)
      × (length (clear_from n row buffer) ≡ length buffer)
unfolding clear_from
clear_kept zero row i buffer h = (refl, refl)
clear_kept (suc n) row i buffer h =
    let (same, size) =
      clear_kept n (row + 1) i (set_cached_page_dir_idx row invalid_dir_idx buffer) h in
    (
      same ∙ slot_kept row invalid_dir_idx i buffer h,
      size ∙ length-set_cached row invalid_dir_idx buffer,
    )

-- The cache that a page leaves has the directory index of each of its first 18 slots, in the row
-- that the slot has on the page: the first row is that of "..", where it stands on the page.
pub cache_page_lem :
    (dotdot : Bool) (n i : ℕ) (buffer : List ℕ)
    → i < n
    → i < 18
    → length buffer ≡ 400
    → get_cached_page_dir_idx ((if dotdot then 1 else 0) + i) (cache_page dotdot n buffer).1
      ≡ slot_dir_idx i buffer
unfolding cache_page clear_cached_page_dir_idx
cache_page_lem true n i buffer h k l =
    let (same, size) = clear_kept 21 0 i buffer k in
    let zero_add : 0 + i ≡ i = omega arith in
    let cleared = clear_from 21 0 buffer in
    row_stored n 0 1 i (set_cached_page_dir_idx 0 invalid_dir_idx cleared) h (omega arith)
      (omega arith) (length-set_cached 0 invalid_dir_idx cleared ∙ size ∙ l)
    ∙ ap (λ x. slot_dir_idx x (set_cached_page_dir_idx 0 invalid_dir_idx cleared)) zero_add
    ∙ slot_kept 0 invalid_dir_idx i cleared k
    ∙ same
cache_page_lem false n i buffer h k l =
    let (same, size) = clear_kept 21 0 i buffer k in
    let zero_add : 0 + i ≡ i = omega arith in
    row_stored n 0 0 i (clear_from 21 0 buffer) h (omega arith) (omega arith) (size ∙ l)
    ∙ ap (λ x. slot_dir_idx x (clear_from 21 0 buffer)) zero_add
    ∙ same

-- The index of slot 18 shares its bytes with row 0.
slot_18 : (buffer : List ℕ) → slot_dir_idx 18 buffer ≡ get_cached_page_dir_idx 0 buffer
unfolding slot_dir_idx get_cached_page_dir_idx
slot_18 buffer = refl

row_18_from :
    (n i : ℕ) (buffer : List ℕ)
    → 0 < i
    → i ≤ 18
    → 18 < i + n
    → length buffer ≡ 400
    → get_cached_page_dir_idx 18 (cache_from n i i buffer).1 ≡ get_cached_page_dir_idx 0 buffer
row_18_from zero i buffer p h m l = absurd (omega arith)
row_18_from (suc n) i buffer p h m l = elim (eq_or_lt i h) [
  | inl e ↦
      subst
        (λ k.
          get_cached_page_dir_idx 18 (cache_from (suc n) k k buffer).1
          ≡ get_cached_page_dir_idx 0 buffer)
        (sym e)
        (ap (λ b. get_cached_page_dir_idx 18 b.1) (cache_step n 18 18 buffer (omega arith))
          ∙ row_kept n 19 19 18 (set_cached_page_dir_idx 18 (slot_dir_idx 18 buffer) buffer)
              (omega arith)
          ∙ get_cached-set_cached 18 (slot_dir_idx 18 buffer) buffer (omega arith) l
          ∙ slot_18 buffer)
  | inr early ↦
      let stored = set_cached_page_dir_idx i (slot_dir_idx i buffer) buffer in
      ap (λ b. get_cached_page_dir_idx 18 b.1) (cache_step n i i buffer (omega arith))
      ∙ row_18_from n (i + 1) stored (omega arith) (omega arith) (omega arith)
          (length-set_cached i (slot_dir_idx i buffer) buffer ∙ l)
      ∙ other_row i (slot_dir_idx i buffer) 0 buffer (omega arith)
]
  where
    eq_or_lt : (i : ℕ) → i ≤ 18 → (i ≡ 18) ⊎ (i < 18)
    eq_or_lt i h = ground arith

-- Of a page with more than 18 entries and without "..", row 18 gets the directory index of the
-- first entry, whose row lies over slot 18.
pub cache_page_row_18 :
    (n : ℕ) (buffer : List ℕ)
    → 18 < n
    → length buffer ≡ 400
    → get_cached_page_dir_idx 18 (cache_page false n buffer).1 ≡ slot_dir_idx 0 buffer
unfolding cache_page clear_cached_page_dir_idx
cache_page_row_18 zero buffer h l = elim h [ ]
cache_page_row_18 (suc n) buffer h l =
    let (same, size) = clear_kept 21 0 0 buffer (omega arith) in
    let cleared = clear_from 21 0 buffer in
    let first = slot_dir_idx 0 cleared in
    let stored = set_cached_page_dir_idx 0 first cleared in
    ap (λ b. get_cached_page_dir_idx 18 b.1) (cache_step n 0 0 cleared (omega arith))
    ∙ row_18_from n 1 stored (omega arith) (omega arith) (omega arith)
        (length-set_cached 0 first cleared ∙ size ∙ l)
    ∙ get_cached-set_cached 0 first cleared (omega arith) (size ∙ l)
    ∙ same
