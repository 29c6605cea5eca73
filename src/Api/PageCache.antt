-- ===== src/Api/PageCache.antt =====
-- The cache of directory indices in the shared buffer: `SetCachedPageDirIdx` and its neighbours of
-- Arduino/EasySD/CartApi.cpp, and the sort buffer that lies over the same bytes.
use easy_sd_gemini.Prelude.{
  ℕ, zero, suc, ◌+◌, ◌*◌, ◌%◌, ◌/◌, Bool, List, [], ◌∷◌, ◌++◌, ltb, if◌then◌else◌, length, get_or,
  set, take, drop, replicate,
}
use easy_sd_gemini.DirSort.{DirSortSlot}

abbrev pub invalid_dir_idx : ℕ
invalid_dir_idx = 0xffff

-- NON_INTERRUPTED_BUFFER_SIZE - 21 * 2
abbrev pub page_dir_idx_cache_offset : ℕ
page_dir_idx_cache_offset = 358

unfoldable pub set_cached_page_dir_idx : ℕ → ℕ → List ℕ → List ℕ
set_cached_page_dir_idx row dir_idx buffer =
    let offset = page_dir_idx_cache_offset + row * 2 in
    set (set buffer offset (dir_idx % 256)) (offset + 1) (dir_idx / 256)

unfoldable pub get_cached_page_dir_idx : ℕ → List ℕ → ℕ
get_cached_page_dir_idx row buffer =
    let offset = page_dir_idx_cache_offset + row * 2 in
    get_or buffer offset 0 + 256 * get_or buffer (offset + 1) 0

-- The loop of `ClearCachedPageDirIdx`, with `n` rows left.
unfoldable pub clear_from : ℕ → ℕ → List ℕ → List ℕ
clear_from zero row buffer = buffer
clear_from (suc n) row buffer =
    clear_from n (row + 1) (set_cached_page_dir_idx row invalid_dir_idx buffer)

unfoldable pub clear_cached_page_dir_idx : List ℕ → List ℕ
clear_cached_page_dir_idx = clear_from 21 0

-- A slot of the sort buffer as its 19 bytes.
unfoldable pub slot_bytes : DirSortSlot → List ℕ
slot_bytes s =
    take 16 (s.key ++ replicate 16 0)
    ++ (s.dir_idx % 256 ∷ s.dir_idx / 256 ∷ (if s.is_dir then 1 else 0) ∷ [])

unfoldable pub slots_bytes : List DirSortSlot → List ℕ
slots_bytes [] = []
slots_bytes (s ∷ ss) = slot_bytes s ++ slots_bytes ss

-- The buffer with the slots over its start.
unfoldable pub overlay : List DirSortSlot → List ℕ → List ℕ
overlay slots buffer = slots_bytes slots ++ drop (length (slots_bytes slots)) buffer

-- `slots[i].dirIdx`
unfoldable pub slot_dir_idx : ℕ → List ℕ → ℕ
slot_dir_idx i buffer = get_or buffer (i * 19 + 16) 0 + 256 * get_or buffer (i * 19 + 17) 0

-- The loop that stores the rows: `n` slots left, the next one `i`.
unfoldable pub cache_from : ℕ → ℕ → ℕ → List ℕ → ℕ × List ℕ
cache_from zero i row buffer = (row, buffer)
cache_from (suc n) i row buffer =
    let more =
      cache_from n (i + 1) (row + 1) (set_cached_page_dir_idx row (slot_dir_idx i buffer) buffer) in
    if ltb row 21 then more else (row, buffer)

-- The end of `HandleReadDirectory`: the rows in use and the buffer.
unfoldable pub cache_page : Bool → ℕ → List ℕ → ℕ × List ℕ
cache_page dotdot num_slots buffer =
    let cleared = clear_cached_page_dir_idx buffer in
    if dotdot
    then cache_from num_slots 0 1 (set_cached_page_dir_idx 0 invalid_dir_idx cleared)
    else cache_from num_slots 0 0 cleared
