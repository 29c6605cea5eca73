-- ===== src/Tests/Sorting.antt =====
-- The sorted directory buffer at concrete inputs.
use mathlib.Core.List.{Perm}
use easy_sd_gemini.Prelude.{ℕ, ◌≡◌, List, [], ◌∷◌, Bool, true, false, arith, replicate, take, min}
use easy_sd_gemini.DirSort.{DirSortSlot, sorts_before, blank}
use easy_sd_gemini.DirSort.Place.{IsSorted}
use easy_sd_gemini.DirSort.Insert.{insert_all, scan_keeps_smallest}

abbrev entry : List ℕ → Bool → DirSortSlot
entry key is_dir = record { key = key; dir_idx = 0; is_dir = is_dir }

abbrev games_dir : DirSortSlot
games_dir = entry (b'G' ∷ []) true

abbrev file_b : DirSortSlot
file_b = entry (b'b' ∷ []) false

abbrev file_a : DirSortSlot
file_a = entry (b'A' ∷ []) false

-- Two places, both in use.
scan_keeps_smallest_example :
    let (slots', n) = insert_all 2 (file_b ∷ file_a ∷ games_dir ∷ []) (replicate 2 blank, 0) in
    (sorted : List DirSortSlot) × Perm sorted (file_b ∷ file_a ∷ games_dir ∷ [])
    × IsSorted sorts_before sorted
    × (take n slots' ≡ take 2 sorted)
    × (n ≡ min 2 3)
scan_keeps_smallest_example =
    scan_keeps_smallest 2 (file_b ∷ file_a ∷ games_dir ∷ []) (replicate 2 blank) (omega arith)
      (omega arith) (omega arith)
