-- ===== src/Dir/Counting.antt =====
-- `CountEntries` and the scans by `Iterate` of DirFunction.cpp against the directory's entries.
use easy_sd_gemini.Prelude.{
  ℕ, zero, suc, ◌+◌, ◌%◌, ◌^◌, ◌<◌, ◌≡◌, refl, ap, ◌∙◌, List, [], ◌∷◌, some, arith, if◌then◌else◌,
  length,
}
use easy_sd_gemini.SdFat.{SdFat, DirEntry, open_next_nil, open_next_cons}
use easy_sd_gemini.Names.{capture_file_name_preview}
use easy_sd_gemini.Dir.{DirState, rewind_dir, next_entry, entries_left, count_from, count_entries}
use easy_sd_gemini.Dir.Select.{Listed}

-- The entries that are not hidden, as a scan sees them.
abbrev pub visible : List DirEntry → List Listed
visible [] = []
visible (e ∷ es) =
    if e.is_hidden
    then visible es
    else record {
      name = capture_file_name_preview e.name 32;
      is_dir = e.is_dir;
      dir_idx = e.dir_index;
    }
      ∷ visible es

module _ ⦃sd : SdFat⦄ where
  count_step :
      (fuel : ℕ) (d d' : sd.Dir) (e : DirEntry) (n : ℕ)
      → sd.open_next d ≡ some (e, d')
      → count_from (suc fuel) (some d) n
        ≡ count_from fuel (some d') (if e.is_hidden then n else (n + 1) % 2 ^ 16)
  unfolding count_from next_entry
  count_step fuel d d' e n go = rw (go, count_from)

  -- The loop counts the entries that are still to come and are not hidden, and leaves the
  -- directory open.
  count_from_lem :
      (fuel : ℕ) (es : List DirEntry) (d : sd.Dir) (n : ℕ)
      → sd.pending d ≡ es
      → length es < fuel
      → n + length (visible es) < 2 ^ 16
      → (d' : sd.Dir) × (count_from fuel (some d) n ≡ (n + length (visible es), some d'))
        × (sd.entries d' ≡ sd.entries d)
  unfolding count_from next_entry
  count_from_lem zero es d n p h w = elim h [ ]
  count_from_lem (suc fuel) [] d n p h w =
      rw (open_next_nil d p, count_from) (d, ap (λ k. (k, some d)) (omega arith), refl)
  count_from_lem (suc fuel) (e ∷ es) d n p h w =
      let (d', go, left, same) = open_next_cons d e es p in
      let m = if e.is_hidden then n else (n + 1) % 2 ^ 16 in
      let sum : m + length (visible es) ≡ n + length (visible (e ∷ es)) = ground arith in
      let (d'', counted, same') = count_from_lem fuel es d' m left (omega arith) (omega arith) in
      (d'', count_step fuel d d' e n go ∙ counted ∙ ap (λ k. (k, some d'')) sum, same' ∙ same)

  -- A directory file is open on the entries `es`, wherever it stands in them.
  abbrev pub Reads : DirState → List DirEntry → Type 0
  Reads s es = (d : sd.Dir) × (s.dir_file ≡ some d) × (sd.entries d ≡ es)

  -- `CountEntries` counts the entries that are not hidden, and one more for ".." in a
  -- subdirectory, when these are fewer than 65536; it leaves the directory rewound, and the path,
  -- the depth and the flag of a subdirectory as they were.
  pub count_entries_lem :
      (s : DirState) (es : List DirEntry)
      → Reads s es
      → length (visible es) + 1 < 2 ^ 16
      → ((count_entries s).count ≡ (if s.in_sub_dir then 1 else 0) + length (visible es))
        × ((count_entries s).current_index ≡ 0)
        × Reads (count_entries s) es
        × (entries_left (count_entries s).dir_file ≡ es)
        × ((count_entries s).current_path ≡ s.current_path)
        × ((count_entries s).path_depth ≡ s.path_depth)
        × ((count_entries s).in_sub_dir ≡ s.in_sub_dir)
  unfolding count_entries rewind_dir entries_left
  count_entries_lem s es (d, at, same) w =
      let first : ℕ = if s.in_sub_dir then 1 else 0 in
      let all : sd.pending (sd.rewind d) ≡ es = sd.pending-rewind d ∙ same in
      let (d', counted, same') =
        count_from_lem (suc (length (sd.pending (sd.rewind d)))) es (sd.rewind d) first all
          (omega (arith, ap length all)) (ground arith) in
      let back : sd.entries d' ≡ es = same' ∙ sd.entries-rewind d ∙ same in
      rw (at, counted)
        (
          refl,
          refl,
          (sd.rewind d', refl, sd.entries-rewind d' ∙ back),
          sd.pending-rewind d' ∙ back,
          refl,
          refl,
          refl,
        )
