-- ===== src/Dir.antt =====
-- `DirFunction` of Arduino/EasySD/DirFunction.cpp and DirFunction.h: its state and its scans of
-- the current directory.
pub mod Navigate
pub mod Select
pub mod Counting
pub mod Iterating
pub mod Scanning
pub mod Rewound
pub mod Paths
pub mod Located
pub mod Arrives
pub mod Finding
pub mod Placed
pub mod Listed
use easy_sd_gemini.Prelude.{
  ℕ, zero, suc, ◌+◌, ◌-◌, ◌%◌, ◌^◌, Bool, true, false, not, ◌&&◌, ◌||◌, List, [], ◌∷◌, ◌++◌, Option,
  none, some, ltb, leb, ◌==◌, if◌then◌else◌, length, take,
}
use easy_sd_gemini.SdFat.{SdFat, DirEntry}
use easy_sd_gemini.Names.{
  capture_file_name_preview, prefix_matches_case_insensitive, detect_entry_type, entry_type_dir,
}

-- The members of `DirFunction`, with the card behind the global `sd`. `m_dirFile` is `none` while
-- it is closed; a `char` array is the string in it, and the `uint8_t` flags are Booleans.
pub record DirState ⦃sd : SdFat⦄ : Type 0 where
  pub card : sd.Card
  pub dir_file : Option sd.Dir
  pub current_path : List ℕ
  pub path_depth : ℕ
  pub count : ℕ
  pub current_index : ℕ
  pub current_file_name : List ℕ
  pub current_dir_idx : ℕ
  pub is_directory : Bool
  pub is_finished : Bool
  pub in_sub_dir : Bool

-- The test of `FindEntrySFN` on an entry.
unfoldable pub wanted : List ℕ → ℕ → Bool → DirEntry → Bool
wanted prefix len want_dir e =
    let lfn = capture_file_name_preview e.name 64 in
    if e.is_hidden || not (if e.is_dir then want_dir else not want_dir)
    then false
    else leb len (length lfn) && prefix_matches_case_insensitive lfn prefix len

module _ ⦃sd : SdFat⦄ where
  unfoldable pub close_dir_handle : DirState → DirState
  close_dir_handle s = record s { dir_file = none }

  unfoldable pub rewind_dir : DirState → DirState
  rewind_dir s = record s {
    dir_file = elim s.dir_file [ none ↦ none | some d ↦ some (sd.rewind d) ];
  }

  -- `ResyncDirFromCwd`; its two assertions only log.
  unfoldable pub resync_dir_from_cwd : DirState → Bool × DirState
  resync_dir_from_cwd s = elim (sd.open_cwd s.card) [
    | none ↦ (false, record s { dir_file = none })
    | some d ↦ (true, record s { dir_file = some (sd.rewind d) })
  ]

  -- `openNext(&m_dirFile)`; it fails on a closed directory.
  unfoldable pub next_entry : Option sd.Dir → Option (DirEntry × sd.Dir)
  next_entry none = none
  next_entry (some d) = sd.open_next d

  -- The entries that a directory file is still to return.
  unfoldable pub entries_left : Option sd.Dir → List DirEntry
  entries_left none = []
  entries_left (some d) = sd.pending d

  -- `while (file.openNext(&m_dirFile)) if (!file.isHidden()) count++;` on an `unsigned int`.
  unfoldable pub count_from : ℕ → Option sd.Dir → ℕ → ℕ × Option sd.Dir
  count_from zero d n = (n, d)
  count_from (suc fuel) d n = elim (next_entry d) [
    | none ↦ (n, d)
    | some (e, d') ↦ count_from fuel (some d') (if e.is_hidden then n else (n + 1) % 2 ^ 16)
  ]

  -- `CountEntries`.
  unfoldable pub count_entries : DirState → DirState
  count_entries s =
      let start = rewind_dir (record s { count = 0; current_index = 0 }) in
      let first : ℕ = if start.in_sub_dir then 1 else 0 in
      let (n, d) = count_from (suc (length (entries_left start.dir_file))) start.dir_file first in
      rewind_dir (record start { count = n; dir_file = d })

  -- `Prepare`.
  unfoldable pub prepare : DirState → DirState
  prepare s = let (ok, s') = resync_dir_from_cwd s in if ok then count_entries s' else s'

  unfoldable pub rewind : DirState → DirState
  rewind s = record (rewind_dir s) { current_index = 0; is_directory = false; is_finished = false }

  -- The loop of `Iterate`: the next entry that is not hidden.
  unfoldable pub iterate_from : ℕ → DirState → Bool × DirState
  iterate_from zero s = (false, record s { is_finished = true })
  iterate_from (suc fuel) s = elim (next_entry s.dir_file) [
    | none ↦ (false, record s { is_finished = true })
    | some (e, d') ↦
        let skipped = iterate_from fuel (record s { dir_file = some d' }) in
        if e.is_hidden then skipped else (
          true,
          record s {
            dir_file = some d';
            current_file_name = capture_file_name_preview e.name 32;
            is_directory = e.is_dir;
            current_dir_idx = e.dir_index;
            current_index = (s.current_index + 1) % 2 ^ 16;
          },
        )
  ]

  -- `Iterate`.
  unfoldable pub iterate : DirState → Bool × DirState
  iterate s =
      let blank = record s { current_file_name = [] } in
      if s.in_sub_dir && (s.current_index == 0)
      then (
        true,
        record blank {
          current_file_name = b'.' ∷ b'.' ∷ [];
          is_directory = true;
          current_index = (s.current_index + 1) % 2 ^ 16;
        },
      )
      else if leb s.count s.current_index
      then (false, record blank { is_finished = true })
      else iterate_from (suc (length (entries_left s.dir_file))) blank

  -- `GetEntryByDirIdx`: the name and the type.
  unfoldable pub get_entry_by_dir_idx : ℕ → ℕ → DirState → Option (List ℕ × ℕ)
  get_entry_by_dir_idx idx out_size s = elim s.dir_file [
    | none ↦ none
    | some d ↦ elim (sd.open_index d idx) [
      | none ↦ none
      | some e ↦ some (capture_file_name_preview e.name out_size, detect_entry_type e)
    ]
  ]

  -- `GetLFNByDirIdx`: the name and whether it is a directory.
  unfoldable pub get_lfn_by_dir_idx : ℕ → ℕ → DirState → Option (List ℕ × Bool)
  get_lfn_by_dir_idx idx out_size s = elim (get_entry_by_dir_idx idx out_size s) [
    | none ↦ none
    | some (name, type) ↦ some (name, type == entry_type_dir)
  ]

  unfoldable pub find_from : ℕ → List ℕ → ℕ → Bool → Option sd.Dir → Option (List ℕ) × Option sd.Dir
  find_from zero prefix len want_dir d = (none, d)
  find_from (suc fuel) prefix len want_dir d = elim (next_entry d) [
    | none ↦ (none, d)
    | some (e, d') ↦
        let rest = find_from fuel prefix len want_dir (some d') in
        if wanted prefix len want_dir e then (some e.sfn, some d') else rest
  ]

  -- `FindEntrySFN`: the short name of the first entry that fits.
  unfoldable pub find_entry_sfn : List ℕ → ℕ → Bool → DirState → Option (List ℕ) × DirState
  find_entry_sfn prefix len want_dir s =
      let start = rewind_dir s in
      let (found, d) =
        find_from (suc (length (entries_left start.dir_file))) prefix len want_dir start.dir_file in
      (found, record start { dir_file = d })

  -- `FindFileSFN` and `FindDirSFN`.
  unfoldable pub find_file_sfn : List ℕ → ℕ → DirState → Option (List ℕ) × DirState
  find_file_sfn prefix len = find_entry_sfn prefix len false

  unfoldable pub find_dir_sfn : List ℕ → ℕ → DirState → Option (List ℕ) × DirState
  find_dir_sfn prefix len = find_entry_sfn prefix len true
