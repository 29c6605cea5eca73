-- ===== src/Dir/Select.antt =====
-- Scans by `Iterate`, and `FindDirectoryNameByVisibleIndex` of Arduino/EasySD/DirFunction.cpp.
use Prim.Native.Nat.{Ordering}
use easy_sd_gemini.Prelude.{
  ℕ, zero, suc, ◌-◌, Bool, true, false, not, ◌&&◌, ◌||◌, List, [], ◌∷◌, Option, none, some, ltb,
  ◌==◌, if◌then◌else◌, length, take,
}
use easy_sd_gemini.SdFat.{SdFat}
use easy_sd_gemini.DirSort.{strcasecmp, is_lt}
use easy_sd_gemini.Names.{is_dotdot}
use easy_sd_gemini.Dir.{DirState, rewind, iterate, entries_left}

-- What a scan reads of the members that `Iterate` sets.
pub record Listed : Type 0 where
  pub name : List ℕ
  pub is_dir : Bool
  pub dir_idx : ℕ

-- `strcasecmp(a, b) > 0`
abbrev pub comes_after : List ℕ → List ℕ → Bool
comes_after a b = elim (strcasecmp a b) [ Ordering.gt ↦ true | _ ↦ false ]

-- The best candidate so far: `found` and `bestName`.
abbrev pub Best : Type 0
Best = Option (List ℕ)

-- The body of the inner loop: a directory above the watermark that is the smallest so far.
unfoldable pub better : List ℕ → Listed → Best → Best
better last_found e best =
    if not e.is_dir || is_dotdot e.name
    then best
    else if comes_after e.name last_found
    then (elim best [
      | none ↦ some (take 31 e.name)
      | some b ↦ if is_lt (strcasecmp e.name b) then some (take 31 e.name) else some b
    ])
    else best

module _ ⦃sd : SdFat⦄ where
  abbrev pub listed : DirState → Listed
  listed s = record {
    name = s.current_file_name;
    is_dir = s.is_directory;
    dir_idx = s.current_dir_idx;
  }

  -- `while (Iterate()) body`, and `while (Iterate() && !IsFinished) body`: `Iterate` sets
  -- `IsFinished` only where it returns 0.
  unfoldable pub scan_from {ℓ} : {S : Type ℓ} → ℕ → (Listed → S → S) → DirState → S → S × DirState
  scan_from zero body s a = (a, s)
  scan_from (suc fuel) body s a =
      let (more, s') = iterate s in
      let rest = scan_from fuel body s' (body (listed s') a) in
      if more && not s'.is_finished then rest else (a, s')

  -- A scan after `Rewind`. Each round takes an entry, but for the one that lists "..", and one
  -- more round ends the loop.
  unfoldable pub scan {ℓ} : {S : Type ℓ} → (Listed → S → S) → DirState → S → S × DirState
  scan body s a =
      let start = rewind s in
      scan_from (suc (suc (length (entries_left start.dir_file)))) body start a

  -- The outer loop: `n` rounds left.
  unfoldable pub select_from : ℕ → List ℕ → DirState → Option (List ℕ) × DirState
  select_from zero last_found s = (some last_found, rewind s)
  select_from (suc n) last_found s =
      let (best, s') = scan (better last_found) s none in
      elim best [ none ↦ (none, rewind s') | some b ↦ select_from n (take 31 b) s' ]

  -- `FindDirectoryNameByVisibleIndex` with a buffer of `out_size` bytes.
  unfoldable pub find_directory_name_by_visible_index :
      ℕ → ℕ → DirState → Option (List ℕ) × DirState
  find_directory_name_by_visible_index visible_index out_size s =
      let sort_index = if s.in_sub_dir then visible_index - 1 else visible_index in
      let (name, s') = select_from (suc sort_index) [] s in
      if ltb out_size 13
      then (none, s)
      else if s.in_sub_dir && (visible_index == 0)
      then (some (take (out_size - 1) (b'.' ∷ b'.' ∷ [])), s)
      else (elim name [ none ↦ (none, s') | some n ↦ (some (take (out_size - 1) n), s') ])
