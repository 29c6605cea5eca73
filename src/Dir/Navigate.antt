-- ===== src/Dir/Navigate.antt =====
-- Moving about the card: `ToRoot`, `ChangeDirectory`, `NavigateToPath` and `GoBack` of
-- Arduino/EasySD/DirFunction.cpp.
use easy_sd_gemini.Prelude.{
  ℕ, ◌+◌, ◌%◌, Bool, true, false, not, ◌&&◌, List, [], ◌∷◌, ◌++◌, none, some, ltb, leb, ◌==◌,
  if◌then◌else◌, length, get_or, take,
}
use easy_sd_gemini.SdFat.{SdFat}
use easy_sd_gemini.Dir.{DirState, resync_dir_from_cwd, count_entries, find_dir_sfn}

-- `"/"`
abbrev pub root_path : List ℕ
root_path = b'/' ∷ []

abbrev pub is_empty : List ℕ → Bool
is_empty [] = true
is_empty (_ ∷ _) = false

-- `s[strlen(s)-1] == '/'`
unfoldable pub ends_with_slash : List ℕ → Bool
ends_with_slash [] = false
ends_with_slash (c ∷ []) = c == b'/'
ends_with_slash (c ∷ d ∷ cs) = ends_with_slash (d ∷ cs)

-- `strchr(s, '/') != NULL`
unfoldable pub has_slash : List ℕ → Bool
has_slash [] = false
has_slash (c ∷ cs) = if c == b'/' then true else has_slash cs

-- The path of an entry of a directory: `strcat` with a slash between where none stands.
unfoldable pub join_path : List ℕ → List ℕ → List ℕ
join_path path name = if ends_with_slash path then path ++ name else path ++ (b'/' ∷ name)

-- `GoBack` on its scratch buffer: without the trailing slash, cut at the last slash, which stays
-- where it is the first byte. The loop runs down from the end; here `tail` is what it has passed.
unfoldable pub cut_last_slash : List ℕ → List ℕ
cut_last_slash [] = []
cut_last_slash (c ∷ cs) =
    let rest = cut_last_slash cs in
    if has_slash cs then c ∷ rest else if c == b'/' then [] else c ∷ cs

unfoldable pub drop_last : List ℕ → List ℕ
drop_last [] = []
drop_last (c ∷ []) = []
drop_last (c ∷ d ∷ cs) = c ∷ drop_last (d ∷ cs)

unfoldable pub parent_path : List ℕ → List ℕ
parent_path path =
    let trimmed = if ends_with_slash path then drop_last path else path in
    let cut = cut_last_slash trimmed in if has_slash trimmed && is_empty cut then root_path else cut

module _ ⦃sd : SdFat⦄ where
  -- `ToRoot`.
  unfoldable pub to_root : DirState → DirState
  to_root s =
      let (moved, card) = sd.chdir_root s.card in
      let reset = record s {
        card = card;
        count = 0;
        current_index = 0;
        is_finished = false;
        is_directory = false;
        in_sub_dir = false;
        path_depth = 0;
        current_path = root_path;
      } in
      let (ok, synced) = resync_dir_from_cwd reset in
      if moved then (if ok then count_entries synced else synced) else reset

  -- The `chdir` by the name, and by the short name where that fails.
  unfoldable pub chdir_by_name : List ℕ → DirState → Bool × DirState
  chdir_by_name directory s =
      let (ok, card) = sd.chdir directory s.card in
      let s' = record s { card = card } in
      let (found, s'') = find_dir_sfn directory (length directory % 256) s' in
      if ok then (true, s') else (elim found [
        | none ↦ (false, s'')
        | some sfn ↦ let (ok', card') = sd.chdir sfn s''.card in (ok', record s'' { card = card' })
      ])

  -- A failed `ChangeDirectory` puts the path and the depth back.
  unfoldable pub roll_back : List ℕ → ℕ → DirState → DirState
  roll_back path depth s = record s {
    current_path = path;
    path_depth = depth;
    in_sub_dir = ltb 0 depth;
  }

  -- `ChangeDirectory`.
  unfoldable pub change_directory : List ℕ → DirState → Bool × DirState
  change_directory directory s =
      let entered = record s { current_path = join_path s.current_path directory } in
      let (moved, s1) = chdir_by_name directory entered in
      let (ok, s2) = resync_dir_from_cwd s1 in
      if is_empty directory
      then (false, s)
      else if ltb 64 (length s.current_path + length directory + 2)
      then (false, s)
      else if not moved
      then (false, roll_back s.current_path s.path_depth s1)
      else if not ok
      then (false, roll_back s.current_path s.path_depth s2)
      else (
        true,
        count_entries (record s2 { in_sub_dir = true; path_depth = (s2.path_depth + 1) % 256 }),
      )

  -- The loop of `NavigateToPath` from `p` on; `segment` is what has been read of the segment.
  unfoldable pub navigate_from : List ℕ → List ℕ → DirState → Bool × DirState
  navigate_from segment [] s =
      let (ok, s') = change_directory segment s in
      if is_empty segment then (true, s) else if ok then (true, s') else (false, to_root s')
  navigate_from segment (c ∷ cs) s =
      let (ok, s') = change_directory segment s in
      let onward = navigate_from [] cs s' in
      let reading = navigate_from (segment ++ (c ∷ [])) cs s in
      if c == b'/' then (if ok then onward else (false, to_root s')) else reading

  -- `NavigateToPath`.
  unfoldable pub navigate_to_path : List ℕ → DirState → Bool × DirState
  navigate_to_path [] s = (true, to_root s)
  navigate_to_path (c ∷ cs) s =
      if (c == b'/') && not (is_empty cs)
      then navigate_from [] cs (to_root s)
      else (true, to_root s)

  -- `GoBack`. The scratch buffer holds at most 63 bytes of the path.
  unfoldable pub go_back : DirState → Bool × DirState
  go_back s =
      let path = take 63 s.current_path in
      if s.path_depth == 0
      then (false, s)
      else if leb (length path) 1
      then (true, to_root s)
      else navigate_to_path (parent_path path) s

  -- `ChangeDirectoryBasename`.
  unfoldable pub change_directory_basename : List ℕ → DirState → Bool × DirState
  change_directory_basename basename s =
      if is_empty basename
      then (false, s)
      else if is_parent basename
      then go_back s
      else if has_slash basename
      then (false, s)
      else change_directory basename s
    where
      is_parent : List ℕ → Bool
      is_parent name =
          (length name == 2) && ((get_or name 0 0 == b'.') && (get_or name 1 0 == b'.'))

  -- `ReInit` and `ForceReset`.
  unfoldable pub re_init : DirState → DirState
  re_init s = to_root s
