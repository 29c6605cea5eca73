-- ===== src/Tests/Card.antt =====
-- The directory code on a card of two entries.
use easy_sd_gemini.Prelude.{
  ℕ, zero, suc, ap, ap₂, subst, ◌∙◌, min, ◌+◌, ◌≤◌, ◌≡◌, ◌↔◌, refl, List, [], ◌∷◌, ◌++◌, true,
  false, Option, none, some, ◌⊎◌, inl, inr, arith, length, length-take, take, drop, if◌then◌else◌,
}
use easy_sd_gemini.SdFat.{SdFat, DirEntry}
use easy_sd_gemini.Names.{capture_file_name_preview, ends_with_ignore_case}
use easy_sd_gemini.Names.Match.{lower, ends_with_ignore_case_lem}
use easy_sd_gemini.Dir.{DirState, count_entries, entries_left, find_entry_sfn, wanted}
use easy_sd_gemini.Dir.Navigate.{has_slash, change_directory_basename}
use easy_sd_gemini.Dir.Select.{scan}
use easy_sd_gemini.Dir.Counting.{visible, Reads, count_entries_lem}
use easy_sd_gemini.Dir.Scanning.{Scanned, fold_listed}
use easy_sd_gemini.Dir.Rewound.{listing, scan_lem}
use easy_sd_gemini.Dir.Located.{Located}
use easy_sd_gemini.Dir.Arrives.{Arrives, change_directory_basename-Located}
use easy_sd_gemini.Dir.Finding.{First, wanted_iff, find_entry_sfn-First}

-- A card whose every directory has the same entries, and on which every `chdir` succeeds. A
-- directory file is the list of the entries to come.
abbrev next_of : List DirEntry → Option (DirEntry × List DirEntry)
next_of [] = none
next_of (e ∷ es) = some (e, es)

abbrev pub card_of : List DirEntry → SdFat
card_of all = record {
  Card = ℕ;
  Dir = List DirEntry;
  chdir_root = λ c. (true, 0);
  chdir = λ name c. (true, c + 1);
  open_cwd = λ c. some all;
  rewind = λ d. all;
  open_next = next_of;
  open_index = λ d i. none;
  File = List ℕ;
  open_file = λ name flags c. (none, c);
  open_file_index = λ d i. none;
  exists = λ name c. false;
  remove = λ name c. (false, c);
  rmdir = λ name c. (false, c);
  mkdir = λ name c. (true, c);
  read = λ n f. (some (take n f), drop n f);
  available = λ f. min (length f) 32767;
  file_size = λ f. length f;
  file_is_dir = λ f. false;
  seek_set = λ n f. (true, f);
  seek_cur = λ n f. (true, f);
  seek_end = λ n f. (true, f);
  write = λ bytes f. (length bytes, f ++ bytes);
  write_error = λ f. false;
  clear_write_error = λ f. f;
  sync = λ f. (true, f);
  rest = λ f. f;
  read_full = read_whole;
  read_lem = read_parts;
  available-rest = λ f. refl;
  entries = λ d. all;
  pending = λ d. d;
  open_next_lem = next_lem;
  pending-rewind = λ d. refl;
  entries-rewind = λ d. refl;
}
  where
    take_drop : (n : ℕ) (f : List ℕ) → (f ≡ take n f ++ drop n f) × (length (take n f) ≤ n)
    take_drop zero f = (refl, omega arith)
    take_drop (suc n) [] = (refl, omega arith)
    take_drop (suc n) (x ∷ f) =
        let (same, short) = take_drop n f in (ap (λ t. x ∷ t) same, omega arith)

    read_parts :
        (n : ℕ) (f f' bytes : List ℕ)
        → ◌≡◌ {A = Option (List ℕ) × List ℕ} (some (take n f), drop n f) (some bytes, f')
        → (f ≡ bytes ++ f') × (length bytes ≤ n)
    read_parts n f f' bytes e =
        let (same, short) = take_drop n f in
        let head : take n f ≡ bytes = ap (λ r. elim r.0 [ none ↦ [] | some b ↦ b ]) e in
        let tail : drop n f ≡ f' = ap (λ r. r.1) e in
        (same ∙ ap₂ (λ a b. a ++ b) head tail, subst (λ b. length b ≤ n) head short)

    read_whole :
        (n : ℕ) (f f' bytes : List ℕ)
        → ◌≡◌ {A = Option (List ℕ) × List ℕ} (some (take n f), drop n f) (some bytes, f')
        → length bytes ≡ min n (length f)
    read_whole n f f' bytes e =
        let head : take n f ≡ bytes = ap (λ r. elim r.0 [ none ↦ [] | some b ↦ b ]) e in
        subst (λ b. length b ≡ min n (length f)) head (length-take n f)

    next_lem :
        (d : List DirEntry)
        → ((next_of d ≡ none) × (d ≡ []))
          ⊎ ((e : DirEntry) × (d' : List DirEntry) × (next_of d ≡ some (e, d'))
              × (d ≡ e ∷ d')
              × (all ≡ all))
    next_lem [] = inl (refl, refl)
    next_lem (e ∷ es) = inr (e, es, refl, refl, refl)

abbrev pub game : DirEntry
game = record {
  name = b'g' ∷ b'a' ∷ [];
  sfn = b'G' ∷ b'A' ∷ [];
  is_dir = false;
  is_hidden = false;
  dir_index = 3;
}

abbrev pub secret : DirEntry
secret = record {
  name = b'x' ∷ [];
  sfn = b'X' ∷ [];
  is_dir = false;
  is_hidden = true;
  dir_index = 4;
}

abbrev pub disk : SdFat
disk = card_of (secret ∷ game ∷ [])

abbrev pub in_games : DirState ⦃sd = disk⦄
in_games = record {
  card = 1;
  dir_file = some (game ∷ []);
  current_path = b'/' ∷ b'g' ∷ [];
  path_depth = 1;
  count = 2;
  current_index = 0;
  current_file_name = [];
  current_dir_idx = 0;
  is_directory = false;
  is_finished = false;
  in_sub_dir = true;
}

in_games-Reads : Reads ⦃sd = disk⦄ in_games (secret ∷ game ∷ [])
in_games-Reads = (game ∷ [], refl, refl)

in_games-Located : Located ⦃sd = disk⦄ ((b'g' ∷ []) ∷ []) in_games
unfolding has_slash
in_games-Located = record {
  path = refl;
  depth = refl;
  sub = refl;
  segments = ((refl, refl), tt);
  fits = omega arith;
}

scan_lem_example :
    Scanned ⦃sd = disk⦄
      (secret ∷ game ∷ [])
      in_games
      (fold_listed
        (λ e names. names ++ (e.name ∷ []))
        (listing ⦃sd = disk⦄ in_games (secret ∷ game ∷ []))
        [])
      (scan ⦃sd = disk⦄ (λ e names. names ++ (e.name ∷ [])) in_games [])
scan_lem_example =
    scan_lem ⦃sd = disk⦄ (λ e names. names ++ (e.name ∷ [])) in_games (secret ∷ game ∷ []) []
      in_games-Reads refl (omega arith)

count_entries_lem_example :
    let t = count_entries ⦃sd = disk⦄ in_games in
    (t.count ≡ (if in_games.in_sub_dir then 1 else 0) + length (visible (secret ∷ game ∷ [])))
    × (t.current_index ≡ 0)
    × Reads ⦃sd = disk⦄ t (secret ∷ game ∷ [])
    × (entries_left ⦃sd = disk⦄ t.dir_file ≡ secret ∷ game ∷ [])
    × (t.current_path ≡ in_games.current_path)
    × (t.path_depth ≡ in_games.path_depth)
    × (t.in_sub_dir ≡ in_games.in_sub_dir)
count_entries_lem_example =
    count_entries_lem ⦃sd = disk⦄ in_games (secret ∷ game ∷ []) in_games-Reads (omega arith)

change_directory_basename-Located_example :
    (ms : List (List ℕ)) × Located ⦃sd = disk⦄ ms
      (change_directory_basename ⦃sd = disk⦄ (b'.' ∷ b'.' ∷ []) in_games).1
change_directory_basename-Located_example =
    change_directory_basename-Located ⦃sd = disk⦄ ((b'g' ∷ []) ∷ []) (b'.' ∷ b'.' ∷ []) in_games
      in_games-Located

find_entry_sfn-First_example :
    First
      (wanted (b'G' ∷ []) 1 false)
      (secret ∷ game ∷ [])
      (find_entry_sfn ⦃sd = disk⦄ (b'G' ∷ []) 1 false in_games).0
    × Reads ⦃sd = disk⦄
        (find_entry_sfn ⦃sd = disk⦄ (b'G' ∷ []) 1 false in_games).1
        (secret ∷ game ∷ [])
find_entry_sfn-First_example =
    find_entry_sfn-First ⦃sd = disk⦄ (b'G' ∷ []) 1 false in_games (secret ∷ game ∷ [])
      in_games-Reads

wanted_iff_example : (wanted (b'G' ∷ []) 1 false game ≡ true) ↔ (
    (game.is_hidden ≡ false)
    × (game.is_dir ≡ false)
    × (1 ≤ length (capture_file_name_preview game.name 64))
    × (lower (take 1 (capture_file_name_preview game.name 64)) ≡ lower (b'G' ∷ [])))
wanted_iff_example = wanted_iff (b'G' ∷ []) false game

ends_with_ignore_case_lem_example :
    (ends_with_ignore_case (b'a' ∷ b'.' ∷ b'P' ∷ []) (b'.' ∷ b'p' ∷ []) ≡ true)
    ↔ ((2 ≤ 3) × (lower (drop 1 (b'a' ∷ b'.' ∷ b'P' ∷ [])) ≡ lower (b'.' ∷ b'p' ∷ [])))
ends_with_ignore_case_lem_example =
    ends_with_ignore_case_lem (b'a' ∷ b'.' ∷ b'P' ∷ []) (b'.' ∷ b'p' ∷ [])
