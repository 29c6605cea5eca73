-- ===== src/Api/Named.antt =====
-- The commands on a file or directory that the computer names, of Arduino/EasySD/CartApi.cpp.
use easy_sd_gemini.Prelude.{
  ℕ, ◌+◌, ◌*◌, ◌%◌, ◌/◌, Bool, true, false, not, ◌&&◌, List, [], ◌∷◌, ◌++◌, Option, none, some, leb,
  ◌==◌, if◌then◌else◌, length, take, drop,
}
use easy_sd_gemini.SdFat.{SdFat, OpenFlags, rdonly, wronly_creat, rdwr_creat}
use easy_sd_gemini.Dir.{DirState, find_file_sfn, find_dir_sfn}
use easy_sd_gemini.Dir.Navigate.{
  is_empty, root_path, cut_last_slash, to_root, navigate_to_path, change_directory_basename,
}
use easy_sd_gemini.Dir.Select.{find_directory_name_by_visible_index}
use easy_sd_gemini.Api.{
  Api, Wait, file_not_found, file_cannot_be_opened, file_deletion_failed, invalid_argument,
  successful, dir_not_found, dir_deletion_failed, dir_already_exists, dir_creation_failed, code,
  argument, get_arguments_static, get_arguments_dynamic, handle_response,
  invalidate_page_entry_cache, terminate, name_at,
}
use easy_sd_gemini.Api.Files.{behind, same_string, base_name}

-- The flags of the protocol, 1 for reading and 2 for writing.
unfoldable pub open_flags : ℕ → OpenFlags
open_flags protocol_flags =
    let want_read = protocol_flags % 2 == 1 in
    let want_write = protocol_flags / 2 % 2 == 1 in
    if want_read && want_write then rdwr_creat else if want_write then wronly_creat else rdonly

unfoldable pub is_absolute : List ℕ → Bool
is_absolute [] = false
is_absolute (c ∷ _) = c == b'/'

module _ ⦃sd : SdFat⦄ where
  -- The move to the directory of an absolute path, from the path `saved`.
  unfoldable pub enter_parent : List ℕ → List ℕ → DirState → Bool × DirState
  enter_parent saved file_name d =
      let parent = cut_last_slash file_name in
      if is_empty parent
      then (if same_string saved root_path then (true, d) else navigate_to_path root_path d)
      else navigate_to_path parent d

  -- The return to the saved path.
  unfoldable pub restore_cwd : List ℕ → DirState → DirState
  restore_cwd saved d =
      let (ok, d') = navigate_to_path saved d in
      if same_string saved d.current_path then d else if ok then d' else to_root d'

  -- `sd.open` under the short name where the directory has one, under the name where it has none.
  unfoldable pub open_in_cwd : List ℕ → OpenFlags → DirState → Option sd.File × DirState
  open_in_cwd name flags d =
      let (found, d') = find_file_sfn name (length name % 256) d in
      let (file, card) = sd.open_file (elim found [ none ↦ name | some sfn ↦ sfn ]) flags d'.card in
      (file, record d' { card = card })

  -- The response to an attempt to open.
  unfoldable pub opened : Option sd.File → Api → Api
  opened none s = handle_response (code file_cannot_be_opened) 1 (record s { working_file = none })
  opened (some f) s = handle_response (code successful) 1 (record s { working_file = some f })

  unfoldable pub open_file : Api → Api
  open_file s =
      let flags = open_flags (argument 0 s) in
      let named = terminate 2 (argument 1 s) s in
      let file_name = name_at 2 named in
      let saved = take 63 named.dir.current_path in
      let (moved, d) = enter_parent saved file_name named.dir in
      let (here, d_here) = open_in_cwd file_name flags named.dir in
      let (there, d_there) = open_in_cwd (base_name file_name) flags d in
      if argument 1 s == 0
      then handle_response (code invalid_argument) 1 s
      else if not (is_absolute file_name)
      then opened here (record named { dir = d_here })
      else if is_empty (base_name file_name)
      then handle_response (code invalid_argument) 1 named
      else if not moved
      then handle_response (code dir_not_found) 1 (record named { dir = d })
      else opened there (record named { dir = restore_cwd saved d_there })

  unfoldable pub handle_open_file : List Wait → Api → Option (Api × List Wait)
  handle_open_file ws s = behind (get_arguments_dynamic 1 ws s) open_file

  unfoldable pub delete_file : Api → Api
  delete_file s =
      let named = terminate 2 (argument 1 s) s in
      let name = name_at 2 named in
      let (found, d) = find_file_sfn name (length name % 256) named.dir in
      let looked = record named { dir = d } in
      if argument 1 s == 0 then handle_response (code invalid_argument) 0 s else (elim found [
        | none ↦ handle_response (code file_not_found) 0 looked
        | some sfn ↦
            let (ok, card) = sd.remove sfn d.card in
            handle_response (code (if ok then successful else file_deletion_failed)) 0
              (record looked { dir = record d { card = card } })
      ])

  unfoldable pub handle_delete_file : List Wait → Api → Option (Api × List Wait)
  handle_delete_file ws s = behind (get_arguments_dynamic 1 ws s) delete_file

  unfoldable pub delete_directory : Api → Api
  delete_directory s =
      let named = terminate 2 (argument 1 s) s in
      let name = name_at 2 named in
      let (found, d) = find_dir_sfn name (length name % 256) named.dir in
      let looked = record named { dir = d } in
      if argument 1 s == 0 then handle_response (code invalid_argument) 0 s else (elim found [
        | none ↦ handle_response (code dir_not_found) 0 looked
        | some sfn ↦
            let (ok, card) = sd.rmdir sfn d.card in
            handle_response (code (if ok then successful else dir_deletion_failed)) 0
              (record looked { dir = record d { card = card } })
      ])

  unfoldable pub handle_delete_directory : List Wait → Api → Option (Api × List Wait)
  handle_delete_directory ws s = behind (get_arguments_dynamic 1 ws s) delete_directory

  unfoldable pub create_directory : Api → Api
  create_directory s =
      let named = terminate 2 (argument 1 s) s in
      let name = name_at 2 named in
      let (ok, card) = sd.mkdir name named.dir.card in
      let made = record named { dir = record (named.dir) { card = card } } in
      if argument 1 s == 0
      then handle_response (code invalid_argument) 0 s
      else if sd.exists name named.dir.card
      then handle_response (code dir_already_exists) 0 named
      else handle_response (code (if ok then successful else dir_creation_failed)) 0 made

  unfoldable pub handle_create_directory : List Wait → Api → Option (Api × List Wait)
  handle_create_directory ws s = behind (get_arguments_dynamic 1 ws s) create_directory

  -- The response to an attempt to change the directory.
  unfoldable pub changed : Bool → Api → Api
  changed true s = handle_response (code successful) 1 (invalidate_page_entry_cache s)
  changed false s = handle_response (code dir_not_found) 1 s

  unfoldable pub change_directory : Api → Api
  change_directory s =
      let named = terminate 1 (argument 0 s) s in
      let (ok, d) = change_directory_basename (name_at 1 named) named.dir in
      if argument 0 s == 0
      then handle_response (code invalid_argument) 1 s
      else changed ok (record named { dir = d })

  unfoldable pub handle_change_directory : List Wait → Api → Option (Api × List Wait)
  handle_change_directory ws s = behind (get_arguments_dynamic 0 ws s) change_directory

  -- `HandleChangeDirectoryIndex`; the name that it finds goes to the buffer behind the arguments.
  unfoldable pub change_directory_index : Api → Api
  change_directory_index s =
      let visible_index = argument 0 s * 21 + argument 1 s in
      let (name, d) = find_directory_name_by_visible_index visible_index 128 s.dir in
      let selected = record s { dir = d } in
      if leb 21 (argument 1 s) then handle_response (code invalid_argument) 1 s else (elim name [
        | none ↦ changed false selected
        | some n ↦
            let (ok, d') = change_directory_basename n d in
            changed ok (record selected {
              dir = d';
              shared_buf = take 2 s.shared_buf ++ (n ++ (0 ∷ drop (3 + length n) s.shared_buf));
            })
      ])

  unfoldable pub handle_change_directory_index : List Wait → Api → Option (Api × List Wait)
  handle_change_directory_index ws s = behind (get_arguments_static 2 ws s) change_directory_index
