-- ===== src/Api/Place/Named.antt =====
-- The commands of Arduino/EasySD/CartApi.cpp that move about the card: opening by path, and changes
-- of the directory.
use easy_sd_gemini.Prelude.{
  ℕ, ◌+◌, ◌*◌, ◌≡◌, refl, Bool, true, false, not, List, ◌∷◌, ◌++◌, Option, none, some, leb, ◌==◌,
  if◌then◌else◌, take, drop, length,
}
use easy_sd_gemini.SdFat.{SdFat, OpenFlags}
use easy_sd_gemini.Dir.{DirState, find_file_sfn, find_entry_sfn, rewind_dir}
use easy_sd_gemini.Dir.Navigate.{
  is_empty, root_path, cut_last_slash, to_root, navigate_to_path, change_directory_basename,
}
use easy_sd_gemini.Dir.Select.{find_directory_name_by_visible_index}
use easy_sd_gemini.Dir.Located.{place}
use easy_sd_gemini.Dir.Placed.{
  Placed, Placed-place, if_has, to_root-Placed, navigate_to_path-Placed,
  change_directory_basename-Placed,
}
use easy_sd_gemini.Dir.Listed.{find_directory_name-Placed}
use easy_sd_gemini.Api.{
  Api, argument, code, invalid_argument, dir_not_found, terminate, store_argument, name_at,
  handle_response, invalidate_page_entry_cache,
}
use easy_sd_gemini.Api.Files.{same_string, base_name}
use easy_sd_gemini.Api.Named.{
  open_flags, is_absolute, enter_parent, restore_cwd, open_in_cwd, opened, open_file, changed,
  change_directory, change_directory_index,
}

module _ ⦃sd : SdFat⦄ where
  pub enter_parent-Placed :
      (saved file_name : List ℕ) (d : DirState)
      → Placed d
      → Placed (enter_parent saved file_name d).1
  unfolding enter_parent
  enter_parent-Placed saved file_name d p =
      let P : Bool × DirState → Type 0 = λ r. Placed r.1 in
      let parent = cut_last_slash file_name in
      let to_top = navigate_to_path root_path d in
      let at_root = same_string saved root_path in
      if_has P (is_empty parent) (if at_root then (true, d) else to_top) (navigate_to_path parent d)
        (if_has P at_root (true, d) to_top p (navigate_to_path-Placed root_path d))
        (navigate_to_path-Placed parent d)

  restore_cwd-Placed : (saved : List ℕ) (d : DirState) → Placed d → Placed (restore_cwd saved d)
  unfolding restore_cwd
  restore_cwd-Placed saved d p =
      let (ok, d') = navigate_to_path saved d in
      if_has Placed (same_string saved d.current_path) d (if ok then d' else to_root d') p
        (if_has Placed ok d' (to_root d') (navigate_to_path-Placed saved d) (to_root-Placed d'))

  place-open_in_cwd :
      (name : List ℕ) (flags : OpenFlags) (d : DirState)
      → place (open_in_cwd name flags d).1 ≡ place d
  unfolding open_in_cwd find_file_sfn find_entry_sfn rewind_dir
  place-open_in_cwd name flags d = refl

  -- A state of the interface whose directory is placed.
  abbrev pub InPlace : Api → Type 0
  InPlace t = Placed t.dir

  opened-InPlace : (file : Option sd.File) (s : Api) → InPlace s → InPlace (opened file s)
  unfolding opened handle_response
  opened-InPlace none s p = p
  opened-InPlace (some f) s p = p

  pub open_file-InPlace : (s : Api) → InPlace s → InPlace (open_file s)
  unfolding open_file handle_response terminate store_argument
  open_file-InPlace s p =
      let flags = open_flags (argument 0 s) in
      let named = terminate 2 (argument 1 s) s in
      let file_name = name_at 2 named in
      let name = base_name file_name in
      let saved = take 63 named.dir.current_path in
      let (moved, d) = enter_parent saved file_name named.dir in
      let (here, d_here) = open_in_cwd file_name flags named.dir in
      let (there, d_there) = open_in_cwd name flags d in
      let refused = handle_response (code invalid_argument) 1 named in
      let lost = handle_response (code dir_not_found) 1 (record named { dir = d }) in
      let relative = opened here (record named { dir = d_here }) in
      let absolute = opened there (record named { dir = restore_cwd saved d_there }) in
      let away = enter_parent-Placed saved file_name named.dir p in
      let entered = if not moved then lost else absolute in
      let by_path = if is_empty name then refused else entered in
      if_has InPlace (argument 1 s == 0) (handle_response (code invalid_argument) 1 s)
        (if not (is_absolute file_name) then relative else by_path) p
        (if_has InPlace (not (is_absolute file_name)) relative by_path
          (opened-InPlace here (record named { dir = d_here })
            (Placed-place named.dir d_here (place-open_in_cwd file_name flags named.dir) p))
          (if_has InPlace (is_empty name) refused entered p (
            if_has InPlace (not moved) lost absolute away (
              opened-InPlace there (record named { dir = restore_cwd saved d_there })
                (restore_cwd-Placed saved d_there
                  (Placed-place d d_there (place-open_in_cwd name flags d) away))))))

  changed-InPlace : (ok : Bool) (s : Api) → InPlace s → InPlace (changed ok s)
  unfolding changed handle_response invalidate_page_entry_cache
  changed-InPlace true s p = p
  changed-InPlace false s p = p

  pub change_directory-InPlace : (s : Api) → InPlace s → InPlace (change_directory s)
  unfolding change_directory handle_response terminate store_argument
  change_directory-InPlace s p =
      let named = terminate 1 (argument 0 s) s in
      let (ok, d) = change_directory_basename (name_at 1 named) named.dir in
      let gone = record named { dir = d } in
      if_has InPlace (argument 0 s == 0) (handle_response (code invalid_argument) 1 s)
        (changed ok gone) p
        (changed-InPlace ok gone (change_directory_basename-Placed (name_at 1 named) named.dir p))

  pub change_directory_index-InPlace : (s : Api) → InPlace s → InPlace (change_directory_index s)
  unfolding change_directory_index handle_response
  change_directory_index-InPlace s p =
      let visible_index = argument 0 s * 21 + argument 1 s in
      let (name, d) = find_directory_name_by_visible_index visible_index 128 s.dir in
      by_name name d (find_directory_name-Placed visible_index 128 s.dir p)
    where
      by_name :
          (name : Option (List ℕ)) (d : DirState)
          → Placed d
          → InPlace (
              let selected = record s { dir = d } in
              if leb 21 (argument 1 s)
              then handle_response (code invalid_argument) 1 s
              else (elim name [
                | none ↦ changed false selected
                | some n ↦
                    let (ok, d') = change_directory_basename n d in
                    changed ok (record selected {
                      dir = d';
                      shared_buf =
                          take 2 s.shared_buf ++ (n ++ (0 ∷ drop (3 + length n) s.shared_buf));
                    })
              ]))
      by_name none d q =
          if_has InPlace (leb 21 (argument 1 s)) (handle_response (code invalid_argument) 1 s)
            (changed false (record s { dir = d })) p
            (changed-InPlace false (record s { dir = d }) q)
      by_name (some n) d q =
          let (ok, d') = change_directory_basename n d in
          let gone = record s {
            dir = d';
            shared_buf = take 2 s.shared_buf ++ (n ++ (0 ∷ drop (3 + length n) s.shared_buf));
          } in
          if_has InPlace (leb 21 (argument 1 s)) (handle_response (code invalid_argument) 1 s)
            (changed ok gone) p (changed-InPlace ok gone (change_directory_basename-Placed n d q))
