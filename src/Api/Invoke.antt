-- ===== src/Api/Invoke.antt =====
-- The launch commands of Arduino/EasySD/CartApi.cpp.
use easy_sd_gemini.Prelude.{
  ℕ, ◌+◌, ◌-◌, ◌%◌, Bool, true, false, not, ◌&&◌, ◌||◌, List, [], ◌∷◌, Option, none, some, ltb, leb,
  ◌==◌, if◌then◌else◌, ◌▷◌, length, take, get_or,
}
use easy_sd_gemini.SdFat.{SdFat}
use easy_sd_gemini.Cart.{disable_cartridge}
use easy_sd_gemini.Cart.Listen.{reset_receive}
use easy_sd_gemini.DirSort.{to_lower}
use easy_sd_gemini.Names.{entry_type_dir, entry_type_koa, ends_with_ignore_case}
use easy_sd_gemini.Dir.{close_dir_handle, resync_dir_from_cwd, get_entry_by_dir_idx, find_file_sfn}
use easy_sd_gemini.Dir.Navigate.{is_empty, navigate_to_path}
use easy_sd_gemini.Api.{
  Api, Wait, file_not_found, file_cannot_be_opened, invalid_argument, dir_not_found, successful,
  code, argument, with_cart, get_arguments_static, get_arguments_dynamic, handle_response,
  store_argument, name_at,
}
use easy_sd_gemini.Api.Files.{base_name}
use easy_sd_gemini.Api.Named.{is_absolute, enter_parent}
use easy_sd_gemini.Api.PageCache.{invalid_dir_idx, get_cached_page_dir_idx}
use easy_sd_gemini.Api.Launch.{Beat, load_and_launch_opened_file, load_and_launch_file}
use easy_sd_gemini.Api.Launch.Bytes.{fill}
use easy_sd_gemini.Api.Koala.{put_at, handle_koala_invoke, handle_koala_invoke_from_open_file}

-- "/plugins/" and "plugin.prg"
abbrev pub plugins_prefix : List ℕ
plugins_prefix = b'/' ∷ b'p' ∷ b'l' ∷ b'u' ∷ b'g' ∷ b'i' ∷ b'n' ∷ b's' ∷ b'/' ∷ []

abbrev pub plugin_suffix : List ℕ
plugin_suffix = b'p' ∷ b'l' ∷ b'u' ∷ b'g' ∷ b'i' ∷ b'n' ∷ b'.' ∷ b'p' ∷ b'r' ∷ b'g' ∷ []

-- The tests of the characters from `i` on, one by one: a slash and a dot as they are, a letter in
-- lower case.
unfoldable pub spells : List ℕ → List ℕ → ℕ → Bool
spells value [] i = true
spells value (c ∷ cs) i =
    let rest = spells value cs (i + 1) in
    let v = get_or value i 0 in
    if (if (c == b'/') || (c == b'.') then v == c else to_lower v == c) then rest else false

-- `IsPluginPrgPath`.
unfoldable pub is_plugin_prg_path : List ℕ → Bool
is_plugin_prg_path value =
    if ltb (length value) 19
    then false
    else spells value plugins_prefix 0 && spells value plugin_suffix (length value - 10)

-- What the wait for a plugin sees: its first clock, and its rounds.
pub record Session : Type 0 where
  pub start : ℕ
  pub beats : List Beat

module _ ⦃sd : SdFat⦄ where
  -- `outFile.open(&m_dirFile, idx)`, which takes no directory.
  unfoldable pub open_in_dir : ℕ → sd.Dir → Bool × Option sd.File
  open_in_dir idx dir = elim (sd.open_file_index dir idx) [
    | none ↦ (false, none)
    | some f ↦ if sd.file_is_dir f then (false, none) else (true, some f)
  ]

  -- `OpenFileByDirIdx` on the working file: the success and the state.
  unfoldable pub open_file_by_dir_idx : ℕ → Api → Bool × Api
  open_file_by_dir_idx idx s =
      let (_, d) = resync_dir_from_cwd s.dir in
      elim s.dir.dir_file [
        | some dir ↦ let (ok, file) = open_in_dir idx dir in (ok, record s { working_file = file })
        | none ↦ elim d.dir_file [
          | none ↦ (false, record s { dir = d })
          | some dir ↦
              let (ok, file) = open_in_dir idx dir in
              (ok, record s { dir = d; working_file = file })
        ]
      ]

  -- The end of both launch commands for a file that is not a picture.
  unfoldable pub answered : Api → Api
  answered s = handle_response (code successful) 0 (record s { dir = close_dir_handle s.dir })

  -- `HandleInvokeWithName` behind the move to the directory: the name that it opens, and the path
  -- and the kind of the launch.
  unfoldable pub invoke_in_cwd : List ℕ → Session → List ℕ → List ℕ → Bool → Bool → Api → Option Api
  invoke_in_cwd stub session open_name saved is_koa expect_plugin_session s =
      let (found, d) = find_file_sfn open_name (length open_name % 256) s.dir in
      let looked = record s { dir = d } in
      elim found [
        | none ↦ some (
            handle_response (code file_not_found) 0
              (record looked { dir = (navigate_to_path saved d).1 }))
        | some sfn ↦ elim is_koa [
          | true ↦ some (handle_koala_invoke stub sfn saved looked)
          | false ↦
              load_and_launch_file stub expect_plugin_session session.start session.beats sfn
                (answered looked)
        ]
      ]

  -- The arguments with the NUL behind the name, and the path saved behind them.
  unfoldable pub saved_in_buffer : Api → Api
  saved_in_buffer s =
      let named = store_argument (2 + argument 1 s) 0 s in
      record named {
        shared_buf = put_at 130 (fill 64 (take 63 s.dir.current_path)) named.shared_buf;
      }

  -- `HandleInvokeWithName` behind its arguments.
  unfoldable pub invoke_with_name : List ℕ → Session → Api → Option Api
  invoke_with_name stub session s =
      let named = saved_in_buffer s in
      let file_name = name_at 2 named in
      let saved = take 63 s.dir.current_path in
      let is_koa = ends_with_ignore_case file_name (b'.' ∷ b'k' ∷ b'o' ∷ b'a' ∷ []) in
      let is_plugin = is_plugin_prg_path file_name in
      let (moved, d) = enter_parent saved file_name named.dir in
      if not (is_absolute file_name)
      then invoke_in_cwd stub session file_name saved is_koa is_plugin named
      else if is_empty (base_name file_name)
      then some (handle_response (code invalid_argument) 0 named)
      else if not moved
      then some (handle_response (code dir_not_found) 0 (record named { dir = d }))
      else invoke_in_cwd stub session (base_name file_name) saved is_koa is_plugin
          (record named { dir = d })

  -- A handler whose body may wait as well.
  abbrev pub then_wait : Option (Api × List Wait) → (Api → Option Api) → Option (Api × List Wait)
  then_wait got body = elim got [
    | none ↦ none
    | some (s, ws) ↦ elim (body s) [ none ↦ none | some s' ↦ some (s', ws) ]
  ]

  unfoldable pub handle_invoke_with_name :
      List ℕ → Session → List Wait → Api → Option (Api × List Wait)
  handle_invoke_with_name stub session ws s =
      then_wait (get_arguments_dynamic 1 ws s) (invoke_with_name stub session)

  -- `HandleInvokeWithIndex` with the file open: a picture, or a program.
  unfoldable pub invoke_opened : List ℕ → ℕ → Api → Option Api
  invoke_opened stub type s =
      let closed = record s { dir = close_dir_handle s.dir } in
      if type == entry_type_koa
      then some (handle_koala_invoke_from_open_file stub [] closed)
      else load_and_launch_opened_file stub false 0 [] type
          (handle_response (code successful) 0 closed)

  -- The row's file, by its index in the directory.
  unfoldable pub invoke_entry : List ℕ → ℕ → Api → Option Api
  invoke_entry stub dir_idx s =
      let (ok, opened) = open_file_by_dir_idx dir_idx s in
      elim (get_entry_by_dir_idx dir_idx 32 s.dir) [
        | none ↦ some (handle_response (code file_not_found) 0 s)
        | some (name, type) ↦
            if type == entry_type_dir
            then some (handle_response (code file_not_found) 0 s)
            else if not ok
            then some (handle_response (code file_cannot_be_opened) 0 opened)
            else invoke_opened stub type opened
      ]

  -- `HandleInvokeWithIndex` behind its arguments: the page, the row, and flags that it ignores.
  unfoldable pub invoke_with_index : List ℕ → Api → Option Api
  invoke_with_index stub s =
      let page = argument 0 s in
      let row = argument 1 s in
      let dir_idx = get_cached_page_dir_idx row s.shared_buf in
      if leb 21 row || (not (s.page_entry_page == page) || leb s.page_entry_count row)
      then some (handle_response (code invalid_argument) 0 s)
      else if dir_idx == invalid_dir_idx
      then some (handle_response (code invalid_argument) 0 s)
      else invoke_entry stub dir_idx s

  unfoldable pub handle_invoke_with_index : List ℕ → List Wait → Api → Option (Api × List Wait)
  handle_invoke_with_index stub ws s =
      then_wait (get_arguments_static 3 ws s) (invoke_with_index stub)

  -- `HandleEndTalking`.
  unfoldable pub handle_end_talking : Api → Api
  handle_end_talking = with_cart (λ c. c ▷ disable_cartridge ▷ reset_receive)
