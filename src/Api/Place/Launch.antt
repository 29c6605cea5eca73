-- ===== src/Api/Place/Launch.antt =====
-- The launch commands of Arduino/EasySD/CartApi.cpp, whose errors lead back to a saved path.
use easy_sd_gemini.Prelude.{
  ℕ, ◌%◌, ◌≡◌, refl, sym, subst, Bool, true, false, not, ◌||◌, List, [], ◌∷◌, Option, none, some,
  leb, ◌==◌, if◌then◌else◌, arith, take, length,
}
use easy_sd_gemini.SdFat.{SdFat, rdonly}
use easy_sd_gemini.Cart.{Cart}
use easy_sd_gemini.Cart.Listen.{start_listening}
use easy_sd_gemini.Names.{
  entry_type_dir, entry_type_koa, ends_with_ignore_case, detect_entry_type_from_name,
}
use easy_sd_gemini.Dir.{
  resync_dir_from_cwd, get_entry_by_dir_idx, close_dir_handle, find_file_sfn, find_entry_sfn,
  rewind_dir,
}
use easy_sd_gemini.Dir.Navigate.{is_empty, navigate_to_path}
use easy_sd_gemini.Dir.Located.{place, place-resync}
use easy_sd_gemini.Dir.Placed.{Placed, Placed-place, if_has, navigate_to_path-Placed}
use easy_sd_gemini.Api.{
  Api, argument, code, file_not_found, file_cannot_be_opened, invalid_argument, dir_not_found,
  successful, name_at, store_argument, handle_response, with_cart,
}
use easy_sd_gemini.Api.Files.{base_name}
use easy_sd_gemini.Api.Named.{is_absolute, enter_parent}
use easy_sd_gemini.Api.PageCache.{invalid_dir_idx, get_cached_page_dir_idx}
use easy_sd_gemini.Api.Launch.{
  Beat, launch_opened, load_and_launch_opened_file, load_and_launch_file, await_session,
}
use easy_sd_gemini.Api.Koala.{handle_koala_invoke_from_open_file, handle_koala_invoke}
use easy_sd_gemini.Api.Invoke.{
  Session, answered, open_in_dir, open_file_by_dir_idx, invoke_in_cwd, saved_in_buffer,
  invoke_with_name, invoke_opened, invoke_entry, invoke_with_index, is_plugin_prg_path,
}
use easy_sd_gemini.Api.Place.{Stays}
use easy_sd_gemini.Api.Place.Named.{InPlace, enter_parent-Placed}
use easy_sd_gemini.Api.Place.Pictures.{from_open_file-InPlace, koala-InPlace}

module _ ⦃sd : SdFat⦄ where
  launched_dir : (stub : List ℕ) (type : ℕ) (s : Api) → (launch_opened stub type s).dir ≡ s.dir
  unfolding launch_opened with_cart
  launched_dir stub type s = ground arith

  launch-Stays :
      (stub : List ℕ) (expect : Bool) (start : ℕ) (beats : List Beat) (type : ℕ) (s : Api)
      → InPlace s
      → Stays (load_and_launch_opened_file stub expect start beats type s)
  unfolding load_and_launch_opened_file
  launch-Stays stub expect start beats type s p =
      let launched = launch_opened stub type s in
      by_file s.working_file expect (await_session start beats (start_listening launched.cart))
        (subst Placed (sym (launched_dir stub type s)) p)
    where
      by_file :
          (file : Option sd.File) (expect : Bool) (o : Option Cart)
          → InPlace (launch_opened stub type s)
          → Stays (elim file [
            | none ↦ some (launch_opened stub type s)
            | some f ↦ elim expect [
              | false ↦ some (launch_opened stub type s)
              | true ↦ elim o [
                | none ↦ none
                | some c ↦ some (record (launch_opened stub type s) { cart = c })
              ]
            ]
          ])
      by_file none expect o q = q
      by_file (some f) false o q = q
      by_file (some f) true none q = tt
      by_file (some f) true (some c) q = q

  launch_file-Stays :
      (stub : List ℕ) (expect : Bool) (start : ℕ) (beats : List Beat) (name : List ℕ) (s : Api)
      → InPlace s
      → Stays (load_and_launch_file stub expect start beats name s)
  unfolding load_and_launch_file
  launch_file-Stays stub expect start beats name s (ns, l) =
      let (file, card) = sd.open_file name rdonly s.dir.card in
      let opened = record s { working_file = file; dir = record (s.dir) { card = card } } in
      launch-Stays stub expect start beats (detect_entry_type_from_name name) opened
        (Placed-place s.dir opened.dir refl (ns, l))

  invoke_in_cwd-Stays :
      (stub : List ℕ) (session : Session) (name saved : List ℕ) (is_koa plugin : Bool) (s : Api)
      → InPlace s
      → Stays (invoke_in_cwd stub session name saved is_koa plugin s)
  unfolding invoke_in_cwd answered close_dir_handle handle_response find_file_sfn find_entry_sfn
      rewind_dir
  invoke_in_cwd-Stays stub session name saved is_koa plugin s p =
      let (found, d) = find_file_sfn name (length name % 256) s.dir in
      by_name found is_koa (record s { dir = d }) (Placed-place s.dir d refl p)
    where
      by_name :
          (found : Option (List ℕ)) (koa : Bool) (looked : Api)
          → InPlace looked
          → Stays (elim found [
            | none ↦ some (
                handle_response
                  (code file_not_found)
                  0
                  (record looked { dir = (navigate_to_path saved looked.dir).1 }))
            | some sfn ↦ elim koa [
              | true ↦ some (handle_koala_invoke stub sfn saved looked)
              | false ↦
                  load_and_launch_file stub plugin session.start session.beats sfn (answered looked)
            ]
          ])
      by_name none koa looked q = navigate_to_path-Placed saved looked.dir
      by_name (some sfn) true looked q = koala-InPlace stub sfn saved looked q
      by_name (some sfn) false looked q =
          launch_file-Stays stub plugin session.start session.beats sfn (answered looked)
            (Placed-place looked.dir (close_dir_handle looked.dir) refl q)

  pub invoke_with_name-Stays :
      (stub : List ℕ) (session : Session) (s : Api)
      → InPlace s
      → Stays (invoke_with_name stub session s)
  unfolding invoke_with_name saved_in_buffer store_argument handle_response
  invoke_with_name-Stays stub session s p =
      let named = saved_in_buffer s in
      let file_name = name_at 2 named in
      let name = base_name file_name in
      let saved = take 63 s.dir.current_path in
      let is_koa = ends_with_ignore_case file_name (b'.' ∷ b'k' ∷ b'o' ∷ b'a' ∷ []) in
      let is_plugin = is_plugin_prg_path file_name in
      let (moved, d) = enter_parent saved file_name named.dir in
      let away = enter_parent-Placed saved file_name named.dir p in
      let here = invoke_in_cwd stub session file_name saved is_koa is_plugin named in
      let there =
        invoke_in_cwd stub session name saved is_koa is_plugin (record named { dir = d }) in
      let refused = some (handle_response (code invalid_argument) 0 named) in
      let lost = some (handle_response (code dir_not_found) 0 (record named { dir = d })) in
      let entered = if not moved then lost else there in
      let by_path = if is_empty name then refused else entered in
      if_has Stays (not (is_absolute file_name)) here by_path
        (invoke_in_cwd-Stays stub session file_name saved is_koa is_plugin named p)
        (if_has Stays (is_empty name) refused entered p (
          if_has Stays (not moved) lost there away (
            invoke_in_cwd-Stays stub session name saved is_koa is_plugin (record named { dir = d })
              away)))

  place-open_file_by_dir_idx :
      (idx : ℕ) (s : Api) → place (open_file_by_dir_idx idx s).1.dir ≡ place s.dir
  unfolding open_file_by_dir_idx
  place-open_file_by_dir_idx idx s = by_files s.dir.dir_file (resync_dir_from_cwd s.dir).1.dir_file
    where
      by_files :
          (first second : Option sd.Dir)
          → let d = (resync_dir_from_cwd s.dir).1 in
            let r : Bool × Api = elim first [
              | some dir ↦
                  let (ok, file) = open_in_dir idx dir in (ok, record s { working_file = file })
              | none ↦ elim second [
                | none ↦ (false, record s { dir = d })
                | some dir ↦
                    let (ok, file) = open_in_dir idx dir in
                    (ok, record s { dir = d; working_file = file })
              ]
            ] in
            place r.1.dir ≡ place s.dir
      by_files (some dir) second = refl
      by_files none none = place-resync s.dir
      by_files none (some dir) = place-resync s.dir

  invoke_opened-Stays :
      (stub : List ℕ) (type : ℕ) (s : Api) → InPlace s → Stays (invoke_opened stub type s)
  unfolding invoke_opened close_dir_handle handle_response
  invoke_opened-Stays stub type s p =
      let closed = record s { dir = close_dir_handle s.dir } in
      let answered = handle_response (code successful) 0 closed in
      let q = Placed-place s.dir closed.dir refl p in
      if_has Stays (type == entry_type_koa)
        (some (handle_koala_invoke_from_open_file stub [] closed))
        (load_and_launch_opened_file stub false 0 [] type answered)
        (from_open_file-InPlace stub [] closed q) (launch-Stays stub false 0 [] type answered q)

  invoke_entry-Stays :
      (stub : List ℕ) (dir_idx : ℕ) (s : Api) → InPlace s → Stays (invoke_entry stub dir_idx s)
  unfolding invoke_entry handle_response
  invoke_entry-Stays stub dir_idx s p =
      let (ok, opened) = open_file_by_dir_idx dir_idx s in
      by_entry ok opened (get_entry_by_dir_idx dir_idx 32 s.dir)
        (Placed-place s.dir opened.dir (place-open_file_by_dir_idx dir_idx s) p)
    where
      by_entry :
          (ok : Bool) (opened : Api) (entry : Option (List ℕ × ℕ))
          → InPlace opened
          → Stays (elim entry [
            | none ↦ some (handle_response (code file_not_found) 0 s)
            | some (name, type) ↦
                if type == entry_type_dir
                then some (handle_response (code file_not_found) 0 s)
                else if not ok
                then some (handle_response (code file_cannot_be_opened) 0 opened)
                else invoke_opened stub type opened
          ])
      by_entry ok opened none q = p
      by_entry ok opened (some (name, type)) q =
          let missing = some (handle_response (code file_not_found) 0 s) in
          let shut = some (handle_response (code file_cannot_be_opened) 0 opened) in
          let launched = invoke_opened stub type opened in
          if_has Stays (type == entry_type_dir) missing (if not ok then shut else launched) p
            (if_has Stays (not ok) shut launched q (invoke_opened-Stays stub type opened q))

  pub invoke_with_index-Stays :
      (stub : List ℕ) (s : Api) → InPlace s → Stays (invoke_with_index stub s)
  unfolding invoke_with_index handle_response
  invoke_with_index-Stays stub s p =
      let page = argument 0 s in
      let row = argument 1 s in
      let dir_idx = get_cached_page_dir_idx row s.shared_buf in
      let outside = leb 21 row || (not (s.page_entry_page == page) || leb s.page_entry_count row) in
      let refused = some (handle_response (code invalid_argument) 0 s) in
      let entry = invoke_entry stub dir_idx s in
      let known = if dir_idx == invalid_dir_idx then refused else entry in
      if_has Stays outside refused known p (
        if_has Stays (dir_idx == invalid_dir_idx) refused entry p
          (invoke_entry-Stays stub dir_idx s p))
