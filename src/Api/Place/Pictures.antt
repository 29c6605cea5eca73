-- ===== src/Api/Place/Pictures.antt =====
-- The launch of a Koala picture by Arduino/EasySD/CartApi.cpp: the directory behind it.
use easy_sd_gemini.Prelude.{ℕ, refl, List, Option, none, some, if◌then◌else◌}
use easy_sd_gemini.SdFat.{SdFat, rdonly}
use easy_sd_gemini.Dir.Navigate.{is_empty, navigate_to_path}
use easy_sd_gemini.Dir.Placed.{Placed-place, if_has, navigate_to_path-Placed}
use easy_sd_gemini.Api.{Api, Response, code, file_not_found, invalid_content, handle_response}
use easy_sd_gemini.Api.Koala.{
  koa_plugin_path, load_plugin, open_media, put_at, koa_plugin_buffer_offset,
  restore_path_if_provided, koa_fail, launch_koala, koala_with_plugin,
  handle_koala_invoke_from_open_file, handle_koala_invoke,
}
use easy_sd_gemini.Api.Place.Named.{InPlace}

module _ ⦃sd : SdFat⦄ where
  koa_fail-InPlace :
      (path : List ℕ) (response : Response) (s : Api)
      → InPlace s
      → InPlace (koa_fail path response s)
  unfolding koa_fail restore_path_if_provided handle_response
  koa_fail-InPlace path response s p =
      let closed = record s { working_file = none } in
      if_has InPlace (is_empty path) closed
        (record closed { dir = (navigate_to_path path s.dir).1 }) p
        (navigate_to_path-Placed path s.dir)

  koala_with_plugin-InPlace :
      (stub path : List ℕ) (media : sd.File) (s : Api)
      → InPlace s
      → InPlace (koala_with_plugin stub path media s)
  unfolding koala_with_plugin launch_koala handle_response
  koala_with_plugin-InPlace stub path media s (ns, l) =
      let (file, card) = sd.open_file koa_plugin_path rdonly s.dir.card in
      by_file file (record s { dir = record (s.dir) { card = card } })
        (Placed-place s.dir (record (s.dir) { card = card }) refl (ns, l))
    where
      by_file :
          (file : Option sd.File) (looked : Api)
          → InPlace looked
          → InPlace (elim file [
            | none ↦ koa_fail path file_not_found looked
            | some f ↦
                let (ok, plugin) = load_plugin f in
                let read = record looked {
                  shared_buf = put_at koa_plugin_buffer_offset plugin looked.shared_buf;
                } in
                if ok
                then launch_koala stub media plugin read
                else koa_fail path invalid_content read
          ])
      by_file none looked q = koa_fail-InPlace path file_not_found looked q
      by_file (some f) looked q =
          let (ok, plugin) = load_plugin f in
          let read = record looked {
            shared_buf = put_at koa_plugin_buffer_offset plugin looked.shared_buf;
          } in
          if_has InPlace ok (launch_koala stub media plugin read)
            (koa_fail path invalid_content read) q (koa_fail-InPlace path invalid_content read q)

  pub from_open_file-InPlace :
      (stub path : List ℕ) (s : Api)
      → InPlace s
      → InPlace (handle_koala_invoke_from_open_file stub path s)
  unfolding handle_koala_invoke_from_open_file
  from_open_file-InPlace stub path s p = by_file s.working_file
    where
      by_media :
          (response : Response) (media : Option sd.File)
          → InPlace (elim media [
            | none ↦ koa_fail path response s
            | some m ↦ koala_with_plugin stub path m s
          ])
      by_media response none = koa_fail-InPlace path response s p
      by_media response (some m) = koala_with_plugin-InPlace stub path m s p

      by_file :
          (file : Option sd.File)
          → InPlace (elim file [
            | none ↦ koa_fail path invalid_content s
            | some f ↦
                let (response, media) = open_media f in
                elim media [
                  | none ↦ koa_fail path response s
                  | some m ↦ koala_with_plugin stub path m s
                ]
          ])
      by_file none = koa_fail-InPlace path invalid_content s p
      by_file (some f) = by_media (open_media f).0 (open_media f).1

  pub koala-InPlace :
      (stub name path : List ℕ) (s : Api)
      → InPlace s
      → InPlace (handle_koala_invoke stub name path s)
  unfolding handle_koala_invoke handle_response restore_path_if_provided
  koala-InPlace stub name path s (ns, l) =
      let (file, card) = sd.open_file name rdonly s.dir.card in
      by_file file (record s { working_file = file; dir = record (s.dir) { card = card } })
        (Placed-place s.dir (record (s.dir) { card = card }) refl (ns, l))
    where
      by_file :
          (file : Option sd.File) (opened : Api)
          → InPlace opened
          → InPlace (elim file [
            | none ↦ handle_response (code file_not_found) 0 (restore_path_if_provided path opened)
            | some f ↦ handle_koala_invoke_from_open_file stub path opened
          ])
      by_file none opened q =
          if_has InPlace (is_empty path) opened
            (record opened { dir = (navigate_to_path path opened.dir).1 }) q
            (navigate_to_path-Placed path opened.dir)
      by_file (some f) opened q = from_open_file-InPlace stub path opened q
