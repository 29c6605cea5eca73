-- ===== src/Api/Place/Files.antt =====
-- The commands of Arduino/EasySD/CartApi.cpp that leave the directory where it is: those on the
-- working file, and those that delete or create by name.
use easy_sd_gemini.Prelude.{ℕ, ◌≡◌, refl, List, arith}
use easy_sd_gemini.SdFat.{SdFat}
use easy_sd_gemini.Dir.{find_file_sfn, find_dir_sfn, find_entry_sfn, rewind_dir}
use easy_sd_gemini.Dir.Located.{place}
use easy_sd_gemini.Api.{Api, handle_response, with_cart, store_argument, terminate}
use easy_sd_gemini.Api.Place.{Remains}
use easy_sd_gemini.Api.Files.{
  read_file, close_file, write_file, seek_file, get_info_for_file, get_path, get_memory_status,
}
use easy_sd_gemini.Api.Chunks.{read_next_chunk}
use easy_sd_gemini.Api.Named.{delete_file, delete_directory, create_directory}

module _ ⦃sd : SdFat⦄ where
  pub place-read_file : (s : Api) → place (read_file s).dir ≡ place s.dir
  unfolding read_file with_cart handle_response
  place-read_file s = ground arith

  pub place-write_file : (s : Api) → place (write_file s).dir ≡ place s.dir
  unfolding write_file handle_response
  place-write_file s = ground arith

  pub place-delete_file : (s : Api) → place (delete_file s).dir ≡ place s.dir
  unfolding delete_file handle_response terminate store_argument find_file_sfn find_entry_sfn
      rewind_dir
  place-delete_file s = ground arith

  pub place-delete_directory : (s : Api) → place (delete_directory s).dir ≡ place s.dir
  unfolding delete_directory handle_response terminate store_argument find_dir_sfn find_entry_sfn
      rewind_dir
  place-delete_directory s = ground arith

  pub place-create_directory : (s : Api) → place (create_directory s).dir ≡ place s.dir
  unfolding create_directory handle_response terminate store_argument
  place-create_directory s = ground arith

  pub place-close_file : (s : Api) → place (close_file s).dir ≡ place s.dir
  unfolding close_file handle_response
  place-close_file s = ground arith

  pub place-seek_file :
      (width wait : ℕ) (s : Api) → place (seek_file width wait s).dir ≡ place s.dir
  unfolding seek_file handle_response
  place-seek_file width wait s = ground arith

  pub place-get_info_for_file : (s : Api) → place (get_info_for_file s).dir ≡ place s.dir
  unfolding get_info_for_file handle_response with_cart
  place-get_info_for_file s = ground arith

  pub place-get_path : (stale : List ℕ) (s : Api) → place (get_path stale s).dir ≡ place s.dir
  unfolding get_path handle_response with_cart
  place-get_path stale s = refl

  pub place-get_memory_status :
      (free : ℕ) (s : Api) → place (get_memory_status free s).dir ≡ place s.dir
  unfolding get_memory_status handle_response with_cart
  place-get_memory_status free s = refl

  pub read_next_chunk-Remains : (s : Api) → Remains s.dir (read_next_chunk s)
  unfolding read_next_chunk handle_response
  read_next_chunk-Remains s = ground arith
