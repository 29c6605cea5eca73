-- ===== src/Api/Place/Commands.antt =====
-- The switch of Arduino/EasySD/CartApi.cpp, command by command: the directory behind it.
use easy_sd_gemini.Prelude.{ℕ, ◌≡◌, refl, List, [], Option}
use easy_sd_gemini.SdFat.{SdFat}
use easy_sd_gemini.Cart.{set_page}
use easy_sd_gemini.Dir.{prepare}
use easy_sd_gemini.Dir.Located.{place, prepare-Located, to_root-Located}
use easy_sd_gemini.Dir.Placed.{Placed-place}
use easy_sd_gemini.Dir.Navigate.{re_init}
use easy_sd_gemini.Api.{Api, Wait, with_cart, get_arguments_static, get_arguments_dynamic}
use easy_sd_gemini.Api.Files
use easy_sd_gemini.Api.Named
use easy_sd_gemini.Api.Chunks
use easy_sd_gemini.Api.Invoke
use easy_sd_gemini.Api.Files.{
  behind, handle_read_file, handle_close_file, handle_write_file, handle_seek_file,
  handle_long_seek_file, handle_get_info_for_file, handle_get_path, handle_get_memory_status,
}
use easy_sd_gemini.Api.Named.{
  handle_open_file, handle_delete_file, handle_delete_directory, handle_create_directory,
  handle_change_directory, handle_change_directory_index,
}
use easy_sd_gemini.Api.Chunks.{handle_read_next_chunk}
use easy_sd_gemini.Api.Listing.{read_directory, handle_read_directory}
use easy_sd_gemini.Api.Launch.{transfer_menu}
use easy_sd_gemini.Api.Invoke.{
  handle_invoke_with_name, handle_invoke_with_index, handle_end_talking, then_wait,
}
use easy_sd_gemini.Api.Streams.{
  stream_file, handle_stream, non_interrupted_stream, handle_non_interrupted_stream,
}
use easy_sd_gemini.Api.Dispatch.{
  Command, read_file, open_file, close_file, write_file, delete_file, seek_file, long_seek_file,
  get_info_for_file, get_path, read_dir, change_dir, delete_dir, create_dir, invoke_with_name,
  invoke_with_index, stream, ni_stream, read_next_chunk, end_talking, exit_to_menu,
  change_dir_index, get_memory_status, Flash, Inputs, state_of, run_command,
}
use easy_sd_gemini.Api.Place.{
  Stays, Remains-Stays, behind-Stays, then_wait-Stays, get_arguments_static-Kept,
  get_arguments_dynamic-Kept,
}
use easy_sd_gemini.Api.Place.Files.{
  place-read_file, place-close_file, place-write_file, place-seek_file, place-get_info_for_file,
  place-get_path, place-get_memory_status, place-delete_file, place-delete_directory,
  place-create_directory, read_next_chunk-Remains,
}
use easy_sd_gemini.Api.Place.Named.{
  InPlace, open_file-InPlace, change_directory-InPlace, change_directory_index-InPlace,
}
use easy_sd_gemini.Api.Place.Listing.{place-read_directory}
use easy_sd_gemini.Api.Place.Launch.{invoke_with_name-Stays, invoke_with_index-Stays}
use easy_sd_gemini.Api.Place.Streams.{stream_file-Remains, non_interrupted_stream-Remains}

module _ ⦃sd : SdFat⦄ where
  -- A handler with `n` arguments whose body leaves the directory where it is.
  static-Stays :
      (n : ℕ) (ws : List Wait) (body : Api → Api) (s : Api)
      → ((t : Api) → place (body t).dir ≡ place t.dir)
      → InPlace s
      → Stays (state_of (behind (get_arguments_static n ws s) body))
  static-Stays n ws body s kept p =
      behind-Stays (get_arguments_static n ws s) body s.dir (get_arguments_static-Kept n ws s) p
        (λ t q. Placed-place t.dir (body t).dir (kept t) q)

  -- A handler with a name whose body keeps the directory placed.
  dynamic-Stays :
      (n : ℕ) (ws : List Wait) (body : Api → Api) (s : Api)
      → ((t : Api) → InPlace t → InPlace (body t))
      → InPlace s
      → Stays (state_of (behind (get_arguments_dynamic n ws s) body))
  dynamic-Stays n ws body s kept p =
      behind-Stays (get_arguments_dynamic n ws s) body s.dir (get_arguments_dynamic-Kept n ws s) p
        kept

  -- A handler whose body may go on for ever, and leaves the directory where it is.
  waiting-Stays :
      (n : ℕ) (ws : List Wait) (body : Api → Option Api) (s : Api)
      → ((t : Api) → InPlace t → Stays (body t))
      → InPlace s
      → Stays (state_of (then_wait (get_arguments_static n ws s) body))
  waiting-Stays n ws body s kept p =
      then_wait-Stays (get_arguments_static n ws s) body s.dir (get_arguments_static-Kept n ws s) p
        kept

  pub transfer_menu-InPlace :
      (rom : Flash) (s : Api) → InPlace (transfer_menu rom.stub rom.cartridge_data s)
  unfolding transfer_menu re_init
  transfer_menu-InPlace rom s =
      Placed-place (prepare (re_init s.dir)) _ refl
        ([], prepare-Located [] _ (to_root-Located s.dir))

  pub run_command-Stays :
      (rom : Flash) (command : Command) (i : Inputs) (s : Api)
      → InPlace s
      → Stays (run_command rom command i s)
  unfolding run_command handle_end_talking with_cart handle_read_file handle_close_file
      handle_write_file handle_seek_file handle_long_seek_file handle_get_info_for_file
      handle_get_path handle_get_memory_status handle_open_file handle_delete_file
      handle_delete_directory handle_create_directory handle_change_directory
      handle_change_directory_index handle_read_next_chunk handle_read_directory
      handle_invoke_with_name handle_invoke_with_index handle_stream handle_non_interrupted_stream
  run_command-Stays rom read_file i s p = static-Stays 1 i.waits Files.read_file s place-read_file p
  run_command-Stays rom open_file i s p =
      dynamic-Stays 1 i.waits Named.open_file s open_file-InPlace p
  run_command-Stays rom close_file i s p =
      static-Stays 0 i.waits Files.close_file s place-close_file p
  run_command-Stays rom write_file i s p =
      static-Stays 32 i.waits Files.write_file s place-write_file p
  run_command-Stays rom delete_file i s p =
      dynamic-Stays 1 i.waits Named.delete_file s
        (λ t q. Placed-place t.dir (Named.delete_file t).dir (place-delete_file t) q) p
  run_command-Stays rom seek_file i s p =
      static-Stays 3 i.waits (Files.seek_file 2 1) s (place-seek_file 2 1) p
  run_command-Stays rom long_seek_file i s p =
      static-Stays 5 i.waits (Files.seek_file 4 0) s (place-seek_file 4 0) p
  run_command-Stays rom get_info_for_file i s p =
      static-Stays 0 i.waits Files.get_info_for_file s place-get_info_for_file p
  run_command-Stays rom get_path i s p =
      static-Stays 0 i.waits (Files.get_path i.stale_path) s (place-get_path i.stale_path) p
  run_command-Stays rom get_memory_status i s p =
      static-Stays 0 i.waits (Files.get_memory_status i.free_sram) s
        (place-get_memory_status i.free_sram) p
  run_command-Stays rom read_dir i s p =
      behind-Stays (get_arguments_static 3 i.waits (with_cart (set_page 0) s)) read_directory s.dir
        (get_arguments_static-Kept 3 i.waits (with_cart (set_page 0) s)) p
        (λ t q. Placed-place t.dir (read_directory t).dir (place-read_directory t) q)
  run_command-Stays rom change_dir i s p =
      dynamic-Stays 0 i.waits Named.change_directory s change_directory-InPlace p
  run_command-Stays rom change_dir_index i s p =
      behind-Stays (get_arguments_static 2 i.waits s) Named.change_directory_index s.dir
        (get_arguments_static-Kept 2 i.waits s) p change_directory_index-InPlace
  run_command-Stays rom delete_dir i s p =
      dynamic-Stays 1 i.waits Named.delete_directory s
        (λ t q. Placed-place t.dir (Named.delete_directory t).dir (place-delete_directory t) q) p
  run_command-Stays rom create_dir i s p =
      dynamic-Stays 1 i.waits Named.create_directory s
        (λ t q. Placed-place t.dir (Named.create_directory t).dir (place-create_directory t) q) p
  run_command-Stays rom end_talking i s p = p
  run_command-Stays rom invoke_with_name i s p =
      then_wait-Stays (get_arguments_dynamic 1 i.waits s)
        (Invoke.invoke_with_name rom.stub i.session) s.dir (get_arguments_dynamic-Kept 1 i.waits s)
        p (invoke_with_name-Stays rom.stub i.session)
  run_command-Stays rom invoke_with_index i s p =
      waiting-Stays 3 i.waits (Invoke.invoke_with_index rom.stub) s
        (invoke_with_index-Stays rom.stub) p
  run_command-Stays rom stream i s p =
      waiting-Stays 3 i.waits (stream_file i.stream_start_ms i.events) s
        (λ t q.
          Remains-Stays t.dir (stream_file i.stream_start_ms i.events t)
            (stream_file-Remains i.stream_start_ms i.events t) q)
        p
  run_command-Stays rom ni_stream i s p =
      waiting-Stays 1 i.waits (non_interrupted_stream i.levels) s
        (λ t q.
          Remains-Stays t.dir (non_interrupted_stream i.levels t)
            (non_interrupted_stream-Remains i.levels t) q)
        p
  run_command-Stays rom read_next_chunk i s p =
      waiting-Stays 1 i.waits Chunks.read_next_chunk s
        (λ t q. Remains-Stays t.dir (Chunks.read_next_chunk t) (read_next_chunk-Remains t) q) p
  run_command-Stays rom exit_to_menu i s p = transfer_menu-InPlace rom s
