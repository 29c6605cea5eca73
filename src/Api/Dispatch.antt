-- ===== src/Api/Dispatch.antt =====
-- `HandleApi` of Arduino/EasySD/CartApi.cpp: the session, and the dispatch of a command.
pub mod Ending
pub mod Idle
use easy_sd_gemini.Prelude.{
  [], ◌∷◌, ℕ, ◌-◌, ◌^◌, Bool, true, false, not, ◌&&◌, List, Option, none, some, ltb, ◌==◌,
  if◌then◌else◌, ◌▷◌,
}
use easy_sd_gemini.SdFat.{SdFat}
use easy_sd_gemini.Receiver.{sub32, in_transmission}
use easy_sd_gemini.Receiver.Pulses.{run_edges}
use easy_sd_gemini.Cart.{set_page, read, disable_cartridge}
use easy_sd_gemini.Cart.Listen.{reset_receive}
use easy_sd_gemini.Cart.Handler.{Moment, with_rx, receive_handler}
use easy_sd_gemini.Api.{Api, Wait, with_cart}
use easy_sd_gemini.Api.Files.{
  handle_read_file, handle_close_file, handle_write_file, handle_seek_file, handle_long_seek_file,
  handle_get_info_for_file, handle_get_path, handle_get_memory_status,
}
use easy_sd_gemini.Api.Named.{
  handle_open_file, handle_delete_file, handle_delete_directory, handle_create_directory,
  handle_change_directory, handle_change_directory_index,
}
use easy_sd_gemini.Api.Chunks.{handle_read_next_chunk}
use easy_sd_gemini.Api.Listing.{handle_read_directory}
use easy_sd_gemini.Api.Launch.{transfer_menu}
use easy_sd_gemini.Api.Invoke.{
  Session, handle_invoke_with_name, handle_invoke_with_index, handle_end_talking,
}
use easy_sd_gemini.Api.Streams.{StreamEvent, handle_stream, handle_non_interrupted_stream}

-- The commands.
pub data Command : Type 0 where
  read_file open_file close_file write_file delete_file seek_file long_seek_file : Command
  get_info_for_file get_path read_dir change_dir delete_dir create_dir : Command
  invoke_with_name invoke_with_index stream ni_stream read_next_chunk end_talking : Command
  exit_to_menu change_dir_index get_memory_status : Command

-- The command of a byte, as the cases of the switch have it.
unfoldable pub command_of : ℕ → Option Command
command_of n =
    if n == 78
    then some read_file
    else if n == 2
    then some open_file
    else if n == 3
    then some close_file
    else if n == 4
    then some write_file
    else if n == 5
    then some delete_file
    else if n == 6
    then some seek_file
    else if n == 7
    then some long_seek_file
    else if n == 8
    then some get_info_for_file
    else if n == 9
    then some get_path
    else if n == 34
    then some get_memory_status
    else if n == 10
    then some read_dir
    else if n == 11
    then some change_dir
    else if n == 33
    then some change_dir_index
    else if n == 12
    then some delete_dir
    else if n == 13
    then some create_dir
    else if n == 30
    then some end_talking
    else if n == 23
    then some invoke_with_name
    else if n == 24
    then some invoke_with_index
    else if n == 25
    then some stream
    else if n == 26
    then some ni_stream
    else if n == 27
    then some read_next_chunk
    else if n == 31
    then some exit_to_menu
    else none

-- The arrays that the build generates.
pub record Flash : Type 0 where
  pub stub : List ℕ
  pub cartridge_data : List ℕ

-- What a handler sees from outside: the waits for its arguments, the wait for a plugin, the levels
-- of IO2, the start and the events of a stream, what stands behind the path in its array, and the
-- free memory.
pub record Inputs : Type 0 where
  pub waits : List Wait
  pub session : Session
  pub levels : List Bool
  pub stream_start_ms : ℕ
  pub events : List StreamEvent
  pub stale_path : List ℕ
  pub free_sram : ℕ

-- What one call of `HandleApi` sees: the edges since the call before, what `ReceiveHandler` sees, `millis()` where a session begins,
-- at a command, and at the check of an idle session, and what the handler sees.
pub record Turn : Type 0 where
  pub edges : List ℕ
  pub moment : Moment
  pub begun_ms : ℕ
  pub command_ms : ℕ
  pub idle_ms : ℕ
  pub inputs : Inputs

module _ ⦃sd : SdFat⦄ where
  abbrev pub state_of : Option (Api × List Wait) → Option Api
  state_of none = none
  state_of (some (s, _)) = some s

  -- The switch.
  unfoldable pub run_command : Flash → Command → Inputs → Api → Option Api
  run_command rom read_file i s = state_of (handle_read_file i.waits s)
  run_command rom open_file i s = state_of (handle_open_file i.waits s)
  run_command rom close_file i s = state_of (handle_close_file i.waits s)
  run_command rom write_file i s = state_of (handle_write_file i.waits s)
  run_command rom delete_file i s = state_of (handle_delete_file i.waits s)
  run_command rom seek_file i s = state_of (handle_seek_file i.waits s)
  run_command rom long_seek_file i s = state_of (handle_long_seek_file i.waits s)
  run_command rom get_info_for_file i s = state_of (handle_get_info_for_file i.waits s)
  run_command rom get_path i s = state_of (handle_get_path i.stale_path i.waits s)
  run_command rom get_memory_status i s = state_of (handle_get_memory_status i.free_sram i.waits s)
  run_command rom read_dir i s = state_of (handle_read_directory i.waits s)
  run_command rom change_dir i s = state_of (handle_change_directory i.waits s)
  run_command rom change_dir_index i s = state_of (handle_change_directory_index i.waits s)
  run_command rom delete_dir i s = state_of (handle_delete_directory i.waits s)
  run_command rom create_dir i s = state_of (handle_create_directory i.waits s)
  run_command rom end_talking i s = some (handle_end_talking s)
  run_command rom invoke_with_name i s =
      state_of (handle_invoke_with_name rom.stub i.session i.waits s)
  run_command rom invoke_with_index i s = state_of (handle_invoke_with_index rom.stub i.waits s)
  run_command rom stream i s = state_of (handle_stream i.stream_start_ms i.events i.waits s)
  run_command rom ni_stream i s = state_of (handle_non_interrupted_stream i.levels i.waits s)
  run_command rom read_next_chunk i s = state_of (handle_read_next_chunk i.waits s)
  run_command rom exit_to_menu i s = some (transfer_menu rom.stub rom.cartridge_data s)

  -- The two statics of `HandleApi` as they are without a session.
  unfoldable pub forget_session : Api → Api
  forget_session s = record s { last_session_activity_ms = 0; session_saw_command = false }

  -- The end of a session that fails.
  unfoldable pub drop_session : Api → Api
  drop_session s = forget_session (with_cart (λ c. c ▷ disable_cartridge ▷ reset_receive) s)

  -- A call without a command: a session that never had one ends after 250 ms.
  unfoldable pub reap_session : ℕ → Api → Api
  reap_session now s =
      if not s.session_saw_command && ltb 250 (sub32 now s.last_session_activity_ms)
      then drop_session s
      else s

  -- The handling of a byte that came as a command.
  unfoldable pub obey : Flash → Inputs → ℕ → Api → Option Api
  obey rom i byte s = elim (command_of byte) [
    | none ↦ some (drop_session s)
    | some command ↦ elim (run_command rom command i s) [
      | none ↦ none
      | some s' ↦ some (if s'.args_ok then with_cart (set_page 0) s' else drop_session s')
    ]
  ]

  -- The first call of a session starts its clock.
  unfoldable pub begin_session : ℕ → Api → Api
  begin_session now s =
      if s.last_session_activity_ms == 0
      then record s { last_session_activity_ms = now; session_saw_command = false }
      else s

  -- A byte of the queue, where there is one, is a command.
  unfoldable pub hear_session : Flash → Turn → Api → Option Api
  hear_session rom t s =
      let (value, c) = read s.cart in
      elim value [
        | none ↦ some (reap_session t.idle_ms (record s { cart = c }))
        | some byte ↦ obey rom t.inputs byte (record s {
          cart = set_page 0 c;
          last_session_activity_ms = t.command_ms;
          session_saw_command = true;
          args_ok = true;
        })
      ]

  -- The branch of an open session.
  unfoldable pub serve_session : Flash → Turn → Api → Option Api
  serve_session rom t s = hear_session rom t (begin_session t.begun_ms s)

  -- `HandleApi`.
  unfoldable pub handle_api : Flash → Turn → Api → Option Api
  handle_api rom t s = elim (receive_handler t.moment (with_rx (run_edges t.edges) s.cart)) [
    | none ↦ none
    | some c ↦ elim (c.rx.receive_state == in_transmission) [
      | true ↦ serve_session rom t (record s { cart = c })
      | false ↦ some (forget_session (record s { cart = c }))
    ]
  ]

  -- Calls in turn.
  unfoldable pub run_turns : Flash → List Turn → Api → Option Api
  run_turns rom [] s = some s
  run_turns rom (t ∷ ts) s = elim (handle_api rom t s) [
    | none ↦ none
    | some s' ↦ run_turns rom ts s'
  ]
