-- ===== src/Api/Place/Turns.antt =====
-- The calls of `HandleApi` of Arduino/EasySD/CartApi.cpp: the directory behind each.
use easy_sd_gemini.Prelude.{
  ℕ, Bool, true, false, not, ◌&&◌, Option, none, some, ltb, ◌==◌, if◌then◌else◌,
}
use easy_sd_gemini.SdFat.{SdFat}
use easy_sd_gemini.Receiver.{in_transmission, sub32}
use easy_sd_gemini.Receiver.Pulses.{run_edges}
use easy_sd_gemini.Cart.{Cart, set_page, read}
use easy_sd_gemini.Cart.Handler.{with_rx, receive_handler}
use easy_sd_gemini.Dir.Placed.{if_has}
use easy_sd_gemini.Api.{Api, with_cart}
use easy_sd_gemini.Api.Dispatch.{
  Command, Flash, Inputs, Turn, command_of, run_command, forget_session, drop_session, reap_session,
  obey, begin_session, hear_session, serve_session, handle_api,
}
use easy_sd_gemini.Api.Place.{Stays}
use easy_sd_gemini.Api.Place.Named.{InPlace}
use easy_sd_gemini.Api.Place.Commands.{run_command-Stays}

module _ ⦃sd : SdFat⦄ where
  obey-Stays :
      (rom : Flash) (i : Inputs) (byte : ℕ) (s : Api) → InPlace s → Stays (obey rom i byte s)
  unfolding obey drop_session forget_session with_cart
  obey-Stays rom i byte s p = by_command (command_of byte)
    where
      by_result :
          (o : Option Api)
          → Stays o
          → Stays (elim o [
            | none ↦ none
            | some s' ↦ some (if s'.args_ok then with_cart (set_page 0) s' else drop_session s')
          ])
      by_result none q = tt
      by_result (some t) q =
          if_has InPlace t.args_ok (with_cart (set_page 0) t) (drop_session t) q q

      by_command :
          (o : Option Command)
          → Stays (elim o [
            | none ↦ some (drop_session s)
            | some command ↦ elim (run_command rom command i s) [
              | none ↦ none
              | some s' ↦ some (if s'.args_ok then with_cart (set_page 0) s' else drop_session s')
            ]
          ])
      by_command none = p
      by_command (some command) =
          by_result (run_command rom command i s) (run_command-Stays rom command i s p)

  hear_session-Stays : (rom : Flash) (t : Turn) (s : Api) → InPlace s → Stays (hear_session rom t s)
  unfolding hear_session reap_session drop_session forget_session with_cart
  hear_session-Stays rom t s p = by_value (read s.cart).0 (read s.cart).1
    where
      by_value :
          (value : Option ℕ) (c : Cart)
          → Stays (elim value [
            | none ↦ some (reap_session t.idle_ms (record s { cart = c }))
            | some byte ↦ obey rom t.inputs byte (record s {
              cart = set_page 0 c;
              last_session_activity_ms = t.command_ms;
              session_saw_command = true;
              args_ok = true;
            })
          ])
      by_value none c =
          let heard = record s { cart = c } in
          if_has InPlace
            (not s.session_saw_command && ltb 250 (sub32 t.idle_ms s.last_session_activity_ms))
            (drop_session heard) heard p p
      by_value (some byte) c =
          obey-Stays rom t.inputs byte
            (record s {
              cart = set_page 0 c;
              last_session_activity_ms = t.command_ms;
              session_saw_command = true;
              args_ok = true;
            })
            p

  serve_session-Stays :
      (rom : Flash) (t : Turn) (s : Api) → InPlace s → Stays (serve_session rom t s)
  unfolding serve_session begin_session
  serve_session-Stays rom t s p = hear_session-Stays rom t (begin_session t.begun_ms s) (
      if_has InPlace (s.last_session_activity_ms == 0)
        (record s { last_session_activity_ms = t.begun_ms; session_saw_command = false }) s p p)

  pub handle_api-Stays : (rom : Flash) (t : Turn) (s : Api) → InPlace s → Stays (handle_api rom t s)
  unfolding handle_api forget_session
  handle_api-Stays rom t s p =
      by_handler (receive_handler t.moment (with_rx (run_edges t.edges) s.cart))
    where
      by_state :
          (c : Cart) (open_session : Bool)
          → Stays (elim open_session [
            | true ↦ serve_session rom t (record s { cart = c })
            | false ↦ some (forget_session (record s { cart = c }))
          ])
      by_state c true = serve_session-Stays rom t (record s { cart = c }) p
      by_state c false = p

      by_handler :
          (o : Option Cart)
          → Stays (elim o [
            | none ↦ none
            | some c ↦ elim (c.rx.receive_state == in_transmission) [
              | true ↦ serve_session rom t (record s { cart = c })
              | false ↦ some (forget_session (record s { cart = c }))
            ]
          ])
      by_handler none = tt
      by_handler (some c) = by_state c (c.rx.receive_state == in_transmission)
