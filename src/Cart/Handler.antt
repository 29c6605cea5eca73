-- ===== src/Cart/Handler.antt =====
-- `ReceiveHandler` of CartInterface.cpp, which the main loop calls until a session is open.
-- The interrupt handler runs only inside the wait loop; a call's own straight lines are shorter
-- than the gap between two edges.
use easy_sd_gemini.Prelude.{
  ℕ, Bool, Option, none, some, List, [], ◌∷◌, ltb, ◌==◌, if◌then◌else◌, ◌&&◌, ◌||◌,
}
use easy_sd_gemini.Receiver.{
  Receiver, sub32, bit_zero_end, idle, identifier_1_ok, identifier_2_ok, identifier_3_ok,
  in_transmission, resync, shift_in, enqueue_unless_full, receive_interrupt,
}
use easy_sd_gemini.Cart.{Cart, enable_cartridge}

abbrev pub identifier_1 : ℕ
identifier_1 = 0x64

abbrev pub identifier_2 : ℕ
identifier_2 = 0x46

abbrev pub identifier_3 : ℕ
identifier_3 = 0x17

abbrev pub identifier_stale_timeout_ms : ℕ
identifier_stale_timeout_ms = 200

-- What happens while the wait loop polls: an edge of IO2 at a time, or a reading of `micros()`.
pub data Poll : Type 0 where
  edge clock : ℕ → Poll

-- The clocks that one call reads: `millis()` at the stale check and at a state change, `micros()`
-- before the wait loop, and what the loop sees.
pub record Moment : Type 0 where
  pub checked_ms : ℕ
  pub changed_ms : ℕ
  pub wait_start_us : ℕ
  pub polls : List Poll

unfoldable pub with_rx : (Receiver → Receiver) → Cart → Cart
with_rx f c = record c { rx = f c.rx }

-- The drop of a partial byte together with the handshake so far.
unfoldable pub abandon : Receiver → Receiver
abandon r = record (resync r) { receive_state = idle }

unfoldable pub set_state : ℕ → Cart → Cart
set_state n = with_rx (λ r. record r { receive_state = n })

-- A state change of the handshake restarts the stale timer.
unfoldable pub advance_at : ℕ → ℕ → Cart → Cart
advance_at ms n c = record (set_state n c) { identifier_state_change_ms = ms }

-- The switch on `receiveState` for a finished byte.
unfoldable pub identify : ℕ → Cart → Cart
identify ms c =
    let state = c.rx.receive_state in
    let byte = c.rx.current_byte in
    if state == idle
    then (if byte == identifier_1 then advance_at ms identifier_1_ok c else c)
    else if state == identifier_1_ok
    then (if byte == identifier_2 then advance_at ms identifier_2_ok c else set_state idle c)
    else if state == identifier_2_ok
    then (if byte == identifier_3 then set_state identifier_3_ok c else set_state idle c)
    else if state == identifier_3_ok
    then enable_cartridge (
        with_rx
          (λ r. record r {
            read_queue = enqueue_unless_full r.read_queue r.current_byte;
            receive_state = in_transmission;
          })
          c)
    else c

-- A finished bit is shifted in, and a finished byte is looked at.
unfoldable pub take_bit : ℕ → Cart → Cart
take_bit ms c =
    let shifted = with_rx shift_in c in
    if shifted.rx.bit_mask == 0
    then with_rx (λ r. record r { bit_mask = 1; current_byte = 0 }) (identify ms shifted)
    else shifted

-- The wait loop: it ends when the bit has ended, when a session is open, or after 2 ms. `none`
-- means that it still polls when the list ends.
unfoldable pub wait_bit_end : ℕ → List Poll → Cart → Option Cart
wait_bit_end start [] c =
    if ltb c.rx.bit_state bit_zero_end || (c.rx.receive_state == in_transmission)
    then some c
    else none
wait_bit_end start (p ∷ ps) c =
    let waited = wait_bit_end start ps c in
    let interrupted = λ (t : ℕ). wait_bit_end start ps (with_rx (receive_interrupt t) c) in
    if ltb c.rx.bit_state bit_zero_end || (c.rx.receive_state == in_transmission)
    then some c
    else (elim p [
      | edge t ↦ interrupted t
      | clock now ↦ if ltb 2000 (sub32 now start) then some (with_rx abandon c) else waited
    ])

unfoldable pub is_stale : ℕ → Cart → Bool
is_stale ms c =
    (ltb idle c.rx.receive_state && ltb c.rx.receive_state in_transmission)
    && ltb identifier_stale_timeout_ms (sub32 ms c.identifier_state_change_ms)

unfoldable pub receive_handler : Moment → Cart → Option Cart
receive_handler m c =
    if c.rx.receive_state == in_transmission
    then some c
    else if is_stale m.checked_ms c
    then some (with_rx abandon c)
    else if ltb c.rx.bit_state bit_zero_end
    then some c
    else wait_bit_end m.wait_start_us m.polls (take_bit m.changed_ms c)
