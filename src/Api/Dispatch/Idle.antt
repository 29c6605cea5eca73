-- ===== src/Api/Dispatch/Idle.antt =====
-- Sessions on which the Commodore 64 is silent, as `HandleApi` of Arduino/EasySD/CartApi.cpp keeps and
-- ends them.
use easy_sd_gemini.Prelude.{
  ℕ, ◌≡◌, ◌≢◌, ◌⊎◌, inl, inr, refl, sym, ap, subst, ◌∙◌, Bool, true, false, List, [], ◌∷◌, Option,
  none, some, ltb, ◌==◌, if◌then◌else◌, arith,
}
use easy_sd_gemini.SdFat.{SdFat}
use easy_sd_gemini.ByteQueue
use easy_sd_gemini.Receiver.{sub32, idle, bit_started, bit_zero_end, in_transmission}
use easy_sd_gemini.Receiver.Pulses.{run_edges}
use easy_sd_gemini.Cart.{Cart, set_page, read}
use easy_sd_gemini.Cart.Handler.{Moment, with_rx, is_stale, receive_handler}
use easy_sd_gemini.Api.{Api}
use easy_sd_gemini.Api.Dispatch.{
  Flash, Turn, forget_session, drop_session, reap_session, obey, begin_session, hear_session,
  serve_session, handle_api, run_turns,
}
use easy_sd_gemini.Api.Dispatch.Ending.{Closed, drop_session-Closed}

-- No edge comes before any of the calls.
abbrev pub Silent : List Turn → Type 0
Silent [] = Unit
Silent (t ∷ ts) = (t.edges ≡ []) × Silent ts

-- One of the calls is more than 250 ms after `since`.
abbrev pub Overdue : ℕ → List Turn → Type 0
Overdue since [] = ⊥
Overdue since (t ∷ ts) = (ltb 250 (sub32 t.idle_ms since) ≡ true) ⊎ Overdue since ts

nothing_read : (c : Cart) → ByteQueue.is_available c.rx.read_queue ≡ false → read c ≡ (none, c)
unfolding read
nothing_read c empty = rw empty refl

silent_edges : (edges : List ℕ) (c : Cart) → edges ≡ [] → with_rx (run_edges edges) c ≡ c
unfolding with_rx
silent_edges edges c e = rw e refl

open_handler :
    (m : Moment) (c : Cart)
    → (c.rx.receive_state == in_transmission) ≡ true
    → receive_handler m c ≡ some c
unfolding receive_handler
open_handler m c h = simp h refl

closed_handler :
    (m : Moment) (c : Cart)
    → c.rx.receive_state ≡ idle
    → c.rx.bit_state ≡ bit_started
    → receive_handler m c ≡ some c
unfolding receive_handler is_stale
closed_handler m c h b =
    simp (ap (λ n. n == in_transmission) h, ap (λ n. ltb idle n) h, ap (λ n. ltb n bit_zero_end) b)
      refl

module _ ⦃sd : SdFat⦄ where
  -- A session that is open, with no byte of a command to read.
  pub record Open (s : Api) : Type 0 where
    pub state : s.cart.rx.receive_state ≡ in_transmission
    pub queue : ByteQueue.is_available s.cart.rx.read_queue ≡ false
    pub clock : s.last_session_activity_ms ≢ 0

  handled :
      (rom : Flash) (t : Turn) (s : Api) (b : Bool)
      → t.edges ≡ []
      → receive_handler t.moment s.cart ≡ some s.cart
      → (s.cart.rx.receive_state == in_transmission) ≡ b
      → handle_api rom t s ≡ (if b then serve_session rom t s else some (forget_session s))
  unfolding handle_api
  handled rom t s b quiet e state =
      rw (silent_edges t.edges s.cart quiet, handle_api) (rw (e, handle_api) (by_state b state))
    where
      by_state :
          (x : Bool)
          → (s.cart.rx.receive_state == in_transmission) ≡ x
          → ◌≡◌ {A = Option Api}
              (elim (s.cart.rx.receive_state == in_transmission) [
                | true ↦ serve_session rom t s
                | false ↦ some (forget_session s)
              ])
              (if x then serve_session rom t s else some (forget_session s))
      by_state true e = rw e refl
      by_state false e = rw e refl

  served :
      (rom : Flash) (t : Turn) (s : Api)
      → Open s
      → serve_session rom t s ≡ some (reap_session t.idle_ms s)
  unfolding serve_session begin_session hear_session
  served rom t s h =
      let running : (s.last_session_activity_ms == 0) ≡ false = ground (arith, h.clock) in
      let same : begin_session t.begun_ms s ≡ s =
        ap
          (λ b.
            if b
            then record s { last_session_activity_ms = t.begun_ms; session_saw_command = false }
            else s)
          running in
      ap (hear_session rom t) same
      ∙ subst
          (λ r.
            ◌≡◌ {A = Option Api}
              (elim r.0 [
                | none ↦ some (reap_session t.idle_ms (record s { cart = r.1 }))
                | some byte ↦ obey rom t.inputs byte (record s {
                  cart = set_page 0 r.1;
                  last_session_activity_ms = t.command_ms;
                  session_saw_command = true;
                  args_ok = true;
                })
              ])
              (some (reap_session t.idle_ms s)))
          (sym (nothing_read s.cart h.queue)) refl

  unheard_turn :
      (rom : Flash) (t : Turn) (s : Api)
      → t.edges ≡ []
      → Open s
      → handle_api rom t s ≡ some (reap_session t.idle_ms s)
  unheard_turn rom t s quiet h =
      let running = ap (λ n. n == in_transmission) h.state in
      handled rom t s true quiet (open_handler t.moment s.cart running) running ∙ served rom t s h

  -- A call with no edge, between two bytes and outside a session.
  pub idle_turn :
      (rom : Flash) (t : Turn) (s : Api)
      → t.edges ≡ []
      → s.cart.rx.receive_state ≡ idle
      → s.cart.rx.bit_state ≡ bit_started
      → handle_api rom t s ≡ some (forget_session s)
  idle_turn rom t s quiet state bits =
      handled rom t s false quiet (closed_handler t.moment s.cart state bits)
        (ap (λ n. n == in_transmission) state)

  forget_session-Closed : (s : Api) → Closed s → Closed (forget_session s)
  unfolding forget_session
  forget_session-Closed s h = record {
    hidden = h.hidden;
    state = h.state;
    bits = h.bits;
    queue = h.queue;
    clock = refl;
    saw = refl;
  }

  -- Without a session, silence opens none.
  stays-Closed :
      (rom : Flash) (ts : List Turn) (s : Api)
      → Silent ts
      → Closed s
      → (r : Api) × (run_turns rom ts s ≡ some r) × Closed r
  unfolding run_turns
  stays-Closed rom [] s quiet h = (s, refl, h)
  stays-Closed rom (t ∷ ts) s quiet h =
      let (r, ran, closed) =
        stays-Closed rom ts (forget_session s) quiet.1 (forget_session-Closed s h) in
      (r, rw (idle_turn rom t s quiet.0 h.state h.bits.0, run_turns) ran, closed)

  -- A session on which no command ever came and none comes is ended by the first call more than
  -- 250 ms after its start, and stays ended.
  pub run_turns-Closed :
      (rom : Flash) (ts : List Turn) (s : Api)
      → Silent ts
      → Open s
      → s.session_saw_command ≡ false
      → Overdue s.last_session_activity_ms ts
      → (r : Api) × (run_turns rom ts s ≡ some r) × Closed r
  unfolding run_turns reap_session
  run_turns-Closed rom [] s quiet h fresh due = elim due [ ]
  run_turns-Closed rom (t ∷ ts) s quiet h fresh due =
      by_clock (ltb 250 (sub32 t.idle_ms s.last_session_activity_ms)) refl due
        (λ later. run_turns-Closed rom ts s quiet.1 h fresh later)
    where
      reaped :
          (b : Bool)
          → ltb 250 (sub32 t.idle_ms s.last_session_activity_ms) ≡ b
          → reap_session t.idle_ms s ≡ (if b then drop_session s else s)
      reaped b e = simp (fresh, e) refl

      by_clock :
          (b : Bool)
          → ltb 250 (sub32 t.idle_ms s.last_session_activity_ms) ≡ b
          → Overdue s.last_session_activity_ms (t ∷ ts)
          → (Overdue s.last_session_activity_ms ts
              → (r : Api) × (run_turns rom ts s ≡ some r) × Closed r)
          → (r : Api) × (run_turns rom (t ∷ ts) s ≡ some r) × Closed r
      by_clock true e d ih =
          let (r, ran, closed) =
            stays-Closed rom ts (drop_session s) quiet.1 (drop_session-Closed s) in
          (r, rw (unheard_turn rom t s quiet.0 h ∙ ap some (reaped true e), run_turns) ran, closed)
      by_clock false e (inl now) ih = absurd cc
      by_clock false e (inr later) ih =
          let (r, ran, closed) = ih later in
          (r, rw (unheard_turn rom t s quiet.0 h ∙ ap some (reaped false e), run_turns) ran, closed)
