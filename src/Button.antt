-- ===== src/Button.antt =====
-- The menu button of Arduino/EasySD/EasySD.ino: the part of `loop` before `HandleApi`, with
-- `serviceSelReleased`, `suppressButtonsFor` and `rearmSelTracking`.
pub mod Passes
use easy_sd_gemini.Prelude.{
  ℕ, ◌+◌, ◌-◌, ◌%◌, ◌^◌, Bool, true, false, not, ◌&&◌, List, [], ◌∷◌, ltb, leb, ◌==◌, if◌then◌else◌,
}
use easy_sd_gemini.Receiver.{sub32}

abbrev pub button_boot_guard_ms : ℕ
button_boot_guard_ms = 500

abbrev pub button_post_action_guard_ms : ℕ
button_post_action_guard_ms = 120

abbrev pub button_debounce_ms : ℕ
button_debounce_ms = 12

abbrev pub button_long_press_ms : ℕ
button_long_press_ms = 1000

abbrev pub sel_stable_ms : ℕ
sel_stable_ms = 8

abbrev pub sel_pressed_threshold : ℕ
sel_pressed_threshold = 256

abbrev pub sel_released_threshold : ℕ
sel_released_threshold = 768

-- The file-scope variables; `pressed` says that `state` is `statePressed`.
pub record Button : Type 0 where
  pub pressed : Bool
  pub press_time_ms : ℕ
  pub enable_at_ms : ℕ
  pub stable_released : Bool
  pub candidate_released : Bool
  pub candidate_since_ms : ℕ

-- What one pass reads: `millis()` at the guard, the sample and `millis()` of `serviceSelReleased`,
-- `millis()` at a press, at a release, in `suppressButtonsFor`, and the sample and `millis()` of
-- `rearmSelTracking`.
pub record Pass : Type 0 where
  pub guard_ms : ℕ
  pub sample : ℕ
  pub service_ms : ℕ
  pub press_ms : ℕ
  pub release_ms : ℕ
  pub suppress_ms : ℕ
  pub rearm_sample : ℕ
  pub rearm_ms : ℕ

-- What a pass starts: nothing, the menu, or a reset to BASIC.
pub data Action : Type 0 where
  nothing menu basic : Action

unfoldable pub suppress_buttons_for : ℕ → ℕ → Button → Button
suppress_buttons_for delay_ms now b = record b {
  enable_at_ms = (now + delay_ms) % 2 ^ 32;
  pressed = false;
  press_time_ms = 0;
}

unfoldable pub rearm_sel_tracking : ℕ → ℕ → Button → Button
rearm_sel_tracking sample now b =
    let released = leb sel_released_threshold sample in
    record b { stable_released = released; candidate_released = released; candidate_since_ms = now }

-- The level that a sample stands for, by the stable level.
unfoldable pub level : Bool → ℕ → Bool
level stable sample =
    if stable then ltb sel_pressed_threshold sample else leb sel_released_threshold sample

abbrev pub same : Bool → Bool → Bool
same x y = if x then y else not y

unfoldable pub service_sel_released : ℕ → ℕ → Button → Button
service_sel_released sample now b =
    let next = level b.stable_released sample in
    if not (same next b.candidate_released)
    then record b { candidate_released = next; candidate_since_ms = now }
    else if not (same b.stable_released b.candidate_released)
        && leb sel_stable_ms (sub32 now b.candidate_since_ms)
    then record b { stable_released = b.candidate_released }
    else b

-- `(long)(millis() - buttonEnableAtMs) < 0`
unfoldable pub is_guarded : ℕ → Button → Bool
is_guarded now b = leb (2 ^ 31) (sub32 now b.enable_at_ms)

-- The end of an action.
unfoldable pub settle : Pass → Button → Button
settle p b =
    rearm_sel_tracking p.rearm_sample p.rearm_ms
      (suppress_buttons_for button_post_action_guard_ms p.suppress_ms b)

-- A release after `elapsed_ms`.
unfoldable pub release : Pass → Button → Action × Button
release p b =
    let elapsed = sub32 p.release_ms b.press_time_ms in
    let up = record b { pressed = false } in
    if leb button_debounce_ms elapsed
    then (if ltb button_long_press_ms elapsed then basic else menu, settle p up)
    else (nothing, up)

-- The button's part of a pass through `loop`.
unfoldable pub loop_button : Pass → Button → Action × Button
loop_button p b =
    let served = service_sel_released p.sample p.service_ms b in
    if is_guarded p.guard_ms b
    then (nothing, record b { pressed = false; press_time_ms = 0 })
    else if not served.stable_released
    then (
      nothing,
      if served.pressed
          then served
          else record served { pressed = true; press_time_ms = p.press_ms },
    )
    else if served.pressed
    then release p served
    else (nothing, served)

-- The button behind passes in turn.
unfoldable pub run_passes : List Pass → Button → Button
run_passes [] b = b
run_passes (p ∷ ps) b = run_passes ps (loop_button p b).1

-- The button when `setup` ends.
unfoldable pub boot_button : ℕ → ℕ → ℕ → Button
boot_button suppress_ms sample rearm_ms = rearm_sel_tracking sample rearm_ms (
    suppress_buttons_for button_boot_guard_ms suppress_ms (record {
      pressed = false;
      press_time_ms = 0;
      enable_at_ms = 0;
      stable_released = true;
      candidate_released = true;
      candidate_since_ms = 0;
    }))
