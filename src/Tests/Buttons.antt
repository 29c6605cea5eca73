-- ===== src/Tests/Buttons.antt =====
-- The button, the start and the recovery at concrete inputs.
use easy_sd_gemini.Prelude.{ℕ, ◌≤◌, ◌≡◌, ◌≢◌, refl, List, [], ◌∷◌, true, false}
use easy_sd_gemini.Receiver.{sub32}
use easy_sd_gemini.Button.{
  Button, Pass, menu, suppress_buttons_for, rearm_sel_tracking, level, service_sel_released,
  is_guarded, settle, release, loop_button, run_passes, boot_button,
}
use easy_sd_gemini.Button.Passes.{service_sel_released_lem}
use easy_sd_gemini.Dir.Located.{Located}

-- A pass at a time, with a sample.
abbrev pub pass_at : ℕ → ℕ → Pass
pass_at ms sample = record {
  guard_ms = ms;
  sample = sample;
  service_ms = ms;
  press_ms = ms;
  release_ms = ms;
  suppress_ms = ms;
  rearm_sample = sample;
  rearm_ms = ms;
}

-- The button goes down at 700 ms and comes up at 900 ms.
abbrev pub presses : List Pass
presses = pass_at 600 1023 ∷ pass_at 690 0 ∷ pass_at 700 0 ∷ pass_at 880 1023 ∷ []

pub acts : (loop_button (pass_at 900 1023) (run_passes presses (boot_button 0 1023 0))).0 ≡ menu
unfolding loop_button run_passes boot_button service_sel_released level is_guarded release settle
    suppress_buttons_for rearm_sel_tracking
acts = refl

abbrev falling : Button
falling = record {
  pressed = false;
  press_time_ms = 0;
  enable_at_ms = 0;
  stable_released = true;
  candidate_released = false;
  candidate_since_ms = 100;
}

falls : (service_sel_released 200 110 falling).stable_released ≢ true
unfolding service_sel_released level
falls e = cc

service_sel_released_lem_example :
    (8 ≤ sub32 110 100)
    × ((service_sel_released 200 110 falling).stable_released ≡ false)
    × (200 ≤ 256)
service_sel_released_lem_example = service_sel_released_lem 200 110 falling falls
