-- ===== src/Button/Passes.antt =====
-- What the passes of `loop` make of the button.
use easy_sd_gemini.Prelude.{
  ℕ, ◌≤◌, ◌≡◌, ◌≢◌, inl, inr, Bool, true, false, List, ◌∷◌, ◌++◌, arith, ltb, leb, if◌then◌else◌,
  Bool-cases,
}
use easy_sd_gemini.Receiver.{sub32}
use easy_sd_gemini.Button.{Button, Pass, level, service_sel_released}

debounce :
    (stable candidate pressed : Bool) (time enable since sample now : ℕ)
    → let b : Button = record {
      pressed = pressed;
      press_time_ms = time;
      enable_at_ms = enable;
      stable_released = stable;
      candidate_released = candidate;
      candidate_since_ms = since;
    } in
      (service_sel_released sample now b).stable_released ≢ stable
      → (8 ≤ sub32 now since)
        × ((service_sel_released sample now b).stable_released ≡ candidate)
        × (if stable then sample ≤ 256 else 768 ≤ sample)
unfolding service_sel_released level
debounce true true p t e since sample now h = elim (Bool-cases (ltb 256 sample)) [
  | inl up ↦ absurd (h (simp up))
  | inr down ↦ absurd (h (simp down))
]
debounce true false p t e since sample now h = elim (Bool-cases (ltb 256 sample)) [
  | inl up ↦ absurd (h (simp up))
  | inr down ↦ elim (Bool-cases (leb 8 (sub32 now since))) [
    | inl due ↦ (ground arith, simp (down, due), ground arith)
    | inr early ↦ absurd (h (simp (down, early)))
  ]
]
debounce false true p t e since sample now h = elim (Bool-cases (leb 768 sample)) [
  | inl up ↦ elim (Bool-cases (leb 8 (sub32 now since))) [
    | inl due ↦ (ground arith, simp (up, due), ground arith)
    | inr early ↦ absurd (h (simp (up, early)))
  ]
  | inr down ↦ absurd (h (simp down))
]
debounce false false p t e since sample now h = elim (Bool-cases (leb 768 sample)) [
  | inl up ↦ absurd (h (simp up))
  | inr down ↦ absurd (h (simp down))
]

-- The stable level changes only to a level that was the candidate for 8 ms, and that the sample
-- confirms: at most 256 for pressed, at least 768 for released.
pub service_sel_released_lem :
    (sample now : ℕ) (b : Button)
    → (service_sel_released sample now b).stable_released ≢ b.stable_released
    → (8 ≤ sub32 now b.candidate_since_ms)
      × ((service_sel_released sample now b).stable_released ≡ b.candidate_released)
      × (if b.stable_released then sample ≤ 256 else 768 ≤ sample)
service_sel_released_lem sample now b h =
    debounce b.stable_released b.candidate_released b.pressed b.press_time_ms b.enable_at_ms
      b.candidate_since_ms sample now h

-- A pass among others.
abbrev pub Among : Pass → List Pass → Type 0
Among p ps = (before : List Pass) × (after : List Pass) × (ps ≡ before ++ (p ∷ after))
