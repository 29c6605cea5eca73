-- ===== src/Dir/Listed.antt =====
-- The scans of Arduino/EasySD/DirFunction.cpp and the path, the depth and the flag that they find.
use easy_sd_gemini.Prelude.{
  ℕ, zero, suc, ◌+◌, ◌-◌, ◌%◌, ◌^◌, leb, ◌≡◌, refl, ◌∙◌, Bool, true, false, not, ◌&&◌, List, [],
  ◌∷◌, Option, none, some, ltb, ◌==◌, if◌then◌else◌, length, take,
}
use easy_sd_gemini.SdFat.{SdFat, DirEntry}
use easy_sd_gemini.Names.{capture_file_name_preview}
use easy_sd_gemini.Dir.{
  DirState, rewind, rewind_dir, next_entry, iterate, iterate_from, entries_left,
}
use easy_sd_gemini.Dir.Select.{
  Listed, listed, better, scan, scan_from, select_from, find_directory_name_by_visible_index,
}
use easy_sd_gemini.Dir.Placed.{Placed, Placed-place, if_has}
use easy_sd_gemini.Dir.Located.{place}

module _ ⦃sd : SdFat⦄ where
  place-iterate_from : (fuel : ℕ) (s : DirState) → place (iterate_from fuel s).1 ≡ place s
  unfolding iterate_from
  place-iterate_from zero s = refl
  place-iterate_from (suc fuel) s =
      by_entry (next_entry s.dir_file)
        (λ d. place-iterate_from fuel (record s { dir_file = some d }))
    where
      taken : DirEntry → sd.Dir → DirState
      taken e d = record s {
        dir_file = some d;
        current_file_name = capture_file_name_preview e.name 32;
        is_directory = e.is_dir;
        current_dir_idx = e.dir_index;
        current_index = (s.current_index + 1) % 2 ^ 16;
      }

      by_hidden :
          (b : Bool) (r : Bool × DirState) (t : DirState)
          → place r.1 ≡ place s
          → place t ≡ place s
          → place (if◌then◌else◌ {A = Bool × DirState} b r (true, t)).1 ≡ place s
      by_hidden true r t e f = e
      by_hidden false r t e f = f

      by_entry :
          (o : Option (DirEntry × sd.Dir))
          → ((d : sd.Dir) → place (iterate_from fuel (record s { dir_file = some d })).1 ≡ place s)
          → let r : Bool × DirState = elim o [
            | none ↦ (false, record s { is_finished = true })
            | some (e, d') ↦
                let skipped = iterate_from fuel (record s { dir_file = some d' }) in
                if e.is_hidden then skipped else (true, taken e d')
          ] in
            place r.1 ≡ place s
      by_entry none ih = refl
      by_entry (some (e, d)) ih =
          by_hidden e.is_hidden (iterate_from fuel (record s { dir_file = some d })) (taken e d)
            (ih d) refl

  place-iterate : (s : DirState) → place (iterate s).1 ≡ place s
  unfolding iterate
  place-iterate s =
      let blank = record s { current_file_name = [] } in
      let P : Bool × DirState → Type 0 = λ r. place r.1 ≡ place s in
      let last = iterate_from (suc (length (entries_left s.dir_file))) blank in
      let ended : Bool × DirState = (false, record blank { is_finished = true }) in
      let above : Bool × DirState = (
        true,
        record blank {
          current_file_name = b'.' ∷ b'.' ∷ [];
          is_directory = true;
          current_index = (s.current_index + 1) % 2 ^ 16;
        },
      ) in
      if_has P (s.in_sub_dir && (s.current_index == 0)) above
        (if leb s.count s.current_index then ended else last) refl
        (if_has P (leb s.count s.current_index) ended last refl
          (place-iterate_from (suc (length (entries_left s.dir_file))) blank))

  place-scan_from {ℓ} :
      {S : Type ℓ} (fuel : ℕ) (body : Listed → S → S) (s : DirState) (a : S)
      → place (scan_from fuel body s a).1 ≡ place s
  unfolding scan_from
  place-scan_from zero body s a = refl
  place-scan_from {S = S} (suc fuel) body s a =
      let (more, s') = iterate s in
      if_has {A = S × DirState} (λ r. place r.1 ≡ place s) (more && not s'.is_finished)
        (scan_from fuel body s' (body (listed s') a)) (a, s')
        (place-scan_from fuel body s' (body (listed s') a) ∙ place-iterate s) (place-iterate s)

  pub place-rewind : (s : DirState) → place (rewind s) ≡ place s
  unfolding rewind rewind_dir
  place-rewind s = refl

  pub place-scan {ℓ} :
      {S : Type ℓ} (body : Listed → S → S) (s : DirState) (a : S)
      → place (scan body s a).1 ≡ place s
  unfolding scan
  place-scan body s a =
      place-scan_from (suc (suc (length (entries_left (rewind s).dir_file)))) body (rewind s) a
      ∙ place-rewind s

  place-select_from :
      (n : ℕ) (last_found : List ℕ) (s : DirState) → place (select_from n last_found s).1 ≡ place s
  unfolding select_from
  place-select_from zero last_found s = place-rewind s
  place-select_from (suc n) last_found s =
      let (best, s') = scan (better last_found) s none in
      by_best best s' (place-scan (better last_found) s none)
        (λ b. place-select_from n (take 31 b) s')
    where
      by_best :
          (best : Option (List ℕ)) (s' : DirState)
          → place s' ≡ place s
          → ((b : List ℕ) → place (select_from n (take 31 b) s').1 ≡ place s')
          → let r : Option (List ℕ) × DirState = elim best [
            | none ↦ (none, rewind s')
            | some b ↦ select_from n (take 31 b) s'
          ] in
            place r.1 ≡ place s
      by_best none s' e ih = place-rewind s' ∙ e
      by_best (some b) s' e ih = ih b ∙ e

  pub find_directory_name-Placed :
      (visible_index out_size : ℕ) (s : DirState)
      → Placed s
      → Placed (find_directory_name_by_visible_index visible_index out_size s).1
  unfolding find_directory_name_by_visible_index
  find_directory_name-Placed visible_index out_size s p =
      let sort_index = if s.in_sub_dir then visible_index - 1 else visible_index in
      let (name, s') = select_from (suc sort_index) [] s in
      let P : Option (List ℕ) × DirState → Type 0 = λ r. Placed r.1 in
      let none_left : Option (List ℕ) × DirState = (none, s) in
      let above : Option (List ℕ) × DirState = (some (take (out_size - 1) (b'.' ∷ b'.' ∷ [])), s) in
      let cut : Option (List ℕ) × DirState = elim name [
        | none ↦ (none, s')
        | some n ↦ (some (take (out_size - 1) n), s')
      ] in
      if_has P (ltb out_size 13) none_left
        (if s.in_sub_dir && (visible_index == 0) then above else cut) p
        (if_has P (s.in_sub_dir && (visible_index == 0)) above cut p
          (by_name name s' (Placed-place s s' (place-select_from (suc sort_index) [] s) p)))
    where
      by_name :
          (name : Option (List ℕ)) (s' : DirState)
          → Placed s'
          → let r : Option (List ℕ) × DirState = elim name [
            | none ↦ (none, s')
            | some n ↦ (some (take (out_size - 1) n), s')
          ] in
            Placed r.1
      by_name none s' q = q
      by_name (some n) s' q = q
