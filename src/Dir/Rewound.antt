-- ===== src/Dir/Rewound.antt =====
-- A scan by `Rewind` and `Iterate` of DirFunction.cpp, from its start: ".." in a subdirectory, then
-- the entries that are not hidden.
use easy_sd_gemini.Prelude.{
  ℕ, suc, ◌+◌, ◌%◌, ◌^◌, ◌<◌, ◌≡◌, refl, sym, ap, subst, ◌∙◌, inl, inr, Bool, true, false, ◌&&◌,
  List, [], ◌∷◌, arith, ◌==◌, if◌then◌else◌, Bool-cases, length,
}
use easy_sd_gemini.SdFat.{SdFat, DirEntry}
use easy_sd_gemini.Dir.{DirState, rewind_dir, entries_left, rewind, iterate}
use easy_sd_gemini.Dir.Select.{Listed, listed, scan_from, scan}
use easy_sd_gemini.Dir.Counting.{visible, Reads}
use easy_sd_gemini.Dir.Iterating.{SameDir, SameDir-trans, At, left-At}
use easy_sd_gemini.Dir.Scanning.{fold_listed, Scanned, Inside, scan_next, scan_from-Scanned}

module _ ⦃sd : SdFat⦄ where
  -- The state that `Rewind` and, in a subdirectory, the first `Iterate` leave.
  rewind-At : (s : DirState) (es : List DirEntry) → Reads s es → At es es (rewind s)
  unfolding rewind rewind_dir
  rewind-At s es (d, at, same) = record {
    dir = sd.rewind d;
    opened = rw at refl;
    left = sd.pending-rewind d ∙ same;
    whole = sd.entries-rewind d ∙ same;
  }

  rewind-SameDir : (s : DirState) → SameDir s (rewind s)
  unfolding rewind rewind_dir
  rewind-SameDir s = record { card = refl; path = refl; depth = refl; count = refl; sub = refl }

  rewind_index : (s : DirState) → ((rewind s).current_index ≡ 0) × ((rewind s).is_finished ≡ false)
  unfolding rewind rewind_dir
  rewind_index s = (refl, refl)

  rewind_idx : (s : DirState) → (rewind s).current_dir_idx ≡ s.current_dir_idx
  unfolding rewind rewind_dir
  rewind_idx s = refl

  -- The entry that stands for the parent directory, and what `Iterate` makes of it.
  abbrev pub parent_entry : ℕ → Listed
  parent_entry idx = record { name = b'.' ∷ b'.' ∷ []; is_dir = true; dir_idx = idx }

  abbrev up_state : DirState → DirState
  up_state s = record s {
    current_file_name = b'.' ∷ b'.' ∷ [];
    is_directory = true;
    current_index = (s.current_index + 1) % 2 ^ 16;
  }

  iterate_up :
      (s : DirState) → s.in_sub_dir ≡ true → s.current_index ≡ 0 → iterate s ≡ (true, up_state s)
  unfolding iterate
  iterate_up s sub zeroed = simp (sub, zeroed)

  -- What a scan of a directory with the entries `es` lists.
  abbrev pub listing : DirState → List DirEntry → List Listed
  listing s es = if s.in_sub_dir then parent_entry s.current_dir_idx ∷ visible es else visible es

  rewind_left :
      (s : DirState) (es : List DirEntry)
      → Reads s es
      → length (entries_left (rewind s).dir_file) ≡ length es
  rewind_left s es r = ap length (left-At es es (rewind s) (rewind-At s es r))

  module _ {ℓ} {S : Type ℓ} (body : Listed → S → S) where
    after_rewind :
        (s : DirState) (want : S) (es : List DirEntry) (r : S × DirState)
        → Scanned es (rewind s) want r
        → Scanned es s want r
    after_rewind s want es r x = record {
      result = x.result;
      same = SameDir-trans (rewind-SameDir s) x.same;
      reads = x.reads;
    }

    scan_root :
        (s : DirState) (es : List DirEntry) (a : S)
        → Reads s es
        → s.in_sub_dir ≡ false
        → s.count ≡ length (visible es)
        → s.count < 2 ^ 16
        → Scanned es s (fold_listed body (visible es) a) (scan body s a)
    unfolding scan
    scan_root s es a r root counted small =
        let same = rewind-SameDir s in
        let (zeroed, running) = rewind_index s in
        after_rewind s _ es _ (
          scan_from-Scanned body _ es es (rewind s) a
            (record {
              at = rewind-At s es r;
              past = ap (λ b. b && ((rewind s).current_index == 0)) (same.sub ∙ root);
              counted = omega (arith, zeroed, same.count, counted);
              small = omega (arith, same.count, small);
              running = running;
            })
            (omega (arith, rewind_left s es r)))

    scan_sub :
        (s : DirState) (es : List DirEntry) (a : S)
        → Reads s es
        → s.in_sub_dir ≡ true
        → s.count ≡ 1 + length (visible es)
        → s.count < 2 ^ 16
        → Scanned es s
            (fold_listed body (visible es) (body (parent_entry s.current_dir_idx) a))
            (scan body s a)
    unfolding scan
    scan_sub s es a r sub counted small =
        let same = rewind-SameDir s in
        let (zeroed, running) = rewind_index s in
        let start = rewind s in
        let fuel = suc (length (entries_left start.dir_file)) in
        let at = rewind-At s es r in
        let step : iterate start ≡ (true, up_state start) =
          iterate_up start (same.sub ∙ sub) zeroed in
        let inside : Inside es es (up_state start) = record {
          at = record { dir = at.dir; opened = at.opened; left = at.left; whole = at.whole };
          past =
              ap (λ n. start.in_sub_dir && ((n + 1) % 2 ^ 16 == 0)) zeroed ∙ never start.in_sub_dir;
          counted = omega (arith, zeroed, same.count, counted);
          small = omega (arith, same.count, small);
          running = running;
        } in
        after_rewind s _ es _ (
          subst
            (λ i.
              Scanned es start (fold_listed body (visible es) (body (parent_entry i) a))
                (scan_from (suc fuel) body start a))
            (rewind_idx s)
            (subst (Scanned es start _)
              (sym (
                scan_next body fuel start a (ap (λ r. r.0) step)
                  (ap (λ r. r.1.is_finished) step ∙ running)
                ∙ ap (λ r. scan_from fuel body r.1 (body (listed r.1) a)) step))
              (up_again start es _ (
                scan_from-Scanned body fuel es es (up_state start)
                  (body (listed (up_state start)) a) inside (omega (arith, rewind_left s es r))))))
      where
        never : (b : Bool) → (b && (1 == 0)) ≡ false
        never true = refl
        never false = refl

        up_again :
            (s : DirState) (es : List DirEntry) {want : S} (r : S × DirState)
            → Scanned es (up_state s) want r
            → Scanned es s want r
        up_again s es r x = record {
          result = x.result;
          same =
              SameDir-trans
                (record { card = refl; path = refl; depth = refl; count = refl; sub = refl })
                x.same;
          reads = x.reads;
        }

    -- A scan, when the count is right and below 65536, runs its body on ".." in a subdirectory, then
    -- on the entries that are not hidden in the directory's order, each once; it leaves the
    -- directory open and the path as they were.
    pub scan_lem :
        (s : DirState) (es : List DirEntry) (a : S)
        → Reads s es
        → s.count ≡ (if s.in_sub_dir then 1 else 0) + length (visible es)
        → s.count < 2 ^ 16
        → Scanned es s (fold_listed body (listing s es) a) (scan body s a)
    scan_lem s es a r counted small = elim (Bool-cases s.in_sub_dir) [
      | inl sub ↦
          subst (λ l. Scanned es s (fold_listed body l a) (scan body s a))
            (sym
              (ap (λ b. if b then parent_entry s.current_dir_idx ∷ visible es else visible es) sub))
            (scan_sub s es a r sub (ground arith) small)
      | inr root ↦
          subst (λ l. Scanned es s (fold_listed body l a) (scan body s a))
            (sym (
              ap (λ b. if b then parent_entry s.current_dir_idx ∷ visible es else visible es) root))
            (scan_root s es a r root (ground arith) small)
    ]
