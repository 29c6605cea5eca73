-- ===== src/Dir/Scanning.antt =====
-- A scan by `Iterate` of DirFunction.cpp visits ".." and the entries that are not hidden, in the
-- order of the directory.
use easy_sd_gemini.Prelude.{
  ℕ, zero, suc, ◌+◌, ◌%◌, ◌^◌, ◌<◌, ◌≡◌, sym, ap, subst, ◌∙◌, Bool, true, false, ◌&&◌, List, [],
  ◌∷◌, arith, ◌==◌, length,
}
use easy_sd_gemini.SdFat.{SdFat, DirEntry}
use easy_sd_gemini.Dir.{DirState, iterate}
use easy_sd_gemini.Dir.Select.{Listed, listed, scan_from}
use easy_sd_gemini.Dir.Counting.{visible, Reads}
use easy_sd_gemini.Dir.Iterating.{SameDir, SameDir-trans, At, ends, lists, iterate-Iterates}

-- A body run on each listed entry in turn.
abbrev pub fold_listed {ℓ} : {S : Type ℓ} → (Listed → S → S) → List Listed → S → S
fold_listed body [] a = a
fold_listed body (x ∷ xs) a = fold_listed body xs (body x a)

module _ ⦃sd : SdFat⦄ where
  -- What a scan leaves: the result of the fold, in the same directory.
  pub record Scanned {ℓ} {S : Type ℓ} (all : List DirEntry) (s : DirState) (want : S)
      (r : S × DirState) : Type ℓ where
    pub result : r.0 ≡ want
    pub same : SameDir s r.1
    pub reads : Reads r.1 all

  -- The scan is inside the directory, ".." behind it.
  pub record Inside (all es : List DirEntry) (s : DirState) : Type 0 where
    pub at : At all es s
    pub past : (s.in_sub_dir && (s.current_index == 0)) ≡ false
    pub counted : s.current_index + length (visible es) ≡ s.count
    pub small : s.count < 2 ^ 16
    pub running : s.is_finished ≡ false

  module _ {ℓ} {S : Type ℓ} (body : Listed → S → S) where
    scan_stop :
        (fuel : ℕ) (s : DirState) (a : S)
        → (iterate s).0 ≡ false
        → scan_from (suc fuel) body s a ≡ (a, (iterate s).1)
    unfolding scan_from
    scan_stop fuel s a e = rw e

    pub scan_next :
        (fuel : ℕ) (s : DirState) (a : S)
        → (iterate s).0 ≡ true
        → (iterate s).1.is_finished ≡ false
        → scan_from (suc fuel) body s a
          ≡ scan_from fuel body (iterate s).1 (body (listed (iterate s).1) a)
    unfolding scan_from
    scan_next fuel s a e f = simp (e, f)

    Scanned-stop :
        (fuel : ℕ) (all es : List DirEntry) (s : DirState) (a : S)
        → (iterate s).0 ≡ false
        → visible es ≡ []
        → SameDir s (iterate s).1
        → Reads (iterate s).1 all
        → Scanned all s (fold_listed body (visible es) a) (scan_from (suc fuel) body s a)
    Scanned-stop fuel all es s a stop none_left same at =
        subst (Scanned all s _) (sym (scan_stop fuel s a stop)) (record {
          result = sym (ap (λ v. fold_listed body v a) none_left);
          same = same;
          reads = at;
        })

    Scanned-next :
        (fuel : ℕ) (all es rest : List DirEntry) (v : Listed) (s : DirState) (a : S)
        → (iterate s).0 ≡ true
        → (iterate s).1.is_finished ≡ false
        → visible es ≡ v ∷ visible rest
        → listed (iterate s).1 ≡ v
        → SameDir s (iterate s).1
        → Scanned all
            (iterate s).1
            (fold_listed body (visible rest) (body (listed (iterate s).1) a))
            (scan_from fuel body (iterate s).1 (body (listed (iterate s).1) a))
        → Scanned all s (fold_listed body (visible es) a) (scan_from (suc fuel) body s a)
    Scanned-next fuel all es rest v s a more running next shown same ih =
        subst (Scanned all s _) (sym (scan_next fuel s a more running)) (record {
          result =
              ih.result
              ∙ ap (λ w. fold_listed body (visible rest) (body w a)) shown
              ∙ sym (ap (λ v. fold_listed body v a) next);
          same = SameDir-trans same ih.same;
          reads = ih.reads;
        })

    still-Inside :
        (all es rest : List DirEntry) (v : Listed) (s t : DirState)
        → Inside all es s
        → visible es ≡ v ∷ visible rest
        → t.is_finished ≡ s.is_finished
        → t.current_index ≡ (s.current_index + 1) % 2 ^ 16
        → SameDir s t
        → At all rest t
        → Inside all rest t
    still-Inside all es rest v s t i next running index same at =
        let shorter : length (visible es) ≡ suc (length (visible rest)) = ap length next in
        let step : t.current_index ≡ s.current_index + 1 =
          omega (arith, i.counted, i.small, index, shorter) in
        record {
          at = at;
          past = away t.in_sub_dir t.current_index (omega (arith, step));
          counted = omega (arith, step, i.counted, shorter, same.count);
          small = subst (λ c. c < 2 ^ 16) (sym same.count) i.small;
          running = running ∙ i.running;
        }
      where
        away : (b : Bool) (n : ℕ) → 0 < n → (b && (n == 0)) ≡ false
        away b n h = ground arith

    pub scan_from-Scanned :
        (fuel : ℕ) (all es : List DirEntry) (s : DirState) (a : S)
        → Inside all es s
        → length es < fuel
        → Scanned all s (fold_listed body (visible es) a) (scan_from fuel body s a)
    scan_from-Scanned zero all es s a i h = elim h [ ]
    scan_from-Scanned (suc fuel) all es s a i h =
        elim (iterate-Iterates all es s i.at i.past i.counted) [
          | ends none_left stop same at ↦ Scanned-stop fuel all es s a stop none_left same at
          | lists v rest next more shown running index same at fewer ↦
              Scanned-next fuel all es rest v s a more (running ∙ i.running) next shown same (
                scan_from-Scanned fuel all rest (iterate s).1 (body (listed (iterate s).1) a)
                  (still-Inside all es rest v s (iterate s).1 i next running index same at)
                  (omega arith))
        ]
