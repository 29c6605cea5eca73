-- ===== src/Dir/Iterating.antt =====
-- One call of `Iterate` of DirFunction.cpp against the entries still to come.
use easy_sd_gemini.Prelude.{
  ℕ, zero, suc, ◌+◌, ◌%◌, ◌^◌, ◌<◌, ◌≡◌, refl, sym, ap, subst, ◌∙◌, inl, inr, Bool, true, false,
  ◌&&◌, List, [], ◌∷◌, some, arith, ◌==◌, leb, if◌then◌else◌, Bool-cases, length,
}
use easy_sd_gemini.SdFat.{SdFat, DirEntry, open_next_nil, open_next_cons}
use easy_sd_gemini.Names.{capture_file_name_preview}
use easy_sd_gemini.Dir.{DirState, next_entry, entries_left, iterate_from, iterate}
use easy_sd_gemini.Dir.Select.{Listed, listed}
use easy_sd_gemini.Dir.Counting.{visible, Reads}

module _ ⦃sd : SdFat⦄ where
  -- What a scan leaves alone.
  pub record SameDir (s t : DirState) : Type 0 where
    pub card : t.card ≡ s.card
    pub path : t.current_path ≡ s.current_path
    pub depth : t.path_depth ≡ s.path_depth
    pub count : t.count ≡ s.count
    pub sub : t.in_sub_dir ≡ s.in_sub_dir

  -- The state stands in a directory before the entries `es`.
  pub record At (all es : List DirEntry) (s : DirState) : Type 0 where
    pub dir : sd.Dir
    pub opened : s.dir_file ≡ some dir
    pub left : sd.pending dir ≡ es
    pub whole : sd.entries dir ≡ all

  step_nil :
      (fuel : ℕ) (all : List DirEntry) (s : DirState)
      → (a : At all [] s)
      → iterate_from (suc fuel) s ≡ (false, record s { dir_file = some a.dir; is_finished = true })
  unfolding iterate_from next_entry
  step_nil fuel all s a =
      rw (a.opened, open_next_nil a.dir a.left, iterate_from)
        (ap (λ o. (false, record s { dir_file = o; is_finished = true })) a.opened)

  abbrev take_entry : DirEntry → sd.Dir → DirState → DirState
  take_entry e d s = record s {
    dir_file = some d;
    current_file_name = capture_file_name_preview e.name 32;
    is_directory = e.is_dir;
    current_dir_idx = e.dir_index;
    current_index = (s.current_index + 1) % 2 ^ 16;
  }

  step_cons :
      (fuel : ℕ) (d d' : sd.Dir) (e : DirEntry) (s : DirState)
      → s.dir_file ≡ some d
      → sd.open_next d ≡ some (e, d')
      → iterate_from (suc fuel) s ≡ (
          if e.is_hidden
          then iterate_from fuel (record s { dir_file = some d' })
          else (true, take_entry e d' s))
  unfolding iterate_from next_entry
  step_cons fuel d d' e s at go = rw (at, go, iterate_from)

  -- One call of the loop: it ends, or lists the next entry that is not hidden.
  pub data Iterates (all es : List DirEntry) (s : DirState) (r : Bool × DirState) : Type 0 where
    ends : visible es ≡ [] → r.0 ≡ false → SameDir s r.1 → Reads r.1 all → Iterates all es s r
    lists :
        (v : Listed) (rest : List DirEntry)
        → visible es ≡ v ∷ visible rest
        → r.0 ≡ true
        → listed r.1 ≡ v
        → r.1.is_finished ≡ s.is_finished
        → r.1.current_index ≡ (s.current_index + 1) % 2 ^ 16
        → SameDir s r.1
        → At all rest r.1
        → length rest < length es
        → Iterates all es s r

  skip_hidden :
      (all es : List DirEntry) (e : DirEntry) (s : DirState) (d : sd.Dir) (r : Bool × DirState)
      → e.is_hidden ≡ true
      → Iterates all es (record s { dir_file = some d }) r
      → Iterates all (e ∷ es) s r
  skip_hidden all es e s d r hid (ends none_left stop same at) =
      ends (rw hid none_left) stop
        (record {
          card = same.card;
          path = same.path;
          depth = same.depth;
          count = same.count;
          sub = same.sub;
        })
        at
  skip_hidden all es e s d r hid (lists v rest next more shown running index same at fewer) =
      lists v rest (rw hid next) more shown running index
        (record {
          card = same.card;
          path = same.path;
          depth = same.depth;
          count = same.count;
          sub = same.sub;
        })
        at (omega arith)

  iterate_from-Iterates :
      (fuel : ℕ) (all es : List DirEntry) (s : DirState)
      → At all es s
      → length es < fuel
      → Iterates all es s (iterate_from fuel s)
  iterate_from-Iterates zero all es s a h = elim h [ ]
  iterate_from-Iterates (suc fuel) all [] s a h =
      subst (Iterates all [] s) (sym (step_nil fuel all s a)) (
        ends refl refl (record { card = refl; path = refl; depth = refl; count = refl; sub = refl })
          (a.dir, refl, a.whole))
  iterate_from-Iterates (suc fuel) all (e ∷ es) s a h =
      let (d', go, left, same) = open_next_cons a.dir e es a.left in
      let ih =
        iterate_from-Iterates fuel all es (record s { dir_file = some d' })
          (record { dir = d'; opened = refl; left = left; whole = same ∙ a.whole }) (omega arith) in
      let step = step_cons fuel a.dir d' e s a.opened go in
      let taken : Bool → Bool × DirState = λ b.
        if b
        then iterate_from fuel (record s { dir_file = some d' })
        else (true, take_entry e d' s) in
      subst (Iterates all (e ∷ es) s) (sym step) (elim (Bool-cases e.is_hidden) [
        | inl hid ↦
            subst (λ b. Iterates all (e ∷ es) s (taken b)) (sym hid)
              (skip_hidden all es e s d' _ hid ih)
        | inr vis ↦
            subst (λ b. Iterates all (e ∷ es) s (taken b)) (sym vis)
              (lists _ es (rw vis) refl refl refl refl
                (record { card = refl; path = refl; depth = refl; count = refl; sub = refl })
                (record { dir = d'; opened = refl; left = left; whole = same ∙ a.whole })
                (omega arith))
      ])

  pub SameDir-trans : {s t u : DirState} → SameDir s t → SameDir t u → SameDir s u
  SameDir-trans p q = record {
    card = q.card ∙ p.card;
    path = q.path ∙ p.path;
    depth = q.depth ∙ p.depth;
    count = q.count ∙ p.count;
    sub = q.sub ∙ p.sub;
  }

  pub left-At : (all es : List DirEntry) (s : DirState) → At all es s → entries_left s.dir_file ≡ es
  unfolding entries_left
  left-At all es s a = ap entries_left a.opened ∙ a.left

  iterate_full :
      (s : DirState)
      → (s.in_sub_dir && (s.current_index == 0)) ≡ false
      → leb s.count s.current_index ≡ true
      → iterate s ≡ (false, record s { current_file_name = []; is_finished = true })
  unfolding iterate
  iterate_full s past full = simp (past, full)

  iterate_more :
      (s : DirState)
      → (s.in_sub_dir && (s.current_index == 0)) ≡ false
      → leb s.count s.current_index ≡ false
      → iterate s
        ≡ iterate_from
            (suc (length (entries_left s.dir_file)))
            (record s { current_file_name = [] })
  unfolding iterate
  iterate_more s past more = simp (past, more)

  unnamed :
      (all es : List DirEntry) (s : DirState) (r : Bool × DirState)
      → Iterates all es (record s { current_file_name = [] }) r
      → Iterates all es s r
  unnamed all es s r (ends none_left stop same at) =
      ends none_left stop
        (record {
          card = same.card;
          path = same.path;
          depth = same.depth;
          count = same.count;
          sub = same.sub;
        })
        at
  unnamed all es s r (lists v rest next more shown running index same at fewer) =
      lists v rest next more shown running index
        (record {
          card = same.card;
          path = same.path;
          depth = same.depth;
          count = same.count;
          sub = same.sub;
        })
        at fewer

  -- The whole of `Iterate`, once ".." is behind: at `count` it ends without a look at the card.
  pub iterate-Iterates :
      (all es : List DirEntry) (s : DirState)
      → At all es s
      → (s.in_sub_dir && (s.current_index == 0)) ≡ false
      → s.current_index + length (visible es) ≡ s.count
      → Iterates all es s (iterate s)
  iterate-Iterates all es s a past counted = elim (Bool-cases (leb s.count s.current_index)) [
    | inl full ↦ subst (Iterates all es s) (sym (iterate_full s past full)) (
        ends (visible_none (visible es) (ground arith)) refl
          (record { card = refl; path = refl; depth = refl; count = refl; sub = refl })
          (a.dir, a.opened, a.whole))
    | inr more ↦ subst (Iterates all es s) (sym (iterate_more s past more)) (
        unnamed all es s _ (
          iterate_from-Iterates (suc (length (entries_left s.dir_file))) all es _
            (record { dir = a.dir; opened = a.opened; left = a.left; whole = a.whole })
            (omega (arith, ap length (left-At all es s a)))))
  ]
    where
      visible_none : (vs : List Listed) → length vs ≡ 0 → vs ≡ []
      visible_none [] e = refl
      visible_none (v ∷ vs) e = absurd (omega arith)
