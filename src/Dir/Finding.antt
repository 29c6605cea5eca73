-- ===== src/Dir/Finding.antt =====
-- The search of `FindEntrySFN` of DirFunction.cpp against the entries of the directory.
use easy_sd_gemini.Prelude.{
  ℕ, zero, suc, ◌≤◌, ◌<◌, ◌≡◌, ◌↔◌, refl, sym, ap, subst, ◌∙◌, inl, inr, Bool, true, false, not,
  ◌&&◌, ◌||◌, List, [], ◌∷◌, ◌++◌, Option, none, some, arith, leb, if◌then◌else◌, Bool-cases,
  length, take, take_all,
}
use easy_sd_gemini.SdFat.{SdFat, DirEntry, open_next_nil, open_next_cons}
use easy_sd_gemini.Names.{capture_file_name_preview}
use easy_sd_gemini.Names.Match.{lower, prefix_matches_lem}
use easy_sd_gemini.Dir.{
  DirState, rewind_dir, next_entry, entries_left, wanted, find_from, find_entry_sfn,
}
use easy_sd_gemini.Dir.Counting.{Reads}

-- No entry passes the test.
abbrev pub NoneOf : (DirEntry → Bool) → List DirEntry → Type 0
NoneOf test [] = Unit
NoneOf test (e ∷ es) = (test e ≡ false) × NoneOf test es

-- The first entry that passes the test, or none where none does.
pub data First (test : DirEntry → Bool) (es : List DirEntry) (r : Option (List ℕ)) : Type 0 where
  found :
      (before : List DirEntry) (e : DirEntry) (after : List DirEntry)
      → es ≡ before ++ (e ∷ after)
      → NoneOf test before
      → test e ≡ true
      → r ≡ some e.sfn
      → First test es r
  missing : NoneOf test es → r ≡ none → First test es r

pass_over :
    (test : DirEntry → Bool) (x : DirEntry) (es : List DirEntry) (r : Option (List ℕ))
    → test x ≡ false
    → First test es r
    → First test (x ∷ es) r
pass_over test x es r h (found before e after split none_before hit result) =
    found (x ∷ before) e after (ap (λ l. x ∷ l) split) (h, none_before) hit result
pass_over test x es r h (missing none_here result) = missing (h, none_here) result

module _ ⦃sd : SdFat⦄ where
  abbrev pub Search :
      List DirEntry → (DirEntry → Bool) → List DirEntry → Option (List ℕ) × Option sd.Dir → Type 0
  Search all test es r = First test es r.0 × ((d : sd.Dir) × (r.1 ≡ some d) × (sd.entries d ≡ all))

  find_step_nil :
      (fuel : ℕ) (prefix : List ℕ) (len : ℕ) (want_dir : Bool) (d : sd.Dir)
      → sd.pending d ≡ []
      → find_from (suc fuel) prefix len want_dir (some d) ≡ (none, some d)
  unfolding find_from next_entry
  find_step_nil fuel prefix len want_dir d p = rw (open_next_nil d p, find_from) refl

  find_step_cons :
      (fuel : ℕ) (prefix : List ℕ) (len : ℕ) (want_dir : Bool) (d d' : sd.Dir) (e : DirEntry)
      → sd.open_next d ≡ some (e, d')
      → find_from (suc fuel) prefix len want_dir (some d) ≡ (
          if wanted prefix len want_dir e
          then (some e.sfn, some d')
          else find_from fuel prefix len want_dir (some d'))
  unfolding find_from next_entry
  find_step_cons fuel prefix len want_dir d d' e go = rw (go, find_from) refl

  find_from-Search :
      (fuel : ℕ) (all es : List DirEntry) (prefix : List ℕ) (len : ℕ) (want_dir : Bool) (d : sd.Dir)
      → sd.pending d ≡ es
      → sd.entries d ≡ all
      → length es < fuel
      → Search all (wanted prefix len want_dir) es (find_from fuel prefix len want_dir (some d))
  find_from-Search zero all es prefix len want_dir d p whole h = elim h [ ]
  find_from-Search (suc fuel) all [] prefix len want_dir d p whole h =
      subst (Search all (wanted prefix len want_dir) [])
        (sym (find_step_nil fuel prefix len want_dir d p)) (missing tt refl, (d, refl, whole))
  find_from-Search (suc fuel) all (e ∷ es) prefix len want_dir d p whole h =
      let (d', go, left, same) = open_next_cons d e es p in
      let test = wanted prefix len want_dir in
      let onward = find_from fuel prefix len want_dir (some d') in
      let choice : Bool → Option (List ℕ) × Option sd.Dir =
        λ b. if b then (some e.sfn, some d') else onward in
      subst (Search all test (e ∷ es)) (sym (find_step_cons fuel prefix len want_dir d d' e go))
        (elim (Bool-cases (test e)) [
          | inl hit ↦
              subst (λ b. Search all test (e ∷ es) (choice b)) (sym hit)
                (found [] e es refl tt hit refl, (d', refl, same ∙ whole))
          | inr miss ↦
              let (first, at) =
                find_from-Search fuel all es prefix len want_dir d' left (same ∙ whole)
                  (omega arith) in
              subst (λ b. Search all test (e ∷ es) (choice b)) (sym miss)
                (pass_over test e es _ miss first, at)
        ])

  -- `FindEntrySFN` gives the short name of the first entry in the directory's order that passes
  -- its test, and none where no entry does; the directory stays open.
  pub find_entry_sfn-First :
      (prefix : List ℕ) (len : ℕ) (want_dir : Bool) (s : DirState) (es : List DirEntry)
      → Reads s es
      → First (wanted prefix len want_dir) es (find_entry_sfn prefix len want_dir s).0
        × Reads (find_entry_sfn prefix len want_dir s).1 es
  unfolding find_entry_sfn rewind_dir entries_left
  find_entry_sfn-First prefix len want_dir s es (d, at, same) =
      let all : sd.pending (sd.rewind d) ≡ es = sd.pending-rewind d ∙ same in
      rw at (
        find_from-Search (suc (length (sd.pending (sd.rewind d)))) es es prefix len want_dir
          (sd.rewind d) all (sd.entries-rewind d ∙ same) (omega (arith, ap length all)))

-- The test of `FindEntrySFN`: an entry that is not hidden, of the wanted kind, whose name begins
-- with the given bytes but for case. The name may go on after them.
pub wanted_iff :
    (prefix : List ℕ) (want_dir : Bool) (e : DirEntry)
    → (wanted prefix (length prefix) want_dir e ≡ true) ↔ (
        (e.is_hidden ≡ false)
        × (e.is_dir ≡ want_dir)
        × (length prefix ≤ length (capture_file_name_preview e.name 64))
        × (lower (take (length prefix) (capture_file_name_preview e.name 64)) ≡ lower prefix))
unfolding wanted
wanted_iff prefix want_dir e =
    let lfn = capture_file_name_preview e.name 64 in
    (
      λ h.
          let (shown, kind, long, same) =
            parts e.is_hidden e.is_dir want_dir (length prefix) (length lfn) _ h in
          (
            shown,
            kind,
            long,
            (prefix_matches_lem lfn prefix (length prefix) long (omega arith)).0 same ∙ whole,
          ),
      λ (shown, kind, long, same).
          join e.is_hidden e.is_dir want_dir (length prefix) (length lfn) _ shown kind long (
            (prefix_matches_lem lfn prefix (length prefix) long (omega arith)).1
              (same ∙ sym whole)),
    )
  where
    whole : lower (take (length prefix) prefix) ≡ lower prefix
    whole = ap lower (take_all (length prefix) prefix (omega arith))

    parts :
        (hid dir want : Bool) (m n : ℕ) (match : Bool)
        → (if hid || not (if dir then want else not want) then false else (leb m n && match)) ≡ true
        → (hid ≡ false) × (dir ≡ want) × (m ≤ n) × (match ≡ true)
    parts hid dir want m n match h = ground arith

    join :
        (hid dir want : Bool) (m n : ℕ) (match : Bool)
        → hid ≡ false
        → dir ≡ want
        → m ≤ n
        → match ≡ true
        → (if hid || not (if dir then want else not want) then false else (leb m n && match)) ≡ true
    join hid dir want m n match a b c d = ground arith
