-- ===== src/Dir/Located.antt =====
-- Where `ChangeDirectory`, `NavigateToPath` and `GoBack` of DirFunction.cpp leave the path, the
-- depth and the flag of a subdirectory: the state against a list of segments.
use easy_sd_gemini.Prelude.{
  ℕ, ◌+◌, ◌%◌, ◌<◌, ◌≡◌, refl, sym, ap, ◌∙◌, Bool, true, false, not, List, [], ◌∷◌, arith, ltb,
  if◌then◌else◌, length, length-append, inl, inr, Option, none, some, lt→ltb, Option-cases,
}
use easy_sd_gemini.SdFat.{SdFat}
use easy_sd_gemini.Dir.{
  DirState, prepare, resync_dir_from_cwd, count_entries, rewind_dir, find_dir_sfn, find_entry_sfn,
}
use easy_sd_gemini.Dir.Navigate.{
  root_path, is_empty, join_path, to_root, chdir_by_name, roll_back, change_directory,
}
use easy_sd_gemini.Dir.Paths.{
  IsSegment, AllSegments, path_of, snoc, length-slashed, length-path_of, length-path_of-snoc,
  AllSegments-snoc, join_path-path_of,
}

module _ ⦃sd : SdFat⦄ where
  -- The path, the depth and the flag.
  abbrev pub place : DirState → List ℕ × ℕ × Bool
  place s = (s.current_path, s.path_depth, s.in_sub_dir)

  pub place-count_entries : (s : DirState) → place (count_entries s) ≡ place s
  unfolding count_entries rewind_dir
  place-count_entries s = refl

  pub place-resync : (s : DirState) → place (resync_dir_from_cwd s).1 ≡ place s
  unfolding resync_dir_from_cwd
  place-resync s = elim (Option-cases (sd.open_cwd s.card)) [
    | inl e ↦ rw (e, resync_dir_from_cwd) refl
    | inr (d, e) ↦ rw (e, resync_dir_from_cwd) refl
  ]

  place-find :
      (name : List ℕ) (len : ℕ) (s : DirState) → place (find_dir_sfn name len s).1 ≡ place s
  unfolding find_dir_sfn find_entry_sfn rewind_dir
  place-find name len s = refl

  place-chdir : (name : List ℕ) (s : DirState) → place (chdir_by_name name s).1 ≡ place s
  unfolding chdir_by_name
  place-chdir name s =
      let moved = record s { card = (sd.chdir name s.card).1 } in
      let (found, after) = find_dir_sfn name (length name % 256) moved in
      either (sd.chdir name s.card).0 found moved after (place s) refl
        (place-find name (length name % 256) moved)
    where
      either :
          (b : Bool) (o : Option (List ℕ)) (m f : DirState) (p : List ℕ × ℕ × Bool)
          → place m ≡ p
          → place f ≡ p
          → place
              (if◌then◌else◌ {A = Bool × DirState} b
                (true, m)
                (elim o [
                  | none ↦ (false, f)
                  | some sfn ↦
                      let (ok, card) = sd.chdir sfn f.card in (ok, record f { card = card })
                ])).1
            ≡ p
      either true o m f p e e' = e
      either false none m f p e e' = e'
      either false (some sfn) m f p e e' = e'

  -- The state stands in the directory that `ns` leads to, outermost first.
  pub record Located (ns : List (List ℕ)) (s : DirState) : Type 0 where
    pub path : s.current_path ≡ path_of ns
    pub depth : s.path_depth ≡ length ns
    pub sub : s.in_sub_dir ≡ ltb 0 (length ns)
    pub segments : AllSegments ns
    pub fits : length (path_of ns) < 64

  pub moved_place :
      (ns : List (List ℕ)) (s t : DirState) → place t ≡ place s → Located ns s → Located ns t
  moved_place ns s t e l = record {
    path = ap (λ p. p.0) e ∙ l.path;
    depth = ap (λ p. p.1) e ∙ l.depth;
    sub = ap (λ p. p.2) e ∙ l.sub;
    segments = l.segments;
    fits = l.fits;
  }

  -- `ToRoot` stands at the root, whatever the card answers.
  pub to_root-Located : (s : DirState) → Located [] (to_root s)
  unfolding to_root
  to_root-Located s =
      let reset = record s {
        card = (sd.chdir_root s.card).1;
        count = 0;
        current_index = 0;
        is_finished = false;
        is_directory = false;
        in_sub_dir = false;
        path_depth = 0;
        current_path = root_path;
      } in
      let at_root : Located [] reset = record {
        path = refl;
        depth = refl;
        sub = refl;
        segments = tt;
        fits = omega arith;
      } in
      either (sd.chdir_root s.card).0 (resync_dir_from_cwd reset) reset at_root
        (moved_place [] reset _ (place-resync reset) at_root)
    where
      either :
          (b : Bool) (r : Bool × DirState) (t : DirState)
          → Located [] t
          → Located [] r.1
          → Located [] (if b then (if r.0 then count_entries r.1 else r.1) else t)
      either true (true, r) t l l' = moved_place [] r _ (place-count_entries r) l'
      either true (false, r) t l l' = l'
      either false r t l l' = l

  -- `Prepare` stays where it is.
  pub prepare-Located : (ns : List (List ℕ)) (s : DirState) → Located ns s → Located ns (prepare s)
  unfolding prepare
  prepare-Located ns s l = either (resync_dir_from_cwd s) (moved_place ns s _ (place-resync s) l)
    where
      either :
          (r : Bool × DirState)
          → Located ns r.1
          → Located ns (if r.0 then count_entries r.1 else r.1)
      either (true, t) l = moved_place ns t _ (place-count_entries t) l
      either (false, t) l = l

  -- `ChangeDirectory` by its outcomes.
  pub data Changes (ns : List (List ℕ)) (name : List ℕ) (r : Bool × DirState) : Type 0 where
    entered : r.0 ≡ true → Located (snoc ns name) r.1 → Changes ns name r
    stayed : r.0 ≡ false → Located ns r.1 → Changes ns name r

  rolled_back :
      (ns : List (List ℕ)) (s t : DirState)
      → Located ns s
      → Located ns (roll_back s.current_path s.path_depth t)
  unfolding roll_back
  rolled_back ns s t l = record {
    path = l.path;
    depth = l.depth;
    sub = ap (ltb 0) l.depth;
    segments = l.segments;
    fits = l.fits;
  }

  deeper :
      (ns : List (List ℕ)) (name : List ℕ) (s t : DirState)
      → Located ns s
      → IsSegment name
      → ltb 64 (length s.current_path + length name + 2) ≡ false
      → place t ≡ (join_path s.current_path name, s.path_depth, s.in_sub_dir)
      → Located
          (snoc ns name)
          (count_entries (record t { in_sub_dir = true; path_depth = (t.path_depth + 1) % 256 }))
  deeper ns name s t l seg room e =
      let inner = record t { in_sub_dir = true; path_depth = (t.path_depth + 1) % 256 } in
      let short : length s.current_path ≡ length (path_of ns) = ap length l.path in
      let more : length (snoc ns name) ≡ length ns + 1 = length-append ns (name ∷ []) in
      let bytes = length-path_of-snoc ns name in
      let at : Located (snoc ns name) inner = record {
        path =
            ap (λ p. p.0) e
            ∙ ap (λ p. join_path p name) l.path
            ∙ join_path-path_of ns name l.segments;
        depth =
            omega
              (arith, ap (λ p. p.1) e, l.depth, l.fits, length-slashed ns, length-path_of ns, more);
        sub = sym (lt→ltb 0 (length (snoc ns name)) (omega (arith, more)));
        segments = AllSegments-snoc ns name l.segments seg;
        fits = ground (arith, bytes, short, length-path_of ns, room);
      } in
      moved_place (snoc ns name) inner _ (place-count_entries inner) at

  pub change_directory-Changes :
      (ns : List (List ℕ)) (name : List ℕ) (s : DirState)
      → Located ns s
      → IsSegment name
      → Changes ns name (change_directory name s)
  unfolding change_directory
  change_directory-Changes ns name s l (some_byte, one) =
      let went = record s { current_path = join_path s.current_path name } in
      let (moved, s1) = chdir_by_name name went in
      let (ok, s2) = resync_dir_from_cwd s1 in
      let at1 : place s1 ≡ place went = place-chdir name went in
      let at2 : place s2 ≡ place went = place-resync s1 ∙ at1 in
      either (is_empty name) (ltb 64 (length s.current_path + length name + 2)) moved ok s1 s2
        some_byte (λ room. deeper ns name s s2 l (some_byte, one) room at2)
    where
      either :
          (e long moved ok : Bool) (s1 s2 : DirState)
          → e ≡ false
          → (long ≡ false
              → Located (snoc ns name) (
                  count_entries
                    (record s2 { in_sub_dir = true; path_depth = (s2.path_depth + 1) % 256 })))
          → Changes ns name (
              if e
              then (false, s)
              else if long
              then (false, s)
              else if not moved
              then (false, roll_back s.current_path s.path_depth s1)
              else if not ok
              then (false, roll_back s.current_path s.path_depth s2)
              else (
                true,
                count_entries
                    (record s2 { in_sub_dir = true; path_depth = (s2.path_depth + 1) % 256 }),
              ))
      either true long moved ok s1 s2 empty d = absurd cc
      either false true moved ok s1 s2 empty d = stayed refl l
      either false false false ok s1 s2 empty d = stayed refl (rolled_back ns s s1 l)
      either false false true false s1 s2 empty d = stayed refl (rolled_back ns s s2 l)
      either false false true true s1 s2 empty d = entered refl (d refl)
