-- ===== src/Dir/Arrives.antt =====
-- `NavigateToPath`, `GoBack` and `ChangeDirectoryBasename` of DirFunction.cpp on the list of
-- segments that the path stands for.
use easy_sd_gemini.Prelude.{
  ℕ, ◌+◌, ◌<◌, ◌≡◌, refl, sym, ap, subst, ◌∙◌, Bool, true, false, List, [], ◌∷◌, ◌++◌, arith, ◌==◌,
  leb, take, take_all, if◌then◌else◌, length, length-append, append-nil, append_assoc, inl, inr,
}
use easy_sd_gemini.SdFat.{SdFat}
use easy_sd_gemini.Dir.{DirState}
use easy_sd_gemini.Dir.Navigate.{
  is_empty, has_slash, parent_path, to_root, change_directory, navigate_from, navigate_to_path,
  go_back, change_directory_basename,
}
use easy_sd_gemini.Dir.Paths.{
  AllSegments, slashed, path_of, snoc, length-path_of-snoc, AllSegments-init, unsnoc,
  parent_path-path_of,
}
use easy_sd_gemini.Dir.Located.{
  Located, Changes, entered, stayed, to_root-Located, change_directory-Changes,
}

module _ ⦃sd : SdFat⦄ where
  -- `NavigateToPath` by its outcomes: it arrives, or a segment fails and it goes to the root.
  pub data Arrives (ns : List (List ℕ)) (r : Bool × DirState) : Type 0 where
    arrived : r.0 ≡ true → Located ns r.1 → Arrives ns r
    gave_up : r.0 ≡ false → Located [] r.1 → Arrives ns r

  -- The loop reads a segment byte by byte.
  navigate_read :
      (read cs rest : List ℕ) (s : DirState)
      → has_slash cs ≡ false
      → navigate_from read (cs ++ rest) s ≡ navigate_from (read ++ cs) rest s
  unfolding navigate_from has_slash
  navigate_read read [] rest s h = ap (λ r. navigate_from r rest s) (sym (append-nil read))
  navigate_read read (c ∷ cs) rest s h =
      let ih = navigate_read (read ++ (c ∷ [])) cs rest s (ground arith) in
      let here : (c == b'/') ≡ false = ground arith in
      simp here (ih ∙ ap (λ r. navigate_from r rest s) (append_assoc read (c ∷ []) cs))

  navigate_end :
      (name : List ℕ) (s : DirState)
      → is_empty name ≡ false
      → navigate_from name [] s
        ≡ (let r = change_directory name s in if r.0 then (true, r.1) else (false, to_root r.1))
  unfolding navigate_from
  navigate_end name s h =
      ap
        (λ b.
          let r = change_directory name s in
          if b then (true, s) else if r.0 then (true, r.1) else (false, to_root r.1))
        h

  navigate_slash :
      (name rest : List ℕ) (s : DirState)
      → navigate_from name (b'/' ∷ rest) s ≡ (
          let r = change_directory name s in
          if r.0 then navigate_from [] rest r.1 else (false, to_root r.1))
  unfolding navigate_from
  navigate_slash name rest s = refl

  navigate_from-Arrives :
      (done : List (List ℕ)) (n : List ℕ) (ns : List (List ℕ)) (s : DirState)
      → AllSegments (n ∷ ns)
      → Located done s
      → Arrives (done ++ (n ∷ ns)) (navigate_from [] (n ++ slashed ns) s)
  navigate_from-Arrives done n [] s (seg, rest) l =
      subst (Arrives (snoc done n))
        (sym (navigate_read [] n [] s (seg.1) ∙ navigate_end n s (seg.0)))
        (either (change_directory n s) (change_directory-Changes done n s l seg))
    where
      either :
          (r : Bool × DirState)
          → Changes done n r
          → Arrives (snoc done n) (if r.0 then (true, r.1) else (false, to_root r.1))
      either r (entered ok at) =
          subst (λ b. Arrives (snoc done n) (if b then (true, r.1) else (false, to_root r.1)))
            (sym ok) (arrived refl at)
      either r (stayed ko at) =
          subst (λ b. Arrives (snoc done n) (if b then (true, r.1) else (false, to_root r.1)))
            (sym ko) (gave_up refl (to_root-Located r.1))
  navigate_from-Arrives done n (m ∷ ms) s (seg, rest) l =
      subst (Arrives (done ++ (n ∷ m ∷ ms)))
        (sym
          (navigate_read [] n (slashed (m ∷ ms)) s (seg.1) ∙ navigate_slash n (m ++ slashed ms) s))
        (either (change_directory n s) (change_directory-Changes done n s l seg) (λ at.
          subst (λ all. Arrives all (navigate_from [] (m ++ slashed ms) (change_directory n s).1))
            (append_assoc done (n ∷ []) (m ∷ ms))
            (navigate_from-Arrives (snoc done n) m ms (change_directory n s).1 rest at)))
    where
      either :
          (r : Bool × DirState)
          → Changes done n r
          → (Located (snoc done n) r.1
              → Arrives (done ++ (n ∷ m ∷ ms)) (navigate_from [] (m ++ slashed ms) r.1))
          → Arrives
              (done ++ (n ∷ m ∷ ms))
              (if r.0 then navigate_from [] (m ++ slashed ms) r.1 else (false, to_root r.1))
      either r (entered ok at) onward =
          subst
            (λ b.
              Arrives (done ++ (n ∷ m ∷ ms))
                (if b then navigate_from [] (m ++ slashed ms) r.1 else (false, to_root r.1)))
            (sym ok) (onward at)
      either r (stayed ko at) onward =
          subst
            (λ b.
              Arrives (done ++ (n ∷ m ∷ ms))
                (if b then navigate_from [] (m ++ slashed ms) r.1 else (false, to_root r.1)))
            (sym ko) (gave_up refl (to_root-Located r.1))

  pub navigate_to_path-Arrives :
      (ns : List (List ℕ)) (s : DirState)
      → AllSegments ns
      → Arrives ns (navigate_to_path (path_of ns) s)
  unfolding navigate_to_path
  navigate_to_path-Arrives [] s all = arrived refl (to_root-Located s)
  navigate_to_path-Arrives ([] ∷ ns) s ((some_byte, one), rest) = absurd cc
  navigate_to_path-Arrives ((c ∷ cs) ∷ ns) s all =
      navigate_from-Arrives [] (c ∷ cs) ns (to_root s) all (to_root-Located s)

  go_back_step :
      (s : DirState)
      → (s.path_depth == 0) ≡ false
      → leb (length (take 63 s.current_path)) 1 ≡ false
      → go_back s ≡ navigate_to_path (parent_path (take 63 s.current_path)) s
  unfolding go_back
  go_back_step s down long = simp (down, long)

  pub go_back-Arrives :
      (ns : List (List ℕ)) (name : List ℕ) (s : DirState)
      → Located (snoc ns name) s
      → Arrives ns (go_back s)
  go_back-Arrives ns name s l =
      let (all, (some_byte, one)) = AllSegments-init ns name l.segments in
      let short = length-path_of-snoc ns name in
      let more : length (snoc ns name) ≡ length ns + 1 = length-append ns (name ∷ []) in
      let whole : take 63 s.current_path ≡ path_of (snoc ns name) =
        ap (take 63) l.path ∙ take_all 63 (path_of (snoc ns name)) (omega (arith, l.fits)) in
      let down : (s.path_depth == 0) ≡ false = ground (arith, l.depth, more) in
      let long : leb (length (take 63 s.current_path)) 1 ≡ false =
        ground (arith, ap length whole, short, some_length name some_byte) in
      let up : parent_path (take 63 s.current_path) ≡ path_of ns =
        ap parent_path whole ∙ parent_path-path_of ns name (some_byte, one) in
      subst (Arrives ns) (sym (go_back_step s down long ∙ ap (λ p. navigate_to_path p s) up))
        (navigate_to_path-Arrives ns s all)
    where
      some_length : (n : List ℕ) → is_empty n ≡ false → 0 < length n
      some_length [] e = absurd cc
      some_length (c ∷ cs) e = omega arith

  go_back_root : (s : DirState) → Located [] s → go_back s ≡ (false, s)
  unfolding go_back
  go_back_root s l = rw l.depth refl

  go_back-Located :
      (ns : List (List ℕ)) (s : DirState)
      → Located ns s
      → (ms : List (List ℕ)) × Located ms (go_back s).1
  go_back-Located ns s l = elim (unsnoc ns) [
    | inl e ↦
        (ns, subst (λ r. Located ns r.1) (sym (go_back_root s (subst (λ m. Located m s) e l))) l)
    | inr (ms, n, e) ↦ elim (go_back-Arrives ms n s (subst (λ m. Located m s) e l)) [
      | arrived ok at ↦ (ms, at)
      | gave_up ko at ↦ ([], at)
    ]
  ]

  -- `ChangeDirectoryBasename` with any name, accepted or not, keeps the path, the depth and the
  -- flag those of a list of segments: the path starts with a slash, has one segment for each level
  -- of depth and fits its 64 bytes.
  pub change_directory_basename-Located :
      (ns : List (List ℕ)) (name : List ℕ) (s : DirState)
      → Located ns s
      → (ms : List (List ℕ)) × Located ms (change_directory_basename name s).1
  unfolding change_directory_basename
  change_directory_basename-Located ns name s l =
      either (is_empty name) _ (has_slash name) refl refl (go_back-Located ns s l)
    where
      either :
          (e up slash : Bool)
          → is_empty name ≡ e
          → has_slash name ≡ slash
          → (ms : List (List ℕ)) × Located ms (go_back s).1
          → (let r : Bool × DirState =
                if e
                then (false, s)
                else if up
                then go_back s
                else if slash
                then (false, s)
                else change_directory name s in
              (ms : List (List ℕ)) × Located ms r.1)
      either true up slash e e' back = (ns, l)
      either false true slash e e' back = back
      either false false true e e' back = (ns, l)
      either false false false e e' back = elim (change_directory-Changes ns name s l (e, e')) [
        | entered ok at ↦ (snoc ns name, at)
        | stayed ko at ↦ (ns, at)
      ]
