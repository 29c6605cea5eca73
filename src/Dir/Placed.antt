-- ===== src/Dir/Placed.antt =====
-- The operations of Arduino/EasySD/DirFunction.cpp on any name and path: the path, the depth and the
-- flag of a subdirectory stay those of a list of segments.
use easy_sd_gemini.Prelude.{
  ℕ, ◌≡◌, refl, sym, ap, subst, ◌∙◌, inl, inr, Bool, true, false, not, ◌&&◌, List, [], ◌∷◌, ◌++◌,
  ◌==◌, if◌then◌else◌, Bool-cases,
}
use easy_sd_gemini.SdFat.{SdFat}
use easy_sd_gemini.Dir.{DirState, rewind_dir, find_file_sfn, find_entry_sfn}
use easy_sd_gemini.Dir.Navigate.{
  is_empty, has_slash, to_root, change_directory, navigate_from, navigate_to_path,
  change_directory_basename,
}
use easy_sd_gemini.Dir.Arrives.{change_directory_basename-Located}
use easy_sd_gemini.Dir.Located.{
  Located, Changes, place, moved_place, to_root-Located, change_directory-Changes,
}

no_slash : has_slash [] ≡ false
unfolding has_slash
no_slash = refl

-- A branch of a conditional, by what both sides have.
pub if_has {ℓ κ} :
    {A : Type ℓ} (P : A → Type κ) (b : Bool) (x y : A) → P x → P y → P (if b then x else y)
if_has P true x y p q = p
if_has P false x y p q = q

-- The same, with what the test says.
pub if_given {ℓ κ} :
    {A : Type ℓ} (P : A → Type κ) (b : Bool) (x y : A)
    → (b ≡ true → P x)
    → (b ≡ false → P y)
    → P (if b then x else y)
if_given P true x y p q = p refl
if_given P false x y p q = q refl

without_slash :
    (read : List ℕ) (c : ℕ)
    → has_slash read ≡ false
    → (c == b'/') ≡ false
    → has_slash (read ++ (c ∷ [])) ≡ false
unfolding has_slash
without_slash [] c h e = simp e refl
without_slash (x ∷ xs) c h e = elim (Bool-cases (x == b'/')) [
  | inl q ↦ absurd (cc (h, q))
  | inr q ↦ simp q (without_slash xs c (rest q h) e)
]
  where
    rest :
        (x == b'/') ≡ false
        → (if x == b'/' then true else has_slash xs) ≡ false
        → has_slash xs ≡ false
    rest q h = sym (ap (λ b. if b then true else has_slash xs) q) ∙ h

module _ ⦃sd : SdFat⦄ where
  -- The state stands in a directory of some segments.
  abbrev pub Placed : DirState → Type 0
  Placed d = (ns : List (List ℕ)) × Located ns d

  pub Placed-place : (s t : DirState) → place t ≡ place s → Placed s → Placed t
  Placed-place s t e (ns, l) = (ns, moved_place ns s t e l)

  pub to_root-Placed : (s : DirState) → Placed (to_root s)
  to_root-Placed s = ([], to_root-Located s)

  nothing_entered : (s : DirState) → change_directory [] s ≡ (false, s)
  unfolding change_directory
  nothing_entered s = refl

  change_directory-Placed :
      (name : List ℕ) (s : DirState)
      → has_slash name ≡ false
      → Placed s
      → Placed (change_directory name s).1
  change_directory-Placed [] s h p = subst (λ r. Placed r.1) (sym (nothing_entered s)) p
  change_directory-Placed (c ∷ cs) s h (ns, l) =
      by_outcome (change_directory-Changes ns (c ∷ cs) s l (refl, h))
    where
      by_outcome : {r : Bool × DirState} → Changes ns (c ∷ cs) r → Placed r.1
      by_outcome (Changes.entered e l') = (_, l')
      by_outcome (Changes.stayed e l') = (_, l')

  navigate_from-Placed :
      (read cs : List ℕ) (s : DirState)
      → has_slash read ≡ false
      → Placed s
      → Placed (navigate_from read cs s).1
  unfolding navigate_from
  navigate_from-Placed read [] s h p =
      let (ok, s') = change_directory read s in
      let P : Bool × DirState → Type 0 = λ r. Placed r.1 in
      if_has P _ _ _ p (if_has P ok _ _ (change_directory-Placed read s h p) (to_root-Placed s'))
  navigate_from-Placed read (c ∷ cs) s h p =
      let (ok, s') = change_directory read s in
      let P : Bool × DirState → Type 0 = λ r. Placed r.1 in
      if_given P (c == b'/') _ _
        (λ _.
          if_has P ok _ _
            (navigate_from-Placed [] cs s' no_slash (change_directory-Placed read s h p))
            (to_root-Placed s'))
        (λ e. navigate_from-Placed (read ++ (c ∷ [])) cs s (without_slash read c h e) p)

  pub navigate_to_path-Placed : (path : List ℕ) (s : DirState) → Placed (navigate_to_path path s).1
  unfolding navigate_to_path has_slash
  navigate_to_path-Placed [] s = to_root-Placed s
  navigate_to_path-Placed (c ∷ cs) s =
      if_has {A = Bool × DirState} (λ r. Placed r.1) ((c == b'/') && not (is_empty cs))
        (navigate_from [] cs (to_root s)) (true, to_root s)
        (navigate_from-Placed [] cs (to_root s) refl (to_root-Placed s)) (to_root-Placed s)

  pub find_file_sfn-Placed :
      (name : List ℕ) (len : ℕ) (s : DirState) → Placed s → Placed (find_file_sfn name len s).1
  unfolding find_file_sfn find_entry_sfn rewind_dir
  find_file_sfn-Placed name len s p = Placed-place s _ refl p

  pub change_directory_basename-Placed :
      (name : List ℕ) (s : DirState) → Placed s → Placed (change_directory_basename name s).1
  change_directory_basename-Placed name s (ns, l) = change_directory_basename-Located ns name s l
