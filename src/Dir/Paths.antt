-- ===== src/Dir/Paths.antt =====
-- The path strings of DirFunction.cpp as lists of segments.
use easy_sd_gemini.Prelude.{
  ℕ, ◌+◌, ◌≤◌, ◌≡◌, refl, sym, ap, ◌∙◌, ap₂, Bool, true, false, ◌&&◌, List, [], ◌∷◌, ◌++◌, arith,
  if◌then◌else◌, length, length-append, append-nil, append_assoc, ◌⊎◌, inl, inr,
}
use easy_sd_gemini.Dir.Navigate.{
  root_path, is_empty, ends_with_slash, has_slash, join_path, cut_last_slash, drop_last,
  parent_path,
}

-- A name that can stand between two slashes.
abbrev pub IsSegment : List ℕ → Type 0
IsSegment name = (is_empty name ≡ false) × (has_slash name ≡ false)

abbrev pub AllSegments : List (List ℕ) → Type 0
AllSegments [] = Unit
AllSegments (n ∷ ns) = IsSegment n × AllSegments ns

-- The segments, each with a slash before it.
abbrev pub slashed : List (List ℕ) → List ℕ
slashed [] = []
slashed (n ∷ ns) = b'/' ∷ (n ++ slashed ns)

-- The path of a directory: the root is "/", and no other path ends with a slash.
abbrev pub path_of : List (List ℕ) → List ℕ
path_of [] = root_path
path_of (n ∷ ns) = slashed (n ∷ ns)

abbrev pub snoc : List (List ℕ) → List ℕ → List (List ℕ)
snoc ns n = ns ++ (n ∷ [])

-- A list of segments is empty or has a last one.
pub unsnoc :
    (ns : List (List ℕ)) → (ns ≡ []) ⊎ ((ms : List (List ℕ)) × (n : List ℕ) × (ns ≡ snoc ms n))
unsnoc [] = inl refl
unsnoc (n ∷ ns) = elim (unsnoc ns) [
  | inl e ↦ inr ([], n, ap (λ v. n ∷ v) e)
  | inr (ms, m, e) ↦ inr (n ∷ ms, m, ap (λ v. n ∷ v) e)
]

slashed-snoc : (ns : List (List ℕ)) (n : List ℕ) → slashed (snoc ns n) ≡ slashed ns ++ (b'/' ∷ n)
slashed-snoc [] n = ap (λ v. b'/' ∷ v) (append-nil n)
slashed-snoc (m ∷ ms) n =
    ap (λ v. b'/' ∷ (m ++ v)) (slashed-snoc ms n)
    ∙ ap (λ v. b'/' ∷ v) (sym (append_assoc m (slashed ms) (b'/' ∷ n)))

path_of-snoc : (ns : List (List ℕ)) (n : List ℕ) → path_of (snoc ns n) ≡ slashed ns ++ (b'/' ∷ n)
path_of-snoc [] n = slashed-snoc [] n
path_of-snoc (m ∷ ms) n = slashed-snoc (m ∷ ms) n

-- The depth is at most the length, so that 64 bytes bound it.
pub length-slashed : (ns : List (List ℕ)) → length ns ≤ length (slashed ns)
length-slashed [] = omega arith
length-slashed (n ∷ ns) = omega (arith, length-slashed ns, length-append n (slashed ns))

pub length-path_of : (ns : List (List ℕ)) → length (slashed ns) ≤ length (path_of ns)
length-path_of [] = omega arith
length-path_of (n ∷ ns) = omega arith

pub length-path_of-snoc :
    (ns : List (List ℕ)) (n : List ℕ)
    → length (path_of (snoc ns n)) ≡ length (slashed ns) + 1 + length n
length-path_of-snoc ns n =
    ap length (path_of-snoc ns n) ∙ length-append (slashed ns) (b'/' ∷ n) ∙ omega arith

pub AllSegments-snoc :
    (ns : List (List ℕ)) (n : List ℕ) → AllSegments ns → IsSegment n → AllSegments (snoc ns n)
AllSegments-snoc [] n all seg = (seg, tt)
AllSegments-snoc (m ∷ ms) n (first, rest) seg = (first, AllSegments-snoc ms n rest seg)

pub AllSegments-init :
    (ns : List (List ℕ)) (n : List ℕ) → AllSegments (snoc ns n) → AllSegments ns × IsSegment n
AllSegments-init [] n (seg, rest) = (tt, seg)
AllSegments-init (m ∷ ms) n (first, rest) =
    let (all, seg) = AllSegments-init ms n rest in ((first, all), seg)

ends_with_slash-append :
    (xs : List ℕ) (y : ℕ) (ys : List ℕ)
    → ends_with_slash (xs ++ (y ∷ ys)) ≡ ends_with_slash (y ∷ ys)
unfolding ends_with_slash
ends_with_slash-append [] y ys = refl
ends_with_slash-append (x ∷ []) y ys = refl
ends_with_slash-append (x ∷ z ∷ xs) y ys = ends_with_slash-append (z ∷ xs) y ys

no_slash_at_end :
    (c : ℕ) (cs : List ℕ) → has_slash (c ∷ cs) ≡ false → ends_with_slash (c ∷ cs) ≡ false
unfolding ends_with_slash has_slash
no_slash_at_end c [] h = ground arith
no_slash_at_end c (d ∷ cs) h = no_slash_at_end d cs (ground arith)

segment_at_end :
    (xs : List ℕ) (n : List ℕ) → IsSegment n → ends_with_slash (xs ++ (b'/' ∷ n)) ≡ false
unfolding ends_with_slash
segment_at_end xs [] (some_byte, h) = absurd cc
segment_at_end xs (c ∷ cs) (some_byte, h) =
    ends_with_slash-append xs b'/' (c ∷ cs) ∙ no_slash_at_end c cs h

slashed_at_end :
    (n : List ℕ) (ns : List (List ℕ))
    → AllSegments (n ∷ ns)
    → ends_with_slash (slashed (n ∷ ns)) ≡ false
slashed_at_end n [] (seg, rest) =
    ap (λ v. ends_with_slash (b'/' ∷ v)) (append-nil n) ∙ segment_at_end [] n seg
slashed_at_end n (m ∷ ms) (seg, rest) =
    ends_with_slash-append (b'/' ∷ n) b'/' (m ++ slashed ms) ∙ slashed_at_end m ms rest

-- The path that `ChangeDirectory` builds for a segment is the path with that segment at its end.
pub join_path-path_of :
    (ns : List (List ℕ)) (name : List ℕ)
    → AllSegments ns
    → join_path (path_of ns) name ≡ path_of (snoc ns name)
unfolding join_path ends_with_slash
join_path-path_of [] name all = ap (λ v. b'/' ∷ v) (sym (append-nil name))
join_path-path_of (n ∷ ns) name all =
    ap (λ b. if b then slashed (n ∷ ns) ++ name else slashed (n ∷ ns) ++ (b'/' ∷ name))
      (slashed_at_end n ns all)
    ∙ sym (path_of-snoc (n ∷ ns) name)

has_slash-append : (xs ys : List ℕ) → has_slash (xs ++ (b'/' ∷ ys)) ≡ true
unfolding has_slash
has_slash-append [] ys = refl
has_slash-append (x ∷ xs) ys = let rest = has_slash-append xs ys in ground arith

cut-append : (xs ys : List ℕ) → has_slash ys ≡ false → cut_last_slash (xs ++ (b'/' ∷ ys)) ≡ xs
unfolding cut_last_slash
cut-append [] ys h = simp h
cut-append (x ∷ xs) ys h = simp (has_slash-append xs ys, cut-append xs ys h)

-- The path that `GoBack` computes is the path without its last segment.
pub parent_path-path_of :
    (ns : List (List ℕ)) (name : List ℕ)
    → IsSegment name
    → parent_path (path_of (snoc ns name)) ≡ path_of ns
unfolding parent_path
parent_path-path_of ns name seg =
    let path = path_of-snoc ns name in
    let kept : Bool → List ℕ =
      λ b. if b then drop_last (slashed ns ++ (b'/' ∷ name)) else slashed ns ++ (b'/' ∷ name) in
    ap parent_path path
    ∙ ap
        (λ b.
          if has_slash (kept b) && is_empty (cut_last_slash (kept b))
          then root_path
          else cut_last_slash (kept b))
        (segment_at_end (slashed ns) name seg)
    ∙ ap₂ (λ b c. if b && is_empty c then root_path else c) (has_slash-append (slashed ns) name)
        (cut-append (slashed ns) name (seg.1))
    ∙ root_or_cut ns
  where
    root_or_cut :
        (ns : List (List ℕ))
        → (if is_empty (slashed ns) then root_path else slashed ns) ≡ path_of ns
    root_or_cut [] = refl
    root_or_cut (n ∷ ns) = refl
