-- ===== src/Names/Match.antt =====
-- The name helpers of Arduino/EasySD/DirFunction.cpp against list functions.
use easy_sd_gemini.Prelude.{
  ℕ, zero, suc, ◌+◌, ◌-◌, ◌≤◌, ◌<◌, ◌≡◌, ◌↔◌, refl, sym, ap, ◌∙◌, Bool, true, false, ◌&&◌, List, [],
  ◌∷◌, ◌++◌, arith, ◌==◌, ==_iff, ltb, ap₂, le→ltb, take_all, if◌then◌else◌, length, length-append,
  get_or, take, drop, map, append-nil, append_assoc,
}
use easy_sd_gemini.DirSort.{to_lower}
use easy_sd_gemini.Names.{
  CaptureSink, sink_write, print_to, capture_file_name_preview, same_lower_from,
  ends_with_ignore_case, prefix_matches_case_insensitive,
}

print_to_full :
    (name : List ℕ) (s : CaptureSink) → s.capacity ≤ length s.buffer + 1 → print_to s name ≡ s
unfolding print_to sink_write
print_to_full [] s h = refl
print_to_full (c ∷ cs) s h =
    let full : ltb (length s.buffer + 1) s.capacity ≡ false = ground arith in
    let none_kept : (ltb 1 s.capacity && ltb (length s.buffer + 1) s.capacity) ≡ false =
      ground arith in
    simp none_kept (print_to_full cs s h)

print_to_lem :
    (name : List ℕ) (s : CaptureSink) (room : ℕ)
    → length s.buffer + 1 + room ≡ s.capacity
    → (print_to s name).buffer ≡ s.buffer ++ take room name
unfolding print_to sink_write
print_to_lem name s zero h =
    ap (λ t. t.buffer) (print_to_full name s (omega arith)) ∙ sym (append-nil s.buffer)
print_to_lem [] s (suc room) h = sym (append-nil s.buffer)
print_to_lem (c ∷ cs) s (suc room) h =
    let kept : (ltb 1 s.capacity && ltb (length s.buffer + 1) s.capacity) ≡ true = ground arith in
    let s' = record s { buffer = s.buffer ++ (c ∷ []) } in
    simp kept (
      print_to_lem cs s' room (omega (arith, length-append s.buffer (c ∷ [])))
      ∙ append_assoc s.buffer (c ∷ []) (take room cs))

-- A buffer of at least one byte takes as much of the name as leaves room for the NUL.
pub capture_file_name_preview_lem :
    (name : List ℕ) (out_size : ℕ)
    → 0 < out_size
    → capture_file_name_preview name out_size ≡ take (out_size - 1) name
unfolding capture_file_name_preview
capture_file_name_preview_lem name out_size h =
    print_to_lem name (record { buffer = []; capacity = out_size }) (out_size - 1) (omega arith)

same_lower_shift :
    (n i : ℕ) (x y : ℕ) (xs ys : List ℕ)
    → same_lower_from n (suc i) (x ∷ xs) (y ∷ ys) ≡ same_lower_from n i xs ys
unfolding same_lower_from
same_lower_shift zero i x y xs ys = refl
same_lower_shift (suc n) i x y xs ys =
    let next : suc i + 1 ≡ suc (i + 1) = omega arith in
    ap
      (λ j.
        if to_lower (get_or xs i 0) == to_lower (get_or ys i 0)
        then same_lower_from n j (x ∷ xs) (y ∷ ys)
        else false)
      next
    ∙ ap (λ b. if to_lower (get_or xs i 0) == to_lower (get_or ys i 0) then b else false)
        (same_lower_shift n (i + 1) x y xs ys)

abbrev pub lower : List ℕ → List ℕ
lower = map to_lower

same_lower_lem :
    (n : ℕ) (xs ys : List ℕ)
    → n ≤ length xs
    → n ≤ length ys
    → (same_lower_from n 0 xs ys ≡ true) ↔ (lower (take n xs) ≡ lower (take n ys))
unfolding same_lower_from
same_lower_lem zero xs ys h k = (λ _. refl, λ _. refl)
same_lower_lem (suc n) [] ys h k = absurd (omega arith)
same_lower_lem (suc n) (x ∷ xs) [] h k = absurd (omega arith)
same_lower_lem (suc n) (x ∷ xs) (y ∷ ys) h k =
    let ih = same_lower_lem n xs ys (omega arith) (omega arith) in
    let rest : same_lower_from n 1 (x ∷ xs) (y ∷ ys) ≡ same_lower_from n 0 xs ys =
      same_lower_shift n 0 x y xs ys in
    let same = ==_iff (to_lower x) (to_lower y) in
    (
      λ e.
          let (head, tail) = both (to_lower x == to_lower y) _ e in
          ap₂ (λ a b. a ∷ b) (same.0 head) (ih.0 (sym rest ∙ tail)),
      λ e.
          let head = same.1 (ap (λ l. get_or l 0 0) e) in
          let tail = rest ∙ ih.1 (ap (drop 1) e) in ap₂ (λ b c. if b then c else false) head tail,
    )
  where
    both : (b c : Bool) → (if b then c else false) ≡ true → (b ≡ true) × (c ≡ true)
    both true c e = (refl, e)
    both false c e = absurd cc

-- The prefix test of two names that are long enough says that the prefixes are equal but for case.
pub prefix_matches_lem :
    (candidate prefix : List ℕ) (len : ℕ)
    → len ≤ length candidate
    → len ≤ length prefix
    → (prefix_matches_case_insensitive candidate prefix len ≡ true)
      ↔ (lower (take len candidate) ≡ lower (take len prefix))
unfolding prefix_matches_case_insensitive
prefix_matches_lem candidate prefix len h k = same_lower_lem len candidate prefix h k

length-drop : (n : ℕ) (xs : List ℕ) → length (drop n xs) ≡ length xs - n
length-drop zero xs = omega arith
length-drop (suc n) [] = omega arith
length-drop (suc n) (x ∷ xs) = length-drop n xs ∙ omega arith

-- The suffix test: the value is long enough, and its end is the suffix but for case.
pub ends_with_ignore_case_lem :
    (value suffix : List ℕ)
    → (ends_with_ignore_case value suffix ≡ true) ↔ (
        (length suffix ≤ length value)
        × (lower (drop (length value - length suffix) value) ≡ lower suffix))
unfolding ends_with_ignore_case
ends_with_ignore_case_lem value suffix =
    let tail = drop (length value - length suffix) value in
    let size = length-drop (length value - length suffix) value in
    let all : take (length suffix) suffix ≡ suffix =
      take_all (length suffix) suffix (omega arith) in
    (
      λ e.
          let long : length suffix ≤ length value = ground arith in
          let fits : length tail ≡ length suffix = omega (arith, size, long) in
          let test : same_lower_from (length suffix) 0 tail suffix ≡ true = ground arith in
          (
            long,
            ap lower (sym (take_all (length suffix) tail (omega (arith, fits))))
                ∙ (same_lower_lem (length suffix) tail suffix (omega (arith, fits)) (omega arith)).0
                    test
                ∙ ap lower all,
          ),
      λ (long, same).
          let fits : length tail ≡ length suffix = omega (arith, size, long) in
          let test =
            (same_lower_lem (length suffix) tail suffix (omega (arith, fits)) (omega arith)).1 (
              ap lower (take_all (length suffix) tail (omega (arith, fits)))
              ∙ same
              ∙ sym (ap lower all)) in
          ap₂ (λ b c. if b then false else c) (le→ltb (length value) (length suffix) long) test,
    )
