-- ===== src/DirSort/Place.antt =====
-- Insertion into a sorted list: what the sort buffer of DirSort.h is to compute.
use mathlib.Core.List.{Perm, perm_middle}
use mathlib.Core.List.Perm
use easy_sd_gemini.Prelude.{
  ℕ, zero, suc, ◌≡◌, refl, ap, Bool, true, false, List, [], ◌∷◌, ◌++◌, arith, length, take,
  take-cons_take, Bool-cases, inl, inr, if◌then◌else◌,
}
use easy_sd_gemini.DirSort.Order.{StrictOrder}

module _ {ℓ} {A : Type ℓ} (before : A → A → Bool) where
  -- No element of the list comes before `a`.
  abbrev pub NoneBefore : A → List A → Type 0
  NoneBefore a [] = Unit
  NoneBefore a (x ∷ xs) = (before x a ≡ false) × NoneBefore a xs

  abbrev pub IsSorted : List A → Type 0
  IsSorted [] = Unit
  IsSorted (x ∷ xs) = NoneBefore x xs × IsSorted xs

  -- Behind all that it does not come before.
  unfoldable pub place : A → List A → List A
  place e [] = e ∷ []
  place e (x ∷ xs) = if before e x then e ∷ x ∷ xs else x ∷ place e xs

  -- The entries one after the other.
  unfoldable pub place_all : List A → List A → List A
  place_all xs [] = xs
  place_all xs (e ∷ es) = place_all (place e xs) es

  pub length-place : (e : A) (xs : List A) → length (place e xs) ≡ suc (length xs)
  unfolding place
  length-place e [] = refl
  length-place e (x ∷ xs) = ground (arith, length-place e xs)

  pub place-perm : (e : A) (xs : List A) → Perm (place e xs) (e ∷ xs)
  unfolding place
  place-perm e [] = Perm.refl (e ∷ [])
  place-perm e (x ∷ xs) = elim (Bool-cases (before e x)) [
    | inl now ↦ rw now (Perm.refl (e ∷ x ∷ xs))
    | inr later ↦ rw later (Perm.trans (Perm.cons x (place-perm e xs)) (Perm.swap e x xs))
  ]

  -- An entry that comes before the last one leaves it last.
  pub place-snoc :
      (e x : A) (xs : List A)
      → before e x ≡ true
      → place e (xs ++ (x ∷ [])) ≡ place e xs ++ (x ∷ [])
  unfolding place
  place-snoc e x [] h = rw h
  place-snoc e x (y ∷ ys) h = ground (arith, place-snoc e x ys h)

  pub take-place :
      (n : ℕ) (e : A) (xs : List A) → take n (place e (take n xs)) ≡ take n (place e xs)
  unfolding place
  take-place zero e xs = refl
  take-place (suc n) e [] = refl
  take-place (suc n) e (x ∷ xs) = elim (Bool-cases (before e x)) [
    | inl now ↦ rw now (ap (◌∷◌ e) (take-cons_take n x xs))
    | inr later ↦ rw later (ap (◌∷◌ x) (take-place n e xs))
  ]

  NoneBefore-last : (a x : A) (xs : List A) → NoneBefore a (xs ++ (x ∷ [])) → before x a ≡ false
  NoneBefore-last a x [] n = n.0
  NoneBefore-last a x (y ∷ ys) n = NoneBefore-last a x ys n.1

  module _ (order : StrictOrder before) where
    NoneBefore-place :
        (a e : A) (xs : List A) → before e a ≡ false → NoneBefore a xs → NoneBefore a (place e xs)
    unfolding place
    NoneBefore-place a e [] h n = (h, tt)
    NoneBefore-place a e (x ∷ xs) h n = elim (Bool-cases (before e x)) [
      | inl now ↦ rw now (h, n)
      | inr later ↦ rw later (n.0, NoneBefore-place a e xs h n.1)
    ]

    -- What comes before an entry comes before all that this one does not come after.
    NoneBefore-less :
        (e x : A) (xs : List A) → before e x ≡ true → NoneBefore x xs → NoneBefore e xs
    NoneBefore-less e x [] h n = tt
    NoneBefore-less e x (y ∷ ys) h n =
        (ground (arith, order.trans y e x), NoneBefore-less e x ys h n.1)

    pub place-IsSorted : (e : A) (xs : List A) → IsSorted xs → IsSorted (place e xs)
    unfolding place
    place-IsSorted e [] s = (tt, tt)
    place-IsSorted e (x ∷ xs) s = elim (Bool-cases (before e x)) [
      | inl now ↦
          rw now
            ((ground (arith, order.trans e x e, order.irrefl e), NoneBefore-less e x xs now s.0), s)
      | inr later ↦ rw later (NoneBefore-place x e xs later s.0, place-IsSorted e xs s.1)
    ]

    -- An entry that does not come before the last of a sorted list goes behind all of it.
    pub place_last :
        (e x : A) (xs : List A)
        → IsSorted (xs ++ (x ∷ []))
        → before e x ≡ false
        → place e (xs ++ (x ∷ [])) ≡ xs ++ (x ∷ e ∷ [])
    unfolding place
    place_last e x [] s h = rw h
    place_last e x (y ∷ ys) s h =
        let later : before e y ≡ false =
          ground (arith, order.co_trans e x y, NoneBefore-last y x ys s.0) in
        rw later (ap (◌∷◌ y) (place_last e x ys s.1 h))

    pub place_all-IsSorted : (es xs : List A) → IsSorted xs → IsSorted (place_all xs es)
    unfolding place_all
    place_all-IsSorted [] xs s = s
    place_all-IsSorted (e ∷ es) xs s = place_all-IsSorted es (place e xs) (place-IsSorted e xs s)

  pub place_all-perm : (es xs : List A) → Perm (place_all xs es) (es ++ xs)
  unfolding place_all
  place_all-perm [] xs = Perm.refl xs
  place_all-perm (e ∷ es) xs =
      Perm.trans (place_all-perm es (place e xs))
        (Perm.trans (Perm.append (Perm.refl es) (place-perm e xs)) (perm_middle es xs))

  pub IsSorted-take : (n : ℕ) (xs : List A) → IsSorted xs → IsSorted (take n xs)
  IsSorted-take zero xs s = tt
  IsSorted-take (suc n) [] s = tt
  IsSorted-take (suc n) (x ∷ xs) s = (NoneBefore-take n x xs s.0, IsSorted-take n xs s.1)
    where
      NoneBefore-take : (m : ℕ) (a : A) (ys : List A) → NoneBefore a ys → NoneBefore a (take m ys)
      NoneBefore-take zero a ys h = tt
      NoneBefore-take (suc m) a [] h = tt
      NoneBefore-take (suc m) a (y ∷ ys) h = (h.0, NoneBefore-take m a ys h.1)
