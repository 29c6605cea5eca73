-- ===== src/DirSort/Order.antt =====
-- The display order of DirSort.h is a total preorder.
use easy_sd_gemini.Prelude.{ℕ, ◌≡◌, refl, Bool, true, false, List, [], ◌∷◌, arith}
use easy_sd_gemini.DirSort.{strcasecmp, cmp_dir_entry, is_lt, sorts_before}

-- A name comes strictly before another.
abbrev less : List ℕ → List ℕ → Bool
less xs ys = is_lt (strcasecmp xs ys)

less_irrefl : (xs : List ℕ) → less xs xs ≡ false
unfolding strcasecmp
less_irrefl [] = refl
less_irrefl (x ∷ xs) = ground (arith, less_irrefl xs)

less_trans : (xs ys zs : List ℕ) → less xs ys ≡ true → less ys zs ≡ true → less xs zs ≡ true
unfolding strcasecmp
less_trans [] [] zs p q = cc
less_trans (x ∷ xs) [] zs p q = cc
less_trans xs (y ∷ ys) [] p q = cc
less_trans [] (y ∷ ys) (z ∷ zs) p q = refl
less_trans (x ∷ xs) (y ∷ ys) (z ∷ zs) p q = ground (arith, less_trans xs ys zs)

-- What is not after a third name is not after what is not before it.
less_co_trans : (xs ys zs : List ℕ) → less xs zs ≡ true → less xs ys ≡ false → less ys zs ≡ true
unfolding strcasecmp
less_co_trans [] ys [] p q = cc
less_co_trans (x ∷ xs) ys [] p q = cc
less_co_trans [] [] (z ∷ zs) p q = refl
less_co_trans [] (y ∷ ys) (z ∷ zs) p q = cc
less_co_trans (x ∷ xs) [] (z ∷ zs) p q = refl
less_co_trans (x ∷ xs) (y ∷ ys) (z ∷ zs) p q = ground (arith, less_co_trans xs ys zs)

-- What sorting needs of a strict order given by a test.
pub record StrictOrder {ℓ} {A : Type ℓ} (before : A → A → Bool) : Type ℓ where
  pub irrefl : (a : A) → before a a ≡ false
  pub trans : (a b c : A) → before a b ≡ true → before b c ≡ true → before a c ≡ true
  pub co_trans : (a b c : A) → before a c ≡ true → before a b ≡ false → before b c ≡ true

-- A directory entry as `cmpDirEntry` takes it: the directory flag, and the name.
abbrev pub Entry : Type 0
Entry = Bool × List ℕ

abbrev pub entry_before : Entry → Entry → Bool
entry_before (d, n) (e, m) = is_lt (cmp_dir_entry d n e m)

entry_irrefl : (a : Entry) → entry_before a a ≡ false
unfolding cmp_dir_entry
entry_irrefl (true, n) = less_irrefl n
entry_irrefl (false, n) = less_irrefl n

entry_trans :
    (a b c : Entry) → entry_before a b ≡ true → entry_before b c ≡ true → entry_before a c ≡ true
unfolding cmp_dir_entry
entry_trans (true, n) (true, m) (true, k) p q = less_trans n m k p q
entry_trans (true, n) (true, m) (false, k) p q = refl
entry_trans (true, n) (false, m) (true, k) p q = cc
entry_trans (true, n) (false, m) (false, k) p q = refl
entry_trans (false, n) (true, m) c p q = cc
entry_trans (false, n) (false, m) (true, k) p q = cc
entry_trans (false, n) (false, m) (false, k) p q = less_trans n m k p q

entry_co_trans :
    (a b c : Entry) → entry_before a c ≡ true → entry_before a b ≡ false → entry_before b c ≡ true
unfolding cmp_dir_entry
entry_co_trans (true, n) (true, m) (true, k) p q = less_co_trans n m k p q
entry_co_trans (true, n) (true, m) (false, k) p q = refl
entry_co_trans (true, n) (false, m) c p q = cc
entry_co_trans (false, n) b (true, k) p q = cc
entry_co_trans (false, n) (true, m) (false, k) p q = refl
entry_co_trans (false, n) (false, m) (false, k) p q = less_co_trans n m k p q

-- `cmpDirEntry` is a strict order up to equal entries: irreflexive, transitive, and what is not
-- before an entry lies on the same side of every third one.
pub cmp_dir_entry-StrictOrder : StrictOrder entry_before
cmp_dir_entry-StrictOrder = record {
  irrefl = entry_irrefl;
  trans = entry_trans;
  co_trans = entry_co_trans;
}

pub sorts_before-StrictOrder : StrictOrder sorts_before
unfolding sorts_before
sorts_before-StrictOrder = record {
  irrefl = λ a. entry_irrefl (a.is_dir, a.key);
  trans = λ a b c. entry_trans (a.is_dir, a.key) (b.is_dir, b.key) (c.is_dir, c.key);
  co_trans = λ a b c. entry_co_trans (a.is_dir, a.key) (b.is_dir, b.key) (c.is_dir, c.key);
}
