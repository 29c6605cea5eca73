-- ===== src/DirSort/Insert.antt =====
-- `sortSlotInsert` of DirSort.h keeps the smallest entries that it was given, in display order.
use mathlib.Core.List.{Perm}
use easy_sd_gemini.Prelude.{
  ℕ, zero, suc, ◌+◌, ◌-◌, ◌%◌, ◌≤◌, ◌<◌, min, ◌≡◌, refl, sym, ap, subst, ◌∙◌, true, false, List, [],
  ◌∷◌, ◌++◌, append-nil, arith, length, length-take, get_or, take, take-suc, take-take-suc,
  take_all, take-append_left, Bool-cases, le→ltb, ltb→lt, inl, inr, ltb,
}
use easy_sd_gemini.DirSort.{DirSortSlot, sorts_before, blank, write_at, sort_slot_insert}
use easy_sd_gemini.DirSort.Order.{sorts_before-StrictOrder}
use easy_sd_gemini.DirSort.Place.{
  IsSorted, place, place_all, length-place, place-snoc, take-place, place-IsSorted, IsSorted-take,
  place_all-perm, place_all-IsSorted,
}
use easy_sd_gemini.DirSort.Shift.{Written, write_at-Written, goes_last}

-- The first `n` places of the buffer hold the `cap` smallest of `es` in display order.
pub record Keeps (cap : ℕ) (sorted : List DirSortSlot) (slots : List DirSortSlot) (n : ℕ)
    : Type 0 where
  pub entries : take n slots ≡ take cap sorted
  pub count : n ≡ min cap (length sorted)
  pub room : cap ≤ length slots

-- A buffer that still has room.
room-Keeps :
    (cap : ℕ) (sorted slots : List DirSortSlot) (n : ℕ) (e : DirSortSlot)
    → n < cap
    → cap < 256
    → IsSorted sorts_before sorted
    → Keeps cap sorted slots n
    → Keeps cap (place sorts_before e sorted) (write_at e n slots) ((n + 1) % 256)
room-Keeps cap sorted slots n e h small s k = record {
  entries =
      ap (λ i. take i (write_at e n slots)) next
      ∙ w.placed
      ∙ ap (place sorts_before e) whole
      ∙ sym (take_all cap (place sorts_before e sorted) (omega (arith, grown, k.count)));
  count = omega (arith, grown, k.count);
  room = omega (arith, w.room, k.room);
}
  where
    next : (n + 1) % 256 ≡ suc n
    next = omega arith

    grown : length (place sorts_before e sorted) ≡ suc (length sorted)
    grown = length-place sorts_before e sorted

    whole : take n slots ≡ sorted
    whole = k.entries ∙ take_all cap sorted (omega (arith, k.count))

    w : Written e n slots (write_at e n slots)
    w =
        write_at-Written e n slots (omega (arith, k.room))
          (subst (IsSorted sorts_before) (sym whole) s)

-- A full buffer, of `suc m` places: the entry displaces the last one, or is dropped.
module _ (m : ℕ) (sorted slots : List DirSortSlot) (e : DirSortSlot)
    (s : IsSorted sorts_before sorted) (k : Keeps (suc m) sorted slots (suc m)) where
  prefix-IsSorted : IsSorted sorts_before (take (suc m) slots)
  prefix-IsSorted =
      subst (IsSorted sorts_before) (sym k.entries) (IsSorted-take sorts_before (suc m) sorted s)

  last : take (suc m) slots ≡ take m slots ++ (get_or slots m blank ∷ [])
  last = take-suc m slots blank k.room

  cut :
      take (suc m) (place sorts_before e sorted)
      ≡ take (suc m) (place sorts_before e (take (suc m) slots))
  cut =
      sym (take-place sorts_before (suc m) e sorted)
      ∙ ap (λ xs. take (suc m) (place sorts_before e xs)) (sym k.entries)

  count_kept : suc m ≡ min (suc m) (length (place sorts_before e sorted))
  count_kept = omega (arith, k.count, length-place sorts_before e sorted)

  displace-Keeps :
      sorts_before e (get_or slots m blank) ≡ true
      → Keeps (suc m) (place sorts_before e sorted) (write_at e m slots) (suc m)
  displace-Keeps now = record {
    entries =
        w.placed
        ∙ sym (take_all (suc m) (place sorts_before e (take m slots)) (omega (arith, size)))
        ∙ sym
            (take-append_left (suc m) (place sorts_before e (take m slots)) _ (omega (arith, size)))
        ∙ sym (
            ap (take (suc m)) (
              ap (place sorts_before e) last
              ∙ place-snoc sorts_before e (get_or slots m blank) (take m slots) now))
        ∙ sym cut;
    count = count_kept;
    room = omega (arith, w.room, k.room);
  }
    where
      w : Written e m slots (write_at e m slots)
      w = write_at-Written e m slots k.room (
          subst (IsSorted sorts_before) (take-take-suc m slots)
            (IsSorted-take sorts_before m _ prefix-IsSorted))

      size : length (place sorts_before e (take m slots)) ≡ suc m
      size = omega (arith, length-place sorts_before e (take m slots), length-take m slots, k.room)

  drop-Keeps :
      sorts_before e (get_or slots m blank) ≡ false
      → Keeps (suc m) (place sorts_before e sorted) slots (suc m)
  drop-Keeps later = record {
    entries =
        sym (take_all (suc m) (take (suc m) slots) (omega (arith, size)))
        ∙ sym (take-append_left (suc m) (take (suc m) slots) (e ∷ []) (omega (arith, size)))
        ∙ ap (take (suc m)) (sym (goes_last e m slots k.room prefix-IsSorted later))
        ∙ sym cut;
    count = count_kept;
    room = k.room;
  }
    where
      size : length (take (suc m) slots) ≡ suc m
      size = omega (arith, length-take (suc m) slots, k.room)

insert_room :
    (cap : ℕ) (slots : List DirSortSlot) (n : ℕ) (e : DirSortSlot)
    → ltb n cap ≡ true
    → sort_slot_insert slots n cap e ≡ (write_at e n slots, (n + 1) % 256)
unfolding sort_slot_insert
insert_room cap slots n e room = rw room

full-Keeps :
    (m : ℕ) (sorted slots : List DirSortSlot) (e : DirSortSlot)
    → IsSorted sorts_before sorted
    → Keeps (suc m) sorted slots (suc m)
    → let (slots', n') = sort_slot_insert slots (suc m) (suc m) e in
      Keeps (suc m) (place sorts_before e sorted) slots' n'
unfolding sort_slot_insert
full-Keeps m sorted slots e s k = elim (Bool-cases (sorts_before e (get_or slots m blank))) [
  | inl now ↦ rw (full, pred, now) (displace-Keeps m sorted slots e s k now)
  | inr later ↦ rw (full, pred, later) (drop-Keeps m sorted slots e s k later)
]
  where
    full : ltb (suc m) (suc m) ≡ false
    full = le→ltb (suc m) (suc m) (omega arith)

    pred : suc m - 1 ≡ m
    pred = omega arith

-- One call of `sortSlotInsert` on a buffer of `cap` places, 1 to 255, that holds the `cap`
-- smallest of a sorted list: it then holds the `cap` smallest of that list with the entry in its
-- place, in display order, and `numSlots` counts them.
pub sort_slot_insert-Keeps :
    (cap : ℕ) (sorted slots : List DirSortSlot) (n : ℕ) (e : DirSortSlot)
    → 0 < cap
    → cap < 256
    → IsSorted sorts_before sorted
    → Keeps cap sorted slots n
    → let (slots', n') = sort_slot_insert slots n cap e in
      Keeps cap (place sorts_before e sorted) slots' n'
sort_slot_insert-Keeps zero sorted slots n e pos small s k = elim pos [ ]
sort_slot_insert-Keeps (suc m) sorted slots n e pos small s k = elim (Bool-cases (ltb n (suc m))) [
  | inl room ↦
      rw (insert_room (suc m) slots n e room)
        (room-Keeps (suc m) sorted slots n e (ltb→lt n (suc m) room) small s k)
  | inr full ↦
      let e' : n ≡ suc m = ground (arith, k.count) in
      rw e' (full-Keeps m sorted slots e s (subst (Keeps (suc m) sorted slots) e' k))
]

-- The scan of a directory: each entry is offered to the buffer in turn.
unfoldable pub insert_all : ℕ → List DirSortSlot → List DirSortSlot × ℕ → List DirSortSlot × ℕ
insert_all cap [] b = b
insert_all cap (e ∷ es) (slots, n) = insert_all cap es (sort_slot_insert slots n cap e)

insert_all-Keeps :
    (cap : ℕ) (es sorted slots : List DirSortSlot) (n : ℕ)
    → 0 < cap
    → cap < 256
    → IsSorted sorts_before sorted
    → Keeps cap sorted slots n
    → let (slots', n') = insert_all cap es (slots, n) in
      Keeps cap (place_all sorts_before sorted es) slots' n'
unfolding insert_all place_all
insert_all-Keeps cap [] sorted slots n pos small s k = k
insert_all-Keeps cap (e ∷ es) sorted slots n pos small s k =
    insert_all-Keeps cap es (place sorts_before e sorted) _ _ pos small
      (place-IsSorted sorts_before sorts_before-StrictOrder e sorted s)
      (sort_slot_insert-Keeps cap sorted slots n e pos small s k)

length-place_all :
    (es xs : List DirSortSlot) → length (place_all sorts_before xs es) ≡ length es + length xs
unfolding place_all
length-place_all [] xs = omega arith
length-place_all (e ∷ es) xs =
    omega (arith, length-place_all es (place sorts_before e xs), length-place sorts_before e xs)

-- A scan that offers every entry of a directory to an empty buffer of `cap` places, 1 to 255,
-- leaves the first `cap` entries of the directory sorted in display order, or all when there are
-- fewer, and `numSlots` counts them.
pub scan_keeps_smallest :
    (cap : ℕ) (es slots : List DirSortSlot)
    → 0 < cap
    → cap < 256
    → cap ≤ length slots
    → let (slots', n) = insert_all cap es (slots, 0) in
      (sorted : List DirSortSlot) × Perm sorted es
      × IsSorted sorts_before sorted
      × (take n slots' ≡ take cap sorted)
      × (n ≡ min cap (length es))
scan_keeps_smallest cap es slots pos small room =
    let k =
      insert_all-Keeps cap es [] slots 0 pos small tt
        (record { entries = sym (take_nil cap); count = omega arith; room = room }) in
    (
      place_all sorts_before [] es,
      subst (Perm _) (append-nil es) (place_all-perm sorts_before es []),
      place_all-IsSorted sorts_before sorts_before-StrictOrder es [] tt,
      k.entries,
      omega (arith, k.count, length-place_all es []),
    )
  where
    take_nil : (n : ℕ) → take {A = DirSortSlot} n [] ≡ []
    take_nil zero = refl
    take_nil (suc n) = refl
