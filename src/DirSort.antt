-- ===== src/DirSort.antt =====
-- Display order and the bounded sort buffer: Arduino/EasySD/DirSort.h.
-- A C string is the list of its bytes before the NUL; a slot's key holds at most 15 of them.
pub mod Order
pub mod Place
pub mod Shift
pub mod Insert
use Prim.Native.Nat.{compare, Ordering}
use easy_sd_gemini.Prelude.{
  ℕ, zero, suc, ◌+◌, ◌-◌, ◌%◌, Bool, true, false, List, [], ◌∷◌, ltb, leb, if◌then◌else◌, ◌&&◌,
  get_or, set,
}

pub record DirSortSlot : Type 0 where
  pub key : List ℕ
  pub dir_idx : ℕ
  pub is_dir : Bool

-- The C library's `tolower` on a byte.
unfoldable pub to_lower : ℕ → ℕ
to_lower c = if leb 65 c && leb c 90 then c + 32 else c

-- The sign of the C library's `strcasecmp`.
unfoldable pub strcasecmp : List ℕ → List ℕ → Ordering
strcasecmp [] [] = Ordering.eq
strcasecmp [] (y ∷ ys) = Ordering.lt
strcasecmp (x ∷ xs) [] = Ordering.gt
strcasecmp (x ∷ xs) (y ∷ ys) =
    let rest = strcasecmp xs ys in
    elim (compare (to_lower x) (to_lower y)) [
      | Ordering.lt ↦ Ordering.lt
      | Ordering.eq ↦ rest
      | Ordering.gt ↦ Ordering.gt
    ]

-- `cmpDirEntry`, by the sign of its result: directories first, then by name.
unfoldable pub cmp_dir_entry : Bool → List ℕ → Bool → List ℕ → Ordering
cmp_dir_entry true name_a false name_b = Ordering.lt
cmp_dir_entry false name_a true name_b = Ordering.gt
cmp_dir_entry true name_a true name_b = strcasecmp name_a name_b
cmp_dir_entry false name_a false name_b = strcasecmp name_a name_b

abbrev pub is_lt : Ordering → Bool
is_lt Ordering.lt = true
is_lt _ = false

-- `cmpDirEntry(isDir, key, slot.isDir, slot.key) < 0`
unfoldable pub sorts_before : DirSortSlot → DirSortSlot → Bool
sorts_before a b = is_lt (cmp_dir_entry a.is_dir a.key b.is_dir b.key)

-- What an uninitialised place of the buffer reads as; no loop reads one.
abbrev pub blank : DirSortSlot
blank = record { key = []; dir_idx = 0; is_dir = false }

-- The loop `while (pos > 0 && entry < slots[pos-1]) { slots[pos] = slots[pos-1]; pos--; }`.
unfoldable pub shift_right : DirSortSlot → ℕ → List DirSortSlot → ℕ × List DirSortSlot
shift_right e zero slots = (0, slots)
shift_right e (suc p) slots =
    let moved = shift_right e p (set slots (suc p) (get_or slots p blank)) in
    if sorts_before e (get_or slots p blank) then moved else (suc p, slots)

-- The entry is written where the loop stopped.
unfoldable pub write_at : DirSortSlot → ℕ → List DirSortSlot → List DirSortSlot
write_at e pos slots = let (at, moved) = shift_right e pos slots in set moved at e

-- `sortSlotInsert`: the buffer and `numSlots`, a `uint8_t`.
unfoldable pub sort_slot_insert : List DirSortSlot → ℕ → ℕ → DirSortSlot → List DirSortSlot × ℕ
sort_slot_insert slots num_slots cap e =
    if ltb num_slots cap
    then (write_at e num_slots slots, (num_slots + 1) % 256)
    else if sorts_before e (get_or slots (cap - 1) blank)
    then (write_at e (cap - 1) slots, num_slots)
    else (slots, num_slots)
