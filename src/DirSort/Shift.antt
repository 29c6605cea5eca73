-- ===== src/DirSort/Shift.antt =====
-- The loop of `sortSlotInsert` in DirSort.h: where it writes the entry, and what it moves.
use easy_sd_gemini.Prelude.{
  ℕ, zero, suc, ◌<◌, ◌≡◌, refl, sym, ap, ap₂, subst, ◌∙◌, true, false, List, [], ◌∷◌, ◌++◌,
  append_assoc, arith, length, length-set, get_or, get_or-set_self, get_or-set_ne, set, take,
  take-suc, take-set, take-set_self, take-take-suc, Bool-cases, inl, inr,
}
use easy_sd_gemini.DirSort.{DirSortSlot, sorts_before, blank, shift_right, write_at}
use easy_sd_gemini.DirSort.Order.{sorts_before-StrictOrder}
use easy_sd_gemini.DirSort.Place.{IsSorted, place, place-snoc, place_last, IsSorted-take}

-- What `write_at` leaves: the entry among the first `pos`, and the rest of the buffer.
pub record Written (e : DirSortSlot) (pos : ℕ) (slots out : List DirSortSlot) : Type 0 where
  pub placed : take (suc pos) out ≡ place sorts_before e (take pos slots)
  pub behind : (i : ℕ) → pos < i → get_or out i blank ≡ get_or slots i blank
  pub room : length out ≡ length slots

-- The loop's two ways on: it stops, or moves an entry up and goes on below.
write_at_stop :
    (e : DirSortSlot) (p : ℕ) (slots : List DirSortSlot)
    → sorts_before e (get_or slots p blank) ≡ false
    → write_at e (suc p) slots ≡ set slots (suc p) e
unfolding write_at shift_right
write_at_stop e p slots h = rw h

write_at_shift :
    (e : DirSortSlot) (p : ℕ) (slots : List DirSortSlot)
    → sorts_before e (get_or slots p blank) ≡ true
    → write_at e (suc p) slots ≡ write_at e p (set slots (suc p) (get_or slots p blank))
unfolding write_at shift_right
write_at_shift e p slots h = rw h

write_at_zero : (e : DirSortSlot) (slots : List DirSortSlot) → write_at e 0 slots ≡ set slots 0 e
unfolding write_at shift_right
write_at_zero e slots = refl

-- The entry is written at the end of the prefix when it comes before none of it.
stop-Written :
    (e : DirSortSlot) (pos : ℕ) (slots : List DirSortSlot)
    → pos < length slots
    → place sorts_before e (take pos slots) ≡ take pos slots ++ (e ∷ [])
    → Written e pos slots (set slots pos e)
stop-Written e pos slots h last = record {
  placed = take-set_self pos slots e h ∙ sym last;
  behind = λ i hi. get_or-set_ne slots pos i e blank (omega arith);
  room = length-set slots pos e;
}

-- An entry moved up stands behind what the rest of the loop writes.
shift-Written :
    (e x : DirSortSlot) (p : ℕ) (slots out : List DirSortSlot)
    → suc p < length slots
    → x ≡ get_or slots p blank
    → sorts_before e x ≡ true
    → Written e p (set slots (suc p) x) out
    → Written e (suc p) slots out
shift-Written e x p slots out h ex now w = record {
  placed =
      take-suc (suc p) out blank (omega (arith, w.room, length-set slots (suc p) x))
      ∙ ap₂ (λ xs y. xs ++ (y ∷ []))
          (w.placed ∙ ap (place sorts_before e) (take-set p (suc p) slots x (omega arith)))
          (w.behind (suc p) (omega arith) ∙ get_or-set_self slots (suc p) x blank h)
      ∙ sym (place-snoc sorts_before e x (take p slots) now)
      ∙ ap (place sorts_before e)
          (ap (λ y. take p slots ++ (y ∷ [])) ex ∙ sym (take-suc p slots blank (omega arith)));
  behind = λ i hi. w.behind i (omega arith) ∙ get_or-set_ne slots (suc p) i x blank (omega arith);
  room = w.room ∙ length-set slots (suc p) x;
}

pub goes_last :
    (e : DirSortSlot) (p : ℕ) (slots : List DirSortSlot)
    → p < length slots
    → IsSorted sorts_before (take (suc p) slots)
    → sorts_before e (get_or slots p blank) ≡ false
    → place sorts_before e (take (suc p) slots) ≡ take (suc p) slots ++ (e ∷ [])
goes_last e p slots h s later =
    let last = take-suc p slots blank h in
    ap (place sorts_before e) last
    ∙ place_last sorts_before sorts_before-StrictOrder e _ (take p slots)
        (subst (IsSorted sorts_before) last s) later
    ∙ sym (append_assoc (take p slots) (get_or slots p blank ∷ []) (e ∷ []))
    ∙ ap (λ xs. xs ++ (e ∷ [])) (sym last)

pub write_at-Written :
    (e : DirSortSlot) (pos : ℕ) (slots : List DirSortSlot)
    → pos < length slots
    → IsSorted sorts_before (take pos slots)
    → Written e pos slots (write_at e pos slots)
write_at-Written e zero slots h s =
    rw (write_at_zero e slots) (stop-Written e zero slots h (unfold place in refl))
write_at-Written e (suc p) slots h s = elim (Bool-cases (sorts_before e (get_or slots p blank))) [
  | inl now ↦ rw (write_at_shift e p slots now) (
      shift-Written e _ p slots _ h refl now (
        write_at-Written e p (set slots (suc p) (get_or slots p blank))
          (omega (arith, length-set slots (suc p) (get_or slots p blank)))
          (rw (take-set p (suc p) slots (get_or slots p blank) (omega arith)) (
            subst (IsSorted sorts_before) (take-take-suc p slots)
              (IsSorted-take sorts_before p _ s)))))
  | inr later ↦
      rw (write_at_stop e p slots later)
        (stop-Written e (suc p) slots h (goes_last e p slots (omega arith) s later))
]
