-- ===== src/ByteQueue/Refine.antt =====
-- ByteQueue.cpp against a FIFO of at most 30 bytes.
use easy_sd_gemini.Prelude.{
  ℕ, suc, ◌+◌, ◌-◌, ◌%◌, ◌<◌, ◌≡◌, refl, ap, ◌∙◌, false, List, [], ◌∷◌, ◌++◌, arith, length,
  length-set, set, ◌==◌, leb, if◌then◌else◌,
}
use easy_sd_gemini.ByteQueue.{ByteQueue, reset, enqueue, dequeue, size, is_empty, is_full}
use easy_sd_gemini.ByteQueue.Window.{window, length-window, window-set}

pub record IsValid (q : ByteQueue) : Type 0 where
  pub room : length q.item ≡ 31
  pub head_in : q.head < 31
  pub tail_in : q.tail < 31

-- The number of bytes held, round the ring.
abbrev pub held : ByteQueue → ℕ
held q = (q.tail + 31 - q.head) % 31

-- The bytes held, oldest first.
abbrev pub contents : ByteQueue → List ℕ
contents q = window q.item q.head (held q)

pub length-contents : (q : ByteQueue) → length (contents q) ≡ held q
length-contents q = length-window q.item q.head (held q)

-- `IsFull` and `IsEmpty` by the number of bytes held.
pub is_full_iff : (q : ByteQueue) → IsValid q → is_full q ≡ (held q == 30)
unfolding is_full
is_full_iff q v = ground arith

pub is_empty_iff : (q : ByteQueue) → IsValid q → is_empty q ≡ (held q == 0)
unfolding is_empty
is_empty_iff q v = ground arith

-- `Enqueue` on a valid queue that `IsFull` does not refuse puts the byte last, and keeps the
-- queue valid.
pub enqueue_refines :
    (q : ByteQueue) (byte : ℕ)
    → IsValid q
    → is_full q ≡ false
    → (contents (enqueue q byte) ≡ contents q ++ (byte ∷ [])) × IsValid (enqueue q byte)
unfolding enqueue is_full
enqueue_refines q byte v nf = (
  ap (window (set q.item q.tail byte) q.head) one_more
      ∙ window-set q.item q.head (held q) q.tail byte v.room v.head_in (omega arith) (omega arith),
  record {
    room = length-set q.item q.tail byte ∙ v.room;
    head_in = v.head_in;
    tail_in = omega arith;
  },
)
  where
    one_more : ((q.tail + 1) % 31 + 31 - q.head) % 31 ≡ suc (held q)
    one_more = ground arith

-- `Dequeue` on a valid queue that is not empty returns the oldest byte, leaves the others in
-- order, and keeps the queue valid.
pub dequeue_refines :
    (q : ByteQueue)
    → IsValid q
    → is_empty q ≡ false
    → (contents q ≡ (dequeue q).0 ∷ contents (dequeue q).1) × IsValid (dequeue q).1
unfolding dequeue is_empty
dequeue_refines q v ne = (
  ap (window q.item q.head) one_less,
  record { room = v.room; head_in = omega arith; tail_in = v.tail_in },
)
  where
    one_less : held q ≡ suc ((q.tail + 31 - (q.head + 1) % 31) % 31)
    one_less = ground arith

-- `Reset` empties a valid queue and keeps it valid.
pub reset_refines : (q : ByteQueue) → IsValid q → (contents (reset q) ≡ []) × IsValid (reset q)
unfolding reset
reset_refines q v = (refl, record { room = v.room; head_in = omega arith; tail_in = omega arith })

-- `Size` on a valid queue is the number of bytes held while the indices have not wrapped, and is
-- 225 above it, which is negative as an `int8_t`, once `tail` has passed the end of the array.
pub size_lem :
    (q : ByteQueue)
    → IsValid q
    → size q ≡ (if leb q.head q.tail then length (contents q) else length (contents q) + 225)
unfolding size
size_lem q v = ground (arith, length-contents q)
