-- ===== src/ByteQueue.antt =====
-- The receive FIFO: Arduino/libraries/ByteQueue/ByteQueue.cpp and ByteQueue.h.
-- `head` and `tail` are `int8_t` indices that stay below 31, so `tail + 1` does not wrap.
pub mod Window
pub mod Refine
use easy_sd_gemini.Prelude.{ℕ, ◌+◌, ◌-◌, ◌%◌, Bool, not, List, ◌==◌, get_or, set}

-- QUEUE_MAX_SIZE
abbrev pub queue_max_size : ℕ
queue_max_size = 31

pub record ByteQueue : Type 0 where
  pub item : List ℕ
  pub head : ℕ
  pub tail : ℕ

unfoldable pub reset : ByteQueue → ByteQueue
reset q = record q { head = 0; tail = 0 }

unfoldable pub enqueue : ByteQueue → ℕ → ByteQueue
enqueue q byte = record q { item = set q.item q.tail byte; tail = (q.tail + 1) % queue_max_size }

unfoldable pub dequeue : ByteQueue → ℕ × ByteQueue
dequeue q = (get_or q.item q.head 0, record q { head = (q.head + 1) % queue_max_size })

-- `int8_t` subtraction: the result is the bit pattern of `tail - head`.
unfoldable pub size : ByteQueue → ℕ
size q = (q.tail + 256 - q.head) % 256

unfoldable pub is_empty : ByteQueue → Bool
is_empty q = q.head == q.tail

unfoldable pub is_available : ByteQueue → Bool
unfolding is_empty
is_available q = not (is_empty q)

unfoldable pub is_full : ByteQueue → Bool
is_full q = q.head == ((q.tail + 1) % queue_max_size)
