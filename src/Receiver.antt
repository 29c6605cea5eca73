-- ===== src/Receiver.antt =====
-- The Commodore 64 to AVR pulse decoder: the file-scope state of Arduino/EasySD/CartInterface.cpp and its
-- interrupt handler `ReceiveInterrupt`.
pub mod Shift
pub mod Pulses
pub mod Bytes
use Prim.Native.Nat.{bit_or}
use easy_sd_gemini.Prelude.{ℕ, ◌+◌, ◌-◌, ◌*◌, ◌%◌, ◌^◌, ◌&&◌, ◌||◌, ltb, ◌==◌, if◌then◌else◌}
use easy_sd_gemini.ByteQueue
use easy_sd_gemini.ByteQueue.{ByteQueue}

-- BIT_STARTED, BIT_ZERO_END, BIT_ONE_END
abbrev pub bit_started : ℕ
bit_started = 1

abbrev pub bit_zero_end : ℕ
bit_zero_end = 2

abbrev pub bit_one_end : ℕ
bit_one_end = 3

-- IDLE .. IN_TRANSMISSION
abbrev pub idle : ℕ
idle = 0

abbrev pub identifier_1_ok : ℕ
identifier_1_ok = 1

abbrev pub identifier_2_ok : ℕ
identifier_2_ok = 2

abbrev pub identifier_3_ok : ℕ
identifier_3_ok = 3

abbrev pub in_transmission : ℕ
in_transmission = 5

-- BIT_GAP_*_US
abbrev pub bit_gap_min_us : ℕ
bit_gap_min_us = 350

abbrev pub bit_gap_zero_us : ℕ
bit_gap_zero_us = 450

abbrev pub bit_gap_one_us : ℕ
bit_gap_one_us = 700

abbrev pub bit_gap_max_us : ℕ
bit_gap_max_us = 1000

-- Times are `unsigned long`, 32 bits on the AVR.
abbrev pub sub32 : ℕ → ℕ → ℕ
sub32 a b = (a + 2 ^ 32 - b) % 2 ^ 32

pub record Receiver : Type 0 where
  pub read_queue : ByteQueue
  pub bit_state : ℕ
  pub receive_state : ℕ
  pub current_byte : ℕ
  pub bit_mask : ℕ
  pub last_interrupt_time : ℕ
  pub time_difference : ℕ
  pub interrupt_time : ℕ

-- The three assignments that drop a partial byte.
unfoldable pub resync : Receiver → Receiver
resync r = record r { bit_state = bit_started; current_byte = 0; bit_mask = 1 }

-- The case BIT_STARTED: the gap between two edges is a 0, a 1 or noise.
unfoldable pub classify_gap : Receiver → Receiver
classify_gap r =
    if ltb r.time_difference bit_gap_min_us || ltb bit_gap_max_us r.time_difference
    then resync r
    else if ltb r.time_difference bit_gap_zero_us
    then record r { bit_state = bit_zero_end }
    else if ltb bit_gap_one_us r.time_difference
    then record r { bit_state = bit_one_end }
    else resync r

-- `if (bitState == BIT_ONE_END) currentByte |= bitMask; bitMask <<= 1;` on `uint8_t`s.
unfoldable pub shift_in : Receiver → Receiver
shift_in r = record r {
  current_byte =
      if r.bit_state == bit_one_end then bit_or r.current_byte r.bit_mask else r.current_byte;
  bit_mask = r.bit_mask * 2 % 256;
}

-- `if (!readQueue.IsFull()) readQueue.Enqueue(currentByte);`
unfoldable pub enqueue_unless_full : ByteQueue → ℕ → ByteQueue
enqueue_unless_full q byte = if ByteQueue.is_full q then q else ByteQueue.enqueue q byte

-- A finished byte is queued, and the next one begins.
unfoldable pub finish_byte : Receiver → Receiver
finish_byte r =
    if r.bit_mask == 0
    then record r {
      read_queue = enqueue_unless_full r.read_queue r.current_byte;
      bit_mask = 1;
      current_byte = 0;
    }
    else r

-- The part of the handler behind the switch.
unfoldable pub collect_bit : Receiver → Receiver
collect_bit r =
    if (r.receive_state == in_transmission) && ltb bit_started r.bit_state
    then finish_byte (shift_in r)
    else r

-- The edge's time; `micros()` read at the edge is the argument `now`.
unfoldable pub stamp : ℕ → Receiver → Receiver
stamp now r = record r {
  last_interrupt_time = r.interrupt_time;
  interrupt_time = now;
  time_difference = sub32 now r.interrupt_time;
}

unfoldable pub receive_interrupt : ℕ → Receiver → Receiver
receive_interrupt now r =
    let timed = stamp now r in
    if r.bit_state == bit_started
    then collect_bit (classify_gap timed)
    else if (r.bit_state == bit_zero_end) || (r.bit_state == bit_one_end)
    then record timed { bit_state = bit_started }
    else collect_bit timed
