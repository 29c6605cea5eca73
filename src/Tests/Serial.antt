-- ===== src/Tests/Serial.antt =====
-- The serial receiver, the queue, the pins and the transmit functions at concrete inputs.
use easy_sd_gemini.Prelude.{
  ℕ, ◌+◌, ◌-◌, ◌≡◌, refl, List, [], ◌∷◌, ◌++◌, arith, replicate, length, take, leb, if◌then◌else◌,
  ◌/◌, ◌%◌,
}
use easy_sd_gemini.ByteQueue.{ByteQueue, enqueue, dequeue, is_full, is_empty, size}
use easy_sd_gemini.ByteQueue.Refine.{IsValid, contents, enqueue_refines, dequeue_refines, size_lem}
use easy_sd_gemini.Receiver.{Receiver, bit_started, in_transmission}
use easy_sd_gemini.Receiver.Shift.{byte_bits}
use easy_sd_gemini.Receiver.Pulses.{run_edges, Sends}
use easy_sd_gemini.Receiver.Bytes.{IsReady, run_edges_lem}
use easy_sd_gemini.Pins.{Pins, set_page, page}
use easy_sd_gemini.Pins.Pages.{page-set_page}
use easy_sd_gemini.Cart.{Cart, receive, transmit_paced}
use easy_sd_gemini.Cart.Delivery.{transmit_all, Sent, transmit_all-Sent}

abbrev pub queue_with : List ℕ → ℕ → ℕ → ByteQueue
queue_with bytes head tail = record {
  item = bytes ++ replicate (31 - length bytes) 0;
  head = head;
  tail = tail;
}

abbrev pub two_bytes : ByteQueue
two_bytes = queue_with (5 ∷ 6 ∷ []) 0 2

two_bytes-IsValid : IsValid two_bytes
two_bytes-IsValid = record { room = refl; head_in = omega arith; tail_in = omega arith }

enqueue_refines_example :
    (contents (enqueue two_bytes 7) ≡ contents two_bytes ++ (7 ∷ []))
    × IsValid (enqueue two_bytes 7)
unfolding is_full
enqueue_refines_example = enqueue_refines two_bytes 7 two_bytes-IsValid refl

dequeue_refines_example :
    (contents two_bytes ≡ (dequeue two_bytes).0 ∷ contents (dequeue two_bytes).1)
    × IsValid (dequeue two_bytes).1
unfolding is_empty
dequeue_refines_example = dequeue_refines two_bytes two_bytes-IsValid refl

-- The bytes of this queue lie across the end of the array.
abbrev wrapped : ByteQueue
wrapped = queue_with (5 ∷ 6 ∷ []) 29 1

size_lem_example : size wrapped ≡ (
    if leb wrapped.head wrapped.tail
    then length (contents wrapped)
    else length (contents wrapped) + 225)
size_lem_example =
    size_lem wrapped (record { room = refl; head_in = omega arith; tail_in = omega arith })

abbrev pub listening : Receiver
listening = record {
  read_queue = two_bytes;
  bit_state = bit_started;
  receive_state = in_transmission;
  current_byte = 0;
  bit_mask = 1;
  last_interrupt_time = 0;
  time_difference = 0;
  interrupt_time = 1000;
}

-- The edges of the byte 0x41, with a separator 20 µs after each bit.
abbrev edges_of_a : List ℕ
edges_of_a =
    1800 ∷ 1820 ∷ 2220 ∷ 2240 ∷ 2640 ∷ 2660 ∷ 3060 ∷ 3080 ∷ 3480 ∷ 3500 ∷ 3900 ∷ 3920 ∷ 4720 ∷ 4740
    ∷ 5140 ∷ 5160 ∷ []

edges_of_a-Sends : Sends 1000 (byte_bits (0x41 ∷ [])) edges_of_a
edges_of_a-Sends = (
  (omega arith, omega arith),
  (
    (omega arith, omega arith),
    (
      (omega arith, omega arith),
      (
        (omega arith, omega arith),
        (
          (omega arith, omega arith),
          (
            (omega arith, omega arith),
            ((omega arith, omega arith), ((omega arith, omega arith), tt)),
          ),
        ),
      ),
    ),
  ),
)

run_edges_lem_example :
    (contents (run_edges edges_of_a listening).read_queue
      ≡ take 30 (contents two_bytes ++ (0x41 ∷ [])))
    × IsReady (run_edges edges_of_a listening)
run_edges_lem_example =
    run_edges_lem (0x41 ∷ []) edges_of_a listening (omega arith, tt)
      (record {
        queue = two_bytes-IsValid;
        session = refl;
        between = refl;
        byte = refl;
        mask = refl;
      })
      edges_of_a-Sends

abbrev idle_pins : Pins
idle_pins = record {
  portb = 0x05;
  portc = 0x3f;
  portd = 0x0c;
  ddrb = 0x05;
  ddrc = 0x0f;
  ddrd = 0xf0;
}

page-set_page_example :
    (page (set_page 0xa7 idle_pins) ≡ 0xa7)
    × ((set_page 0xa7 idle_pins).portd % 16 ≡ idle_pins.portd % 16)
    × ((set_page 0xa7 idle_pins).portc / 16 ≡ idle_pins.portc / 16)
    × ((set_page 0xa7 idle_pins).portb ≡ idle_pins.portb)
    × ((set_page 0xa7 idle_pins).ddrb ≡ idle_pins.ddrb)
    × ((set_page 0xa7 idle_pins).ddrc ≡ idle_pins.ddrc)
    × ((set_page 0xa7 idle_pins).ddrd ≡ idle_pins.ddrd)
page-set_page_example =
    page-set_page 0xa7 idle_pins (omega arith) (record { portc = omega arith; portd = omega arith })

abbrev pub idle_cart : Cart
idle_cart = record {
  rx = listening;
  pins = idle_pins;
  listener = receive;
  transfer_index = 254;
  identifier_state_change_ms = 0;
  signals = [];
}

-- Three bytes across the end of a block.
transmit_all-Sent_example :
    Sent 40 (1 ∷ 2 ∷ 3 ∷ []) idle_cart (transmit_all (transmit_paced 40) (1 ∷ 2 ∷ 3 ∷ []) idle_cart)
transmit_all-Sent_example =
    transmit_all-Sent 40 (1 ∷ 2 ∷ 3 ∷ []) idle_cart (omega arith) (omega arith)
