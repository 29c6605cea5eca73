-- ===== src/Tests/Commands.antt =====
-- The handshake and the commands at concrete inputs.
use easy_sd_gemini.Prelude.{
  ℕ, ◌+◌, ◌≡◌, refl, List, [], ◌∷◌, ◌++◌, true, false, Option, none, some, arith, length, replicate,
}
use easy_sd_gemini.Receiver.{identifier_2_ok}
use easy_sd_gemini.Cart.{Cart, receive}
use easy_sd_gemini.Cart.Delivery.{delivered}
use easy_sd_gemini.Cart.Handler.{Moment, clock, edge}
use easy_sd_gemini.DirSort.{DirSortSlot}
use easy_sd_gemini.Api.{Api, Wait, first_mark}
use easy_sd_gemini.Api.Listing.{send_listing}
use easy_sd_gemini.Api.ListingFrames.{send_listing_lem}
use easy_sd_gemini.Api.PageCache.{get_cached_page_dir_idx, cache_page, slot_dir_idx}
use easy_sd_gemini.Api.Rows.{cache_page_lem, cache_page_row_18}
use easy_sd_gemini.Tests.Serial.{idle_cart, two_bytes}
use easy_sd_gemini.Tests.Card.{disk, in_games}

-- A third identifier byte whose last bit, a 0, has just ended.
abbrev knocking : Cart
knocking = record {
  rx = record {
    read_queue = two_bytes;
    bit_state = 2;
    receive_state = identifier_2_ok;
    current_byte = 0x17;
    bit_mask = 128;
    last_interrupt_time = 0;
    time_difference = 0;
    interrupt_time = 1000;
  };
  pins = idle_cart.pins;
  listener = receive;
  transfer_index = 0;
  identifier_state_change_ms = 0;
  signals = [];
}

abbrev now : Moment
now = record {
  checked_ms = 10;
  changed_ms = 10;
  wait_start_us = 0;
  polls = clock 100 ∷ edge 1020 ∷ [];
}

abbrev returned : Option Cart → Cart
returned none = knocking
returned (some c) = c

-- A file of three bytes is open, and the buffer asks for one page.
abbrev pub api : Api ⦃sd = disk⦄
api = record {
  cart = idle_cart;
  dir = in_games;
  working_file = some (7 ∷ 8 ∷ 9 ∷ []);
  args_ok = true;
  shared_buf = 1 ∷ replicate 399 0;
  wm = first_mark;
  wm_prev = first_mark;
  wm_pp = first_mark;
  sort_cached_page = 0xff;
  page_entry_count = 0;
  page_entry_page = 0xff;
  last_session_activity_ms = 0;
  session_saw_command = true;
}

-- Two waits: both find a byte of the queue or run out.
abbrev waits : List Wait
waits =
    record {
      start_ms = 0;
      rounds = record { before_read = []; before_clock = []; clock = 130 } ∷ [];
    }
    ∷ record {
      start_ms = 130;
      rounds = record { before_read = []; before_clock = []; clock = 260 } ∷ [];
    }
    ∷ []

abbrev slot : DirSortSlot
slot = record { key = b'a' ∷ []; dir_idx = 5; is_dir = false }

send_listing_lem_example :
    let t = send_listing ⦃sd = disk⦄ 2 1 true (slot ∷ []) 768 api in
    (body : List ℕ) × (length body + 2 ≡ 768)
    × (delivered t.cart.signals ≡ delivered api.cart.signals ++ (2 ∷ 1 ∷ body))
    × (t.cart.transfer_index ≡ 0)
send_listing_lem_example = send_listing_lem ⦃sd = disk⦄ 2 1 true (slot ∷ []) 768 api (omega arith)

abbrev buffer : List ℕ
buffer = replicate 400 1

cache_page_lem_example :
    get_cached_page_dir_idx (1 + 4) (cache_page true 20 buffer).1 ≡ slot_dir_idx 4 buffer
cache_page_lem_example = cache_page_lem true 20 4 buffer (omega arith) (omega arith) refl

cache_page_row_18_example :
    get_cached_page_dir_idx 18 (cache_page false 21 buffer).1 ≡ slot_dir_idx 0 buffer
cache_page_row_18_example = cache_page_row_18 21 buffer (omega arith) refl
