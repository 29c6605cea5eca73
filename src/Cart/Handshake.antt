-- ===== src/Cart/Handshake.antt =====
-- The handshake in `ReceiveHandler` of Arduino/EasySD/CartInterface.cpp: how a session opens.
use easy_sd_gemini.Prelude.{ℕ, ◌≡◌, ◌⊎◌, Option, none, some}
use easy_sd_gemini.Receiver.{
  Receiver, idle, identifier_1_ok, identifier_2_ok, identifier_3_ok, in_transmission, shift_in,
}
use easy_sd_gemini.Cart.{Cart}
use easy_sd_gemini.Cart.Handler.{identifier_1, identifier_2, identifier_3}

abbrev state_of : Cart → ℕ
state_of c = c.rx.receive_state

-- The byte that is being received, with the bit that has ended.
abbrev pub byte_of : Cart → ℕ
byte_of c = (shift_in c.rx).current_byte

-- What a call may make of the state.
pub data Moves (s byte t : ℕ) : Type 0 where
  stays : t ≡ s → Moves s byte t
  drops : t ≡ idle → Moves s byte t
  first : s ≡ idle → byte ≡ identifier_1 → t ≡ identifier_1_ok → Moves s byte t
  second : s ≡ identifier_1_ok → byte ≡ identifier_2 → t ≡ identifier_2_ok → Moves s byte t
  third : s ≡ identifier_2_ok → byte ≡ identifier_3 → t ≡ identifier_3_ok → Moves s byte t
  opens : s ≡ identifier_3_ok → t ≡ in_transmission → Moves s byte t

-- What a wait ends with, if it ends.
abbrev Ends : ℕ → Option Cart → Type 0
Ends s none = Unit
Ends s (some d) = (state_of d ≡ s) ⊎ (state_of d ≡ idle)

-- What a call ends with, if it returns.
abbrev pub Handles : Cart → Option Cart → Type 0
Handles c none = Unit
Handles c (some d) = Moves (state_of c) (byte_of c) (state_of d)
