-- ===== src/Receiver/Pulses.antt =====
-- What `ReceiveInterrupt` makes of a well-formed pulse train: each bit is a gap between two edges,
-- and one more edge separates it from the next bit.
use Prim.Native.Nat.{bit_or}
use easy_sd_gemini.Prelude.{
  ℕ, ◌*◌, ◌%◌, ◌≤◌, ◌<◌, ◌≡◌, refl, Bool, true, false, List, [], ◌∷◌, ◌++◌, arith, if◌then◌else◌,
}
use easy_sd_gemini.ByteQueue.{ByteQueue}
use easy_sd_gemini.Receiver.{
  Receiver, sub32, bit_started, bit_zero_end, bit_one_end, in_transmission, classify_gap, shift_in,
  enqueue_unless_full, finish_byte, collect_bit, stamp, receive_interrupt,
}
use easy_sd_gemini.Receiver.Shift.{Shift, complete, shift, shifts}

-- The interrupt handler on a row of edges, given by their times.
abbrev pub run_edges : List ℕ → Receiver → Receiver
run_edges [] r = r
run_edges (t ∷ ts) r = run_edges ts (receive_interrupt t r)

-- A gap width that stands for a bit.
abbrev pub Carries : Bool → ℕ → Type 0
Carries false gap = (350 ≤ gap) × (gap < 450)
Carries true gap = (700 < gap) × (gap ≤ 1000)

-- The edges that send bits after an edge at `last`: a gap, then a separator, for each bit.
abbrev pub Sends : ℕ → List Bool → List ℕ → Type 0
Sends last [] [] = Unit
Sends last (b ∷ bs) (t ∷ s ∷ ts) = Carries b (sub32 t last) × Sends s bs ts
Sends last _ _ = ⊥

-- What the queue holds after bytes were offered to it in turn; a full queue drops them.
abbrev pub offer : ByteQueue → List ℕ → ByteQueue
offer q [] = q
offer q (x ∷ xs) = offer (enqueue_unless_full q x) xs

offer-append : (xs ys : List ℕ) (q : ByteQueue) → offer q (xs ++ ys) ≡ offer (offer q xs) ys
offer-append [] ys q = refl
offer-append (x ∷ xs) ys q = offer-append xs ys _

-- The state that a gap leaves for a bit.
abbrev end_of : Bool → ℕ
end_of true = bit_one_end
end_of false = bit_zero_end

-- The receiver's partial byte is as `a` has it, over a queue that held `q`.
pub record Fills (q : ByteQueue) (a : Shift) (r : Receiver) : Type 0 where
  pub queue : r.read_queue ≡ offer q a.done
  pub session : r.receive_state ≡ in_transmission
  pub byte : r.current_byte ≡ a.partial
  pub mask : r.bit_mask ≡ a.mask

classify-bit :
    (b : Bool) (r : Receiver)
    → Carries b r.time_difference
    → classify_gap r ≡ record r { bit_state = end_of b }
unfolding classify_gap
classify-bit true r c = ground arith
classify-bit false r c = ground arith

finish-Fills :
    (q : ByteQueue) (a : Shift) (r : Receiver) → Fills q a r → Fills q (complete a) (finish_byte r)
unfolding finish_byte complete
finish-Fills q a r f = ground (arith, offer-append a.done (a.partial ∷ []) q)

shift_in-Fills :
    (q : ByteQueue) (a : Shift) (b : Bool) (r : Receiver)
    → r.bit_state ≡ end_of b
    → Fills q a r
    → Fills q
        (record {
          done = a.done;
          partial = if b then bit_or a.partial a.mask else a.partial;
          mask = a.mask * 2 % 256;
        })
        (shift_in r)
unfolding shift_in
shift_in-Fills q a true r e f = ground arith
shift_in-Fills q a false r e f = ground arith

collect-Fills :
    (q : ByteQueue) (a : Shift) (b : Bool) (r : Receiver)
    → r.bit_state ≡ end_of b
    → Fills q a r
    → Fills q (shift b a) (collect_bit r)
unfolding collect_bit shift
collect-Fills q a true r e f =
    simp (f.session, e) (finish-Fills q _ (shift_in r) (shift_in-Fills q a true r e f))
collect-Fills q a false r e f =
    simp (f.session, e) (finish-Fills q _ (shift_in r) (shift_in-Fills q a false r e f))

collect_bit_frame :
    (r : Receiver)
    → ((collect_bit r).bit_state ≡ r.bit_state)
      × ((collect_bit r).interrupt_time ≡ r.interrupt_time)
unfolding collect_bit finish_byte shift_in
collect_bit_frame r = ground arith

stamp-Fills :
    (q : ByteQueue) (a : Shift) (t : ℕ) (r : Receiver) → Fills q a r → Fills q a (stamp t r)
unfolding stamp
stamp-Fills q a t r f = record {
  queue = f.queue;
  session = f.session;
  byte = f.byte;
  mask = f.mask;
}

state-Fills :
    (q : ByteQueue) (a : Shift) (n : ℕ) (r : Receiver)
    → Fills q a r
    → Fills q a (record r { bit_state = n })
state-Fills q a n r f = record {
  queue = f.queue;
  session = f.session;
  byte = f.byte;
  mask = f.mask;
}

classify-stamp :
    (b : Bool) (t : ℕ) (r : Receiver)
    → Carries b (sub32 t r.interrupt_time)
    → classify_gap (stamp t r) ≡ record (stamp t r) { bit_state = end_of b }
unfolding stamp
classify-stamp b t r c = classify-bit b _ c

-- The edge that ends a bit's gap.
gap-Fills :
    (q : ByteQueue) (a : Shift) (b : Bool) (t : ℕ) (r : Receiver)
    → Carries b (sub32 t r.interrupt_time)
    → r.bit_state ≡ bit_started
    → Fills q a r
    → Fills q (shift b a) (receive_interrupt t r) × ((receive_interrupt t r).bit_state ≡ end_of b)
unfolding receive_interrupt
gap-Fills q a b t r c e f =
    simp (e, classify-stamp b t r c)
      (
        collect-Fills q a b _ refl (state-Fills q a (end_of b) _ (stamp-Fills q a t r f)),
        (collect_bit_frame _).0,
      )

-- The edge that separates it from the next bit.
separator-Fills :
    (q : ByteQueue) (a : Shift) (b : Bool) (s : ℕ) (r : Receiver)
    → r.bit_state ≡ end_of b
    → Fills q a r
    → Fills q a (receive_interrupt s r)
      × ((receive_interrupt s r).bit_state ≡ bit_started)
      × ((receive_interrupt s r).interrupt_time ≡ s)
unfolding receive_interrupt stamp
separator-Fills q a true s r e f = simp e (state-Fills q a _ _ (stamp-Fills q a s r f), refl, refl)
separator-Fills q a false s r e f = simp e (state-Fills q a _ _ (stamp-Fills q a s r f), refl, refl)

-- A row of bits, by induction on them.
pub bits-Fills :
    (bs : List Bool) (ts : List ℕ) (last : ℕ) (q : ByteQueue) (a : Shift) (r : Receiver)
    → Sends last bs ts
    → r.interrupt_time ≡ last
    → r.bit_state ≡ bit_started
    → Fills q a r
    → Fills q (shifts bs a) (run_edges ts r) × ((run_edges ts r).bit_state ≡ bit_started)
unfolding shifts
bits-Fills [] [] last q a r h u e f = (f, e)
bits-Fills [] (t ∷ ts) last q a r h u e f = absurd h
bits-Fills (b ∷ bs) [] last q a r h u e f = absurd h
bits-Fills (b ∷ bs) (t ∷ []) last q a r h u e f = absurd h
bits-Fills (b ∷ bs) (t ∷ s ∷ ts) last q a r h u e f =
    let gap = gap-Fills q a b t r (rw u h.0) e f in
    let sep = separator-Fills q (shift b a) b s (receive_interrupt t r) gap.1 gap.0 in
    bits-Fills bs ts s q (shift b a) _ h.1 sep.2 sep.1 sep.0
