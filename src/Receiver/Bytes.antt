-- ===== src/Receiver/Bytes.antt =====
-- The bytes that reach the queue of CartInterface.cpp from a pulse train, during a session.
use easy_sd_gemini.Prelude.{
  ℕ, ◌≡◌, refl, sym, ap, ◌∙◌, List, [], ◌∷◌, ◌++◌, append-nil, append_assoc, arith, length-append,
  take, take_all, take-append_left, take-take_append, Bytes, Bool-cases, inl, inr, true, false,
  subst,
}
use easy_sd_gemini.ByteQueue.{ByteQueue, is_full}
use easy_sd_gemini.ByteQueue.Refine.{
  IsValid, contents, length-contents, is_full_iff, enqueue_refines,
}
use easy_sd_gemini.Receiver.{Receiver, bit_started, in_transmission, enqueue_unless_full}
use easy_sd_gemini.Receiver.Shift.{byte_bits, fresh, shifts-Bytes}
use easy_sd_gemini.Receiver.Pulses.{run_edges, Sends, offer, Fills, bits-Fills}

-- The receiver is in a session, between two bytes.
pub record IsReady (r : Receiver) : Type 0 where
  pub queue : IsValid r.read_queue
  pub session : r.receive_state ≡ in_transmission
  pub between : r.bit_state ≡ bit_started
  pub byte : r.current_byte ≡ 0
  pub mask : r.bit_mask ≡ 1

-- A byte offered to the queue is put last, or dropped when 30 bytes are held.
offer_one :
    (q : ByteQueue) (x : ℕ)
    → IsValid q
    → (contents (enqueue_unless_full q x) ≡ take 30 (contents q ++ (x ∷ [])))
      × IsValid (enqueue_unless_full q x)
unfolding enqueue_unless_full
offer_one q x v = elim (Bool-cases (is_full q)) [
  | inl full ↦ rw full (sym (kept full), v)
  | inr room ↦ let grown = enqueue_refines q x v room in rw room (grown.0 ∙ sym (all room), grown.1)
]
  where
    kept : is_full q ≡ true → take 30 (contents q ++ (x ∷ [])) ≡ contents q
    kept full =
        take-append_left 30 (contents q) (x ∷ [])
          (ground (arith, length-contents q, is_full_iff q v))
        ∙ take_all 30 (contents q) (ground (arith, length-contents q, is_full_iff q v))

    all : is_full q ≡ false → take 30 (contents q ++ (x ∷ [])) ≡ contents q ++ (x ∷ [])
    all room =
        take_all 30 _
          (ground (arith, length-append (contents q) (x ∷ []), length-contents q, is_full_iff q v))

pub offer_lem :
    (xs : List ℕ) (q : ByteQueue)
    → IsValid q
    → (contents (offer q xs) ≡ take 30 (contents q ++ xs)) × IsValid (offer q xs)
offer_lem [] q v = (
  sym (
      ap (take 30) (append-nil (contents q))
      ∙ take_all 30 (contents q) (omega (arith, length-contents q))),
  v,
)
offer_lem (x ∷ xs) q v =
    let one = offer_one q x v in
    let rest = offer_lem xs (enqueue_unless_full q x) one.1 in
    (
      rest.0
          ∙ ap (λ c. take 30 (c ++ xs)) one.0
          ∙ take-take_append 30 (contents q ++ (x ∷ [])) xs
          ∙ ap (take 30) (append_assoc (contents q) (x ∷ []) xs),
      rest.1,
    )

-- Edges that send the bits of `xs`, lowest bit first and each followed by a separator edge, to a
-- receiver in a session and between two bytes: the queue then holds what it held, followed by
-- `xs`, cut at 30 bytes, and the receiver is again between two bytes.
pub run_edges_lem :
    (xs ts : List ℕ) (r : Receiver)
    → Bytes xs
    → IsReady r
    → Sends r.interrupt_time (byte_bits xs) ts
    → (contents (run_edges ts r).read_queue ≡ take 30 (contents r.read_queue ++ xs))
      × IsReady (run_edges ts r)
run_edges_lem xs ts r h v sends =
    let out =
      bits-Fills (byte_bits xs) ts r.interrupt_time r.read_queue (fresh []) r sends refl v.between
        (record { queue = refl; session = v.session; byte = v.byte; mask = v.mask }) in
    let end : Fills r.read_queue (fresh xs) (run_edges ts r) = rw (shifts-Bytes xs [] h) at out.0 in
    let held = offer_lem xs r.read_queue v.queue in
    (
      ap contents end.queue ∙ held.0,
      record {
        queue = subst IsValid (sym end.queue) held.1;
        session = end.session;
        between = out.1;
        byte = end.byte;
        mask = end.mask;
      },
    )
