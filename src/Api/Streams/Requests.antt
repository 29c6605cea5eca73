-- ===== src/Api/Streams/Requests.antt =====
-- One request and one refill of `HandleStream`, Arduino/EasySD/CartApi.cpp.
use easy_sd_gemini.Prelude.{
  ℕ, zero, suc, ◌+◌, ◌-◌, ◌≤◌, ◌<◌, min, ◌≡◌, ◌≢◌, refl, sym, ap, ap₂, subst, ◌∙◌, inl, inr, Bool,
  true, false, not, List, [], ◌∷◌, ◌++◌, append-nil, Option, none, some, ◌==◌, Bool-cases, ==_iff,
  arith, length, length-append, length-replicate, take, take_all, drop, get_or, replicate,
  if◌then◌else◌,
}
use easy_sd_gemini.SdFat.{SdFat}
use easy_sd_gemini.Cart.{set_page, drive}
use easy_sd_gemini.Api.Koala.{put_at}
use easy_sd_gemini.Api.Launch.{bytes_of}
use easy_sd_gemini.Api.Launch.Bytes.{Serves, empty_of_length}
use easy_sd_gemini.Api.Streams.{
  Stream, double_buffer_size, read_and_pad_buffer, double_buffered_streaming, refill,
}
use easy_sd_gemini.Api.Streams.Polled.{pages}
use easy_sd_gemini.Api.Streams.Buffers.{
  half, half_byte, length-half, put_half, drop-suc, drop_all, cut_whole,
}

abbrev pub same : Bool → Bool → Bool
same false b = not b
same true b = b

-- The bytes to be shown with no further refill: the one that is ready, those left of the half in
-- use, and the other half where it is not due for a refill.
abbrev pub ahead_of : Bool → Bool → ℕ → ℕ → List ℕ → List ℕ
ahead_of second refills i current buffer =
    current
    ∷ (drop i (half second buffer)
        ++ (if same second refills then half (not second) buffer else []))

-- The next bytes of a file, with `pad` behind its end, and several such blocks.
abbrev pub padded : ℕ → ℕ → List ℕ → List ℕ
padded pad n xs = take n xs ++ replicate (n - length xs) pad

abbrev pub refilled : ℕ → ℕ → List ℕ → List ℕ
refilled pad zero xs = []
refilled pad (suc n) xs = padded pad 64 xs ++ refilled pad n (drop 64 xs)

next_in_half :
    (second refills : Bool) (i current : ℕ) (buffer : List ℕ)
    → suc i < 64
    → 128 ≤ length buffer
    → ahead_of second refills i current buffer
      ≡ current ∷ ahead_of second refills (suc i) (get_or (half second buffer) i 0) buffer
next_in_half second refills i current buffer h room =
    ap (λ l. current ∷ (l ++ (if same second refills then half (not second) buffer else [])))
      (drop-suc i (half second buffer) (omega (arith, length-half second buffer room)))

end_of_half :
    (second : Bool) (current : ℕ) (buffer : List ℕ)
    → 128 ≤ length buffer
    → ahead_of second second 63 current buffer
      ≡ current ∷ ahead_of (not second) second 0 (get_or (half second buffer) 63 0) buffer
end_of_half second current buffer room =
    let last =
      drop-suc 63 (half second buffer) (omega (arith, length-half second buffer room))
      ∙ ap (λ l. get_or (half second buffer) 63 0 ∷ l)
          (drop_all 64 (half second buffer) (omega (arith, length-half second buffer room))) in
    by_half second last
  where
    by_half :
        (b : Bool)
        → drop 63 (half b buffer) ≡ get_or (half b buffer) 63 0 ∷ []
        → ahead_of b b 63 current buffer
          ≡ current ∷ ahead_of (not b) b 0 (get_or (half b buffer) 63 0) buffer
    by_half false e =
        ap (λ l. current ∷ (l ++ half true buffer)) e
        ∙ ap (λ l. current ∷ get_or (half false buffer) 63 0 ∷ l)
            (sym (append-nil (half true buffer)))
    by_half true e =
        ap (λ l. current ∷ (l ++ half false buffer)) e
        ∙ ap (λ l. current ∷ get_or (half true buffer) 63 0 ∷ l)
            (sym (append-nil (half false buffer)))

behind_refill :
    (second refills : Bool) (i current : ℕ) (block buffer : List ℕ)
    → second ≢ refills
    → length block ≡ 64
    → 128 ≤ length buffer
    → ahead_of second (not refills) i current (put_at (if refills then 64 else 0) block buffer)
      ≡ ahead_of second refills i current buffer ++ block
behind_refill false false i current block buffer due e room = absurd (due refl)
behind_refill true true i current block buffer due e room = absurd (due refl)
behind_refill false true i current block buffer due e room =
    let (written, kept, _) = put_half true block buffer e room in
    ap₂ (λ a b. current ∷ (drop i a ++ b)) kept written
    ∙ ap (λ l. current ∷ (l ++ block)) (sym (append-nil (drop i (half false buffer))))
behind_refill true false i current block buffer due e room =
    let (written, kept, _) = put_half false block buffer e room in
    ap₂ (λ a b. current ∷ (drop i a ++ b)) kept written
    ∙ ap (λ l. current ∷ (l ++ block)) (sym (append-nil (drop i (half true buffer))))

module _ ⦃sd : SdFat⦄ where
  -- The state of a stream, with the half in use.
  pub record IsGood (second : Bool) (st : Stream) : Type 0 where
    pub used : st.used_buffer ≡ (if second then 1 else 0)
    pub index : st.index < 64
    pub room : 128 ≤ length st.buffer

  abbrev pub ahead : Bool → Stream → List ℕ
  ahead second st = ahead_of second st.refills_second st.index st.current_byte st.buffer

  -- A request shows the byte that is ready, and makes the next one ready.
  pub record Shows (second : Bool) (st t : Stream) : Type 0 where
    pub now_second : Bool
    pub good : IsGood now_second t
    pub order : ahead second st ≡ st.current_byte ∷ ahead now_second t
    pub page : pages t.cart.signals ≡ pages st.cart.signals ++ (st.current_byte ∷ [])
    pub file : t.file ≡ st.file

  streaming_step :
      (now : ℕ) (second : Bool) (st : Stream)
      → IsGood second st
      → double_buffered_streaming now st ≡ (
          let shown = record st {
            cart = set_page st.current_byte st.cart;
            current_byte = get_or (half second st.buffer) st.index 0;
            last_request_ms = now;
          } in
          if st.index + 1 == 64
          then record shown { index = 0; used_buffer = if second then 0 else 1 }
          else record shown { index = st.index + 1 })
  unfolding double_buffered_streaming
  streaming_step now false st g =
      let first : (st.used_buffer == 0) ≡ true = ground (arith, g.used) in
      rw (half_byte false st.index st.buffer g.index) (simp (first, ap (λ n. 1 - n) g.used) refl)
  streaming_step now true st g =
      let first : (st.used_buffer == 0) ≡ false = ground (arith, g.used) in
      rw (half_byte true st.index st.buffer g.index) (simp (first, ap (λ n. 1 - n) g.used) refl)

  -- A request that does not leave the half in use before the other one is refilled.
  pub request-Shows :
      (now : ℕ) (second : Bool) (st : Stream)
      → IsGood second st
      → (st.index ≡ 63 → second ≡ st.refills_second)
      → Shows second st (double_buffered_streaming now st)
  unfolding set_page drive
  request-Shows now second st g timely =
      subst (Shows second st) (sym (streaming_step now second st g))
        (elim (Bool-cases (st.index + 1 == 64)) [
          | inl e ↦ simp e (wrap (omega (arith, (==_iff (st.index + 1) 64).0 e)))
          | inr e ↦ simp e (onward (ground (arith, e, g.index)))
        ])
    where
      ready : ℕ
      ready = get_or (half second st.buffer) st.index 0

      wrap :
          st.index ≡ 63
          → Shows second st (record st {
            cart = set_page st.current_byte st.cart;
            current_byte = ready;
            last_request_ms = now;
            index = 0;
            used_buffer = if second then 0 else 1;
          })
      wrap e = record {
        now_second = not second;
        good = record { used = flipped second; index = omega arith; room = g.room };
        order =
            ap₂ (λ i r. ahead_of second r i st.current_byte st.buffer) e (sym (timely e))
            ∙ end_of_half second st.current_byte st.buffer g.room
            ∙ ap₂
                (λ i r.
                  st.current_byte
                  ∷ ahead_of (not second) r 0 (get_or (half second st.buffer) i 0) st.buffer)
                (sym e) (timely e);
        page = refl;
        file = refl;
      }
        where
          flipped : (b : Bool) → ◌≡◌ {A = ℕ} (if b then 0 else 1) (if not b then 1 else 0)
          flipped false = refl
          flipped true = refl

      onward :
          suc st.index < 64
          → Shows second st (record st {
            cart = set_page st.current_byte st.cart;
            current_byte = ready;
            last_request_ms = now;
            index = st.index + 1;
          })
      onward h = record {
        now_second = second;
        good = record { used = g.used; index = omega (arith, h); room = g.room };
        order =
            next_in_half second st.refills_second st.index st.current_byte st.buffer h g.room
            ∙ ap (λ i. st.current_byte ∷ ahead_of second st.refills_second i ready st.buffer)
                (one_more st.index);
        page = refl;
        file = refl;
      }
        where
          one_more : (i : ℕ) → suc i ≡ i + 1
          one_more i = omega arith

  -- What a read of a block brings.
  pub read_and_pad_buffer_lem :
      (len pad : ℕ) (f : sd.File)
      → Serves
      → let r = read_and_pad_buffer len pad f in
        (r.1 ≡ padded pad len (sd.rest f))
        × (sd.rest r.2 ≡ drop len (sd.rest f))
        × (length r.1 ≡ len)
  unfolding read_and_pad_buffer
  read_and_pad_buffer_lem len pad f serves = by_read (sd.read len f) refl (serves len f)
    where
      by_read :
          (r : Option (List ℕ) × sd.File)
          → sd.read len f ≡ r
          → r.0 ≢ none
          → (bytes_of r.0 ++ replicate (len - length (bytes_of r.0)) pad
              ≡ padded pad len (sd.rest f))
            × (sd.rest r.1 ≡ drop len (sd.rest f))
            × (length (bytes_of r.0 ++ replicate (len - length (bytes_of r.0)) pad) ≡ len)
      by_read (none, g) e answered = absurd (answered refl)
      by_read (some bytes, g) e answered =
          let (parts, fits) = sd.read_lem len f g bytes e in
          let whole = sd.read_full len f g bytes e in
          let total = ap length parts ∙ length-append bytes (sd.rest g) in
          let (front, back) = cut (length (sd.rest g)) whole total refl in
          (
            ap₂ (λ xs n. xs ++ replicate n pad) (sym front ∙ ap (take len) (sym parts))
                (omega (arith, whole)),
            sym back ∙ ap (drop len) (sym parts),
            omega (
              arith,
              length-append bytes (replicate (len - length bytes) pad),
              length-replicate {A = ℕ} (len - length bytes) pad,
              fits,
            ),
          )
        where
          cut :
              (n : ℕ)
              → length bytes ≡ min len (length (sd.rest f))
              → length (sd.rest f) ≡ length bytes + n
              → length (sd.rest g) ≡ n
              → (take len (bytes ++ sd.rest g) ≡ bytes)
                × (drop len (bytes ++ sd.rest g) ≡ sd.rest g)
          cut zero p q e =
              subst (λ m. (take len (bytes ++ m) ≡ bytes) × (drop len (bytes ++ m) ≡ m))
                (sym (empty_of_length (sd.rest g) e))
                (
                  ap (take len) (append-nil bytes) ∙ take_all len bytes (omega (arith, p)),
                  ap (drop len) (append-nil bytes) ∙ drop_all len bytes (omega (arith, p)),
                )
          cut (suc n) p q e = cut_whole bytes (sd.rest g) len (omega (arith, p, q))

  -- A refill of the half that is not in use puts the next block of the file behind the bytes ahead.
  pub refill_lem :
      (pad : ℕ) (second : Bool) (st : Stream)
      → Serves
      → IsGood second st
      → second ≢ st.refills_second
      → let t = refill pad st in
        IsGood second t
        × (ahead second t ≡ ahead second st ++ padded pad 64 (sd.rest st.file))
        × (sd.rest t.file ≡ drop 64 (sd.rest st.file))
        × (pages t.cart.signals ≡ pages st.cart.signals)
  unfolding refill
  refill_lem pad second st serves g due =
      let (_, block, f) = read_and_pad_buffer double_buffer_size pad st.file in
      let (bytes, more, size) = read_and_pad_buffer_lem 64 pad st.file serves in
      let room = (put_half st.refills_second block st.buffer size g.room).2 in
      (
        record { used = g.used; index = g.index; room = omega (arith, room, g.room) },
        behind_refill second st.refills_second st.index st.current_byte block st.buffer due size
              g.room
            ∙ ap (λ b. ahead second st ++ b) bytes,
        more,
        refl,
      )
