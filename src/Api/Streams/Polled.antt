-- ===== src/Api/Streams/Polled.antt =====
-- `HandleNonInterruptedStream` of Arduino/EasySD/CartApi.cpp against a Commodore 64 that strobes IO2
-- once for each byte.
use easy_sd_gemini.Prelude.{
  ℕ, zero, suc, ◌+◌, ◌-◌, ◌*◌, ◌≤◌, ◌<◌, ◌≡◌, refl, sym, ap, ap₂, subst, ◌∙◌, ◌⊎◌, inl, inr, Bool,
  true, false, List, [], ◌∷◌, ◌++◌, append-nil, append_assoc, Option, none, some, ◌==◌, arith,
  length, length-take, drop, take, replicate, if◌then◌else◌,
}
use easy_sd_gemini.SdFat.{SdFat}
use easy_sd_gemini.Cart.{Cart, Signal, page, drive}
use easy_sd_gemini.Api.{Api}
use easy_sd_gemini.Api.Koala.{put_at}
use easy_sd_gemini.Api.Launch.Bytes.{Serves, fill, length-fill, empty_of_length}
use easy_sd_gemini.Api.Streams.{
  NiExit, eof, wait_fall, wait_rise, await_strobe, latch_byte, send_block, io2_first_byte_retries,
  read_and_pad_final_aware, ni_loop,
}
use easy_sd_gemini.Api.Streams.Blocks.{
  fill-plus, length-drop, Blocks, ReadsBlock, read_and_pad_final_aware-ReadsBlock,
}

-- How often the line is seen high before a strobe, and low in it, behind the first time.
pub record Strobe : Type 0 where
  pub high : ℕ
  pub low : ℕ

-- The levels that a strobe shows; the high level that ends it is the last.
abbrev pub levels_of : List Strobe → List Bool → List Bool
levels_of [] more = more
levels_of (t ∷ ts) more =
    replicate t.high true ++ (false ∷ (replicate t.low false ++ (true ∷ levels_of ts more)))

-- Each strobe comes within the limit of the loops.
abbrev pub InTime : List Strobe → Type 0
InTime [] = Unit
InTime (t ∷ ts) = (t.high < 65535) × (t.low < 65535) × InTime ts

-- The bytes latched in turn.
unfoldable pub latch_all : ℕ → ℕ → List ℕ → Cart → Cart
latch_all d p [] c = c
latch_all d p (b ∷ bs) c = latch_all d p bs (latch_byte d p b c)

wait_fall_lem :
    (a retries loops : ℕ) (levels : List Bool)
    → loops + a < 65535
    → wait_fall retries loops (replicate a true ++ (false ∷ levels)) ≡ some (true, levels)
unfolding wait_fall
wait_fall_lem zero retries loops levels h = refl
wait_fall_lem (suc a) retries loops levels h =
    let below : (loops + 1 == 65535) ≡ false = ground (arith, h) in
    simp below (wait_fall_lem a retries (loops + 1) levels (omega arith))

wait_rise_lem :
    (a loops : ℕ) (levels : List Bool)
    → loops + a < 65535
    → wait_rise loops (replicate a false ++ (true ∷ levels)) ≡ some (true, levels)
unfolding wait_rise
wait_rise_lem zero loops levels h = refl
wait_rise_lem (suc a) loops levels h =
    let below : (loops + 1 == 65535) ≡ false = ground (arith, h) in
    simp below (wait_rise_lem a (loops + 1) levels (omega arith))

await_strobe_lem :
    (first : Bool) (t : Strobe) (more : List Bool)
    → t.high < 65535
    → t.low < 65535
    → await_strobe first
        (replicate t.high true ++ (false ∷ (replicate t.low false ++ (true ∷ more))))
      ≡ some (none, more)
unfolding await_strobe
await_strobe_lem first t more h l =
    rw
      (
        wait_fall_lem t.high (if first then io2_first_byte_retries else 1) 0
            (replicate t.low false ++ (true ∷ more)) (omega arith),
        await_strobe,
      )
      (rw (wait_rise_lem t.low 0 more (omega arith)) refl)

send_block_lem :
    (d p : ℕ) (first : Bool) (bs : List ℕ) (ts : List Strobe) (more : List Bool) (c : Cart)
    → length ts ≡ length bs
    → InTime ts
    → send_block d p first bs (levels_of ts more) c ≡ some (none, more, latch_all d p bs c)
unfolding send_block latch_all
send_block_lem d p first [] [] more c e h = refl
send_block_lem d p first [] (t ∷ ts) more c e h = absurd (omega (arith, e))
send_block_lem d p first (b ∷ bs) [] more c e h = absurd (omega (arith, e))
send_block_lem d p first (b ∷ bs) (t ∷ ts) more c e (high, low, later) =
    rw (await_strobe_lem first t (levels_of ts more) high low, send_block)
      (send_block_lem d p false bs ts more (latch_byte d p b c) (omega (arith, e)) later)

latch_all-append :
    (d p : ℕ) (xs ys : List ℕ) (c : Cart)
    → latch_all d p (xs ++ ys) c ≡ latch_all d p ys (latch_all d p xs c)
unfolding latch_all
latch_all-append d p [] ys c = refl
latch_all-append d p (x ∷ xs) ys c = latch_all-append d p xs ys (latch_byte d p x c)

levels_split :
    (n : ℕ) (ts : List Strobe) (more : List Bool)
    → levels_of ts more ≡ levels_of (take n ts) (levels_of (drop n ts) more)
levels_split zero ts more = refl
levels_split (suc n) [] more = refl
levels_split (suc n) (t ∷ ts) more =
    ap (λ l. replicate t.high true ++ (false ∷ (replicate t.low false ++ (true ∷ l))))
      (levels_split n ts more)

InTime-split : (n : ℕ) (ts : List Strobe) → InTime ts → InTime (take n ts) × InTime (drop n ts)
InTime-split zero ts h = (tt, h)
InTime-split (suc n) [] h = (tt, tt)
InTime-split (suc n) (t ∷ ts) (high, low, later) =
    let (a, b) = InTime-split n ts later in ((high, low, a), b)

suc_mul : (k len : ℕ) → suc k * len ≡ len + k * len
suc_mul k len = ground arith

minus_one : (m len : ℕ) → (suc m - 1) * len ≡ m * len
minus_one m len = ap (λ x. x * len) (less m)
  where
    less : (x : ℕ) → suc x - 1 ≡ x
    less x = omega arith

one_block : (k len n : ℕ) → Blocks k len n → n ≤ len → 0 < len → k ≡ 1
one_block zero len n b small some_len = absurd (none b.enough b.needed)
  where
    none : n ≤ 0 * len → (zero ≡ 1) ⊎ ((zero - 1) * len < n) → ⊥
    none h (inl e) = omega (arith, e)
    none h (inr e) = ground (arith, h, e)
one_block (suc zero) len n b small some_len = refl
one_block (suc (suc j)) len n b small some_len = absurd (many b.needed)
  where
    many : (suc (suc j) ≡ 1) ⊎ ((suc (suc j) - 1) * len < n) → ⊥
    many (inl e) = omega (arith, e)
    many (inr e) = omega (arith, suc_mul j len, minus_one (suc j) len, e)

beyond_first :
    (k len n : ℕ) → Blocks k len n → len < n → (j : ℕ) × (k ≡ suc j) × Blocks j len (n - len)
beyond_first zero len n b large = absurd (ground (arith, b.enough, large))
beyond_first (suc zero) len n b large = absurd (ground (arith, b.enough, large))
beyond_first (suc (suc j)) len n b large = (
  suc j,
  refl,
  record { enough = omega (arith, b.enough, suc_mul (suc j) len); needed = by_need b.needed },
)
  where
    by_need :
        (suc (suc j) ≡ 1) ⊎ ((suc (suc j) - 1) * len < n)
        → (suc j ≡ 1) ⊎ ((suc j - 1) * len < n - len)
    by_need (inl e) = absurd (omega (arith, e))
    by_need (inr e) = inr (omega (arith, e, suc_mul j len, minus_one (suc j) len, minus_one j len))

-- The pages put on the select lines, the oldest first.
abbrev pub pages : List Signal → List ℕ
pages [] = []
pages (page v ∷ s) = pages s ++ (v ∷ [])
pages (_ ∷ s) = pages s

pub latch_all-pages :
    (d p : ℕ) (bs : List ℕ) (c : Cart) → pages (latch_all d p bs c).signals ≡ pages c.signals ++ bs
unfolding latch_all latch_byte drive
latch_all-pages d p [] c = sym (append-nil (pages c.signals))
latch_all-pages d p (b ∷ bs) c =
    latch_all-pages d p bs (latch_byte d p b c) ∙ append_assoc (pages c.signals) (b ∷ []) bs

module _ ⦃sd : SdFat⦄ where
  -- The stream from `s` ends at the end of the file, with `bytes` latched.
  pub record Streams (d p : ℕ) (bytes : List ℕ) (s : Api) (r : Option (NiExit × sd.File × Api))
      : Type 0 where
    pub file : sd.File
    pub done : Api
    pub result : r ≡ some (eof, file, done)
    pub at_end : sd.rest file ≡ []
    pub latched : done.cart ≡ latch_all d p bytes s.cart

  -- A Commodore 64 that strobes in time for every byte of the blocks gets the stream to its end.
  pub ni_loop-Streams :
      (fuel d p k len : ℕ) (first : Bool) (f : sd.File) (r : Bool × List ℕ × sd.File)
      (ts : List Strobe) (more : List Bool) (s : Api)
      → Serves
      → ReadsBlock len f r
      → Blocks k len (length (sd.rest f))
      → 0 < len
      → length (sd.rest f) < fuel
      → length ts ≡ k * len
      → InTime ts
      → Streams d p
          (fill (k * len) (sd.rest f))
          s
          (ni_loop fuel d p len first r (levels_of ts more) s)
  unfolding ni_loop
  ni_loop-Streams zero d p k len first f r ts more s serves reads blocks some_len enough count h =
      absurd (omega (arith, enough))
  ni_loop-Streams (suc fuel) d p k len first f (last, bytes, g) ts more s serves reads blocks
        some_len enough count h =
      by_last last refl (λ j us b e c i.
        ni_loop-Streams fuel d p j len false g (read_and_pad_final_aware len 0x00 g) us more sent
          serves (read_and_pad_final_aware-ReadsBlock len g serves) b some_len e c i)
    where
      sent : Api
      sent = record s {
        cart = latch_all d p bytes s.cart;
        shared_buf = put_at 0 bytes s.shared_buf;
      }

      full : length bytes ≡ len
      full = ap length reads.block ∙ length-fill len (sd.rest f)

      behind : length (sd.rest g) ≡ length (sd.rest f) - len
      behind = ap length reads.more ∙ length-drop len (sd.rest f)

      by_last :
          (l : Bool)
          → last ≡ l
          → ((j : ℕ) (us : List Strobe)
              → Blocks j len (length (sd.rest g))
              → length (sd.rest g) < fuel
              → length us ≡ j * len
              → InTime us
              → Streams d p (fill (j * len) (sd.rest g)) sent (
                  ni_loop fuel d p len false
                    (read_and_pad_final_aware len 0x00 g)
                    (levels_of us more)
                    sent))
          → Streams d p
              (fill (k * len) (sd.rest f))
              s
              (ni_loop (suc fuel) d p len first (last, bytes, g) (levels_of ts more) s)
      by_last true e ih =
          let small : length (sd.rest f) ≤ len = ground (arith, reads.last, e) in
          let single = one_block k len (length (sd.rest f)) blocks small some_len in
          let size : k * len ≡ len = ap (λ x. x * len) single ∙ one_mul len in
          let went =
            send_block_lem d p first bytes ts more s.cart (omega (arith, count, size, full)) h in
          record {
            file = g;
            done = sent;
            result = rw (went, ni_loop) (rw e refl);
            at_end = empty_of_length (sd.rest g) (omega (arith, behind, small));
            latched =
                ap (λ b. latch_all d p b s.cart)
                  (reads.block ∙ ap (λ n. fill n (sd.rest f)) (sym size));
          }
        where
          one_mul : (n : ℕ) → 1 * n ≡ n
          one_mul n = omega arith
      by_last false e ih =
          let large : len < length (sd.rest f) = ground (arith, reads.last, e) in
          let (j, next, blocks') = beyond_first k len (length (sd.rest f)) blocks large in
          let size : k * len ≡ len + j * len = ap (λ x. x * len) next ∙ suc_mul j len in
          let (soon, later) = InTime-split len ts h in
          let cut : length (take len ts) ≡ len = omega (arith, length-take len ts, count, size) in
          let left : length (drop len ts) ≡ j * len =
            omega (arith, length-drop len ts, count, size) in
          let went =
            send_block_lem d p first bytes (take len ts) (levels_of (drop len ts) more) s.cart
              (omega (arith, cut, full)) soon in
          let rest =
            ih j (drop len ts) (subst (Blocks j len) (sym behind) blocks')
              (omega (arith, behind, enough, some_len, large)) left later in
          record {
            file = rest.file;
            done = rest.done;
            result =
                ap (λ l. ni_loop (suc fuel) d p len first (last, bytes, g) l s)
                  (levels_split len ts more)
                ∙ rw (went, ni_loop) (rw e rest.result);
            at_end = rest.at_end;
            latched =
                rest.latched
                ∙ sym (latch_all-append d p bytes (fill (j * len) (sd.rest g)) s.cart)
                ∙ ap (λ b. latch_all d p b s.cart)
                    (ap₂ (λ a b. a ++ fill (j * len) b) reads.block reads.more
                      ∙ sym (fill-plus len (j * len) (sd.rest f))
                      ∙ ap (λ n. fill n (sd.rest f)) (sym size));
          }
