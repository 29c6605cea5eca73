-- ===== src/Api/ListingFrames.antt =====
-- What `HandleReadDirectory` of Arduino/EasySD/CartApi.cpp sends.
use easy_sd_gemini.Prelude.{
  ℕ, ◌+◌, ◌-◌, ◌%◌, ◌≤◌, ◌<◌, ◌≡◌, refl, sym, subst, Bool, true, false, List, [], ◌∷◌, ◌++◌, arith,
  ltb, ◌==◌, inl, inr, if◌then◌else◌, length, length-append, length-replicate, length-take,
  replicate, take, Bool-cases,
}
use easy_sd_gemini.SdFat.{SdFat}
use easy_sd_gemini.Cart.{reset_index, transmit_byte_fast}
use easy_sd_gemini.Cart.Delivery.{delivered, transmit_all}
use easy_sd_gemini.DirSort.{DirSortSlot}
use easy_sd_gemini.Names.{entry_type_dir}
use easy_sd_gemini.Api.{Api, with_cart}
use easy_sd_gemini.Api.Listing.{entry_bytes, entry_of, emit, send_listing}
use easy_sd_gemini.Api.Transfer.{Delivers, Delivers-nil, Delivers-trans, fast-Delivers}

length-entry_bytes : (name : List ℕ) (type : ℕ) → length (entry_bytes name type) ≡ 32
unfolding entry_bytes
length-entry_bytes name type = omega (
  arith,
  length-append (take 31 (name ++ replicate 31 0)) (type ∷ []),
  length-take 31 (name ++ replicate 31 0),
  length-append name (replicate 31 0),
  length-replicate {A = ℕ} 31 0,
)

module _ ⦃sd : SdFat⦄ where
  record Emits (sent total : ℕ) (s : Api) (r : ℕ × Api) : Type 0 where
    xs : List ℕ
    count : length xs + sent ≡ r.0
    fits : r.0 ≤ total
    sends : Delivers xs s.cart r.1.cart

  abbrev emitted : DirSortSlot → Api → Api
  emitted slot s = record s {
    cart =
        transmit_all transmit_byte_fast
          (entry_bytes (entry_of slot s.dir).0 (entry_of slot s.dir).1) s.cart;
    wm = record {
      name = take 31 (entry_of slot s.dir).0;
      is_dir = (entry_of slot s.dir).1 == entry_type_dir;
    };
  }

  emit_full :
      (slot : DirSortSlot) (slots : List DirSortSlot) (sent total : ℕ) (s : Api)
      → ltb total (sent + 32) ≡ true
      → emit (slot ∷ slots) sent total s ≡ (sent, s)
  unfolding emit
  emit_full slot slots sent total s e = simp e

  emit_next :
      (slot : DirSortSlot) (slots : List DirSortSlot) (sent total : ℕ) (s : Api)
      → ltb total (sent + 32) ≡ false
      → emit (slot ∷ slots) sent total s ≡ emit slots (sent + 32) total (emitted slot s)
  unfolding emit
  emit_next slot slots sent total s e = simp e

  emit_nil : (sent total : ℕ) (s : Api) → emit [] sent total s ≡ (sent, s)
  unfolding emit
  emit_nil sent total s = refl

  stop-Emits :
      (sent total : ℕ) (s : Api)
      → s.cart.transfer_index < 256
      → sent ≤ total
      → Emits sent total s (sent, s)
  stop-Emits sent total s h fits = record {
    xs = [];
    count = omega arith;
    fits = fits;
    sends = Delivers-nil s.cart h;
  }

  emit-Emits :
      (slots : List DirSortSlot) (sent total : ℕ) (s : Api)
      → s.cart.transfer_index < 256
      → sent ≤ total
      → Emits sent total s (emit slots sent total s)
  emit-Emits [] sent total s h fits =
      subst (Emits sent total s) (sym (emit_nil sent total s)) (stop-Emits sent total s h fits)
  emit-Emits (slot ∷ slots) sent total s h fits = elim (Bool-cases (ltb total (sent + 32))) [
    | inl full ↦
        subst (Emits sent total s) (sym (emit_full slot slots sent total s full))
          (stop-Emits sent total s h fits)
    | inr room ↦
        let (name, type) = entry_of slot s.dir in
        let one = fast-Delivers (entry_bytes name type) s.cart h in
        let size = length-entry_bytes name type in
        let next =
          emit-Emits slots (sent + 32) total (emitted slot s) (omega (arith, one.index))
            (ground arith) in
        subst (Emits sent total s) (sym (emit_next slot slots sent total s room)) (record {
          xs = entry_bytes name type ++ next.xs;
          count = omega (arith, length-append (entry_bytes name type) next.xs, size, next.count);
          fits = next.fits;
          sends =
              Delivers-trans (entry_bytes name type) next.xs s.cart (emitted slot s).cart _ one
                next.sends;
        })
  ]

  -- A listing of at least one page of 256 bytes is `total` bytes long, whatever its entries are and
  -- the card answers, and starts with the two counts.
  pub send_listing_lem :
      (items pages : ℕ) (dotdot : Bool) (slots : List DirSortSlot) (total : ℕ) (s : Api)
      → 256 ≤ total
      → (body : List ℕ) × (length body + 2 ≡ total)
        × (delivered (send_listing items pages dotdot slots total s).cart.signals
            ≡ delivered s.cart.signals ++ (items ∷ pages ∷ body))
        × ((send_listing items pages dotdot slots total s).cart.transfer_index ≡ total % 256)
  unfolding send_listing with_cart reset_index
  send_listing_lem items pages dotdot slots total s h =
      let up = if dotdot then entry_bytes (b'.' ∷ b'.' ∷ []) entry_type_dir else [] in
      let head = items ∷ pages ∷ up in
      let short : length head ≤ 34 = omega (arith, short_head dotdot) in
      let began = fast-Delivers head (reset_index s.cart) (omega arith) in
      let headed = with_cart (λ c. transmit_all transmit_byte_fast head (reset_index c)) s in
      let e =
        emit-Emits slots (length head) total headed (omega (arith, began.index))
          (omega (arith, short)) in
      let r = emit slots (length head) total headed in
      let pad : List ℕ = replicate (total - r.0) 0 in
      let ended = fast-Delivers pad r.1.cart (omega (arith, e.sends.index)) in
      let all =
        Delivers-trans head (e.xs ++ pad) (reset_index s.cart) headed.cart _ began
          (Delivers-trans e.xs pad headed.cart r.1.cart _ e.sends ended) in
      let size : length (e.xs ++ pad) + length head ≡ total = omega (
        arith,
        length-append e.xs pad,
        length-replicate {A = ℕ} (total - r.0) 0,
        e.count,
        e.fits,
      ) in
      (
        up ++ (e.xs ++ pad),
        omega (arith, length-append up (e.xs ++ pad), size),
        all.bytes,
        omega (arith, all.index, length-append head (e.xs ++ pad), size),
      )
    where
      short_head :
          (b : Bool)
          → 2 + length (if b then entry_bytes (b'.' ∷ b'.' ∷ []) entry_type_dir else []) ≤ 34
      short_head true = omega (arith, length-entry_bytes (b'.' ∷ b'.' ∷ []) entry_type_dir)
      short_head false = omega arith
