-- ===== src/Api/Place/Listing.antt =====
-- The listing of Arduino/EasySD/CartApi.cpp scans the directory, and leaves it where it is.
use easy_sd_gemini.Prelude.{
  ℕ, zero, suc, ◌+◌, ◌*◌, ◌%◌, ◌≡◌, refl, ap, ◌∙◌, Bool, ◌&&◌, ◌||◌, List, [], ◌∷◌, ltb, ◌==◌,
  if◌then◌else◌, arith, take, replicate,
}
use easy_sd_gemini.SdFat.{SdFat}
use easy_sd_gemini.Cart.{delay_microseconds, transmit_byte_fast}
use easy_sd_gemini.Cart.Delivery.{transmit_all}
use easy_sd_gemini.DirSort.{DirSortSlot, blank}
use easy_sd_gemini.Names.{entry_type_dir}
use easy_sd_gemini.Dir.{DirState}
use easy_sd_gemini.Dir.Located.{place}
use easy_sd_gemini.Dir.Placed.{if_has}
use easy_sd_gemini.Dir.Listed.{place-scan}
use easy_sd_gemini.Api.{
  Api, Mark, first_mark, argument, code, invalid_argument, successful, handle_response, with_cart,
}
use easy_sd_gemini.Api.Marks.{
  items_on_page, scan_target, collect, collect_page, last_mark, rebuild_from, set_marks,
}
use easy_sd_gemini.Api.PageCache.{overlay, cache_page}
use easy_sd_gemini.Api.Listing.{
  page_count, entry_bytes, entry_of, emit, send_listing, read_directory,
}

module _ ⦃sd : SdFat⦄ where
  place-collect_page :
      (target : ℕ) (m : Mark) (d : DirState) → place (collect_page target m d).1 ≡ place d
  unfolding collect_page
  place-collect_page target m d = place-scan (collect target m) d (replicate target blank, 0)

  place-rebuild_from :
      (n per_page p : ℕ) (m before : Mark) (d : DirState)
      → place (rebuild_from n per_page p m before d).2 ≡ place d
  unfolding rebuild_from
  place-rebuild_from zero per_page p m before d = refl
  place-rebuild_from (suc n) per_page p m before d =
      let target = scan_target d.in_sub_dir d.count per_page p in
      let (collected, d') = collect_page target m d in
      if_has {A = Mark × Mark × DirState} (λ r. place r.2 ≡ place d) (target == 0) (m, m, d)
        (rebuild_from n per_page (p + 1) (last_mark collected m d') m d') refl
        (place-rebuild_from n per_page (p + 1) (last_mark collected m d') m d'
          ∙ place-collect_page target m d)

  place-set_marks :
      (per_page page : ℕ) (s : Api) → place (set_marks per_page page s).dir ≡ place s.dir
  unfolding set_marks
  place-set_marks per_page page s =
      let rebuilt = place-rebuild_from page per_page 0 first_mark first_mark s.dir in ground arith

  emit_dir :
      (slots : List DirSortSlot) (sent total : ℕ) (s : Api)
      → (emit slots sent total s).1.dir ≡ s.dir
  unfolding emit
  emit_dir [] sent total s = refl
  emit_dir (slot ∷ slots) sent total s =
      let (name, type) = entry_of slot s.dir in
      let next = record s {
        cart = transmit_all transmit_byte_fast (entry_bytes name type) s.cart;
        wm = record { name = take 31 name; is_dir = type == entry_type_dir };
      } in
      if_has {A = ℕ × Api} (λ r. r.1.dir ≡ s.dir) (ltb total (sent + 32)) (sent, s)
        (emit slots (sent + 32) total next) refl (emit_dir slots (sent + 32) total next)

  send_listing_dir :
      (items pages : ℕ) (dotdot : Bool) (slots : List DirSortSlot) (total : ℕ) (s : Api)
      → (send_listing items pages dotdot slots total s).dir ≡ s.dir
  unfolding send_listing with_cart
  send_listing_dir items pages dotdot slots total s = emit_dir slots _ total _

  pub place-read_directory : (s : Api) → place (read_directory s).dir ≡ place s.dir
  unfolding read_directory handle_response
  place-read_directory s =
      let per_page = argument 0 s in
      let total = argument 1 s * 256 in
      let page = argument 2 s in
      let target = scan_target s.dir.in_sub_dir s.dir.count per_page page in
      let marked = set_marks per_page page s in
      let none_left : (List DirSortSlot × ℕ) × DirState = (([], 0), marked.dir) in
      let page_of = if target == 0 then none_left else collect_page target marked.wm marked.dir in
      let scanned : place page_of.1 ≡ place s.dir =
        if_has {A = (List DirSortSlot × ℕ) × DirState} (λ r. place r.1 ≡ place s.dir) (target == 0)
          none_left (collect_page target marked.wm marked.dir) (place-set_marks per_page page s)
          (place-collect_page target marked.wm marked.dir ∙ place-set_marks per_page page s) in
      let ((slots, n), d) = page_of in
      let items = items_on_page s.dir.count per_page page % 256 in
      let dotdot = s.dir.in_sub_dir && (per_page * page == 0) in
      let answered = handle_response (code successful) 1 (record marked { dir = d }) in
      let sent =
        send_listing items (page_count s.dir.count per_page) dotdot (take n slots) total answered in
      let (rows, buffer) = cache_page dotdot n (overlay (take n slots) s.shared_buf) in
      let shown : Api = record sent {
        cart = delay_microseconds 20 sent.cart;
        shared_buf = buffer;
        page_entry_count = rows;
        page_entry_page = page;
        sort_cached_page = page;
      } in
      if_has {A = Api} (λ t. place t.dir ≡ place s.dir) ((per_page == 0) || (argument 1 s == 0))
        (handle_response (code invalid_argument) 1 s) shown refl
        (ap place (
            send_listing_dir items (page_count s.dir.count per_page) dotdot (take n slots) total
              answered)
          ∙ scanned)
