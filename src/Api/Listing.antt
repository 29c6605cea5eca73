-- ===== src/Api/Listing.antt =====
-- `HandleReadDirectory` of Arduino/EasySD/CartApi.cpp: a page of the directory in display order.
use easy_sd_gemini.Prelude.{
  ℕ, ◌+◌, ◌-◌, ◌*◌, ◌%◌, ◌/◌, Bool, ◌&&◌, ◌||◌, List, [], ◌∷◌, ◌++◌, Option, none, some, ltb, ◌==◌,
  if◌then◌else◌, ◌▷◌, length, take, replicate,
}
use easy_sd_gemini.SdFat.{SdFat}
use easy_sd_gemini.Cart.{set_page, reset_index, transmit_byte_fast, delay_microseconds}
use easy_sd_gemini.Cart.Delivery.{transmit_all}
use easy_sd_gemini.DirSort.{DirSortSlot}
use easy_sd_gemini.Names.{entry_type_file, entry_type_dir}
use easy_sd_gemini.Dir.{DirState, get_entry_by_dir_idx}
use easy_sd_gemini.Api.{
  Api, Wait, invalid_argument, successful, code, argument, with_cart, get_arguments_static,
  handle_response,
}
use easy_sd_gemini.Api.Files.{behind}
use easy_sd_gemini.Api.PageCache.{overlay, cache_page}
use easy_sd_gemini.Api.Marks.{items_on_page, scan_target, collect_page, set_marks}

-- The 32 bytes of an entry: 31 of its name, padded, and its type.
unfoldable pub entry_bytes : List ℕ → ℕ → List ℕ
entry_bytes name type = take 31 (name ++ replicate 31 0) ++ (type ∷ [])

-- The number of pages, a `uint8_t`.
unfoldable pub page_count : ℕ → ℕ → ℕ
page_count count per_page = (count / per_page + (if ltb 0 (count % per_page) then 1 else 0)) % 256

module _ ⦃sd : SdFat⦄ where
  -- The full name and the type of a slot, or its key where the entry cannot be opened.
  unfoldable pub entry_of : DirSortSlot → DirState → List ℕ × ℕ
  entry_of slot d = elim (get_entry_by_dir_idx slot.dir_idx 32 d) [
    | none ↦ (take 15 slot.key, if slot.is_dir then entry_type_dir else entry_type_file)
    | some (name, type) ↦ (name, type)
  ]

  -- The loop of pass 2 with `sent` of `total` bytes sent: it stops where no entry fits any more.
  unfoldable pub emit : List DirSortSlot → ℕ → ℕ → Api → ℕ × Api
  emit [] sent total s = (sent, s)
  emit (slot ∷ slots) sent total s =
      let (name, type) = entry_of slot s.dir in
      let next = record s {
        cart = transmit_all transmit_byte_fast (entry_bytes name type) s.cart;
        wm = record { name = take 31 name; is_dir = type == entry_type_dir };
      } in
      let rest = emit slots (sent + 32) total next in
      if ltb total (sent + 32) then (sent, s) else rest

  -- What is sent of a page: the two counts, ".." where it stands on the page, the entries, and
  -- zeros up to `total` bytes.
  unfoldable pub send_listing : ℕ → ℕ → Bool → List DirSortSlot → ℕ → Api → Api
  send_listing items pages dotdot slots total s =
      let head =
        items ∷ pages ∷ (if dotdot then entry_bytes (b'.' ∷ b'.' ∷ []) entry_type_dir else []) in
      let headed = with_cart (λ c. c ▷ reset_index ▷ transmit_all transmit_byte_fast head) s in
      let (sent, done) = emit slots (length head) total headed in
      with_cart (transmit_all transmit_byte_fast (replicate (total - sent) 0)) done

  -- The handler behind its arguments. The slots that pass 1 collects lie over the shared buffer.
  unfoldable pub read_directory : Api → Api
  read_directory s =
      let per_page = argument 0 s in
      let total = argument 1 s * 256 in
      let page = argument 2 s in
      let items = items_on_page s.dir.count per_page page % 256 in
      let dotdot = s.dir.in_sub_dir && (per_page * page == 0) in
      let target = scan_target s.dir.in_sub_dir s.dir.count per_page page in
      let marked = set_marks per_page page s in
      let ((slots, n), d) =
        if target == 0 then (([], 0), marked.dir) else collect_page target marked.wm marked.dir in
      let answered = handle_response (code successful) 1 (record marked { dir = d }) in
      let sent =
        send_listing items (page_count s.dir.count per_page) dotdot (take n slots) total answered in
      let (rows, buffer) = cache_page dotdot n (overlay (take n slots) s.shared_buf) in
      if (per_page == 0) || (argument 1 s == 0)
      then handle_response (code invalid_argument) 1 s
      else record sent {
        cart = delay_microseconds 20 sent.cart;
        shared_buf = buffer;
        page_entry_count = rows;
        page_entry_page = page;
        sort_cached_page = page;
      }

  unfoldable pub handle_read_directory : List Wait → Api → Option (Api × List Wait)
  handle_read_directory ws s =
      behind (get_arguments_static 3 ws (with_cart (set_page 0) s)) read_directory
