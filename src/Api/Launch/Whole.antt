-- ===== src/Api/Launch/Whole.antt =====
-- The launch of a whole file by `LoadAndLaunchOpenedFile` of Arduino/EasySD/CartApi.cpp, and the
-- transfer of the menu by `TransferMenu`.
use easy_sd_gemini.Prelude.{
  ℕ, suc, ◌+◌, ◌*◌, ◌^◌, ◌≤◌, ◌<◌, min, ◌≡◌, ◌≢◌, refl, sym, ap, ap₂, subst, ◌∙◌, false, List, [],
  ◌∷◌, ◌++◌, Option, none, some, ◌==◌, arith, length, length-append, length-replicate, replicate,
}
use easy_sd_gemini.SdFat.{SdFat}
use easy_sd_gemini.Cart.{disable_cartridge, settle_bus_change, drive, delay_microseconds}
use easy_sd_gemini.Cart.Listen.{end_listening, attach, reset_receive}
use easy_sd_gemini.Cart.Delivery.{delivered}
use easy_sd_gemini.Names.{entry_type_crt}
use easy_sd_gemini.Api.{Api, with_cart}
use easy_sd_gemini.Api.Headers.{type_standard_prg, pad_bytes, transfer_pages, header}
use easy_sd_gemini.Api.Launch.{byte_of_read, read_byte, prg_start, send_program, launch_opened}
use easy_sd_gemini.Api.Launch.Bytes.{Serves, fill}
use easy_sd_gemini.Api.Launch.Program.{pad_bytes_lem, image, is_shown, send_program-Launches}

pub fill_all : (xs : List ℕ) → fill (length xs) xs ≡ xs
fill_all [] = refl
fill_all (x ∷ xs) = ap (◌∷◌ x) (fill_all xs)

module _ ⦃sd : SdFat⦄ where
  -- A byte that is there is read.
  pub read_byte_lem :
      (f : sd.File) (b : ℕ) (bs : List ℕ)
      → Serves
      → sd.rest f ≡ b ∷ bs
      → ((read_byte f).0 ≡ b) × (sd.rest (read_byte f).1 ≡ bs)
  unfolding read_byte
  read_byte_lem f b bs serves here = by_read (sd.read 1 f) refl (serves 1 f)
    where
      one :
          (bytes more : List ℕ)
          → b ∷ bs ≡ bytes ++ more
          → length bytes ≡ min 1 (suc (length bs))
          → (byte_of_read (some bytes) ≡ b) × (more ≡ bs)
      one [] more e p = absurd (omega (arith, p))
      one (x ∷ []) more e p = (cc, cc)
      one (x ∷ y ∷ ys) more e p = absurd (omega (arith, p))

      by_read :
          (r : Option (List ℕ) × sd.File)
          → sd.read 1 f ≡ r
          → r.0 ≢ none
          → (byte_of_read r.0 ≡ b) × (sd.rest r.1 ≡ bs)
      by_read (none, g) e answered = absurd (answered refl)
      by_read (some bytes, g) e answered =
          one bytes (sd.rest g) (sym here ∙ (sd.read_lem 1 f g bytes e).0)
            (sd.read_full 1 f g bytes e ∙ ap (λ xs. min 1 (length xs)) here)

  -- The start of a program file of at most 65,535 bytes.
  pub prg_start_lem :
      (f : sd.File) (low high : ℕ) (content : List ℕ)
      → Serves
      → sd.rest f ≡ low ∷ high ∷ content
      → sd.file_size f ≡ 2 + length content
      → 2 + length content < 2 ^ 16
      → let start = prg_start f in
        (start.0 ≡ low)
        × (start.1 ≡ high)
        × (start.2 ≡ length content)
        × (sd.rest start.3 ≡ content)
  unfolding prg_start
  prg_start_lem f low high content serves here size small =
      let (first, more) = read_byte_lem f low (high ∷ content) serves here in
      let (second, last) = read_byte_lem (read_byte f).1 high content serves more in
      (first, second, omega (arith, size), last)

  launch_step :
      (stub : List ℕ) (entry_type : ℕ) (s : Api) (f : sd.File)
      → s.working_file ≡ some f
      → (entry_type == entry_type_crt) ≡ false
      → launch_opened stub entry_type s ≡ (
          let quiet = with_cart end_listening s in
          record quiet {
            cart = (send_program stub type_standard_prg (prg_start f) quiet.cart).1;
            working_file = none;
          })
  unfolding launch_opened
  launch_step stub entry_type s f opened plain = rw (opened, plain) refl

  -- The launch of a program of at most 65,280 bytes, with its load address in front: on a card that
  -- answers every read the Commodore 64 gets the header with the address, the number of pages and
  -- the type, the page of the stub, then exactly the program with zeros up to that number of whole
  -- pages. The cartridge is hidden then, and the file closed.
  pub launch_opened_lem :
      (stub : List ℕ) (entry_type low high : ℕ) (content : List ℕ) (s : Api) (f : sd.File)
      → s.working_file ≡ some f
      → (entry_type == entry_type_crt) ≡ false
      → Serves
      → sd.rest f ≡ low ∷ high ∷ content
      → sd.file_size f ≡ 2 + length content
      → length content ≤ 65280
      → let n = length content in
        let t = launch_opened stub entry_type s in
        let pages = transfer_pages n in
        (delivered t.cart.signals
          ≡ delivered s.cart.signals
            ++ image (header low high pages n type_standard_prg) stub content n)
        × (length (content ++ replicate (pad_bytes n) 0) ≡ 256 * pages)
        × (is_shown t.cart.signals ≡ false)
        × (t.cart.transfer_index ≡ 0)
        × (t.working_file ≡ none)
  unfolding end_listening with_cart attach reset_receive disable_cartridge settle_bus_change drive
      delay_microseconds
  launch_opened_lem stub entry_type low high content s f opened plain serves here size small =
      let n : ℕ = length content in
      let quiet = with_cart end_listening s in
      let start = prg_start f in
      let (first, second, count, body) =
        prg_start_lem f low high content serves here size (omega (arith, small)) in
      let l =
        send_program-Launches stub type_standard_prg start.0 start.1 start.2 start.3 quiet.cart
          (omega (arith, count, small)) in
      let (whole, short, pages) = pad_bytes_lem n (omega (arith, small)) in
      let payload : l.payload ≡ content =
        l.served serves ∙ ap₂ fill count body ∙ fill_all content in
      let sends = λ (a b k : ℕ) (p : List ℕ).
        delivered s.cart.signals
        ++ image (header a b (transfer_pages k) k type_standard_prg) stub p k in
      subst
        (λ t.
          (delivered t.cart.signals ≡ sends low high n content)
          × (length (content ++ replicate (pad_bytes n) 0) ≡ 256 * transfer_pages n)
          × (is_shown t.cart.signals ≡ false)
          × (t.cart.transfer_index ≡ 0)
          × (t.working_file ≡ none))
        (sym (launch_step stub entry_type s f opened plain))
        (
          l.bytes
              ∙ ap₂ (λ a b. sends a b start.2 l.payload) first second
              ∙ ap₂ (λ k p. sends low high k p) count payload,
          omega (
            arith,
            length-append content (replicate (pad_bytes n) 0),
            length-replicate {A = ℕ} (pad_bytes n) 0,
            whole,
            short,
            pages,
            small,
          ),
          l.hidden,
          l.index,
          refl,
        )
