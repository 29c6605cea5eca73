-- ===== src/Api/Koala/Image.antt =====
-- What the Commodore 64 gets of a Koala picture, `HandleKoalaInvokeFromOpenFile` of
-- Arduino/EasySD/CartApi.cpp.
use easy_sd_gemini.Prelude.{
  ℕ, zero, suc, ◌-◌, ◌^◌, ◌<◌, ◌≡◌, refl, sym, ap, subst, ◌∙◌, true, false, List, [], ◌∷◌, ◌++◌,
  append_assoc, arith, ◌▷◌, length, length-append, length-replicate, replicate, drop,
}
use easy_sd_gemini.SdFat.{SdFat}
use easy_sd_gemini.Cart.{Cart, delay, reset_index, reset_c64, enable_cartridge}
use easy_sd_gemini.Cart.Delivery.{delivered}
use easy_sd_gemini.Api.Transfer.{Delivers, fast-Delivers, Delivers-trans}
use easy_sd_gemini.Api.Headers.{
  type_standard_prg, pad_bytes, transfer_pages, header_to_address, transmit_slow,
  send_header_to_address, send_loader_stub, transmit_memory_bytes, transmit_zero_bytes,
}
use easy_sd_gemini.Api.Launch.{transmit_file_bytes}
use easy_sd_gemini.Api.Launch.Bytes.{fill, transmit_file_bytes_lem}
use easy_sd_gemini.Api.Launch.Program.{
  image, image_lem, is_shown, reset_lem, hidden_lem, slow_lem, stub_lem,
}
use easy_sd_gemini.Api.Koala.{
  koa_load_addr, koa_plugin_addr, koa_payload_size, koa_gap_size, koa_transfer_length, send_koala,
}

drop_whole : (xs ys : List ℕ) (n : ℕ) → length xs ≡ n → drop n (xs ++ ys) ≡ ys
drop_whole [] ys n e = subst (λ k. drop k ys ≡ ys) e refl
drop_whole (x ∷ xs) ys zero e = absurd (omega (arith, e))
drop_whole (x ∷ xs) ys (suc n) e = drop_whole xs ys n (omega (arith, e))

-- The memory from 0x2000 on: the picture, zeros, and the plugin.
abbrev pub memory : List ℕ → List ℕ → List ℕ
memory picture plugin = picture ++ (replicate koa_gap_size 0 ++ plugin)

memory_lem :
    (picture plugin : List ℕ)
    → length picture ≡ koa_payload_size
    → (length (memory picture plugin) ≡ koa_transfer_length (length plugin))
      × (drop (koa_plugin_addr - koa_load_addr) (memory picture plugin) ≡ plugin)
unfolding koa_transfer_length
memory_lem picture plugin e =
    let gap : List ℕ = replicate koa_gap_size 0 in
    let front : length (picture ++ gap) ≡ koa_plugin_addr - koa_load_addr =
      omega (arith, length-append picture gap, length-replicate {A = ℕ} koa_gap_size 0, e) in
    (
      omega (
        arith,
        length-append picture (gap ++ plugin),
        length-append gap plugin,
        length-replicate {A = ℕ} koa_gap_size 0,
        e,
      ),
      ap (drop (koa_plugin_addr - koa_load_addr)) (sym (append_assoc picture gap plugin))
          ∙ drop_whole (picture ++ gap) plugin _ front,
    )

module _ ⦃sd : SdFat⦄ where
  -- The transfer of a picture and a plugin: the Commodore 64 gets the header, the page of the stub, then the
  -- picture's 10,001 bytes, which lie at 0x2000, and the plugin at 0xC000, with zeros between and
  -- behind, up to a whole page. Where every read brought a byte, the picture is the file's bytes from
  -- its position on. The cartridge is hidden at the end.
  pub send_koala_lem :
      (stub plugin : List ℕ) (media : sd.File) (c : Cart)
      → length plugin < 2 ^ 16
      → let n = koa_transfer_length (length plugin) in
        let (read_ok, t) = send_koala stub media plugin c in
        (picture : List ℕ) × (length picture ≡ koa_payload_size)
        × (delivered t.signals
            ≡ delivered c.signals
              ++ image
                  (header_to_address 0x00 0xc0 0x00 0x20 (transfer_pages n) n type_standard_prg)
                  stub
                  (memory picture plugin)
                  n)
        × (length (memory picture plugin) ≡ n)
        × (drop (koa_plugin_addr - koa_load_addr) (memory picture plugin) ≡ plugin)
        × (t.transfer_index ≡ 0)
        × (is_shown t.signals ≡ false)
        × (read_ok ≡ true → picture ≡ fill koa_payload_size (sd.rest media))
  unfolding send_koala send_header_to_address transmit_memory_bytes transmit_zero_bytes
      koa_transfer_length
  send_koala_lem stub plugin media c small =
      let n : ℕ = koa_transfer_length (length plugin) in
      let head : List ℕ =
        header_to_address 0x00 0xc0 0x00 0x20 (transfer_pages n) n type_standard_prg in
      let ready = c ▷ reset_index ▷ enable_cartridge ▷ reset_c64 ▷ delay 200 in
      let (quiet, zeroed) = reset_lem c in
      let started = ready ▷ transmit_slow head ▷ send_loader_stub stub in
      let (stubbed, cleared) =
        stub_lem stub (transmit_slow head ready) (omega (arith, (slow_lem head ready).1, zeroed)) in
      let (picture, all, sends, right, served) =
        transmit_file_bytes_lem koa_payload_size media started (omega (arith, cleared)) in
      let (long, placed) = memory_lem picture plugin all in
      let media_sent = (transmit_file_bytes koa_payload_size media started).2 in
      let body = tail_lem picture plugin started media_sent (omega (arith, sends.index)) sends in
      let sent = media_sent ▷ transmit_zero_bytes koa_gap_size ▷ transmit_memory_bytes plugin in
      let (bytes, index) =
        image_lem head stub (memory picture plugin) n ready started sent zeroed
          (fits (length plugin) small) long refl body in
      let (same, kept, hidden) = hidden_lem (transmit_zero_bytes (pad_bytes n) sent) in
      (
        picture,
        all,
        same ∙ bytes ∙ ap (λ b. b ++ image head stub (memory picture plugin) n) quiet,
        long,
        placed,
        kept ∙ index,
        hidden,
        right,
      )
    where
      fits : (k : ℕ) → k < 2 ^ 16 → koa_transfer_length k < 2 ^ 31
      fits k h = omega arith

      tail_lem :
          (picture plugin : List ℕ) (b d : Cart)
          → d.transfer_index < 256
          → Delivers picture b d
          → Delivers
              (memory picture plugin)
              b
              (d ▷ transmit_zero_bytes koa_gap_size ▷ transmit_memory_bytes plugin)
      tail_lem picture plugin b d h p =
          let gap : List ℕ = replicate koa_gap_size 0 in
          let g = transmit_zero_bytes koa_gap_size d in
          let q = fast-Delivers gap d h in
          Delivers-trans picture (gap ++ plugin) b d _ p
            (Delivers-trans gap plugin d g _ q (fast-Delivers plugin g (omega (arith, q.index))))
