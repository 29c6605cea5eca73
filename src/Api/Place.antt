-- ===== src/Api/Place.antt =====
-- Where the handlers of Arduino/EasySD/CartApi.cpp leave the directory: the arguments of a command,
-- and what follows for a handler from its body.
pub mod Files
pub mod Named
pub mod Listing
pub mod Pictures
pub mod Launch
pub mod Streams
pub mod Commands
pub mod Turns
use easy_sd_gemini.Prelude.{
  ℕ, zero, suc, ◌+◌, ◌≡◌, refl, sym, ap, subst, ◌∙◌, Bool, true, false, not, List, [], ◌∷◌, Option,
  none, some, ltb, if◌then◌else◌, arith,
}
use easy_sd_gemini.SdFat.{SdFat}
use easy_sd_gemini.Cart.{Cart}
use easy_sd_gemini.Dir.{DirState, find_file_sfn, find_dir_sfn, find_entry_sfn, rewind_dir}
use easy_sd_gemini.Dir.Located.{place}
use easy_sd_gemini.Dir.Placed.{Placed, Placed-place, if_has}
use easy_sd_gemini.Api.{
  Api, Wait, zero_fill, await_byte, args_timeout_ms, static_from, dynamic_from, announced,
  get_arguments_static, get_arguments_dynamic, handle_response, with_cart, store_argument,
  terminate, invalidate_page_entry_cache,
}
use easy_sd_gemini.Api.Files.{
  behind, read_file, close_file, write_file, seek_file, get_info_for_file, get_path,
  get_memory_status, transfer_file,
}
use easy_sd_gemini.Api.Chunks.{read_next_chunk}
use easy_sd_gemini.Api.Invoke.{then_wait}
use easy_sd_gemini.Api.Dispatch.{state_of}
use easy_sd_gemini.Api.Named.{delete_file, delete_directory, create_directory}

module _ ⦃sd : SdFat⦄ where
  -- What a handler returns, if it returns, stands in the directory `d`.
  abbrev pub Kept : DirState → Option (Api × List Wait) → Type 0
  Kept d none = Unit
  Kept d (some (t, _)) = t.dir ≡ d

  -- What a handler returns, if it returns, stands in a directory of some segments.
  abbrev pub Stays : Option Api → Type 0
  Stays none = Unit
  Stays (some t) = Placed t.dir

  static_from-Kept :
      (count i : ℕ) (ws : List Wait) (s : Api) → Kept s.dir (static_from count i ws s)
  unfolding static_from store_argument
  static_from-Kept zero i ws s = refl
  static_from-Kept (suc count) i [] s = tt
  static_from-Kept (suc count) i (w ∷ ws) s =
      by_byte (await_byte args_timeout_ms w.start_ms w.rounds s.cart)
        (λ v c. static_from-Kept count (i + 1) ws (store_argument i v (record s { cart = c })))
    where
      by_byte :
          (o : Option (Option ℕ × Cart))
          → ((v : ℕ) (c : Cart)
              → Kept s.dir
                  (static_from count (i + 1) ws (store_argument i v (record s { cart = c }))))
          → Kept s.dir (elim o [
            | none ↦ none
            | some (some v, c) ↦
                static_from count (i + 1) ws (store_argument i v (record s { cart = c }))
            | some (none, c) ↦ some (
              record s {
                cart = c;
                args_ok = false;
                shared_buf = zero_fill (suc count) i s.shared_buf;
              },
              ws,
            )
          ])
      by_byte none ih = tt
      by_byte (some (some v, c)) ih = ih v c
      by_byte (some (none, c)) ih = refl

  pub get_arguments_static-Kept :
      (n : ℕ) (ws : List Wait) (s : Api) → Kept s.dir (get_arguments_static n ws s)
  unfolding get_arguments_static
  get_arguments_static-Kept n ws s = static_from-Kept n 0 ws (record s { args_ok = true })

  dynamic_from-Kept :
      (count i : ℕ) (ws : List Wait) (s : Api) → Kept s.dir (dynamic_from count i ws s)
  unfolding dynamic_from store_argument
  dynamic_from-Kept zero i ws s = refl
  dynamic_from-Kept (suc count) i [] s = tt
  dynamic_from-Kept (suc count) i (w ∷ ws) s =
      by_byte (await_byte args_timeout_ms w.start_ms w.rounds s.cart)
        (λ v c. dynamic_from-Kept count (i + 1) ws (store_argument i v (record s { cart = c })))
    where
      by_byte :
          (o : Option (Option ℕ × Cart))
          → ((v : ℕ) (c : Cart)
              → Kept s.dir
                  (dynamic_from count (i + 1) ws (store_argument i v (record s { cart = c }))))
          → Kept s.dir (elim o [
            | none ↦ none
            | some (some v, c) ↦
                dynamic_from count (i + 1) ws (store_argument i v (record s { cart = c }))
            | some (none, c) ↦ some (record s { cart = c; args_ok = false }, ws)
          ])
      by_byte none ih = tt
      by_byte (some (some v, c)) ih = ih v c
      by_byte (some (none, c)) ih = refl

  announced-Kept : (n : ℕ) (ws : List Wait) (s : Api) → Kept s.dir (announced n ws s)
  unfolding announced store_argument
  announced-Kept n [] s = tt
  announced-Kept n (w ∷ ws) s = by_byte (await_byte args_timeout_ms w.start_ms w.rounds s.cart)
    where
      by_byte :
          (o : Option (Option ℕ × Cart))
          → Kept s.dir (elim o [
            | none ↦ none
            | some (none, c) ↦ some (record s { cart = c; args_ok = false }, ws)
            | some (some v, c) ↦
                let got = record s { cart = c } in
                let bytes = dynamic_from v (n + 1) ws (store_argument n v got) in
                if ltb 127 v then some (record got { args_ok = false }, ws) else bytes
          ])
      by_byte none = tt
      by_byte (some (none, c)) = refl
      by_byte (some (some v, c)) =
          let got = record s { cart = c } in
          if_has (Kept s.dir) (ltb 127 v) (some (record got { args_ok = false }, ws))
            (dynamic_from v (n + 1) ws (store_argument n v got)) refl
            (dynamic_from-Kept v (n + 1) ws (store_argument n v got))

  pub get_arguments_dynamic-Kept :
      (n : ℕ) (ws : List Wait) (s : Api) → Kept s.dir (get_arguments_dynamic n ws s)
  unfolding get_arguments_dynamic
  get_arguments_dynamic-Kept n ws s =
      by_length (get_arguments_static n ws s) (get_arguments_static-Kept n ws s)
    where
      by_length :
          (o : Option (Api × List Wait))
          → Kept s.dir o
          → Kept s.dir (elim o [
            | none ↦ none
            | some (s', ws') ↦ if s'.args_ok then announced n ws' s' else some (s', ws')
          ])
      by_length none k = tt
      by_length (some (t, ws')) k =
          if_has (Kept s.dir) t.args_ok (announced n ws' t) (some (t, ws'))
            (subst (λ d. Kept d (announced n ws' t)) k (announced-Kept n ws' t)) k

  -- What it returns, if it returns, has the path, the depth and the flag of `d`.
  abbrev pub Remains : DirState → Option Api → Type 0
  Remains d none = Unit
  Remains d (some t) = place t.dir ≡ place d

  pub Remains-Stays : (d : DirState) (o : Option Api) → Remains d o → Placed d → Stays o
  Remains-Stays d none r p = tt
  Remains-Stays d (some t) r p = Placed-place d t.dir r p

  -- A handler whose body keeps the directory placed does so.
  pub behind-Stays :
      (got : Option (Api × List Wait)) (body : Api → Api) (d : DirState)
      → Kept d got
      → Placed d
      → ((t : Api) → Placed t.dir → Placed (body t).dir)
      → Stays (state_of (behind got body))
  behind-Stays none body d k p h = tt
  behind-Stays (some (t, ws)) body d k p h = h t (subst Placed (sym k) p)

  pub then_wait-Stays :
      (got : Option (Api × List Wait)) (body : Api → Option Api) (d : DirState)
      → Kept d got
      → Placed d
      → ((t : Api) → Placed t.dir → Stays (body t))
      → Stays (state_of (then_wait got body))
  then_wait-Stays none body d k p h = tt
  then_wait-Stays (some (t, ws)) body d k p h = by_body (body t) (h t (subst Placed (sym k) p))
    where
      by_body :
          (o : Option Api)
          → Stays o
          → Stays (state_of (elim o [ none ↦ none | some s' ↦ some (s', ws) ]))
      by_body none q = tt
      by_body (some t') q = q
