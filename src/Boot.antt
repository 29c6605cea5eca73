-- ===== src/Boot.antt =====
-- The start: `CartApi::Init` of Arduino/EasySD/CartApi.cpp, and `initSD`, `ensureRuntimeReady` and
-- `recoverSD` of Arduino/EasySD/EasySD.ino. `sd.begin` is a parameter: what its calls return in
-- turn.
use easy_sd_gemini.Prelude.{
  ℕ, zero, suc, ◌+◌, ◌≤◌, ◌≡◌, inl, inr, refl, Bool, true, false, ◌||◌, [], arith, ltb,
  if◌then◌else◌, Bool-cases,
}
use easy_sd_gemini.SdFat.{SdFat}
use easy_sd_gemini.Cart.{set_page, delay}
use easy_sd_gemini.Dir.{close_dir_handle, prepare}
use easy_sd_gemini.Dir.Navigate.{re_init}
use easy_sd_gemini.Dir.Located.{Located, to_root-Located, prepare-Located}
use easy_sd_gemini.Api.{Api, first_mark, with_cart, invalidate_page_entry_cache}

-- The loop of `initSD` with `left` tries left, the next one `try`: the success, and the
-- milliseconds that it waits.
unfoldable pub init_sd_from : (ℕ → Bool) → ℕ → ℕ → Bool × ℕ
init_sd_from begin zero try = (false, 0)
init_sd_from begin (suc left) try =
    let (ok, ms) = init_sd_from begin left (try + 1) in
    if begin try then (true, 50) else (ok, (if ltb 0 left then 200 else 0) + ms)

unfoldable pub init_sd : (ℕ → Bool) → Bool × ℕ
init_sd begin = init_sd_from begin 3 0

-- `initSD` succeeds where one of the first three calls of `begin` does, and waits at most 450 ms.
pub init_sd_lem :
    (begin : ℕ → Bool)
    → ((init_sd begin).0 ≡ (begin 0 || (begin 1 || begin 2))) × ((init_sd begin).1 ≤ 450)
unfolding init_sd init_sd_from
init_sd_lem begin = elim (Bool-cases (begin 0)) [
  | inl a ↦ simp a (refl, omega arith)
  | inr a ↦ elim (Bool-cases (begin 1)) [
    | inl b ↦ simp (a, b) (refl, omega arith)
    | inr b ↦ elim (Bool-cases (begin 2)) [
      | inl c ↦ simp (a, b, c) (refl, omega arith)
      | inr c ↦ simp (a, b, c) (refl, omega arith)
    ]
  ]
]

module _ ⦃sd : SdFat⦄ where
  -- `CartApi::Init`.
  unfoldable pub init_api : Api → Api
  init_api s =
      let paged = invalidate_page_entry_cache (with_cart (set_page 0) s) in
      record paged {
        args_ok = true;
        sort_cached_page = 0xff;
        wm = first_mark;
        wm_prev = first_mark;
        wm_pp = first_mark;
        dir = prepare (re_init paged.dir);
      }

  -- `ensureRuntimeReady`: the flag `runtimeReady` and the state.
  unfoldable pub ensure_runtime_ready : (ℕ → Bool) → Bool → Api → Bool × Api
  ensure_runtime_ready begin ready s =
      if ready then (true, s) else if (init_sd begin).0 then (true, init_api s) else (false, s)

  -- `recoverSD`.
  unfoldable pub recover_sd : (ℕ → Bool) → Api → Bool × Api
  recover_sd begin s =
      let closed = with_cart (delay 50) (record s { dir = close_dir_handle s.dir }) in
      let waited = with_cart (delay 200) closed in
      if begin 0
      then (true, record closed { dir = re_init closed.dir })
      else if begin 1
      then (true, record waited { dir = re_init waited.dir })
      else (false, waited)

  -- A state that `Init` leaves is at the root, has no page of the listing cached, and starts the
  -- watermarks anew.
  pub init_api-Located :
      (s : Api)
      → Located [] (init_api s).dir
        × ((init_api s).page_entry_count ≡ 0)
        × ((init_api s).sort_cached_page ≡ 0xff)
        × ((init_api s).wm ≡ first_mark)
  unfolding init_api re_init invalidate_page_entry_cache
  init_api-Located s = (prepare-Located [] _ (to_root-Located _), refl, refl, refl)
