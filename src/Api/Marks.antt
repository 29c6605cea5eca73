-- ===== src/Api/Marks.antt =====
-- The page boundaries that `HandleReadDirectory` of Arduino/EasySD/CartApi.cpp keeps, and the scan
-- that collects a page behind one.
use easy_sd_gemini.Prelude.{
  ℕ, zero, suc, ◌+◌, ◌-◌, ◌*◌, ◌%◌, Bool, true, false, not, ◌&&◌, List, none, some, ltb, leb, ◌==◌,
  if◌then◌else◌, get_or, take, replicate,
}
use Prim.Native.Nat.{Ordering}
use easy_sd_gemini.SdFat.{SdFat}
use easy_sd_gemini.DirSort.{DirSortSlot, blank, cmp_dir_entry, sort_slot_insert}
use easy_sd_gemini.Names.{is_dotdot}
use easy_sd_gemini.Dir.{DirState, get_lfn_by_dir_idx}
use easy_sd_gemini.Dir.Select.{Listed, scan}
use easy_sd_gemini.Api.{Api, Mark, first_mark}

-- `cmpDirEntry(isDir, name, wm_isDir, wm_name) > 0`
unfoldable pub behind_mark : Mark → Listed → Bool
behind_mark m e = elim (cmp_dir_entry e.is_dir e.name m.is_dir m.name) [
  | Ordering.gt ↦ true
  | _ ↦ false
]

-- The body of a scan: the entry goes to the sort buffer of `target` places unless it is ".." or
-- not behind the mark.
unfoldable pub collect : ℕ → Mark → Listed → List DirSortSlot × ℕ → List DirSortSlot × ℕ
collect target m e (slots, n) =
    if is_dotdot e.name
    then (slots, n)
    else if not (behind_mark m e)
    then (slots, n)
    else sort_slot_insert slots n target
        (record { key = take 15 e.name; dir_idx = e.dir_idx; is_dir = e.is_dir })

-- How many entries a page has, `count` of them in all.
unfoldable pub items_on_page : ℕ → ℕ → ℕ → ℕ
items_on_page count per_page page =
    let start = per_page * page in
    if leb count start then 0 else if leb (start + per_page) count then per_page else count - start

-- How many of them the scan has to collect, a `uint8_t`: ".." stands on the first page.
unfoldable pub scan_target : Bool → ℕ → ℕ → ℕ → ℕ
scan_target in_sub_dir count per_page page =
    (items_on_page count per_page page
      + 256
      - (if in_sub_dir && (per_page * page == 0) then 1 else 0))
    % 256

module _ ⦃sd : SdFat⦄ where
  -- A scan after `Rewind`: what it collects, and the directory.
  unfoldable pub collect_page : ℕ → Mark → DirState → (List DirSortSlot × ℕ) × DirState
  collect_page target m d = scan (collect target m) d (replicate target blank, 0)

  -- The mark behind the last slot collected.
  unfoldable pub last_mark : List DirSortSlot × ℕ → Mark → DirState → Mark
  last_mark (slots, zero) m d = m
  last_mark (slots, suc n) m d =
      let last = get_or slots n blank in
      elim (get_lfn_by_dir_idx last.dir_idx 32 d) [
        | none ↦ record { name = take 15 last.key; is_dir = last.is_dir }
        | some (name, is_dir) ↦ record { name = name; is_dir = is_dir }
      ]

  -- The rebuild from page `p` on, `n` pages left: the mark, the mark one page before, and the
  -- directory. It stops at an empty page.
  unfoldable pub rebuild_from : ℕ → ℕ → ℕ → Mark → Mark → DirState → Mark × Mark × DirState
  rebuild_from zero per_page p m before d = (m, before, d)
  rebuild_from (suc n) per_page p m before d =
      let target = scan_target d.in_sub_dir d.count per_page p in
      let (collected, d') = collect_page target m d in
      let rest = rebuild_from n per_page (p + 1) (last_mark collected m d') m d' in
      if target == 0 then (m, m, d) else rest

  -- The watermark setup for a page: the five cases of the code.
  unfoldable pub set_marks : ℕ → ℕ → Api → Api
  set_marks per_page page s =
      let (m, before, d) = rebuild_from page per_page 0 first_mark first_mark s.dir in
      if page == 0
      then record s { wm = first_mark; wm_prev = first_mark; wm_pp = first_mark }
      else if page == ((s.sort_cached_page + 1) % 256)
      then record s { wm_pp = s.wm_prev; wm_prev = s.wm }
      else if not (s.sort_cached_page == 0xff) && (page == s.sort_cached_page)
      then record s { wm_pp = s.wm_prev; wm = s.wm_prev }
      else if ltb 0 s.sort_cached_page
          && (not (s.sort_cached_page == 0xff) && (page == (s.sort_cached_page - 1)))
      then record s { wm = s.wm_pp; wm_pp = s.wm_prev; wm_prev = s.wm_pp }
      else record s { wm = m; wm_pp = before; wm_prev = m; dir = d }
