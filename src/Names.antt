-- ===== src/Names.antt =====
-- File names as the firmware compares them: the helpers at the top of
-- Arduino/EasySD/DirFunction.cpp. A C string is the list of its bytes before the NUL.
pub mod Match
use easy_sd_gemini.Prelude.{
  ℕ, zero, suc, ◌+◌, ◌-◌, ◌<◌, Bool, true, false, List, [], ◌∷◌, ◌++◌, ltb, leb, ◌==◌,
  if◌then◌else◌, ◌&&◌, length, get_or, drop,
}
use easy_sd_gemini.SdFat.{DirEntry}
use easy_sd_gemini.DirSort.{to_lower}

-- ENTRY_TYPE_*
abbrev pub entry_type_file : ℕ
entry_type_file = 0x00

abbrev pub entry_type_prg : ℕ
entry_type_prg = 0x01

abbrev pub entry_type_crt : ℕ
entry_type_crt = 0x02

abbrev pub entry_type_dir : ℕ
entry_type_dir = 0x04

abbrev pub entry_type_koa : ℕ
entry_type_koa = 0x08

abbrev pub entry_type_wav : ℕ
entry_type_wav = 0x09

abbrev pub entry_type_cvd : ℕ
entry_type_cvd = 0x0a

-- `FilenameCaptureSink`: the bytes stored so far, `m_index` of them, and the capacity.
pub record CaptureSink : Type 0 where
  pub buffer : List ℕ
  pub capacity : ℕ

unfoldable pub sink_write : CaptureSink → ℕ → CaptureSink
sink_write s c =
    if ltb 1 s.capacity && ltb (length s.buffer + 1) s.capacity
    then record s { buffer = s.buffer ++ (c ∷ []) }
    else s

unfoldable pub print_to : CaptureSink → List ℕ → CaptureSink
print_to s [] = s
print_to s (c ∷ cs) = print_to (sink_write s c) cs

-- `CaptureFileNamePreview`: what `printName` leaves in a buffer of `out_size` bytes.
unfoldable pub capture_file_name_preview : List ℕ → ℕ → List ℕ
capture_file_name_preview name out_size =
    (print_to (record { buffer = []; capacity = out_size }) name).buffer

-- The loop of the suffix test: `n` places left, the next one at `i`.
unfoldable pub same_lower_from : ℕ → ℕ → List ℕ → List ℕ → Bool
same_lower_from zero i xs ys = true
same_lower_from (suc n) i xs ys =
    let rest = same_lower_from n (i + 1) xs ys in
    if to_lower (get_or xs i 0) == to_lower (get_or ys i 0) then rest else false

unfoldable pub ends_with_ignore_case : List ℕ → List ℕ → Bool
ends_with_ignore_case value suffix =
    if ltb (length value) (length suffix)
    then false
    else same_lower_from (length suffix) 0 (drop (length value - length suffix) value) suffix

-- `PrefixMatchesCaseInsensitive`.
unfoldable pub prefix_matches_case_insensitive : List ℕ → List ℕ → ℕ → Bool
prefix_matches_case_insensitive candidate prefix len = same_lower_from len 0 candidate prefix

-- The type by the extension of a name, as both `DetectEntryType` and `DetectEntryTypeFromName`
-- have it.
unfoldable pub detect_entry_type_from_name : List ℕ → ℕ
detect_entry_type_from_name value =
    if ends_with_ignore_case value (b'.' ∷ b'p' ∷ b'r' ∷ b'g' ∷ [])
    then entry_type_prg
    else if ends_with_ignore_case value (b'.' ∷ b'c' ∷ b'r' ∷ b't' ∷ [])
    then entry_type_crt
    else if ends_with_ignore_case value (b'.' ∷ b'k' ∷ b'o' ∷ b'a' ∷ [])
    then entry_type_koa
    else if ends_with_ignore_case value (b'.' ∷ b'w' ∷ b'a' ∷ b'v' ∷ [])
    then entry_type_wav
    else if ends_with_ignore_case value (b'.' ∷ b'c' ∷ b'v' ∷ b'd' ∷ [])
    then entry_type_cvd
    else entry_type_file

unfoldable pub detect_entry_type : DirEntry → ℕ
detect_entry_type e = if e.is_dir then entry_type_dir else detect_entry_type_from_name e.sfn

-- `name[0] == '.' && name[1] == '.' && name[2] == '\0'`
unfoldable pub is_dotdot : List ℕ → Bool
is_dotdot name = (get_or name 0 0 == b'.') && ((get_or name 1 0 == b'.') && (get_or name 2 0 == 0))
