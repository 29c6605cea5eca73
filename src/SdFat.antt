-- ===== src/SdFat.antt =====
-- What the firmware uses of the SdFat library: a parameter of the directory code and the command
-- handlers. `Dir` is an open directory file, `Card` the card with its current working directory.
use easy_sd_gemini.Prelude.{
  ℕ, ◌≤◌, min, length, ◌++◌, Bool, List, [], ◌∷◌, Option, none, some, ◌≡◌, ap, ◌∙◌, ◌⊎◌, inl, inr,
}

-- What is read of the `File` that stands for a directory entry: `printName`, `getSFN`, `isDir`,
-- `isHidden` and `dirIndex`.
pub record DirEntry : Type 0 where
  pub name : List ℕ
  pub sfn : List ℕ
  pub is_dir : Bool
  pub is_hidden : Bool
  pub dir_index : ℕ

-- The flags of `sd.open`: `O_RDONLY`, `O_WRONLY | O_CREAT` and `O_RDWR | O_CREAT`.
pub data OpenFlags : Type 0 where
  rdonly wronly_creat rdwr_creat : OpenFlags

pub record SdFat : Type 1 where
  pub Card : Type 0
  pub Dir : Type 0
  -- `sd.chdir()`, `sd.chdir(name)`: the success flag and the card after it.
  pub chdir_root : Card → Bool × Card
  pub chdir : List ℕ → Card → Bool × Card
  -- `File::openCwd`, `rewind`, `openNext` and `open(dir, index)`.
  pub open_cwd : Card → Option Dir
  pub rewind : Dir → Dir
  pub open_next : Dir → Option (DirEntry × Dir)
  pub open_index : Dir → ℕ → Option DirEntry
  -- An open file, and `sd.open(name, flags)`, which may create it; `exists`, `remove`, `rmdir` and
  -- `mkdir` of the card.
  pub File : Type 0
  pub open_file : List ℕ → OpenFlags → Card → Option File × Card
  pub open_file_index : Dir → ℕ → Option File
  pub exists : List ℕ → Card → Bool
  pub remove : List ℕ → Card → Bool × Card
  pub rmdir : List ℕ → Card → Bool × Card
  pub mkdir : List ℕ → Card → Bool × Card
  -- `read(buf, n)`: at most `n` bytes, or `none` for a negative result; `available`, `size`, `isDir` and
  -- the seeks; `write(buf, n)`, the write error flag, and `sync`.
  pub read : ℕ → File → Option (List ℕ) × File
  pub available : File → ℕ
  pub file_size : File → ℕ
  pub file_is_dir : File → Bool
  pub seek_set : ℕ → File → Bool × File
  pub seek_cur : ℕ → File → Bool × File
  pub seek_end : ℕ → File → Bool × File
  pub write : List ℕ → File → ℕ × File
  pub write_error : File → Bool
  pub clear_write_error : File → File
  pub sync : File → Bool × File
  -- The entries of a directory, and those that `openNext` is still to return.
  pub entries : Dir → List DirEntry
  pub pending : Dir → List DirEntry
  -- The bytes of a file from its position on; `available` stops at the largest `int`.
  pub rest : File → List ℕ
  pub open_next_lem :
      (d : Dir)
      → ((open_next d ≡ none) × (pending d ≡ []))
        ⊎ ((e : DirEntry) × (d' : Dir) × (open_next d ≡ some (e, d'))
            × (pending d ≡ e ∷ pending d')
            × (entries d' ≡ entries d))
  pub pending-rewind : (d : Dir) → pending (rewind d) ≡ entries d
  pub entries-rewind : (d : Dir) → entries (rewind d) ≡ entries d
  -- A read that does not fail is short only at the end of the file.
  pub read_full :
      (n : ℕ) (f f' : File) (bytes : List ℕ)
      → read n f ≡ (some bytes, f')
      → length bytes ≡ min n (length (rest f))
  pub read_lem :
      (n : ℕ) (f f' : File) (bytes : List ℕ)
      → read n f ≡ (some bytes, f')
      → (rest f ≡ bytes ++ rest f') × (length bytes ≤ n)
  pub available-rest : (f : File) → available f ≡ min (length (rest f)) 32767

module _ ⦃sd : SdFat⦄ where
  pub open_next_nil : (d : sd.Dir) → sd.pending d ≡ [] → sd.open_next d ≡ none
  open_next_nil d p = elim (sd.open_next_lem d) [
    | inl (stop, left) ↦ stop
    | inr (e, d', go, left, same) ↦ cc
  ]

  pub open_next_cons :
      (d : sd.Dir) (e : DirEntry) (es : List DirEntry)
      → sd.pending d ≡ e ∷ es
      → (d' : sd.Dir) × (sd.open_next d ≡ some (e, d'))
        × (sd.pending d' ≡ es)
        × (sd.entries d' ≡ sd.entries d)
  open_next_cons d e es p = elim (sd.open_next_lem d) [
    | inl (stop, left) ↦ cc
    | inr (e', d', go, left, same) ↦
        let here : e' ≡ e = cc in (d', go ∙ ap (λ x. some (x, d')) here, cc, same)
  ]
