-- ===== src/A3/Fs/File.antt =====
-- a3/fs/file.c: open files with their positions, and the table of open files by name.
pub mod Writing
use mock_os.Prelude.{
  ℕ, zero, ◌+◌, ◌-◌, Bool, true, false, ◌||◌, Option, none, some, List, [], ◌∷◌, ◌++◌, Text,
  text_eq, set, length, ltb, ◌==◌, if◌then◌else◌,
}
use mock_os.Prelude.Int.{ℤ, pos, negsuc, sub_ℕ, ◌+ℤ◌, ltb_ℤ}
use mock_os.A3.Fs.Cache.{◌>>=◌}
use mock_os.A3.Fs.FreeMap.{BitmapLib}
use mock_os.A3.Fs.Inode.{Inode, unless_denied, inode_deny_write, inode_allow_write, inode_reopen}
use mock_os.A3.Fs.State.{
  File, FileSys, store_at, close_inode, read_inode, write_inode, change_inode,
}

module _ {lib : BitmapLib} where
  abbrev pub set_file : ℕ → File → FileSys lib → FileSys lib
  set_file p f s = record s { files = store_at s.files p (some f) }

  -- `file_open`, which takes a null pointer as well
  unfoldable pub file_open : Option ℕ → FileSys lib → Option (Option ℕ × FileSys lib)
  file_open none s = some (none, s)
  file_open (some a) s =
      let f : File = record { inode = a; pos = pos 0; deny_write = false } in
      some
        (some s.fresh, record s { files = store_at s.files s.fresh (some f); fresh = s.fresh + 1 })

  unfoldable pub file_reopen : ℕ → FileSys lib → Option (Option ℕ × FileSys lib)
  file_reopen p s = s.files p >>= λ f. file_open (some (inode_reopen f.inode s.inodes).0) s

  unfoldable pub file_deny_write : ℕ → FileSys lib → Option (FileSys lib)
  file_deny_write p s = s.files p >>= λ f.
      (let denied = set_file p (record f { deny_write = true }) s in
        if f.deny_write then some s else change_inode f.inode inode_deny_write denied)

  unfoldable pub file_allow_write : ℕ → FileSys lib → Option (FileSys lib)
  file_allow_write p s = s.files p >>= λ f.
      (let allowed = set_file p (record f { deny_write = false }) s in
        if f.deny_write then change_inode f.inode inode_allow_write allowed else some s)

  unfoldable pub file_close : Option ℕ → FileSys lib → Option (FileSys lib)
  file_close none s = some s
  file_close (some p) s = file_allow_write p s >>= λ s₁. s₁.files p >>= λ f.
      close_inode f.inode s₁ >>= λ s₂. some (record s₂ { files = store_at s₂.files p none })

  -- `file_read`: the bytes, their number, and the state. At a negative position a read of some bytes
  -- asks the cache for the sector -1 and panics.
  unfoldable pub file_read : ℕ → ℕ → FileSys lib → Option (List ℕ × ℕ × FileSys lib)
  file_read p size s = s.files p >>= λ f. elim (f.pos) [
    | pos n ↦ read_inode f.inode size n s >>= λ r.
        some (r.0, r.1, set_file p (record f { pos = pos (n + r.1) }) r.2)
    | negsuc n ↦ if size == 0 then some ([], 0, s) else none
  ]

  unfoldable pub file_read_at : ℕ → ℕ → ℕ → FileSys lib → Option (List ℕ × ℕ × FileSys lib)
  file_read_at p size file_ofs s = s.files p >>= λ f. read_inode f.inode size file_ofs s

  -- The `inode_write_at` of `file_write`. At a negative position only a write that is denied is
  -- modelled.
  unfoldable pub write_from : File → List ℕ → ℕ → FileSys lib → Option (ℕ × FileSys lib)
  write_from f buffer size s = elim (f.pos) [
    | pos n ↦ write_inode f.inode buffer size n s
    | negsuc n ↦
        s.inodes.inode_at f.inode >>= λ i. unless_denied i.deny_write_cnt none (some (0, s))
  ]

  -- `file_write`: the bytes written, the caller's buffer afterwards, and the state. A buffer that is
  -- shorter than the size, or a size of 0, is a write outside the buffer.
  unfoldable pub file_write : ℕ → List ℕ → ℕ → FileSys lib → Option (ℕ × List ℕ × FileSys lib)
  file_write p buffer size s = s.files p >>= λ f.
      (let ended = set buffer (size - 1) 0 in
        let written = write_from f ended size s >>= λ w.
        some (w.0, ended, set_file p (record f { pos = f.pos +ℤ sub_ℕ w.0 2 }) w.1) in
        if (size == 0) || ltb (length buffer) size then none else written)

  unfoldable pub file_write_at : ℕ → List ℕ → ℕ → ℕ → FileSys lib → Option (ℕ × FileSys lib)
  file_write_at p buffer size file_ofs s =
      s.files p >>= λ f. write_inode f.inode buffer size file_ofs s

  unfoldable pub file_length : ℕ → FileSys lib → Option ℕ
  file_length p s = s.files p >>= λ f. s.inodes.inode_at f.inode >>= λ i. some i.data_.length

  unfoldable pub file_seek : ℕ → ℤ → FileSys lib → Option (FileSys lib)
  file_seek p new_pos s = s.files p >>= λ f.
      (if ltb_ℤ new_pos (pos 0) then none else some (set_file p (record f { pos = new_pos }) s))

  unfoldable pub file_tell : ℕ → FileSys lib → Option ℤ
  file_tell p s = s.files p >>= λ f. some f.pos

-- `get_file_by_fname`
unfoldable pub get_file_by_fname : Text → List (Text × ℕ) → Option ℕ
get_file_by_fname fname [] = none
get_file_by_fname fname ((name, p) ∷ rest) =
    let later = get_file_by_fname fname rest in if text_eq name fname then some p else later

-- The table without the first entry of that name.
unfoldable pub without_name : Text → List (Text × ℕ) → List (Text × ℕ)
without_name fname [] = []
without_name fname ((name, p) ∷ rest) =
    let later = without_name fname rest in if text_eq name fname then rest else (name, p) ∷ later

module _ {lib : BitmapLib} where
  unfoldable pub init_file_table : FileSys lib → FileSys lib
  init_file_table s = record s { file_table = [] }

  unfoldable pub add_to_file_table : ℕ → Text → FileSys lib → FileSys lib
  add_to_file_table p fname s = elim (get_file_by_fname fname s.file_table) [
    | some q ↦ s
    | none ↦ record s { file_table = s.file_table ++ ((fname, p) ∷ []) }
  ]

  unfoldable pub remove_from_file_table : Text → FileSys lib → Option (Bool × FileSys lib)
  remove_from_file_table fname s = elim (get_file_by_fname fname s.file_table) [
    | none ↦ some (false, s)
    | some p ↦ file_close (some p) s >>= λ s'.
        some (true, record s' { file_table = without_name fname s'.file_table })
  ]

  -- The loop of `free_file_table`.
  unfoldable pub close_files : List (Text × ℕ) → FileSys lib → Option (FileSys lib)
  close_files [] s = some s
  close_files ((name, p) ∷ rest) s = file_close (some p) s >>= λ s'. close_files rest s'

  unfoldable pub free_file_table : FileSys lib → Option (FileSys lib)
  free_file_table s = close_files s.file_table s >>= λ s'. some (record s' { file_table = [] })
