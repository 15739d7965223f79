-- ===== src/A3/Fs/Util.antt =====
-- a3/fs/fsutil.c: what the commands of the shell do with files. An open file is kept in the table of
-- files, and its position with it, until the file is removed.
use mock_os.Prelude.{
  ℕ, zero, suc, ◌+◌, ◌/◌, Bool, true, false, Option, none, some, List, [], ◌++◌, Text, codes, leb,
  ◌==◌, ◌||◌, if◌then◌else◌, length,
}
use mock_os.Prelude.Int.{ℤ, pos, negsuc}
use mock_os.A3.Exec.{Exec, pure, gets, demand, modify, no_fuel, ◌>>=◌, ◌>>◌}
use mock_os.A3.Fs.FreeMap.{BitmapLib, num_free_sectors}
use mock_os.A3.Fs.Directory.{dir_open_root, dir_readdir, dir_close}
use mock_os.A3.Fs.File.{
  file_read, file_write, file_seek, file_tell, file_length, get_file_by_fname, add_to_file_table,
  remove_from_file_table,
}
use mock_os.A3.Fs.FileSystem.{filesys_open, filesys_create, filesys_remove}
use mock_os.A3.Fs.Io.{Host, Io, print, fs_call, fs_do}

module _ {lib : BitmapLib} {W : Type 0} where
  -- Rounds enough to read all entries of an open directory.
  abbrev pub dir_rounds : ℕ → Exec (Io lib W) ℕ
  dir_rounds p = do
    dir ← demand (← gets (λ s. s.fs.dirs p))
    i ← demand (← gets (λ s. s.fs.inodes.inode_at dir.inode))
    pure (i.data_.length / 36 + 2)

  -- `while (dir_readdir(dir, name))`, with the local variables that the body changes
  unfoldable pub each_name :
      {A : Type 0} → ℕ → ℕ → (Text → A → Exec (Io lib W) A) → A → Exec (Io lib W) A
  each_name zero p body acc = no_fuel
  each_name (suc fuel) p body acc = do
    found ← fs_call (dir_readdir p)
    elim found [
      | none ↦ pure acc
      | some name ↦ body name acc >>= λ acc'. each_name fuel p body acc'
    ]

  -- The loop over the root directory, from `dir_open_root` to `dir_close`.
  unfoldable pub each_in_root :
      {A : Type 0} → (Text → A → Exec (Io lib W) A) → A → Exec (Io lib W) A
  each_in_root body acc = do
    opened ← fs_call dir_open_root
    p ← demand opened
    rounds ← dir_rounds p
    result ← each_name rounds p body acc
    fs_do (dir_close (some p))
    pure result

  unfoldable pub fsutil_ls : Exec (Io lib W) ℤ
  fsutil_ls = do
    print (codes "Files in the root directory:")
    each_in_root (λ name acc. print name) tt
    print (codes "End of listing.")
    pure (pos 0)

  -- A file that is not in the table is opened and put there; the flag tells so.
  unfoldable pub find_or_open : Text → Exec (Io lib W) (Option (ℕ × Bool))
  find_or_open file_name = do
    known ← gets (λ s. get_file_by_fname file_name s.fs.file_table)
    elim known [
      | some f ↦ pure (some (f, false))
      | none ↦ fs_call (filesys_open file_name) >>= λ opened. elim opened [
        | none ↦ pure none
        | some f ↦
            modify (λ s. record s { fs = add_to_file_table f file_name s.fs })
            >> pure (some (f, true))
      ]
    ]

  -- `file_read` with the state behind it
  abbrev pub read_bytes : ℕ → ℕ → Exec (Io lib W) (List ℕ × ℕ)
  read_bytes f size =
      fs_call (λ s. elim (file_read f size s) [
        | none ↦ none
        | some (bytes, n, s') ↦ some ((bytes, n), s')
      ])

  abbrev pub write_bytes : ℕ → List ℕ → ℕ → Exec (Io lib W) ℕ
  write_bytes f buffer size = fs_call (λ s. elim (file_write f buffer size s) [
    | none ↦ none
    | some (n, buffer', s') ↦ some (n, s')
  ])

  -- The `for (;;)` of `fsutil_cat`.
  unfoldable pub dump_loop : Host W → ℕ → ℕ → ℕ → Exec (Io lib W) (Unit {0})
  dump_loop host zero f size = no_fuel
  dump_loop host (suc fuel) f size = do
    at ← demand (← gets (λ s. file_tell f s.fs))
    r ← read_bytes f size
    elim (r.1) [
      | zero ↦ pure tt
      | suc n ↦ print (host.hex_dump at r.0) >> dump_loop host fuel f size
    ]

  unfoldable pub fsutil_cat : Host W → Text → Exec (Io lib W) ℤ
  fsutil_cat host file_name = do
    print (codes "Printing <" ++ (file_name ++ codes "> to the console..."))
    found ← find_or_open file_name
    elim found [
      | none ↦ print (codes "Error") >> pure (negsuc 0)
      | some (f, opened) ↦ do
        cur_offset ← demand (← gets (λ s. file_tell f s.fs))
        fs_do (file_seek f (pos 0))
        size ← demand (← gets (λ s. file_length f s.fs))
        dump_loop host (size + 2) f size
        fs_do (file_seek f cur_offset)
        (if opened then fs_call (remove_from_file_table file_name) else pure false)
        print (codes "Done printing")
        pure (pos 0)
    ]

  unfoldable pub fsutil_rm : Text → Exec (Io lib W) Bool
  fsutil_rm file_name = do
    fs_call (remove_from_file_table file_name)
    fs_call (filesys_remove file_name)

  unfoldable pub fsutil_create : Host W → Text → ℕ → Exec (Io lib W) Bool
  fsutil_create host fname isize =
      if (length fname == 0) || leb 255 (length fname)
      then print (codes "Error with filename: " ++ host.decimal (length fname)) >> pure false
      else fs_call (filesys_create (host.malloced 31) fname isize false)

  unfoldable pub fsutil_write : Text → List ℕ → ℕ → Exec (Io lib W) ℤ
  fsutil_write file_name buffer size = find_or_open file_name >>= λ found. elim found [
    | none ↦ pure (negsuc 0)
    | some (f, opened) ↦ write_bytes f buffer size >>= λ n. pure (pos n)
  ]

  -- `fsutil_read`: the bytes that go to the caller's buffer, and the result.
  unfoldable pub fsutil_read : Text → ℕ → Exec (Io lib W) (List ℕ × ℤ)
  fsutil_read file_name size = find_or_open file_name >>= λ found. elim found [
    | none ↦ pure ([], negsuc 0)
    | some (f, opened) ↦ read_bytes f size >>= λ r. pure (r.0, pos r.1)
  ]

  unfoldable pub fsutil_size : Text → Exec (Io lib W) ℤ
  fsutil_size file_name = find_or_open file_name >>= λ found. elim found [
    | none ↦ pure (negsuc 0)
    | some (f, opened) ↦ do
      cur_offset ← demand (← gets (λ s. file_tell f s.fs))
      size ← demand (← gets (λ s. file_length f s.fs))
      fs_do (file_seek f cur_offset)
      pure (pos size)
  ]

  unfoldable pub fsutil_seek : Text → ℤ → Exec (Io lib W) ℤ
  fsutil_seek file_name offset = find_or_open file_name >>= λ found. elim found [
    | none ↦ pure (negsuc 0)
    | some (f, opened) ↦ fs_do (file_seek f offset) >> pure (pos 0)
  ]

  unfoldable pub fsutil_close : Text → Exec (Io lib W) Bool
  fsutil_close file_name = fs_call (remove_from_file_table file_name)

  unfoldable pub fsutil_freespace : Exec (Io lib W) ℕ
  fsutil_freespace = gets (λ s. num_free_sectors s.fs.disk)
