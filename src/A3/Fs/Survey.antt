-- ===== src/A3/Fs/Survey.antt =====
-- a3/fs/fsutil2.c: `find_file`, `fragmentation_degree`, `defragment` and `recover`, which go through the
-- files of the root directory or the sectors of the disk.
pub mod Fragments
use mock_os.Prelude.{
  ℕ, zero, suc, ◌+◌, ◌-◌, ◌^◌, ◌%◌, Bool, false, ◌||◌, none, some, List, [], ◌∷◌, ◌++◌, Text, codes,
  ltb, ◌==◌, if◌then◌else◌, get_elem?,
}
use mock_os.A3.Exec.{Exec, pure, gets, demand, crash, ◌>>=◌, ◌>>◌}
use mock_os.A3.Fs.Deallocate.{get_inode_data_sectors}
use mock_os.A3.Fs.DirEntry.{c_string}
use mock_os.A3.Fs.FreeMap.{BitmapLib, Disk}
use mock_os.A3.Fs.Directory.{dir_open_root, dir_close}
use mock_os.A3.Fs.File.{file_length, file_close}
use mock_os.A3.Fs.FileSystem.{filesys_open}
use mock_os.A3.Fs.Io.{Host, Io, print, fs_call, fs_do}
use mock_os.A3.Fs.Util.{each_in_root, fsutil_create, fsutil_read, fsutil_rm, fsutil_write}
use mock_os.A3.Fs.Copy.{overlay}

-- Is there a zero among the bytes?
unfoldable pub terminated : List ℕ → Bool
terminated [] = false
terminated (c ∷ cs) = (c == 0) || terminated cs

-- `sectors[j]-sectors[j-1]>3` for some j, on 32-bit numbers without sign
unfoldable pub is_fragmented : List ℕ → Bool
is_fragmented [] = false
is_fragmented (a ∷ []) = false
is_fragmented (a ∷ b ∷ rest) = ltb 3 ((b + 2 ^ 32 - a) % 2 ^ 32) || is_fragmented (b ∷ rest)

-- `struct file_store`
pub record FileStore : Type 0 where
  pub filename : Text
  pub size : ℕ
  pub contents : List ℕ

module _ {lib : BitmapLib} {W : Type 0} where
  -- `filesys_open` of a name in the root directory, and `body` on the file and its length
  unfoldable pub with_file :
      {A : Type 0} → Text → A → (ℕ → ℕ → Exec (Io lib W) A) → Exec (Io lib W) A
  with_file name missing body = do
    opened ← fs_call (filesys_open name)
    elim opened [
      | none ↦ pure missing
      | some f ↦ gets (λ s. file_length f s.fs) >>= λ size. demand size >>= λ n. body f n
    ]

  -- The body of the loop of `find_file`. A buffer without a zero in it is read on behind its end.
  unfoldable pub find_in : Host W → Text → Text → Exec (Io lib W) (Unit {0})
  find_in host pattern_ name = with_file name tt (λ f size.
      (let search : Exec (Io lib W) (Unit {0}) = fsutil_read name size >>= λ r.
      (let buffer = overlay r.0 (host.malloced (size + 1)) in
        let shown : Exec (Io lib W) (Unit {0}) =
          if host.contains (c_string buffer) pattern_ then print name else pure tt in
        if terminated buffer then shown else crash) in
        (if ltb 0 size then search else pure tt) >> fs_do (file_close (some f))))

  unfoldable pub find_file : Host W → Text → Exec (Io lib W) (Unit {0})
  find_file host pattern_ = each_in_root (λ name acc. find_in host pattern_ name) tt

  -- The data sectors of an open file.
  unfoldable pub data_sectors : ℕ → Exec (Io lib W) (List ℕ)
  data_sectors f = do
    file ← demand (← gets (λ s. s.fs.files f))
    i ← demand (← gets (λ s. s.fs.inodes.inode_at file.inode))
    fs_call (λ s. elim (get_inode_data_sectors s.disk.cache i.data_) [
      | none ↦ none
      | some (sectors, c) ↦
          let d : Disk lib = record (s.disk) { cache = c } in some (sectors, record s { disk = d })
    ])

  -- The body of the loop of `fragmentation_degree`, on the counters `fragmentable` and `fragmented`.
  unfoldable pub count_fragments : Text → ℕ × ℕ → Exec (Io lib W) (ℕ × ℕ)
  count_fragments name (fragmentable, fragmented) =
      with_file name (fragmentable, fragmented)
        (λ f size.
          (let measured : Exec (Io lib W) (ℕ × ℕ) = data_sectors f >>= λ sectors.
          pure (fragmentable + 1, (if is_fragmented sectors then fragmented + 1 else fragmented)) in
            (if ltb 512 size then measured else pure (fragmentable, fragmented)) >>= λ counts.
            fs_do (file_close (some f)) >> pure counts))

  unfoldable pub fragmentation_degree : Host W → Exec (Io lib W) (Unit {0})
  fragmentation_degree host = do
    counts ← each_in_root count_fragments (0, 0)
    print (codes "Num fragmentable files: " ++ host.decimal counts.0)
    print (codes "Num fragmented files: " ++ host.decimal counts.1)
    print (codes "Fragmentation pct: " ++ host.ratio counts.1 counts.0)

  unfoldable pub file_count : Exec (Io lib W) ℕ
  file_count = each_in_root (λ name count. pure (count + 1)) 0

  -- The body of the first loop of `defragment`. A file of no bytes is neither kept nor closed.
  unfoldable pub store_file : Host W → Text → List FileStore → Exec (Io lib W) (List FileStore)
  store_file host name files = with_file name files (λ f size.
      (let kept : Exec (Io lib W) (List FileStore) = fsutil_read name size >>= λ r.
      fs_do (file_close (some f))
      >> pure (
          files
          ++ (record { filename = name; size = size; contents = overlay r.0 (host.malloced size) }
              ∷ [])) in
        if ltb 0 size then kept else pure files))

  -- The third loop, `n` rounds from the file `i` on. Behind the files that were kept the array was
  -- never written.
  unfoldable pub restore_files : Host W → ℕ → ℕ → List FileStore → Exec (Io lib W) (Unit {0})
  restore_files host zero i files = pure tt
  restore_files host (suc n) i files = do
    file ← demand (get_elem? files i)
    fsutil_create host file.filename file.size
    fsutil_write file.filename file.contents file.size
    restore_files host n (i + 1) files

  unfoldable pub defragment : Host W → Exec (Io lib W) ℕ
  defragment host = do
    total_files ← file_count
    files ← each_in_root (store_file host) []
    each_in_root (λ name acc. fsutil_rm name >> pure tt) tt
    dir ← fs_call dir_open_root
    restore_files host total_files 0 files
    fs_do (dir_close dir)
    pure 0
