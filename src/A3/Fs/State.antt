-- ===== src/A3/Fs/State.antt =====
-- The state of the file system: the disk (cache and free map), the inodes in memory, and what
-- a3/fs/directory.c and a3/fs/file.c allocate. A pointer is an address, `none` the null pointer; what
-- was freed is not at its address any more, and its use is a fault, `none` as a panic is.
use mock_os.Prelude.{ℕ, Bool, Option, some, List, Text, ◌==◌, if◌then◌else◌}
use mock_os.Prelude.Int.{ℤ}
use mock_os.A3.Fs.Cache.{◌>>=◌}
use mock_os.A3.Fs.InodeIo.{inode_read_at}
use mock_os.A3.Fs.FreeMap.{BitmapLib, Disk}
use mock_os.A3.Fs.Inode.{Inode, InodeTable, update_inode, inode_open, inode_close, inode_write_at}

-- `struct dir`, with the address of its inode
pub record Dir : Type 0 where
  pub inode : ℕ
  pub pos : ℕ
  pub open_cnt : ℤ

-- `struct file`
pub record File : Type 0 where
  pub inode : ℕ
  pub pos : ℤ
  pub deny_write : Bool

-- `malloc` and `calloc` give out the addresses in order.
pub record FileSys (lib : BitmapLib) : Type 0 where
  pub disk : Disk lib
  pub inodes : InodeTable
  pub dirs : ℕ → Option Dir
  pub files : ℕ → Option File
  pub fresh : ℕ
  pub cwd : Option ℕ
  pub file_table : List (Text × ℕ)
  pub free_map_file : Option ℕ

abbrev pub store_at {ℓ} : {A : Type ℓ} → (ℕ → Option A) → ℕ → Option A → ℕ → Option A
store_at f a v k = if k == a then v else f k

module _ {lib : BitmapLib} where
  -- `inode_open` in the whole state
  unfoldable pub open_sector : ℕ → FileSys lib → Option (ℕ × FileSys lib)
  open_sector sector s = inode_open sector s.inodes s.disk.cache >>= λ r.
      (let d : Disk lib = record (s.disk) { cache = r.2 } in
        some (r.0, record s { inodes = r.1; disk = d }))

  -- `inode_close` of an inode that is not a null pointer, in the whole state
  unfoldable pub close_inode : ℕ → FileSys lib → Option (FileSys lib)
  close_inode a s =
      inode_close a s.inodes s.disk >>= λ r. some (record s { inodes = r.0; disk = r.1 })

  -- `inode_read_at` of the inode at an address
  unfoldable pub read_inode : ℕ → ℕ → ℕ → FileSys lib → Option (List ℕ × ℕ × FileSys lib)
  read_inode a size offset s = s.inodes.inode_at a >>= λ i.
      inode_read_at s.disk.cache i.data_ size offset >>= λ r.
      (let d : Disk lib = record (s.disk) { cache = r.2 } in some (r.0, r.1, record s { disk = d }))

  -- `inode_write_at` of the inode at an address
  unfoldable pub write_inode : ℕ → List ℕ → ℕ → ℕ → FileSys lib → Option (ℕ × FileSys lib)
  write_inode a buffer size offset s = s.inodes.inode_at a >>= λ i.
      inode_write_at i buffer size offset s.disk >>= λ r.
      (let t : InodeTable = record (s.inodes) {
        inode_at = update_inode s.inodes.inode_at a (some r.1);
      } in
        some (r.0, record s { inodes = t; disk = r.2 }))

  -- An operation that only changes the inode at an address.
  unfoldable pub change_inode : ℕ → (Inode → Option Inode) → FileSys lib → Option (FileSys lib)
  change_inode a f s = s.inodes.inode_at a >>= λ i. f i >>= λ i'.
      (let t : InodeTable = record (s.inodes) {
        inode_at = update_inode s.inodes.inode_at a (some i');
      } in
        some (record s { inodes = t }))
