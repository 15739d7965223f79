-- ===== src/A3/Fs/Recover.antt =====
-- a3/fs/fsutil2.c: `recover`, which looks for lost data in the sectors of the disk.
use mock_os.Prelude.{
  ℕ, zero, suc, ◌+◌, ◌-◌, ◌*◌, false, none, some, List, [], ◌∷◌, ◌++◌, Text, codes, ltb, ◌==◌,
  if◌then◌else◌, length, get_elem?, take, drop,
}
use mock_os.Prelude.Int.{ℤ, pos, negsuc}
use mock_os.A3.Exec.{Exec, pure, gets, demand, crash, modify, ◌>>=◌, ◌>>◌}
use mock_os.A3.Fs.Block.{Sector}
use mock_os.A3.Fs.Layout.{decode_inode, inode_magic}
use mock_os.A3.Fs.Cache.{buffer_cache_read}
use mock_os.A3.Fs.BlockMap.{bytes_to_sectors}
use mock_os.A3.Fs.FreeMap.{BitmapLib, Disk, num_free_sectors}
use mock_os.A3.Fs.Directory.{dir_open_root, dir_close, dir_add}
use mock_os.A3.Fs.File.{file_close}
use mock_os.A3.Fs.Io.{Host, Io, fs_call, fs_do}
use mock_os.A3.Fs.Util.{each_in_root}
use mock_os.A3.Fs.Survey.{with_file, data_sectors}

-- The number of bytes that are not zero.
unfoldable pub count_nonzero : List ℕ → ℕ
count_nonzero [] = 0
count_nonzero (c ∷ cs) = let rest = count_nonzero cs in if c == 0 then rest else suc rest

module _ {lib : BitmapLib} {W : Type 0} where
  open lib use {bitmap_size, bitmap_test, bitmap_mark}

  -- `buffer_cache_read`
  unfoldable pub read_sector : ℕ → Exec (Io lib W) Sector
  read_sector sector = fs_call (λ s. elim (buffer_cache_read s.disk.cache sector) [
    | none ↦ none
    | some (bytes, c) ↦
        let d : Disk lib = record (s.disk) { cache = c } in some (bytes, record s { disk = d })
  ])

  -- `fopen`, `fwrite` and `fclose`; a file that cannot be opened is left out.
  unfoldable pub write_out : Host W → Text → List ℕ → Exec (Io lib W) (Unit {0})
  write_out host name bytes s = elim (host.write_file name bytes s.world) [
    | none ↦ pure tt s
    | some w ↦ pure tt (record s { world = w })
  ]

  -- An inode in a free sector gets its sector back and an entry in the root directory.
  unfoldable pub recover_inode : Host W → ℕ → Exec (Io lib W) (Unit {0})
  recover_inode host bit = do
    used ← gets (λ s. bitmap_test s.fs.disk.free_map bit)
    let restore : Exec (Io lib W) (Unit {0}) = do
      opened ← fs_call dir_open_root
      dir ← demand opened
      modify (λ s.
          (let d : Disk lib = record (s.fs.disk) {
            free_map = bitmap_mark s.fs.disk.free_map bit;
          } in
            record s { fs = record (s.fs) { disk = d } }))
      fs_call (
          dir_add (host.malloced 31) dir (take 30 (codes "recovered0-" ++ host.decimal bit)) bit
            false)
      fs_do (dir_close (some dir))
    let looked : Exec (Io lib W) (Unit {0}) = read_sector bit >>= λ bytes.
        (if (decode_inode bytes).magic == inode_magic then restore else pure tt)
    if used then pure tt else looked

  -- `n` bits from the bit `i` on
  unfoldable pub recover_inodes : Host W → ℕ → ℕ → Exec (Io lib W) (Unit {0})
  recover_inodes host zero i = pure tt
  recover_inodes host (suc n) i = recover_inode host i >> recover_inodes host n (i + 1)

  -- A sector that is not all zeros is written to a file of the host: as many bytes from its start on as
  -- it has that are not zero. `n` sectors from `i` on.
  unfoldable pub recover_sectors : Host W → ℕ → ℕ → Exec (Io lib W) (Unit {0})
  recover_sectors host zero i = pure tt
  recover_sectors host (suc n) i = do
    bytes ← read_sector i
    let size = count_nonzero bytes
    let name = take 30 (codes "recovered1-" ++ (host.decimal i ++ codes ".txt"))
    (if size == 0 then pure tt else write_out host name (take size bytes))
    recover_sectors host n (i + 1)

  -- What a last sector holds behind the end of a file of some length. The bytes are written from
  -- the second on, and one of them may lie behind the buffer.
  unfoldable pub hidden_data : Host W → Text → ℕ → Sector → Exec (Io lib W) (Unit {0})
  hidden_data host name start bytes =
      let size = count_nonzero (drop start bytes) in
      let filename = codes "recovered2-" ++ (name ++ codes ".txt") in
      let found : Exec (Io lib W) (Unit {0}) =
        if ltb (length bytes) (start + 1 + size)
        then crash
        else write_out host filename (take size (drop (start + 1) bytes)) in
      if size == 0 then pure tt else found

  unfoldable pub recover_tail : Host W → Text → Exec (Io lib W) (Unit {0})
  recover_tail host name = with_file name tt (λ f len. (do
    sectors ← data_sectors f
    let nbr_sectors = bytes_to_sectors len
    last_sector ← demand (if nbr_sectors == 0 then none else get_elem? sectors (nbr_sectors - 1))
    bytes ← read_sector last_sector
    hidden_data host name (len - (nbr_sectors - 1) * 512) bytes
    fs_do (file_close (some f))))

  unfoldable pub recover : Host W → ℤ → Exec (Io lib W) (Unit {0})
  recover host (pos zero) = do
    total_bits ← gets (λ s. bitmap_size s.fs.disk.free_map)
    recover_inodes host total_bits 0
  recover host (pos (suc zero)) = do
    free ← gets (λ s. num_free_sectors s.fs.disk)
    recover_sectors host (free - 4) 4
  recover host (pos (suc (suc zero))) = each_in_root (λ name acc. recover_tail host name) tt
  recover host (pos (suc (suc (suc n)))) = pure tt
  recover host (negsuc n) = pure tt
