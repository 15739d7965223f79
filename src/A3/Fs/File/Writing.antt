-- ===== src/A3/Fs/File/Writing.antt =====
-- a3/fs/file.c: `file_write`.
use mock_os.Prelude.{
  ℕ, ◌+◌, ◌-◌, ◌^◌, ◌≤◌, ◌<◌, ◌≡◌, refl, some, List, Bool, true, false, ap, ◌||◌, set, length,
  length-set, ltb, ◌==◌, arith,
}
use mock_os.Prelude.Int.{pos, sub_ℕ, ◌+ℤ◌}
use mock_os.A3.Fs.Block.{Sector}
use mock_os.A3.Fs.Cache.Evict.{IsValid, contents}
use mock_os.A3.Fs.InodeIo.Read.{IsSized, Shows}
use mock_os.A3.Fs.InodeIo.Write.{IsWritable}
use mock_os.A3.Fs.InodeIo.WriteLoop.{Written}
use mock_os.A3.Fs.FreeMap.{BitmapLib, Disk}
use mock_os.A3.Fs.Inode.{Inode, InodeTable, update_inode}
use mock_os.A3.Fs.Inode.Files.{inode_write_at_refines}
use mock_os.A3.Fs.State.{File, FileSys, write_inode}
use mock_os.A3.Fs.File.{set_file, write_from, file_write, file_tell}

-- The position is moved by two less than was written.
move : (n size : ℕ) → pos n +ℤ sub_ℕ size 2 ≡ sub_ℕ (n + size) 2
unfolding ◌+ℤ◌
move n size = ground arith

module _ {lib : BitmapLib} where
  -- For an open file at position n whose inode does not deny writes, over a valid cache in front
  -- of a disk of 512-byte sectors with fewer than 2^32 sectors, where the blocks of the file have
  -- sectors of their own that hold none of the block numbers it uses and the file has room:
  -- file_write of at least one byte sets the last byte of the buffer to 0, writes the bytes at
  -- position n, returns the size, and moves the position to n + size - 2.
  pub file_write_refines :
      (p n a : ℕ) (denied : Bool) (i : Inode) (buffer : List ℕ) (size : ℕ) (s : FileSys lib)
      → s.files p ≡ some (record { inode = a; pos = pos n; deny_write = denied })
      → s.inodes.inode_at a ≡ some i
      → i.deny_write_cnt ≡ pos 0
      → IsValid s.disk.cache
      → IsSized (contents s.disk.cache)
      → IsWritable (contents s.disk.cache) s.disk.cache.device.size i.data_
      → s.disk.cache.device.size < 2 ^ 32
      → 0 < size
      → size ≤ length buffer
      → n + size ≤ i.data_.length
      → (s' : FileSys lib) × (v' : ℕ → Sector) × (file_write p buffer size s
          ≡ some (size, set buffer (size - 1) 0, s'))
        × (file_tell p s' ≡ some (sub_ℕ (n + size) 2))
        × Shows v' s.disk.cache.device.size s'.disk.cache
        × Written
            (contents s.disk.cache)
            v'
            s.disk.cache.device.size
            i.data_
            n
            size
            (set buffer (size - 1) 0)
  unfolding file_write write_from write_inode file_tell
  file_write_refines p n a denied i buffer size s at_p at_i free valid sized w small more enough
        room =
      let ended = set buffer (size - 1) 0 in
      let (c', v', run, h, done) =
        inode_write_at_refines i ended size n s.disk free valid sized w small more
          (omega (arith, length-set buffer (size - 1) 0)) room in
      let fits : (size == 0) || ltb (length buffer) size ≡ false = ground (arith, more, enough) in
      let self : p == p ≡ true = ground arith in
      let t : InodeTable = record (s.inodes) {
        inode_at = update_inode s.inodes.inode_at a (some i);
      } in
      let d : Disk lib = record (s.disk) { cache = c' } in
      let f : File = record { inode = a; pos = pos n +ℤ sub_ℕ size 2; deny_write = denied } in
      let s' = set_file p f (record s { inodes = t; disk = d }) in
      (s', v', rw (at_p, fits, at_i, run) refl, rw self (ap some (move n size)), h, done)
