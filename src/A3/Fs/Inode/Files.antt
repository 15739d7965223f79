-- ===== src/A3/Fs/Inode/Files.antt =====
-- a3/fs/inode.c: `inode_write_at` on the bytes of a file.
use mathlib.Core.Path.{fun_ext, subst}
use mock_os.Prelude.{
  ℕ, ◌+◌, ◌-◌, ◌^◌, ◌≤◌, ◌<◌, ◌≡◌, refl, ◌∙◌, ap, sym, true, false, some, List, length, take,
  get_or, min, leb, ltb, ◌==◌, ◌&&◌, arith,
}
use mock_os.Prelude.Int.{pos, sub_ℕ}
use mock_os.A3.Fs.Block.{Sector}
use mock_os.A3.Fs.Layout.{InodeDisk, encode_inode}
use mock_os.A3.Fs.Cache.{Cache}
use mock_os.A3.Fs.Cache.Evict.{IsValid, contents}
use mock_os.A3.Fs.Cache.Refine.{write_refines}
use mock_os.A3.Fs.BlockMap.{no_sector, byte_to_sector}
use mock_os.A3.Fs.InodeIo.{write_loop, inode_read_at}
use mock_os.A3.Fs.InodeIo.Bytes.{file_byte, slice, slice-ext, take-drop-slice}
use mock_os.A3.Fs.InodeIo.Read.{IsMapped, IsSized, Shows, find, inode_read_at_refines}
use mock_os.A3.Fs.InodeIo.Write.{IsWritable, splice}
use mock_os.A3.Fs.InodeIo.WriteLoop.{Written, write_loop_refines}
use mock_os.A3.Fs.FreeMap.{BitmapLib, Disk}
use mock_os.A3.Fs.Reserve.{inode_reserve, write_sector, reserve_direct, reserve_each}
use mock_os.A3.Fs.Inode.{Inode, extend, unless_denied, write_permitted, inode_write_at}

-- Inside what was written a splice has the buffer.
spliced :
    (f : ℕ → ℕ) (buffer : List ℕ) (offset size k : ℕ)
    → k < size
    → splice f offset size buffer (offset + k) ≡ get_or buffer (0 + k) 0
spliced f buffer offset size k lt =
    let from : leb offset (offset + k) && ltb (offset + k) (offset + size) ≡ true =
      ground (arith, lt) in
    let place : offset + k - offset ≡ 0 + k = omega arith in rw (from, place)

module _ {lib : BitmapLib} where
  -- Inside the file nothing is reserved.
  extend_inside :
      (i : Inode) (size offset : ℕ) (d : Disk lib) (v : ℕ → Sector)
      → Shows v d.cache.device.size d.cache
      → IsMapped v d.cache.device.size i.data_
      → d.cache.device.size < 2 ^ 32
      → 0 < size
      → offset + size ≤ i.data_.length
      → (c' : Cache) × (extend i size offset d ≡ some (true, i, record d { cache = c' }))
        × Shows v d.cache.device.size c'
  unfolding extend
  extend_inside i size offset d v h mapped small more room =
      let last = offset + size - 1 in
      let (s, c', run, at, below, h') =
        find v d.cache.device.size i.data_ d.cache last h mapped (omega arith) in
      let whole : sub_ℕ (offset + size) 1 ≡ pos last = ground (arith, more) in
      let real : s == no_sector ≡ false = ground (arith, below, small) in
      (c', rw (whole, run, real), h')

  -- Over a valid cache in front of a disk of 512-byte sectors, with fewer than 2^32 sectors, when
  -- the inode does not deny writes, its blocks have sectors of their own that hold none of the
  -- block numbers it uses, and the file has room: inode_write_at of at least one byte returns the
  -- size and leaves the inode and the free map as they are; afterwards every byte of the file is
  -- that of the buffer inside the range written and as before outside it, the blocks have the
  -- same sectors, and no sector outside the file has changed.
  pub inode_write_at_refines :
      (i : Inode) (buffer : List ℕ) (size offset : ℕ) (d : Disk lib)
      → i.deny_write_cnt ≡ pos 0
      → IsValid d.cache
      → IsSized (contents d.cache)
      → IsWritable (contents d.cache) d.cache.device.size i.data_
      → d.cache.device.size < 2 ^ 32
      → 0 < size
      → size ≤ length buffer
      → offset + size ≤ i.data_.length
      → (c' : Cache) × (v' : ℕ → Sector) × (inode_write_at i buffer size offset d
          ≡ some (size, i, record d { cache = c' }))
        × Shows v' d.cache.device.size c'
        × Written (contents d.cache) v' d.cache.device.size i.data_ offset size buffer
  unfolding inode_write_at write_permitted
  inode_write_at_refines i buffer size offset d free valid sized w small more enough room =
      let h : Shows (contents d.cache) d.cache.device.size d.cache = record {
        valid = valid;
        content = λ s. refl;
        size = refl;
      } in
      let (c₁, run₁, h₁) =
        extend_inside i size offset d (contents d.cache) h w.mapped small more room in
      let (c₂, v₂, run₂, h₂, done) =
        write_loop_refines (size + 1) c₁ (contents d.cache) buffer size offset (omega arith) h₁
          sized w enough room in
      (
        c₂,
        v₂,
        ap (λ n. unless_denied n (write_permitted i buffer size offset d) (some (0, i, d))) free
            ∙ rw (run₁, run₂),
        h₂,
        done,
      )

  -- Over a valid cache in front of a disk of 512-byte sectors, with fewer than 2^32 sectors: when
  -- an inode does not deny writes, its blocks have sectors of their own that hold none of the
  -- block numbers it uses, and the file has room, inode_write_at of at least one byte writes all
  -- the bytes and leaves the inode as it is, and inode_read_at then gives the same bytes back.
  pub write_then_read :
      (i : Inode) (buffer : List ℕ) (size offset : ℕ) (d : Disk lib)
      → i.deny_write_cnt ≡ pos 0
      → IsValid d.cache
      → IsSized (contents d.cache)
      → IsWritable (contents d.cache) d.cache.device.size i.data_
      → d.cache.device.size < 2 ^ 32
      → 0 < size
      → size ≤ length buffer
      → offset + size ≤ i.data_.length
      → (d' : Disk lib) × (c'' : Cache) × (inode_write_at i buffer size offset d
          ≡ some (size, i, d'))
        × (inode_read_at d'.cache i.data_ size offset ≡ some (take size buffer, size, c''))
  write_then_read i buffer size offset d free valid sized w small more enough room =
      let sectors = d.cache.device.size in
      let (c₁, v₁, run, h, done) =
        inode_write_at_refines i buffer size offset d free valid sized w small more enough room in
      let shown : contents c₁ ≡ v₁ = fun_ext h.content in
      let (c₂, read, kept) =
        inode_read_at_refines c₁ i.data_ size offset h.valid (subst IsSized (sym shown) done.sized)
          (subst (λ u. IsMapped u c₁.device.size i.data_) (sym shown)
            (subst (λ n. IsMapped v₁ n i.data_) (sym h.size) done.writable.mapped)) in
      let same : file_byte (contents c₁) c₁.device.size i.data_ ≡ file_byte v₁ sectors i.data_ =
        ap (λ u. file_byte u c₁.device.size i.data_) shown
        ∙ ap (λ n. file_byte v₁ n i.data_) h.size in
      let all : min size (i.data_.length - offset) ≡ size = omega arith in
      let bytes : slice (file_byte v₁ sectors i.data_) offset size ≡ take size buffer =
        slice-ext _ (λ k. get_or buffer k 0) offset 0 size
          (λ k lt.
            done.bytes (offset + k) (omega arith)
            ∙ spliced (file_byte (contents d.cache) sectors i.data_) buffer offset size k lt)
        ∙ sym (take-drop-slice buffer 0 size (omega arith)) in
      (record d { cache = c₁ }, c₂, run, read ∙ cc (ap (λ f. slice f offset size) same, all, bytes))

  -- Over a valid cache, for an inode on the device that does not deny writes, inode_write_at of
  -- no bytes at offset 0 returns 0 and sets the length of the file to 0, whatever it was, in
  -- memory and in the inode's sector.
  pub write_nothing_truncates :
      (i : Inode) (buffer : List ℕ) (d : Disk lib)
      → i.deny_write_cnt ≡ pos 0
      → IsValid d.cache
      → i.sector < d.cache.device.size
      → (i' : Inode) × (d' : Disk lib) × (inode_write_at i buffer 0 0 d ≡ some (0, i', d'))
        × (i'.data_.length ≡ 0)
        × (contents d'.cache i.sector ≡ encode_inode i'.data_)
  unfolding inode_write_at write_permitted extend byte_to_sector inode_reserve write_loop
      write_sector reserve_direct reserve_each
  write_nothing_truncates i buffer d free valid inside =
      let data' : InodeDisk = record (i.data_) { length = 0 } in
      let (c', run, done) = write_refines d.cache i.sector (encode_inode data') valid inside in
      (
        record i { data_ = data' },
        record d { cache = c' },
        ap (λ n. unless_denied n (write_permitted i buffer 0 0 d) (some (0, i, d))) free ∙ rw run,
        refl,
        done.content i.sector ∙ ground arith,
      )
