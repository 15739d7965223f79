-- ===== src/A3/Fs/Inode/Handles.antt =====
-- a3/fs/inode.c: what opening a sector gives: one that an inode was created in, and one that is opened
-- twice and closed once.
use mock_os.Prelude.{ℕ, ◌+◌, ◌<◌, ◌≡◌, ◌∙◌, ap, Bool, true, none, some, ◌∷◌, ◌==◌, arith}
use mock_os.Prelude.Int.{◌-ℤ◌}
use mock_os.A3.Fs.Layout.{InodeDisk, encode_inode, decode_inode}
use mock_os.A3.Fs.Layout.RoundTrip.{IsStorable, decode-encode_inode}
use mock_os.A3.Fs.Reserve.{inode_reserve, write_sector}
use mock_os.A3.Fs.Cache.{Cache}
use mock_os.A3.Fs.Cache.Evict.{IsValid, contents}
use mock_os.A3.Fs.Cache.Refine.{Refines, read_refines, write_refines}
use mock_os.A3.Fs.FreeMap.{BitmapLib, Disk}
use mock_os.A3.Fs.Inode.{
  InodeTable, new_inode, inode_create, opened, find_open, inode_open, inode_close, update_inode,
  without_address,
}

-- The table after a sector that was not open has been opened.
abbrev pub opened_table : InodeTable → ℕ → InodeDisk → InodeTable
opened_table t sector d = record {
  open_inodes = t.fresh ∷ t.open_inodes;
  inode_at = update_inode t.inode_at t.fresh (some (opened sector d));
  fresh = t.fresh + 1;
}

-- Opening a sector that is not open makes an inode of its content.
pub inode_open_new :
    (sector : ℕ) (t : InodeTable) (c : Cache)
    → find_open t.inode_at sector t.open_inodes ≡ some none
    → IsValid c
    → sector < c.device.size
    → (c' : Cache) × (inode_open sector t c
        ≡ some (t.fresh, opened_table t sector (decode_inode (contents c sector)), c'))
      × Refines c (contents c) c'
unfolding inode_open
inode_open_new sector t c missing v lt =
    let (c', run, done) = read_refines c sector v lt in (c', rw (missing, run), done)

-- When inode_reserve succeeds for a new inode, the cache that it leaves is valid and the sector
-- of the inode is on the device and not open, inode_create succeeds, and inode_open of the sector
-- then makes an inode with the data that were reserved for the new one. The data are an inode
-- with 123 direct blocks whose numbers fit into 32 bits.
pub create_then_open :
    {lib : BitmapLib} (sector length : ℕ) (is_dir : Bool) (t : InodeTable) (d d₁ : Disk lib)
    (idisk : InodeDisk)
    → find_open t.inode_at sector t.open_inodes ≡ some none
    → inode_reserve (new_inode length is_dir) length d ≡ some (true, idisk, d₁)
    → IsValid d₁.cache
    → sector < d₁.cache.device.size
    → IsStorable idisk
    → (d' : Disk lib) × (c' : Cache) × (inode_create sector length is_dir d ≡ some (true, d'))
      × (inode_open sector t d'.cache ≡ some (t.fresh, opened_table t sector idisk, c'))
unfolding inode_create write_sector
create_then_open sector length is_dir t d d₁ idisk missing reserved v lt storable =
    let (c, wrote, done) = write_refines d₁.cache sector (encode_inode idisk) v lt in
    let (c', run, _) =
      inode_open_new sector t c missing done.valid (omega (arith, lt, done.size)) in
    let here : contents c sector ≡ encode_inode idisk = ground (arith, done.content sector) in
    (
      record d₁ { cache = c },
      c',
      rw (reserved, wrote),
      run
          ∙ ap (λ s. some (t.fresh, opened_table t sector s, c'))
              (ap decode_inode here ∙ decode-encode_inode idisk storable),
    )

-- From a table in which a sector is not open, over a valid cache: opening the sector twice
-- returns one inode both times, the first inode_close frees it, and the second one uses an inode
-- that is gone, since inode_reopen does not count the opener.
pub close_twice_faults :
    {lib : BitmapLib} (sector : ℕ) (t : InodeTable) (d : Disk lib)
    → find_open t.inode_at sector t.open_inodes ≡ some none
    → IsValid d.cache
    → sector < d.cache.device.size
    → (a : ℕ) × (t₁ t₂ : InodeTable) × (c₁ : Cache) × (inode_open sector t d.cache
        ≡ some (a, t₁, c₁))
      × (inode_open sector t₁ c₁ ≡ some (a, t₁, c₁))
      × (inode_close a t₁ (record d { cache = c₁ }) ≡ some (t₂, record d { cache = c₁ }))
      × (inode_close a t₂ (record d { cache = c₁ }) ≡ none)
unfolding inode_open inode_close ◌-ℤ◌
close_twice_faults sector t d missing v lt =
    let (c₁, run, done) = inode_open_new sector t d.cache missing v lt in
    let t₁ = opened_table t sector (decode_inode (contents d.cache sector)) in
    let self : t.fresh == t.fresh ≡ true = ground arith in
    let here : sector == sector ≡ true = ground arith in
    (
      t.fresh,
      t₁,
      record t₁ { open_inodes = t.open_inodes; inode_at = update_inode t₁.inode_at t.fresh none },
      c₁,
      run,
      rw (self, here),
      rw (self, without_address, self),
      rw self,
    )
