-- ===== src/A3/Fs/Reserve/Full.antt =====
-- a3/fs/inode.c: `inode_reserve_indirect` on a disk that has no free sector.
use mock_os.Prelude.{
  ℕ, suc, ◌+◌, ◌-◌, ◌/◌, ◌<◌, ◌≡◌, refl, ◌∙◌, ap, false, none, some, replicate, ◌==◌, if◌then◌else◌,
  arith,
}
use mock_os.A3.Fs.Block.{update}
use mock_os.A3.Fs.Layout.{decode_blocks, word}
use mock_os.A3.Fs.Cache.{Cache}
use mock_os.A3.Fs.Cache.Evict.{IsValid, contents}
use mock_os.A3.Fs.Cache.Refine.{Refines, read_refines, write_refines}
use mock_os.A3.Fs.FreeMap.{BitmapLib, Disk, bitmap_error, free_map_allocate, keep_allocation}
use mock_os.A3.Fs.Reserve.{
  zeros, provide_table, reserve_sector, reserve_each, inode_reserve_indirect, write_sector,
}

zero_blocks : decode_blocks zeros ≡ replicate 128 0
unfolding decode_blocks word
zero_blocks = refl

-- The bitmap has no free bit.
abbrev pub IsFull : (lib : BitmapLib) → lib.Bitmap → Type 0
IsFull lib b = lib.bitmap_scan_and_flip b 0 1 false ≡ (bitmap_error, b)

module _ {lib : BitmapLib} where
  allocate_full : (d : Disk lib) → IsFull lib d.free_map → free_map_allocate 1 d ≡ some (none, d)
  unfolding free_map_allocate
  allocate_full d full =
      ap
        (λ p.
          if p.0 == bitmap_error
          then some (none, record d { free_map = p.1 })
          else keep_allocation p.0 1 (record d { free_map = p.1 }))
        full

  -- The table that could not be allocated is written to sector 0.
  provide_table_full :
      (d : Disk lib)
      → IsFull lib d.free_map
      → IsValid d.cache
      → 0 < d.cache.device.size
      → (c' : Cache) × (provide_table 0 d ≡ some (0, record d { cache = c' }))
        × Refines d.cache (update (contents d.cache) 0 zeros) c'
  unfolding provide_table
  provide_table_full d full v lt =
      let (c', run, done) = write_refines d.cache 0 zeros v lt in
      (c', rw (allocate_full d full, write_sector, run), done)

  -- Over a valid cache, when the bitmap has no free bit, inode_reserve_indirect at level 1 for at
  -- least one sector behind a table that is not there yet returns false, but has filled sector 0,
  -- and no other sector, with zeros.
  pub reserve_full_zeroes :
      (num : ℕ) (d : Disk lib)
      → IsFull lib d.free_map
      → IsValid d.cache
      → 0 < d.cache.device.size
      → (d' : Disk lib) × (inode_reserve_indirect 1 0 (suc num) d ≡ some (false, 0, d'))
        × ((s : ℕ) → contents d'.cache s ≡ update (contents d.cache) 0 zeros s)
  unfolding inode_reserve_indirect
  reserve_full_zeroes num d full v lt =
      let (c₁, run₁, one) = provide_table_full d full v lt in
      let (c₂, run₂, two) = read_refines c₁ 0 one.valid (omega (arith, one.size)) in
      let d₂ : Disk lib = record d { cache = c₂ } in
      let rounds : (suc num + 1 - 1) / 1 ≡ suc num = omega arith in
      let blocks : decode_blocks (contents c₁ 0) ≡ replicate 128 0 =
        ap decode_blocks (one.content 0) ∙ zero_blocks in
      (
        d₂,
        rw (run₁, run₂, rounds, blocks, reserve_each, reserve_sector, allocate_full d₂ full),
        λ s. two.content s ∙ one.content s,
      )
