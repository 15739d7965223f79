-- ===== src/A3/Fs/Reserve.antt =====
-- a3/fs/inode.c: giving sectors to the blocks of an inode (`inode_reserve`). `none` is a panic, a failed
-- assertion or an index past the end of an array.
pub mod Full
use mock_os.Prelude.{
  ℕ, zero, suc, ◌+◌, ◌-◌, ◌*◌, ◌/◌, Bool, true, false, Option, none, some, List, [], ◌∷◌, ◌++◌,
  get_elem?, replicate, take, drop, min, ltb, ◌==◌, if◌then◌else◌, length,
}
use mock_os.A3.Fs.Block.{Sector}
use mock_os.A3.Fs.Layout.{InodeDisk, decode_blocks, encode_blocks}
use mock_os.A3.Fs.Cache.{Cache, buffer_cache_read, buffer_cache_write, ◌>>=◌}
use mock_os.A3.Fs.BlockMap.{div_round_up, bytes_to_sectors}
use mock_os.A3.Fs.FreeMap.{BitmapLib, Disk, free_map_allocate}

-- `static char zeros[BLOCK_SECTOR_SIZE]`
abbrev pub zeros : Sector
zeros = replicate 512 0

-- `unit`: the sectors that one entry stands for, at a level above 0.
abbrev pub unit_of : ℕ → ℕ
unit_of (suc zero) = 1
unit_of _ = 128

module _ {lib : BitmapLib} where
  unfoldable pub write_sector : ℕ → Sector → Disk lib → Option (Disk lib)
  write_sector sector buffer d =
      buffer_cache_write d.cache sector buffer >>= λ c. some (record d { cache = c })

  -- `inode_reserve_indirect` at level 0
  unfoldable pub reserve_sector : ℕ → Disk lib → Option (Bool × ℕ × Disk lib)
  unfolding write_sector
  reserve_sector entry d =
      if entry == 0
      then (free_map_allocate 1 d >>= λ r. elim (r.0) [
        | none ↦ some (false, entry, r.1)
        | some sector ↦ write_sector sector zeros r.1 >>= λ d'. some (true, sector, d')
      ])
      else some (true, entry, d)

  -- `for (i = 0; i < l; ++i)` over the entries, with what reserves one of them for a number of
  -- sectors. The result has the entries and the sectors that are left.
  unfoldable pub reserve_each :
      (ℕ → ℕ → Disk lib → Option (Bool × ℕ × Disk lib))
      → ℕ
      → ℕ
      → List ℕ
      → ℕ
      → Disk lib
      → Option (Bool × List ℕ × ℕ × Disk lib)
  reserve_each f unit zero blocks num d = some (true, blocks, num, d)
  reserve_each f unit (suc l) [] num d = none
  reserve_each f unit (suc l) (b ∷ blocks) num d =
      let subsize = min num unit in
      f b subsize d >>= λ r.
      (let next = reserve_each f unit l blocks (num - subsize) r.2 >>= λ rest.
      some (rest.0, r.1 ∷ rest.1, rest.2, rest.3) in
        if r.0 then next else some (false, r.1 ∷ blocks, num, r.2))

  -- An entry at a level above 0 that has no sector: the result of `free_map_allocate` is not tested.
  unfoldable pub provide_table : ℕ → Disk lib → Option (ℕ × Disk lib)
  unfolding write_sector
  provide_table entry d =
      if entry == 0
      then (free_map_allocate 1 d >>= λ r.
          (let entry' : ℕ = elim (r.0) [ none ↦ entry | some sector ↦ sector ] in
            write_sector entry' zeros r.1 >>= λ d'. some (entry', d')))
      else some (entry, d)

  -- `inode_reserve_indirect`
  unfoldable pub inode_reserve_indirect : ℕ → ℕ → ℕ → Disk lib → Option (Bool × ℕ × Disk lib)
  unfolding reserve_sector reserve_each provide_table write_sector
  inode_reserve_indirect zero entry num d = reserve_sector entry d
  inode_reserve_indirect (suc level) entry num d =
      let below = λ (b n : ℕ) (e : Disk lib). inode_reserve_indirect level b n e in
      let unit = unit_of (suc level) in
      provide_table entry d >>= λ p. buffer_cache_read p.1.cache p.0 >>= λ b.
      reserve_each below unit (div_round_up num unit) (decode_blocks b.0) num
        (record (p.1) { cache = b.1 })
      >>= λ r.
          if r.0
          then if r.2 == 0
            then (write_sector p.0 (encode_blocks r.1) r.3 >>= λ d'. some (true, p.0, d'))
            else none
          else some (false, p.0, r.3)

  -- The three parts of `inode_reserve`: success, the inode and the disk. A part is left out when no
  -- sectors remain.
  unfoldable pub reserve_direct : ℕ → InodeDisk → Disk lib → Option (Bool × InodeDisk × Disk lib)
  unfolding reserve_sector reserve_each
  reserve_direct l idisk d =
      reserve_each (λ b n e. reserve_sector b e) 1 l idisk.direct_blocks l d >>= λ r.
      some (r.0, record idisk { direct_blocks = r.1 }, r.3)

  unfoldable pub reserve_single : ℕ → InodeDisk → Disk lib → Option (Bool × InodeDisk × Disk lib)
  unfolding inode_reserve_indirect
  reserve_single l idisk d = inode_reserve_indirect 1 idisk.indirect_block l d >>= λ r.
      some (r.0, record idisk { indirect_block = r.1 }, r.2)

  unfoldable pub reserve_double : ℕ → InodeDisk → Disk lib → Option (Bool × InodeDisk × Disk lib)
  unfolding inode_reserve_indirect
  reserve_double l idisk d = inode_reserve_indirect 2 idisk.doubly_indirect_block l d >>= λ r.
      some (r.0, record idisk { doubly_indirect_block = r.1 }, r.2)

  -- After a part: stop on failure, succeed when no sectors are left, or go on.
  abbrev after :
      ℕ
      → (Bool × InodeDisk × Disk lib)
      → Option (Bool × InodeDisk × Disk lib)
      → Option (Bool × InodeDisk × Disk lib)
  after left r next = if r.0 then if left == 0 then some (true, r.1, r.2) else next else some r

  -- `inode_reserve`, for a length that is not negative
  unfoldable pub inode_reserve : InodeDisk → ℕ → Disk lib → Option (Bool × InodeDisk × Disk lib)
  unfolding reserve_direct reserve_single reserve_double
  inode_reserve idisk length d =
      let n = bytes_to_sectors length in
      let n₁ = n - min n 123 in
      let n₂ = n₁ - min n₁ 128 in
      let n₃ = n₂ - min n₂ 16384 in
      reserve_direct (min n 123) idisk d >>= λ r₁. after n₁ r₁ (
        reserve_single (min n₁ 128) r₁.1 r₁.2 >>= λ r₂.
        after n₂ r₂ (reserve_double (min n₂ 16384) r₂.1 r₂.2 >>= λ r₃. after n₃ r₃ none))
