-- ===== src/A3/Fs/Deallocate.antt =====
-- a3/fs/inode.c: taking the sectors of an inode back (`inode_deallocate`) and listing them
-- (`get_inode_data_sectors`). `none` is a panic, a failed assertion or an index past the end of an
-- array.
use mock_os.Prelude.{
  ℕ, zero, suc, ◌-◌, Option, none, some, List, [], ◌∷◌, ◌++◌, min, take, ◌==◌, ltb, if◌then◌else◌,
  length,
}
use mock_os.A3.Fs.Layout.{InodeDisk, decode_blocks}
use mock_os.A3.Fs.Cache.{Cache, buffer_cache_read, ◌>>=◌}
use mock_os.A3.Fs.BlockMap.{div_round_up, bytes_to_sectors}
use mock_os.A3.Fs.FreeMap.{BitmapLib, Disk, free_map_release}
use mock_os.A3.Fs.Reserve.{unit_of}

module _ {lib : BitmapLib} where
  -- The loop over the entries, with what takes one of them back; the sectors left are returned too.
  unfoldable pub release_each :
      (ℕ → ℕ → Disk lib → Option (Disk lib)) → ℕ → ℕ → List ℕ → ℕ → Disk lib → Option (ℕ × Disk lib)
  release_each f unit zero blocks num d = some (num, d)
  release_each f unit (suc l) [] num d = none
  release_each f unit (suc l) (b ∷ blocks) num d =
      f b (min num unit) d >>= λ d'. release_each f unit l blocks (num - min num unit) d'

  -- `inode_deallocate_indirect`
  unfoldable pub inode_deallocate_indirect : ℕ → ℕ → ℕ → Disk lib → Option (Disk lib)
  unfolding release_each
  inode_deallocate_indirect zero entry num d = free_map_release entry 1 d
  inode_deallocate_indirect (suc level) entry num d =
      let below = λ (b n : ℕ) (e : Disk lib). inode_deallocate_indirect level b n e in
      let unit = unit_of (suc level) in
      buffer_cache_read d.cache entry >>= λ b.
      release_each below unit (div_round_up num unit) (decode_blocks b.0) num
        (record d { cache = b.1 })
      >>= λ r. if r.0 == 0 then free_map_release entry 1 r.1 else none

  -- A part of `inode_deallocate` is done when it has sectors.
  deallocate_table : ℕ → ℕ → ℕ → Disk lib → Option (Disk lib)
  unfolding inode_deallocate_indirect
  deallocate_table level entry l d =
      if ltb 0 l then inode_deallocate_indirect level entry l d else some d

  -- `inode_deallocate`, for a length that is not negative
  unfoldable pub inode_deallocate : InodeDisk → Disk lib → Option (Disk lib)
  unfolding release_each deallocate_table
  inode_deallocate idisk d =
      let n = bytes_to_sectors idisk.length in
      let n₁ = n - min n 123 in
      let n₂ = n₁ - min n₁ 128 in
      let n₃ = n₂ - min n₂ 16384 in
      release_each (λ b k e. free_map_release b 1 e) 1 (min n 123) idisk.direct_blocks (min n 123) d
      >>= λ r₁. deallocate_table 1 idisk.indirect_block (min n₁ 128) r₁.1 >>= λ d₂.
          deallocate_table 2 idisk.doubly_indirect_block (min n₂ 16384) d₂ >>= λ d₃.
          if n₃ == 0 then some d₃ else none

-- The first entries of a sector of block numbers.
unfoldable pub table_entries : Cache → ℕ → ℕ → Option (List ℕ × Cache)
table_entries c sector l = buffer_cache_read c sector >>= λ b.
    (let blocks = decode_blocks b.0 in
      if ltb (length blocks) l then none else some (take l blocks, b.1))

-- The loop over the tables of a doubly indirect block; `rounds` of them hold `num` entries.
unfoldable pub nested_entries : Cache → ℕ → List ℕ → ℕ → Option (List ℕ × Cache)
nested_entries c zero tables num = some ([], c)
nested_entries c (suc rounds) [] num = none
nested_entries c (suc rounds) (t ∷ tables) num = table_entries c t (min num 128) >>= λ r.
    nested_entries r.1 rounds tables (num - min num 128) >>= λ rest. some (r.0 ++ rest.0, rest.1)

-- `get_inode_data_sectors`, for a length that is not negative
unfoldable pub get_inode_data_sectors : Cache → InodeDisk → Option (List ℕ × Cache)
unfolding table_entries nested_entries
get_inode_data_sectors c idisk =
    let n = bytes_to_sectors idisk.length in
    let n₁ = n - min n 123 in
    let n₂ = n₁ - min n₁ 128 in
    let n₃ = n₂ - min n₂ 16384 in
    let single =
      if ltb 0 (min n₁ 128)
      then table_entries c idisk.indirect_block (min n₁ 128)
      else some ([], c) in
    single >>= λ r₁.
    (let double =
        if ltb 0 (min n₂ 16384)
        then (buffer_cache_read r₁.1 idisk.doubly_indirect_block >>= λ b.
            nested_entries b.1 (div_round_up (min n₂ 16384) 128) (decode_blocks b.0) (min n₂ 16384))
        else some ([], r₁.1) in
      double >>= λ r₂.
      if n₃ == 0 then some (take (min n 123) idisk.direct_blocks ++ (r₁.0 ++ r₂.0), r₂.1) else none)
