-- ===== src/A3/Fs/BlockMap.antt =====
-- a3/fs/inode.c: from a position in a file to the sector that holds it. `none` is a panic of the
-- device or an index past the end of an array of block numbers.
pub mod Refine
use mock_os.Prelude.{
  ℕ, ◌+◌, ◌-◌, ◌*◌, ◌/◌, ◌%◌, ◌^◌, Option, none, some, ltb, if◌then◌else◌, get_elem?,
}
use mock_os.Prelude.Int.{ℤ, pos, negsuc}
use mock_os.A3.Fs.Layout.{InodeDisk, decode_blocks, block_sector_size}
use mock_os.A3.Fs.Cache.{Cache, buffer_cache_read, ◌>>=◌}

-- `-1` as a `block_sector_t`
abbrev pub no_sector : ℕ
no_sector = 2 ^ 32 - 1

-- `bytes_to_sectors`, by `DIV_ROUND_UP`
abbrev pub div_round_up : ℕ → ℕ → ℕ
div_round_up x step = (x + step - 1) / step

abbrev pub bytes_to_sectors : ℕ → ℕ
bytes_to_sectors size = div_round_up size block_sector_size

-- A sector of block numbers is read, and one number taken out of it.
unfoldable pub indirect_entry : Cache → ℕ → ℕ → Option (ℕ × Cache)
indirect_entry c sector k =
    buffer_cache_read c sector >>= λ r. get_elem? (decode_blocks r.0) k >>= λ s. some (s, r.1)

unfoldable pub index_to_sector : Cache → InodeDisk → ℕ → Option (ℕ × Cache)
index_to_sector c d index =
    if ltb index 123
    then (get_elem? d.direct_blocks index >>= λ s. some (s, c))
    else if ltb index 251
    then indirect_entry c d.indirect_block (index - 123)
    else if ltb index 16635
    then (indirect_entry c d.doubly_indirect_block ((index - 251) / 128) >>= λ r.
        indirect_entry r.1 r.0 ((index - 251) % 128))
    else some (no_sector, c)

unfoldable pub byte_to_sector : Cache → InodeDisk → ℤ → Option (ℕ × Cache)
byte_to_sector c d (pos p) =
    if ltb p d.length then index_to_sector c d (p / block_sector_size) else some (no_sector, c)
byte_to_sector c d (negsuc n) = some (no_sector, c)
