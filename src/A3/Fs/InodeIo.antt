-- ===== src/A3/Fs/InodeIo.antt =====
-- a3/fs/inode.c: the loops of `inode_read_at` and `inode_write_at`, over the cache. Offsets, sizes and
-- lengths are natural numbers; in the source they are `int32_t`, of which the callers use those that
-- are not negative. The test `sector_idx < 0` of the source is on an unsigned number and never
-- holds. `none` is a panic, or fuel that ran out.
pub mod Bytes
pub mod Read
pub mod Patch
pub mod Write
pub mod WriteLoop
use mock_os.Prelude.{
  ℕ, zero, suc, ◌+◌, ◌-◌, ◌*◌, ◌/◌, ◌%◌, ◌&&◌, ◌||◌, Option, none, some, List, [], ◌∷◌, ◌++◌, ltb,
  ◌==◌, if◌then◌else◌, take, drop, replicate,
}
use mock_os.Prelude.Int.{pos}
use mock_os.A3.Fs.Block.{Sector}
use mock_os.A3.Fs.Layout.{InodeDisk, block_sector_size}
use mock_os.A3.Fs.Cache.{Cache, buffer_cache_read, buffer_cache_write, ◌>>=◌}
use mock_os.A3.Fs.BlockMap.{byte_to_sector}

-- `chunk_size`: what is left to copy, of the inode and of the sector, the least.
unfoldable pub chunk_size : InodeDisk → ℕ → ℕ → ℕ
chunk_size d size offset =
    let inode_left = d.length - offset in
    let sector_left = block_sector_size - offset % block_sector_size in
    let min_left = if ltb inode_left sector_left then inode_left else sector_left in
    if ltb size min_left then size else min_left

-- What one round of reading copies out of a sector: all of it, or a part by way of `bounce`.
unfoldable pub copied : Sector → ℕ → ℕ → List ℕ
copied sector sector_ofs chunk =
    if sector_ofs == 0 && chunk == block_sector_size
    then sector
    else take chunk (drop sector_ofs sector)

-- The `while (size > 0)` of `inode_read_at`: the bytes copied to the buffer, their number, the cache.
unfoldable pub read_loop : ℕ → Cache → InodeDisk → ℕ → ℕ → Option (List ℕ × ℕ × Cache)
read_loop zero c d size offset = none
read_loop (suc fuel) c d size offset =
    let chunk = chunk_size d size offset in
    let round = byte_to_sector c d (pos offset) >>= λ r.
    (let next = buffer_cache_read r.1 r.0 >>= λ b.
    read_loop fuel b.1 d (size - chunk) (offset + chunk) >>= λ rest.
    some (copied b.0 (offset % block_sector_size) chunk ++ rest.0, chunk + rest.1, rest.2) in
      if chunk == 0 then some ([], 0, r.1) else next) in
    if size == 0 then some ([], 0, c) else round

-- `inode_read_at`, of an inode whose `data` is given. Each round but the last copies a byte.
unfoldable pub inode_read_at : Cache → InodeDisk → ℕ → ℕ → Option (List ℕ × ℕ × Cache)
inode_read_at c d size offset = read_loop (size + 1) c d size offset

-- `memcpy(bounce + sector_ofs, buffer + bytes_written, chunk_size)`
abbrev pub patch : Sector → ℕ → List ℕ → Sector
patch bounce zero [] = bounce
patch [] ofs part = []
patch (b ∷ bounce) zero (p ∷ part) = p ∷ patch bounce zero part
patch (b ∷ bounce) (suc ofs) part = b ∷ patch bounce ofs part

-- What one round of writing puts into a sector, whose old bytes are read if some of them stay.
unfoldable pub put_chunk : Cache → ℕ → ℕ → ℕ → List ℕ → Option Cache
put_chunk c sector_idx sector_ofs chunk part =
    if sector_ofs == 0 && chunk == block_sector_size
    then buffer_cache_write c sector_idx part
    else if ltb 0 sector_ofs || ltb chunk (block_sector_size - sector_ofs)
    then (buffer_cache_read c sector_idx >>= λ b.
        buffer_cache_write b.1 sector_idx (patch b.0 sector_ofs part))
    else buffer_cache_write c sector_idx (patch (replicate block_sector_size 0) sector_ofs part)

-- The `while (size > 0)` of `inode_write_at`. `buffer` is what is left of the caller's buffer, which
-- has at least `size` bytes.
unfoldable pub write_loop : ℕ → Cache → InodeDisk → List ℕ → ℕ → ℕ → Option (ℕ × Cache)
write_loop zero c d buffer size offset = none
write_loop (suc fuel) c d buffer size offset =
    let chunk = chunk_size d size offset in
    let round = byte_to_sector c d (pos offset) >>= λ r.
    (let next = put_chunk r.1 r.0 (offset % block_sector_size) chunk (take chunk buffer) >>= λ c'.
    write_loop fuel c' d (drop chunk buffer) (size - chunk) (offset + chunk) >>= λ rest.
    some (chunk + rest.0, rest.1) in
      if chunk == 0 then some (0, r.1) else next) in
    if size == 0 then some (0, c) else round
