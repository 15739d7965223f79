-- ===== src/A3/Fs/Block.antt =====
-- a3/fs/block.c: the block device. `store` is what the driver's `read` and `write` operations keep;
-- an access past the end of the device is a PANIC, here `none`.
use mock_os.Prelude.{ℕ, ◌+◌, ◌%◌, ◌^◌, Option, none, some, List, ltb, ◌==◌, if◌then◌else◌}

-- The bytes of one sector.
abbrev pub Sector : Type 0
Sector = List ℕ

pub record Block : Type 0 where
  pub size : ℕ
  pub store : ℕ → Sector
  pub read_cnt : ℕ
  pub write_cnt : ℕ

abbrev pub update : (ℕ → Sector) → ℕ → Sector → ℕ → Sector
update f k v s = if s == k then v else f s

-- `block_read`, with `check_sector` in front
unfoldable pub block_read : Block → ℕ → Option (Sector × Block)
block_read b sector =
    if ltb sector b.size
    then some (b.store sector, record b { read_cnt = (b.read_cnt + 1) % 2 ^ 64 })
    else none

-- `block_write`, with `check_sector` in front
unfoldable pub block_write : Block → ℕ → Sector → Option Block
block_write b sector buffer =
    if ltb sector b.size
    then some
        (record b { store = update b.store sector buffer; write_cnt = (b.write_cnt + 1) % 2 ^ 64 })
    else none
