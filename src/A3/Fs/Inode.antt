-- ===== src/A3/Fs/Inode.antt =====
-- a3/fs/inode.c: inodes in memory: creating, opening, closing, reading and writing them. The list of
-- open inodes (a3/fs/list.c) is a sequence of addresses; an inode that was freed is not at its
-- address any more, and its use is a fault, here `none` as a panic is.
pub mod Handles
pub mod Files
use mock_os.Prelude.{
  ℕ, zero, suc, ◌+◌, ◌-◌, Bool, true, false, Option, none, some, List, [], ◌∷◌, replicate, ◌==◌,
  if◌then◌else◌, not, ltb,
}
use mock_os.Prelude.Int.{ℤ, pos, sub_ℕ, ◌-ℤ◌, ◌+ℤ◌, pos_part, neg_part, ltb_ℤ}
use mock_os.A3.Fs.Layout.{InodeDisk, encode_inode, decode_inode, inode_magic}
use mock_os.A3.Fs.Cache.{Cache, buffer_cache_read, buffer_cache_write, ◌>>=◌}
use mock_os.A3.Fs.BlockMap.{no_sector, byte_to_sector}
use mock_os.A3.Fs.InodeIo.{inode_read_at, write_loop}
use mock_os.A3.Fs.FreeMap.{BitmapLib, Disk, free_map_release}
use mock_os.A3.Fs.Reserve.{inode_reserve, write_sector}
use mock_os.A3.Fs.Deallocate.{inode_deallocate}

-- `struct inode`
pub record Inode : Type 0 where
  pub sector : ℕ
  pub open_cnt : ℤ
  pub removed : Bool
  pub deny_write_cnt : ℤ
  pub data_ : InodeDisk

-- `open_inodes`, and the inodes in memory. `malloc` gives out the addresses in order.
pub record InodeTable : Type 0 where
  pub open_inodes : List ℕ
  pub inode_at : ℕ → Option Inode
  pub fresh : ℕ

abbrev pub update_inode : (ℕ → Option Inode) → ℕ → Option Inode → ℕ → Option Inode
update_inode f a v k = if k == a then v else f k

-- `inode_init`
unfoldable pub inode_init : InodeTable → InodeTable
inode_init t = record t { open_inodes = [] }

-- The loop of `inode_open` over the inodes that are open.
unfoldable pub find_open : (ℕ → Option Inode) → ℕ → List ℕ → Option (Option ℕ)
find_open inode_at sector [] = some none
find_open inode_at sector (a ∷ as_) =
    inode_at a >>= λ i. if i.sector == sector then some (some a) else find_open inode_at sector as_

-- `inode_reopen` returns the inode as it is.
unfoldable pub inode_reopen : ℕ → InodeTable → ℕ × InodeTable
inode_reopen a t = (a, t)

-- The inode that `inode_open` makes of the sector.
abbrev pub opened : ℕ → InodeDisk → Inode
opened sector d = record {
  sector = sector;
  open_cnt = pos 1;
  removed = false;
  deny_write_cnt = pos 0;
  data_ = d;
}

unfoldable pub inode_open : ℕ → InodeTable → Cache → Option (ℕ × InodeTable × Cache)
unfolding find_open inode_reopen
inode_open sector t c = find_open t.inode_at sector t.open_inodes >>= λ found. elim found [
  | some a ↦ (let (b, t') = inode_reopen a t in some (b, t', c))
  | none ↦ buffer_cache_read c sector >>= λ r. some (
    t.fresh,
    record {
      open_inodes = t.fresh ∷ t.open_inodes;
      inode_at = update_inode t.inode_at t.fresh (some (opened sector (decode_inode r.0)));
      fresh = t.fresh + 1;
    },
    r.1,
  )
]

-- `list_remove`
unfoldable pub without_address : ℕ → List ℕ → List ℕ
without_address a [] = []
without_address a (b ∷ bs) = if b == a then bs else b ∷ without_address a bs

-- `calloc` gives an inode of zeros.
abbrev pub new_inode : ℕ → Bool → InodeDisk
new_inode length is_dir = record {
  direct_blocks = replicate 123 0;
  indirect_block = 0;
  doubly_indirect_block = 0;
  is_dir = is_dir;
  length = length;
  magic = inode_magic;
}

-- `if (inode->deny_write_cnt) return 0;`
abbrev pub unless_denied {ℓ} : {A : Type ℓ} → ℤ → A → A → A
unless_denied (pos zero) x y = x
unless_denied _ x y = y

module _ {lib : BitmapLib} where
  -- What `inode_close` gives back of an inode that was removed.
  unfoldable pub give_back : Inode → Disk lib → Option (Disk lib)
  give_back i d =
      if i.removed
      then (free_map_release i.sector 1 d >>= λ d'. inode_deallocate i.data_ d')
      else some d

  unfoldable pub inode_close : ℕ → InodeTable → Disk lib → Option (InodeTable × Disk lib)
  unfolding give_back without_address
  inode_close a t d = t.inode_at a >>= λ i. elim (i.open_cnt -ℤ pos 1) [
    | pos zero ↦ give_back i d >>= λ d'. some (
      record t {
        open_inodes = without_address a t.open_inodes;
        inode_at = update_inode t.inode_at a none;
      },
      d',
    )
    | left ↦
        some (
          record t { inode_at = update_inode t.inode_at a (some (record i { open_cnt = left })) },
          d,
        )
  ]

  -- `inode_create`; `inode_allocate` reserves sectors for the inode's length.
  unfoldable pub inode_create : ℕ → ℕ → Bool → Disk lib → Option (Bool × Disk lib)
  inode_create sector length is_dir d = inode_reserve (new_inode length is_dir) length d >>= λ r.
      if r.0
      then (write_sector sector (encode_inode r.1) r.2 >>= λ d'. some (true, d'))
      else some (false, r.2)

  -- The part of `inode_write_at` that makes the file longer: what `return 0` leaves, or the inode and
  -- the disk for the loop.
  unfoldable pub extend : Inode → ℕ → ℕ → Disk lib → Option (Bool × Inode × Disk lib)
  extend i size offset d = byte_to_sector d.cache i.data_ (sub_ℕ (offset + size) 1) >>= λ r.
      (let d₁ : Disk lib = record d { cache = r.1 } in
        if r.0 == no_sector
        then (inode_reserve i.data_ (offset + size) d₁ >>= λ s.
            (let kept : Inode = record i { data_ = s.1 } in
              let longer : Inode = record i { data_ = record (s.1) { length = offset + size } } in
              if s.0
              then (write_sector i.sector (encode_inode longer.data_) s.2 >>= λ d'.
                  some (true, longer, d'))
              else some (false, kept, s.2)))
        else some (true, i, d₁))

  -- `inode_write_at` where writes are not denied.
  unfoldable pub write_permitted : Inode → List ℕ → ℕ → ℕ → Disk lib → Option (ℕ × Inode × Disk lib)
  write_permitted i buffer size offset d = extend i size offset d >>= λ r.
      (let written = write_loop (size + 1) r.2.cache r.1.data_ buffer size offset >>= λ w.
      some (w.0, r.1, record (r.2) { cache = w.1 }) in
        if r.0 then written else some (0, r.1, r.2))

  -- `inode_write_at`: the bytes written, the inode and the disk.
  unfoldable pub inode_write_at : Inode → List ℕ → ℕ → ℕ → Disk lib → Option (ℕ × Inode × Disk lib)
  inode_write_at i buffer size offset d =
      unless_denied i.deny_write_cnt (write_permitted i buffer size offset d) (some (0, i, d))

-- `inode_deny_write` and `inode_allow_write`, with their assertions.
unfoldable pub inode_deny_write : Inode → Option Inode
inode_deny_write i =
    let n = i.deny_write_cnt +ℤ pos 1 in
    if ltb_ℤ i.open_cnt n then none else some (record i { deny_write_cnt = n })

unfoldable pub inode_allow_write : Inode → Option Inode
inode_allow_write i =
    if ltb_ℤ (pos 0) i.deny_write_cnt
    then if ltb_ℤ i.open_cnt i.deny_write_cnt
      then none
      else some (record i { deny_write_cnt = i.deny_write_cnt -ℤ pos 1 })
    else none
