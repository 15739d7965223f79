-- ===== src/Tests/Files.antt =====
-- Runs of the file layer of assignment 3.
use mathlib.Core.Option.{some-injective}
use mock_os.Prelude.{
  ◌+◌, ℕ, Bool, Option, set, if◌then◌else◌, ◌==◌, zero, suc, ◌-◌, ◌*◌, ◌<◌, ◌≡◌, refl, ◌∙◌, ap, sym,
  true, false, none, some, [], ◌∷◌, replicate, length, length-replicate, take, min, arith,
}
use mock_os.Prelude.Int.{pos, sub_ℕ}
use mock_os.A3.Fs.Block.{Sector, Block, update}
use mock_os.A3.Fs.Layout.{InodeDisk, encode_inode, inode_magic}
use mock_os.A3.Fs.Layout.RoundTrip.{IsStorable, AllWords}
use mock_os.A3.Fs.Cache.{Cache, Entry, buffer_cache_init}
use mock_os.A3.Fs.Cache.Evict.{contents}
use mock_os.A3.Fs.Cache.Refine.{Refines}
use mock_os.A3.Fs.Cache.Session.{init-Refines}
use mock_os.A3.Fs.BlockMap.Refine.{block_of}
use mock_os.A3.Fs.InodeIo.{inode_read_at}
use mock_os.A3.Fs.InodeIo.Bytes.{file_byte, slice}
use mock_os.A3.Fs.InodeIo.Read.{IsMapped, IsSized, Shows, inode_read_at_refines}
use mock_os.A3.Fs.InodeIo.Write.{IsWritable}
use mock_os.A3.Fs.InodeIo.WriteLoop.{Written}
use mock_os.A3.Fs.FreeMap.{Disk, free_map_allocate}
use mock_os.A3.Fs.FreeMap.Allocate.{Allocates, free_map_allocate-Allocates}
use mock_os.A3.Fs.DirEntry.{DirEntry, lookup, dir_is_empty, rounds, free_slot_offset}
use mock_os.A3.Fs.DirEntry.FreeSlot.{StopsAt, free_slot_offset_refines}
use mock_os.A3.Fs.DirEntry.Search.{Finds}
use mock_os.A3.Fs.DirEntry.Lookup.{FindsName, Tells, lookup_refines, dir_is_empty_refines}
use mock_os.A3.Fs.State.{Dir, File, FileSys}
use mock_os.A3.Fs.Directory.{dir_readdir, dir_readdir_inode}
use mock_os.A3.Fs.Directory.Reading.{
  IsBehind, name_given, sector_given, read_to, dir_readdir_refines,
}
use mock_os.A3.Fs.File.{file_write, file_tell}
use mock_os.A3.Fs.File.Writing.{file_write_refines}
use mock_os.A3.Fs.Reserve.{zeros, inode_reserve, inode_reserve_indirect}
use mock_os.A3.Fs.Reserve.Full.{reserve_full_zeroes}
use mock_os.A3.Fs.Inode.{
  Inode, InodeTable, new_inode, find_open, inode_create, inode_open, inode_close, inode_write_at,
}
use mock_os.A3.Fs.Inode.Handles.{opened_table, create_then_open, close_twice_faults}
use mock_os.A3.Fs.Inode.Files.{inode_write_at_refines, write_then_read, write_nothing_truncates}
use mock_os.Tests.Bitmap.{bits_lib, bits_laws, scan_from}

-- A device of four sectors whose bytes are all 5.
abbrev device : Block
device = record { size = 4; store = λ s. replicate 512 5; read_cnt = 0; write_cnt = 0 }

abbrev empty_entry : Entry
empty_entry = record {
  occupied = false;
  disk_sector = 0;
  buffer = [];
  dirty = false;
  access = false;
}

abbrev unset : Cache
unset = record { entries = replicate 64 empty_entry; clock = 0; device = device }

abbrev cache : Cache
cache = buffer_cache_init unset

abbrev cache_ok : Refines unset unset.device.store cache
cache_ok = init-Refines unset refl (omega arith)

cache-IsSized : IsSized (contents cache)
cache-IsSized s = ap length (cache_ok.content s) ∙ length-replicate {A = ℕ} 512 5

-- A file of 600 bytes in the sectors 2 and 3.
abbrev file : InodeDisk
file = record {
  direct_blocks = 2 ∷ 3 ∷ replicate 121 0;
  indirect_block = 0;
  doubly_indirect_block = 0;
  is_dir = false;
  length = 600;
  magic = inode_magic;
}

sectors_small : cache.device.size ≡ 4
sectors_small = cache_ok.size

file-IsMapped : (v : ℕ → Sector) (sectors : ℕ) → 3 < sectors → IsMapped v sectors file
file-IsMapped v sectors h zero lt = (2, refl, omega arith)
file-IsMapped v sectors h (suc zero) lt = (3, refl, omega arith)
file-IsMapped v sectors h (suc (suc i)) lt = absurd (omega arith)

two_blocks :
    (v : ℕ → Sector) (sectors i j s : ℕ)
    → i * 512 < 600
    → j * 512 < 600
    → block_of v sectors file i ≡ some s
    → block_of v sectors file j ≡ some s
    → i ≡ j
two_blocks v sectors zero zero s p q e f = refl
two_blocks v sectors zero (suc zero) s p q e f =
    absurd (let g = some-injective 2 3 (e ∙ sym f) in omega arith)
two_blocks v sectors (suc zero) zero s p q e f =
    absurd (let g = some-injective 2 3 (f ∙ sym e) in omega arith)
two_blocks v sectors (suc zero) (suc zero) s p q e f = refl
two_blocks v sectors zero (suc (suc j)) s p q e f = absurd (omega arith)
two_blocks v sectors (suc zero) (suc (suc j)) s p q e f = absurd (omega arith)
two_blocks v sectors (suc (suc i)) j s p q e f = absurd (omega arith)

file-IsWritable : (v : ℕ → Sector) (sectors : ℕ) → 3 < sectors → IsWritable v sectors file
file-IsWritable v sectors h = record {
  mapped = file-IsMapped v sectors h;
  injective = two_blocks v sectors;
  single = λ i s p e big. absurd (omega arith);
  double = λ i s p e big. absurd (omega arith);
  tables = λ i s k t p e big f. absurd (omega arith);
}

abbrev inode : Inode
inode = record {
  sector = 1;
  open_cnt = pos 1;
  removed = false;
  deny_write_cnt = pos 0;
  data_ = file;
}

abbrev disk : Disk bits_lib
disk = record {
  cache = cache;
  free_map = record { size = 3; bit = λ k. true };
  free_map_file = true;
}

inode_read_at_refines_example :
    (c' : Cache) × (inode_read_at cache file 300 500
      ≡ some (
        slice (file_byte (contents cache) cache.device.size file) 500 (min 300 (600 - 500)),
        min 300 (600 - 500),
        c',
      ))
    × Refines cache (contents cache) c'
inode_read_at_refines_example =
    inode_read_at_refines cache file 300 500 cache_ok.valid cache-IsSized
      (file-IsMapped (contents cache) cache.device.size (omega (arith, sectors_small)))

inode_write_at_refines_example :
    (c' : Cache) × (v' : ℕ → Sector) × (inode_write_at inode (replicate 30 7) 30 500 disk
      ≡ some (30, inode, record disk { cache = c' }))
    × Shows v' cache.device.size c'
    × Written (contents cache) v' cache.device.size file 500 30 (replicate 30 7)
inode_write_at_refines_example =
    inode_write_at_refines inode (replicate 30 7) 30 500 disk refl cache_ok.valid cache-IsSized
      (file-IsWritable (contents cache) cache.device.size (omega (arith, sectors_small)))
      (omega (arith, sectors_small)) (omega arith) (omega arith) (omega arith)

write_then_read_example :
    (d' : Disk bits_lib) × (c'' : Cache) × (inode_write_at inode (replicate 30 7) 30 500 disk
      ≡ some (30, inode, d'))
    × (inode_read_at d'.cache file 30 500 ≡ some (take 30 (replicate 30 7), 30, c''))
write_then_read_example =
    write_then_read inode (replicate 30 7) 30 500 disk refl cache_ok.valid cache-IsSized
      (file-IsWritable (contents cache) cache.device.size (omega (arith, sectors_small)))
      (omega (arith, sectors_small)) (omega arith) (omega arith) (omega arith)

write_nothing_truncates_example :
    (i' : Inode) × (d' : Disk bits_lib) × (inode_write_at inode [] 0 0 disk ≡ some (0, i', d'))
    × (i'.data_.length ≡ 0)
    × (contents d'.cache 1 ≡ encode_inode i'.data_)
write_nothing_truncates_example =
    write_nothing_truncates inode [] disk refl cache_ok.valid (omega (arith, sectors_small))

abbrev no_inodes : InodeTable
no_inodes = record { open_inodes = []; inode_at = λ a. none; fresh = 0 }

close_twice_faults_example :
    (a : ℕ) × (t₁ t₂ : InodeTable) × (c₁ : Cache) × (inode_open 2 no_inodes cache
      ≡ some (a, t₁, c₁))
    × (inode_open 2 t₁ c₁ ≡ some (a, t₁, c₁))
    × (inode_close a t₁ (record disk { cache = c₁ }) ≡ some (t₂, record disk { cache = c₁ }))
    × (inode_close a t₂ (record disk { cache = c₁ }) ≡ none)
unfolding find_open
close_twice_faults_example =
    close_twice_faults 2 no_inodes disk refl cache_ok.valid (omega (arith, sectors_small))

-- The bits of the free map are all set.
reserve_full_zeroes_example :
    (d' : Disk bits_lib) × (inode_reserve_indirect 1 0 8 disk ≡ some (false, 0, d'))
    × ((s : ℕ) → contents d'.cache s ≡ update (contents cache) 0 zeros s)
unfolding scan_from
reserve_full_zeroes_example =
    reserve_full_zeroes 7 disk refl cache_ok.valid (omega (arith, sectors_small))

abbrev all_free : Disk bits_lib
all_free = record disk { free_map = record { size = 9; bit = λ k. false } }

free_map_allocate-Allocates_example : Allocates bits_laws all_free 2 (free_map_allocate 2 all_free)
free_map_allocate-Allocates_example =
    free_map_allocate-Allocates bits_laws all_free 2 (λ b. ((true, cache), refl))

zeros-AllWords : (n : ℕ) → AllWords (replicate n 0)
zeros-AllWords zero = tt
zeros-AllWords (suc n) = (omega arith, zeros-AllWords n)

-- The inode of a new directory of no bytes.
made-IsStorable : IsStorable (new_inode 0 true)
made-IsStorable = record {
  direct = zeros-AllWords 123;
  direct_count = refl;
  indirect = omega arith;
  doubly = omega arith;
  length_word = omega arith;
  magic_word = omega arith;
}

create_then_open_example :
    (d' : Disk bits_lib) × (c' : Cache) × (inode_create 3 0 true disk ≡ some (true, d'))
    × (inode_open 3 no_inodes d'.cache ≡ some (0, opened_table no_inodes 3 (new_inode 0 true), c'))
unfolding inode_reserve find_open
create_then_open_example =
    create_then_open 3 0 true no_inodes disk disk (new_inode 0 true) refl refl cache_ok.valid
      (omega (arith, sectors_small)) made-IsStorable

-- The file above, read as a directory.
lookup_refines_example :
    (o : Option (DirEntry × ℕ)) × (c' : Cache) × (lookup (5 ∷ []) cache file ≡ some (o, c'))
    × FindsName (file_byte (contents cache) cache.device.size file) 600 (5 ∷ []) o
    × Refines cache (contents cache) c'
lookup_refines_example =
    lookup_refines cache file (5 ∷ []) cache_ok.valid cache-IsSized
      (file-IsMapped (contents cache) cache.device.size (omega (arith, sectors_small)))

dir_is_empty_refines_example :
    (empty : Bool) × (c' : Cache) × (dir_is_empty cache file ≡ some (empty, c'))
    × Tells (file_byte (contents cache) cache.device.size file) 600 empty
    × Refines cache (contents cache) c'
dir_is_empty_refines_example =
    dir_is_empty_refines cache file cache_ok.valid cache-IsSized
      (file-IsMapped (contents cache) cache.device.size (omega (arith, sectors_small)))

-- The file above, open at position 500.
abbrev open_file : File
open_file = record { inode = 0; pos = pos 500; deny_write = false }

abbrev file_system : FileSys bits_lib
file_system = record {
  disk = disk;
  inodes = record {
    open_inodes = 0 ∷ [];
    inode_at = λ a. (if a == 0 then some inode else none);
    fresh = 1;
  };
  dirs = λ a. none;
  files = λ a. (if a == 0 then some open_file else none);
  fresh = 1;
  cwd = none;
  file_table = [];
  free_map_file = none;
}

file_write_refines_example :
    (s' : FileSys bits_lib) × (v' : ℕ → Sector) × (file_write 0 (replicate 30 7) 30 file_system
      ≡ some (30, set (replicate 30 7) 29 0, s'))
    × (file_tell 0 s' ≡ some (sub_ℕ 530 2))
    × Shows v' cache.device.size s'.disk.cache
    × Written (contents cache) v' cache.device.size file 500 30 (set (replicate 30 7) 29 0)
file_write_refines_example =
    file_write_refines 0 500 0 false inode (replicate 30 7) 30 file_system refl refl refl
      cache_ok.valid cache-IsSized
      (file-IsWritable (contents cache) cache.device.size (omega (arith, sectors_small)))
      (omega (arith, sectors_small)) (omega arith) (omega arith) (omega arith)

free_slot_offset_refines_example :
    (ofs : ℕ) × (c' : Cache) × (free_slot_offset (rounds file + 1) cache file 0 ≡ some (ofs, c'))
    × ((k : ℕ) × StopsAt (file_byte (contents cache) cache.device.size file) 600 0 ofs k)
    × Refines cache (contents cache) c'
free_slot_offset_refines_example =
    free_slot_offset_refines cache file cache_ok.valid cache-IsSized
      (file-IsMapped (contents cache) cache.device.size (omega (arith, sectors_small)))

-- The file above, open as a directory at its second entry.
abbrev reader : Dir
reader = record { inode = 0; pos = 36; open_cnt = pos 1 }

abbrev reading : FileSys bits_lib
reading = record file_system { dirs = λ a. (if a == 0 then some reader else none) }

dir_readdir_refines_example :
    (o : Option (DirEntry × ℕ)) × (p : ℕ) × (c : Cache) × (dir_readdir 0 reading
      ≡ some (name_given o, read_to 0 reader p c reading))
    × (dir_readdir_inode 0 reading ≡ some (sector_given o, read_to 0 reader p c reading))
    × Finds (file_byte (contents cache) cache.device.size file) 600 (λ e. e.in_use) 1 o
    × IsBehind 36 o p
    × Refines cache (contents cache) c
dir_readdir_refines_example =
    dir_readdir_refines 0 1 reader inode reading refl refl refl cache_ok.valid cache-IsSized
      (file-IsMapped (contents cache) cache.device.size (omega (arith, sectors_small)))
