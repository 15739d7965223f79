-- ===== src/Tests/Directories.antt =====
-- Runs of the directories of assignment 3.
use mock_os.Prelude.{
  ◌≡◌, refl, true, false, none, some, [], ◌∷◌, ◌++◌, Text, replicate, ◌==◌, if◌then◌else◌,
}
use mock_os.Prelude.Int.{pos}
use mock_os.A3.Fs.Block.{Block}
use mock_os.A3.Fs.Layout.{InodeDisk, inode_magic}
use mock_os.A3.Fs.Cache.{Cache, Entry}
use mock_os.A3.Fs.FreeMap.{Disk}
use mock_os.A3.Fs.Inode.{Inode}
use mock_os.A3.Fs.State.{Dir, FileSys}
use mock_os.A3.Fs.Directory.{tokens_from, tokens, split_path_filename}
use mock_os.A3.Fs.Directory.Paths.{split_path_filename-tokens}
use mock_os.Tests.Bitmap.{bits_lib}

-- Sector 2 has the entry of a parent and that of a directory with the name "a" in sector 3.
abbrev device : Block
device = record {
  size = 4;
  store = λ s.
      (if s == 2
        then replicate 36 0 ++ (3 ∷ 0 ∷ 0 ∷ 0 ∷ 97 ∷ (replicate 30 0 ++ (1 ∷ [])))
        else replicate 512 5);
  read_cnt = 0;
  write_cnt = 0;
}

abbrev empty_slot : Entry
empty_slot = record {
  occupied = false;
  disk_sector = 0;
  buffer = [];
  dirty = false;
  access = false;
}

abbrev cache : Cache
cache = record { entries = replicate 64 empty_slot; clock = 0; device = device }

abbrev directory : InodeDisk
directory = record {
  direct_blocks = 2 ∷ replicate 122 0;
  indirect_block = 0;
  doubly_indirect_block = 0;
  is_dir = true;
  length = 72;
  magic = inode_magic;
}

abbrev directory_inode : Inode
directory_inode = record {
  sector = 1;
  open_cnt = pos 1;
  removed = false;
  deny_write_cnt = pos 0;
  data_ = directory;
}

abbrev open_dir : Dir
open_dir = record { inode = 0; pos = 36; open_cnt = pos 1 }

abbrev disk : Disk bits_lib
disk = record {
  cache = cache;
  free_map = record { size = 3; bit = λ k. true };
  free_map_file = true;
}

abbrev pub system : FileSys bits_lib
system = record {
  disk = disk;
  inodes = record {
    open_inodes = 0 ∷ [];
    inode_at = λ a. (if a == 0 then some directory_inode else none);
    fresh = 1;
  };
  dirs = λ a. (if a == 0 then some open_dir else none);
  files = λ a. none;
  fresh = 1;
  cwd = some 0;
  file_table = [];
  free_map_file = none;
}

-- "/a/b"
abbrev path : Text
path = 47 ∷ 97 ∷ 47 ∷ 98 ∷ []

split_path_filename-tokens_example :
    tokens (split_path_filename path).0 ++ ((split_path_filename path).1 ∷ []) ≡ tokens path
unfolding tokens_from
split_path_filename-tokens_example = split_path_filename-tokens path (97 ∷ []) ((98 ∷ []) ∷ []) refl
