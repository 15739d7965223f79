-- ===== src/A3/Fs/Mount.antt =====
-- a3/fs/free-map.c and a3/fs/filesys.c: the file of the free map, and the start and end of the file
-- system. The file of the free map is in sector 0.
use mock_os.Prelude.{ℕ, Bool, true, false, Option, none, some, ◌++◌, codes, if◌then◌else◌}
use mock_os.A3.Exec.{Exec, pure, demand, crash, gets, ◌>>=◌, ◌>>◌}
use mock_os.A3.Fs.Cache.{buffer_cache_init, buffer_cache_close}
use mock_os.A3.Fs.FreeMap.{BitmapLib, Disk, free_map_init, num_free_sectors}
use mock_os.A3.Fs.Inode.{inode_init, inode_create}
use mock_os.A3.Fs.State.{open_sector}
use mock_os.A3.Fs.Directory.{dir_create, root_dir_sector}
use mock_os.A3.Fs.File.{file_open, file_close, init_file_table, free_file_table}
use mock_os.A3.Fs.Io.{Host, Io, print, fs_call, fs_do}

abbrev pub free_map_sector : ℕ
free_map_sector = 0

abbrev pub max_files_in_directory : ℕ
max_files_in_directory = 1000

module _ {lib : BitmapLib} {W : Type 0} where
  open lib use {Bitmap, bitmap_file_size, bitmap_read, bitmap_write}

  abbrev pub change_disk : (Disk lib → Option (Disk lib)) → Exec (Io lib W) (Unit {0})
  change_disk f =
      fs_do (λ s. elim (f s.disk) [ none ↦ none | some d ↦ some (record s { disk = d }) ])

  -- The file of the free map is opened; its write and its read use it from then on.
  unfoldable pub open_map_file : Exec (Io lib W) (Unit {0})
  open_map_file = do
    a ← fs_call (open_sector free_map_sector)
    opened ← fs_call (file_open (some a))
    f ← demand opened
    fs_do (λ s.
        (let d : Disk lib = record (s.disk) { free_map_file = true } in
          some (record s { disk = d; free_map_file = some f })))

  unfoldable pub free_map_open : Exec (Io lib W) (Unit {0})
  free_map_open = do
    open_map_file
    change_disk (λ d. elim (bitmap_read d.free_map d.cache) [
      | none ↦ none
      | some (done, map_, c) ↦
          let read : Option (Disk lib) = some (record d { free_map = map_; cache = c }) in
          if done then read else none
    ])

  -- The pointer is kept, to a file that is freed.
  unfoldable pub free_map_close : Exec (Io lib W) (Unit {0})
  free_map_close = fs_do (λ s. file_close s.free_map_file s)

  unfoldable pub free_map_create : Exec (Io lib W) (Unit {0})
  free_map_create = do
    size ← gets (λ s. bitmap_file_size s.fs.disk.free_map)
    made ← fs_call (λ s. elim (inode_create free_map_sector size false s.disk) [
      | none ↦ none
      | some (done, d) ↦ some (done, record s { disk = d })
    ])
    (if made then open_map_file else crash)
    change_disk (λ d. elim (bitmap_write d.free_map d.cache) [
      | none ↦ none
      | some (done, c) ↦
          let written : Option (Disk lib) = some (record d { cache = c }) in
          if done then written else none
    ])

  unfoldable pub do_format : Exec (Io lib W) (Unit {0})
  do_format = do
    print (codes "Formatting file system...")
    free_map_create
    made ← fs_call (dir_create root_dir_sector max_files_in_directory)
    (if made then pure tt else crash)
    free_map_close
    print (codes "done.")

  unfoldable pub filesys_init : Host W → Bool → Exec (Io lib W) (Unit {0})
  filesys_init host format = do
    fs_do (λ s. some (record s { inodes = inode_init s.inodes }))
    change_disk free_map_init
    change_disk (λ d. some (record d { cache = buffer_cache_init d.cache }))
    (if format then do_format else pure tt)
    free_map_open
    free ← gets (λ s. num_free_sectors s.fs.disk)
    print (codes "Num free sectors: " ++ host.decimal free)
    fs_do (λ s. some (init_file_table s))

  unfoldable pub filesys_done : Exec (Io lib W) (Unit {0})
  filesys_done = do
    free_map_close
    change_disk (λ d. elim (buffer_cache_close d.cache) [
      | none ↦ none
      | some c ↦ some (record d { cache = c })
    ])
    fs_do free_file_table
