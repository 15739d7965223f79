-- ===== src/A3/Fs/FileSystem.antt =====
-- a3/fs/filesys.c: creating, opening and removing files by path, and changing the directory. The
-- buffers for the two parts of a path are taken as large enough.
use mock_os.Prelude.{
  ℕ, Bool, true, false, not, ◌&&◌, Option, none, some, List, Text, length, ◌==◌, if◌then◌else◌,
}
use mock_os.A3.Fs.Cache.{◌>>=◌}
use mock_os.A3.Fs.FreeMap.{BitmapLib, free_map_allocate, free_map_release}
use mock_os.A3.Fs.Inode.{inode_create}
use mock_os.A3.Fs.State.{FileSys}
use mock_os.A3.Fs.Directory.{
  split_path_filename, dir_open_root, dir_open_path, dir_close, dir_lookup, dir_add, dir_remove,
}
use mock_os.A3.Fs.File.{file_open}

module _ {lib : BitmapLib} where
  -- The nested conditions of `filesys_create`: success, the inode's sector (0 when none was allocated),
  -- and the state.
  unfoldable pub create_in :
      List ℕ → ℕ → Text → ℕ → Bool → FileSys lib → Option (Bool × ℕ × FileSys lib)
  create_in junk dir file_name initial_size is_dir s = free_map_allocate 1 s.disk >>= λ r.
      elim (r.0) [
        | none ↦ some (false, 0, record s { disk = r.1 })
        | some sector ↦ inode_create sector initial_size is_dir r.1 >>= λ made.
            (let s' : FileSys lib = record s { disk = made.1 } in
              let added =
                dir_add junk dir file_name sector is_dir s' >>= λ a. some (a.0, sector, a.1) in
              if made.0 then added else some (false, sector, s'))
      ]

  -- The sector is given back when something failed behind its allocation.
  unfoldable pub undo_create : Bool × ℕ × FileSys lib → Option (FileSys lib)
  undo_create (success, sector, s) =
      let released = free_map_release sector 1 s.disk >>= λ d. some (record s { disk = d }) in
      if not success && not (sector == 0) then released else some s

  unfoldable pub filesys_create :
      List ℕ → Text → ℕ → Bool → FileSys lib → Option (Bool × FileSys lib)
  filesys_create junk path initial_size is_dir s = dir_open_root s >>= λ o. elim (o.0) [
    | none ↦ some (false, o.1)
    | some dir ↦ create_in junk dir (split_path_filename path).1 initial_size is_dir o.1 >>= λ r.
        undo_create r >>= λ s'. dir_close (some dir) s' >>= λ last. some (r.0, last)
  ]

  -- The end of `filesys_open`, which refuses an inode that was removed.
  unfoldable pub open_found : Option ℕ → FileSys lib → Option (Option ℕ × FileSys lib)
  open_found none s = some (none, s)
  open_found (some a) s = s.inodes.inode_at a >>= λ i.
      (let opened = file_open (some a) s in if i.removed then some (none, s) else opened)

  -- `filesys_open`: without a file name the directory itself is opened, and not closed.
  unfoldable pub filesys_open : Text → FileSys lib → Option (Option ℕ × FileSys lib)
  filesys_open name s =
      let file_name = (split_path_filename name).1 in
      let found = dir_open_root s >>= λ o. elim (o.0) [
        | none ↦ some (none, o.1)
        | some dir ↦
            let itself = o.1.dirs dir >>= λ x. open_found (some x.inode) o.1 in
            let inside = dir_lookup dir file_name o.1 >>= λ r.
            dir_close (some dir) r.1 >>= λ s'. open_found r.0 s' in
            if length file_name == 0 then itself else inside
      ] in
      if length name == 0 then some (none, s) else found

  unfoldable pub filesys_remove : Text → FileSys lib → Option (Bool × FileSys lib)
  filesys_remove name s =
      let (directory, file_name) = split_path_filename name in
      dir_open_path directory s >>= λ o. elim (o.0) [
        | none ↦ some (false, o.1)
        | some dir ↦
            dir_remove dir file_name o.1 >>= λ r. dir_close (some dir) r.1 >>= λ s'. some (r.0, s')
      ]

  unfoldable pub filesys_chdir : Text → FileSys lib → Option (Bool × FileSys lib)
  filesys_chdir name s = dir_open_path name s >>= λ o. elim (o.0) [
    | none ↦ some (false, o.1)
    | some dir ↦ dir_close o.1.cwd o.1 >>= λ s'. some (true, record s' { cwd = some dir })
  ]
