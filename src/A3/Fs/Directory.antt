-- ===== src/A3/Fs/Directory.antt =====
-- a3/fs/directory.c: opening and closing directories, and adding, finding and removing their entries.
pub mod Paths
pub mod Reading
use mock_os.Prelude.{
  ℕ, zero, suc, ◌+◌, ◌-◌, ◌*◌, ◌^◌, Bool, true, false, not, ◌&&◌, ◌||◌, Option, none, some, List,
  [], ◌∷◌, ◌++◌, Text, text_eq, take, length, replicate, ltb, ◌==◌, if◌then◌else◌,
}
use mock_os.Prelude.Int.{pos, ◌-ℤ◌, ◌+ℤ◌}
use mock_os.A3.Fs.Layout.{InodeDisk}
use mock_os.A3.Fs.Cache.{Cache, ◌>>=◌}
use mock_os.A3.Fs.FreeMap.{BitmapLib, Disk}
use mock_os.A3.Fs.Inode.{Inode, inode_create, inode_reopen}
use mock_os.A3.Fs.DirEntry.{
  DirEntry, encode_entry, decode_entry, c_string, name_max, entry_size, lookup, dir_is_empty,
  next_in_use, free_slot_offset, rounds,
}
use mock_os.A3.Fs.State.{
  Dir, FileSys, store_at, open_sector, close_inode, read_inode, write_inode, change_inode,
}

abbrev pub root_dir_sector : ℕ
root_dir_sector = 1

-- The tokens of `strtok_r` with "/"; the first argument is the token that has begun.
unfoldable pub tokens_from : Text → Text → List Text
tokens_from [] [] = []
tokens_from (t ∷ ts) [] = (t ∷ ts) ∷ []
tokens_from [] (c ∷ cs) = if c == 47 then tokens_from [] cs else tokens_from (c ∷ []) cs
tokens_from (t ∷ ts) (c ∷ cs) =
    let next = tokens_from [] cs in
    let longer = tokens_from ((t ∷ ts) ++ (c ∷ [])) cs in
    if c == 47 then (t ∷ ts) ∷ next else longer

abbrev pub tokens : Text → List Text
tokens path = tokens_from [] path

unfoldable pub is_absolute : Text → Bool
is_absolute [] = false
is_absolute (c ∷ cs) = c == 47

-- The loop of `split_path_filename`: `last_token` goes to the directory when the next token comes.
unfoldable pub split_tokens : Text → Text → List Text → Text × Text
split_tokens dir last_token [] = (dir, last_token)
split_tokens dir [] (t ∷ ts) = split_tokens dir t ts
split_tokens dir (c ∷ cs) (t ∷ ts) = split_tokens (dir ++ ((c ∷ cs) ++ (47 ∷ []))) t ts

-- `split_path_filename`: the directory and the file name
unfoldable pub split_path_filename : Text → Text × Text
split_path_filename path = split_tokens (if is_absolute path then 47 ∷ [] else []) [] (tokens path)

-- `strncpy` of a name of at most 30 characters into the 31 bytes of an entry
unfoldable pub name_bytes : Text → List ℕ
name_bytes name = name ++ replicate (31 - length name) 0

module _ {lib : BitmapLib} where
  -- `dir_open`, which takes a null pointer as well
  unfoldable pub dir_open : Option ℕ → FileSys lib → Option (Option ℕ × FileSys lib)
  dir_open none s = some (none, s)
  dir_open (some a) s =
      let dir : Dir = record { inode = a; pos = entry_size; open_cnt = pos 1 } in
      some
        (some s.fresh, record s { dirs = store_at s.dirs s.fresh (some dir); fresh = s.fresh + 1 })

  unfoldable pub dir_open_root : FileSys lib → Option (Option ℕ × FileSys lib)
  dir_open_root s = elim (s.cwd) [
    | none ↦ open_sector root_dir_sector s >>= λ r.
        dir_open (some r.0) r.1 >>= λ o. some (o.0, record (o.1) { cwd = o.0 })
    | some p ↦ s.dirs p >>= λ dir.
        (let more : Dir = record dir { open_cnt = dir.open_cnt +ℤ pos 1 } in
          some (some p, record s { dirs = store_at s.dirs p (some more) }))
  ]

  unfoldable pub dir_reopen : ℕ → FileSys lib → Option (Option ℕ × FileSys lib)
  dir_reopen p s = s.dirs p >>= λ dir. dir_open (some (inode_reopen dir.inode s.inodes).0) s

  unfoldable pub dir_close : Option ℕ → FileSys lib → Option (FileSys lib)
  dir_close none s = some s
  dir_close (some p) s = s.dirs p >>= λ dir. elim (dir.open_cnt -ℤ pos 1) [
    | pos zero ↦ close_inode dir.inode s >>= λ s'.
        some (record s' { dirs = store_at s'.dirs p none; cwd = none })
    | left ↦
        let less : Dir = record dir { open_cnt = left } in
        some (record s { dirs = store_at s.dirs p (some less) })
  ]

  -- A search in the inode at an address, `lookup` or `dir_is_empty`, in the whole state.
  unfoldable pub search_inode {ℓ} :
      {A : Type ℓ}
      → ℕ
      → (Cache → InodeDisk → Option (A × Cache))
      → FileSys lib
      → Option (A × FileSys lib)
  search_inode a run s = s.inodes.inode_at a >>= λ i. run s.disk.cache i.data_ >>= λ r.
      (let d : Disk lib = record (s.disk) { cache = r.1 } in some (r.0, record s { disk = d }))

  unfoldable pub dir_create : ℕ → ℕ → FileSys lib → Option (Bool × FileSys lib)
  dir_create sector entry_cnt s = inode_create sector (entry_cnt * entry_size) true s.disk >>= λ r.
      (let made : FileSys lib = record s { disk = r.1 } in
        let self : DirEntry = record {
          inode_sector = sector;
          name = replicate 31 0;
          in_use = true;
        } in
        let filled = open_sector sector made >>= λ o. dir_open (some o.0) o.1 >>= λ p.
        write_inode o.0 (encode_entry self) entry_size 0 p.1 >>= λ w.
        dir_close p.0 w.1 >>= λ s'. some (w.0 == entry_size, s') in
        if r.0 then filled else some (false, made))

  -- `dir_lookup`: the inode, or the null pointer
  unfoldable pub dir_lookup : ℕ → Text → FileSys lib → Option (Option ℕ × FileSys lib)
  dir_lookup p name s = s.dirs p >>= λ dir.
      (let parent = read_inode dir.inode entry_size 0 s >>= λ r.
      (if r.1 == entry_size
        then (open_sector (decode_entry r.0).inode_sector r.2 >>= λ o. some (some o.0, o.1))
        else none) in
        let child = search_inode dir.inode (lookup name) s >>= λ r. elim (r.0) [
          | none ↦ some (none, r.1)
          | some (e, ofs) ↦ open_sector e.inode_sector r.1 >>= λ o. some (some o.0, o.1)
        ] in
        if text_eq name (46 ∷ [])
        then some (some (inode_reopen dir.inode s.inodes).0, s)
        else if text_eq name (46 ∷ 46 ∷ [])
        then parent
        else child)

  -- The loop of `dir_open_path` over the tokens of the path.
  unfoldable pub traverse : ℕ → List Text → FileSys lib → Option (Option ℕ × FileSys lib)
  traverse curr [] s = some (some curr, s)
  traverse curr (token ∷ ts) s = dir_lookup curr token s >>= λ found. elim (found.0) [
    | none ↦ dir_close (some curr) found.1 >>= λ s'. some (none, s')
    | some a ↦ dir_open (some a) found.1 >>= λ next. dir_close (some curr) next.1 >>= λ s'.
        elim (next.0) [ none ↦ some (none, s') | some p ↦ traverse p ts s' ]
  ]

  unfoldable pub dir_open_path : Text → FileSys lib → Option (Option ℕ × FileSys lib)
  dir_open_path path s =
      let relative : Option (Option ℕ × FileSys lib) = elim (s.cwd) [
        | none ↦ dir_open_root s
        | some p ↦ dir_reopen p s
      ] in
      (if is_absolute path then dir_open_root s else relative) >>= λ start. elim (start.0) [
        | none ↦ none
        | some curr ↦ traverse curr (tokens path) start.1 >>= λ last. elim (last.0) [
          | none ↦ some (none, last.1)
          | some p ↦ last.1.dirs p >>= λ dir. last.1.inodes.inode_at dir.inode >>= λ i.
              (let closed = dir_close (some p) last.1 >>= λ s'. some (none, s') in
                if i.removed then closed else some (some p, last.1))
        ]
      ]

  -- The part of `dir_add` that tells a new directory its parent. The name in that entry is what the
  -- stack held, `junk`.
  unfoldable pub tell_parent : List ℕ → ℕ → ℕ → FileSys lib → Option (Bool × FileSys lib)
  tell_parent junk parent inode_sector s = open_sector inode_sector s >>= λ o.
      dir_open (some o.0) o.1 >>= λ child.
      (let e : DirEntry = record { inode_sector = parent; name = junk; in_use = true } in
        write_inode o.0 (encode_entry e) entry_size 0 child.1 >>= λ w.
        dir_close child.0 w.1 >>= λ s'. some (w.0 == entry_size, s'))

  -- The end of `dir_add`: the entry goes to the first slot that is free, or to the end.
  unfoldable pub write_slot : ℕ → Text → ℕ → FileSys lib → Option (Bool × FileSys lib)
  write_slot a name inode_sector s =
      search_inode a (λ c i. free_slot_offset (rounds i + 1) c i 0) s >>= λ slot.
      (let e : DirEntry = record {
        inode_sector = inode_sector;
        name = name_bytes name;
        in_use = true;
      } in
        write_inode a (encode_entry e) entry_size slot.0 slot.1 >>= λ w.
        some (w.0 == entry_size, w.1))

  unfoldable pub dir_add : List ℕ → ℕ → Text → ℕ → Bool → FileSys lib → Option (Bool × FileSys lib)
  dir_add junk p name inode_sector is_dir s =
      let new = s.dirs p >>= λ dir. search_inode dir.inode (lookup name) s >>= λ found.
      elim (found.0) [
        | some e ↦ some (false, found.1)
        | none ↦ found.1.inodes.inode_at dir.inode >>= λ i.
            (if is_dir
              then tell_parent junk i.sector inode_sector found.1
              else some (true, found.1))
            >>= λ told.
                (let slot = write_slot dir.inode name inode_sector told.1 in
                  if told.0 then slot else some (false, told.1))
      ] in
      if (length name == 0) || ltb name_max (length name) then some (false, s) else new

  -- The test of `dir_remove` whether the directory in the inode at the address is empty.
  unfoldable pub target_is_empty : ℕ → FileSys lib → Option (Bool × FileSys lib)
  target_is_empty a s = dir_open (some a) s >>= λ o. search_inode a dir_is_empty o.1 >>= λ empty.
      dir_close o.0 empty.1 >>= λ s'. some (empty.0, s')

  -- May the inode at the address go?
  unfoldable pub may_remove : ℕ → FileSys lib → Option (Bool × FileSys lib)
  may_remove a s = s.inodes.inode_at a >>= λ i.
      (let target = target_is_empty a s in if i.data_.is_dir then target else some (true, s))

  -- The end of `dir_remove`: the entry is erased and the inode marked.
  unfoldable pub erase : ℕ → ℕ → DirEntry → ℕ → FileSys lib → Option (Bool × FileSys lib)
  erase base a e ofs s =
      let gone : DirEntry = record e { in_use = false } in
      write_inode base (encode_entry gone) entry_size ofs s >>= λ w.
      (let marked =
          change_inode a (λ i. some (record i { removed = true })) w.1 >>= λ s'. some (true, s') in
        if w.0 == entry_size then marked else some (false, w.1))

  unfoldable pub dir_remove : ℕ → Text → FileSys lib → Option (Bool × FileSys lib)
  dir_remove p name s = s.dirs p >>= λ dir. search_inode dir.inode (lookup name) s >>= λ found.
      elim (found.0) [
        | none ↦ some (false, found.1)
        | some (e, ofs) ↦ open_sector e.inode_sector found.1 >>= λ o. may_remove o.0 o.1 >>= λ may.
            (if may.0 then erase dir.inode o.0 e ofs may.1 else some (false, may.1)) >>= λ done.
            close_inode o.0 done.1 >>= λ s'. some (done.0, s')
      ]

  -- `dir_readdir` and `dir_readdir_inode`: the entry, and the directory's position behind it
  unfoldable pub read_next : ℕ → FileSys lib → Option (Option DirEntry × FileSys lib)
  read_next p s = s.dirs p >>= λ dir. s.inodes.inode_at dir.inode >>= λ i.
      next_in_use (rounds i.data_ + 1) s.disk.cache i.data_ dir.pos >>= λ r.
      (let d : Disk lib = record (s.disk) { cache = r.2 } in
        let moved : Dir = record dir { pos = r.1 } in
        some (r.0, record s { disk = d; dirs = store_at s.dirs p (some moved) }))

  unfoldable pub dir_readdir : ℕ → FileSys lib → Option (Option Text × FileSys lib)
  dir_readdir p s = read_next p s >>= λ r. elim (r.0) [
    | none ↦ some (none, r.1)
    | some e ↦ some (some (c_string e.name), r.1)
  ]

  -- The sector is -1 at the end.
  unfoldable pub dir_readdir_inode : ℕ → FileSys lib → Option (ℕ × FileSys lib)
  dir_readdir_inode p s = read_next p s >>= λ r. elim (r.0) [
    | none ↦ some (2 ^ 32 - 1, r.1)
    | some e ↦ some (e.inode_sector, r.1)
  ]
