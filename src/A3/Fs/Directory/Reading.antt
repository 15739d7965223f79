-- ===== src/A3/Fs/Directory/Reading.antt =====
-- a3/fs/directory.c: what `dir_readdir` and `dir_readdir_inode` give of a directory.
use mathlib.Core.Path.{subst}
use mock_os.Prelude.{
  ◌-◌, ℕ, zero, suc, ◌+◌, ◌*◌, ◌^◌, ◌≡◌, refl, ◌∙◌, ap, inl, inr, Option, none, some, Text,
  Bool-cases, Option-cases, ◌==◌, arith,
}
use mock_os.A3.Fs.Layout.{InodeDisk}
use mock_os.A3.Fs.Cache.{Cache}
use mock_os.A3.Fs.Cache.Evict.{IsValid, contents}
use mock_os.A3.Fs.Cache.Refine.{Refines}
use mock_os.A3.Fs.InodeIo.{inode_read_at}
use mock_os.A3.Fs.InodeIo.Bytes.{file_byte}
use mock_os.A3.Fs.InodeIo.Read.{IsMapped, IsSized, Shows}
use mock_os.A3.Fs.FreeMap.{BitmapLib}
use mock_os.A3.Fs.Inode.{Inode}
use mock_os.A3.Fs.DirEntry.{DirEntry, c_string, decode_entry, find_entry, next_in_use, rounds}
use mock_os.A3.Fs.DirEntry.Search.{Finds, find_entry_refines}
use mock_os.A3.Fs.State.{Dir, FileSys, store_at}
use mock_os.A3.Fs.Directory.{read_next, dir_readdir, dir_readdir_inode}

-- Where the position is after a search that began at another one: behind the entry found, or some
-- whole entries further.
abbrev pub IsBehind : ℕ → Option (DirEntry × ℕ) → ℕ → Type 0
IsBehind start none pos = (m : ℕ) × (pos ≡ start + 36 * m)
IsBehind start (some (e, ofs)) pos = pos ≡ ofs + 36

abbrev entry_of : Option (DirEntry × ℕ) → Option DirEntry
entry_of none = none
entry_of (some (e, ofs)) = some e

-- A reading that goes as a search for an entry in use does.
abbrev Follows :
    ℕ → Option (Option (DirEntry × ℕ) × Cache) → Option (Option DirEntry × ℕ × Cache) → Type 0
Follows start none r = Unit
Follows start (some (o, c)) r = (pos : ℕ) × (r ≡ some (entry_of o, pos, c)) × IsBehind start o pos

IsBehind-later :
    (start : ℕ) (o : Option (DirEntry × ℕ)) (pos : ℕ)
    → IsBehind (start + 36) o pos
    → IsBehind start o pos
IsBehind-later start none pos (m, e) = (m + 1, omega (arith, e))
IsBehind-later start (some (e, ofs)) pos h = h

Follows-later :
    (start : ℕ) (x : Option (Option (DirEntry × ℕ) × Cache))
    (r : Option (Option DirEntry × ℕ × Cache))
    → Follows (start + 36) x r
    → Follows start x r
Follows-later start none r h = tt
Follows-later start (some (o, c)) r (pos, e, behind) = (pos, e, IsBehind-later start o pos behind)

next_in_use-Follows :
    (fuel start : ℕ) (c : Cache) (d : InodeDisk)
    → Follows start (find_entry fuel (λ e. e.in_use) c d start) (next_in_use fuel c d start)
unfolding find_entry next_in_use
next_in_use-Follows zero start c d = tt
next_in_use-Follows (suc fuel) start c d = elim (Option-cases (inode_read_at c d 36 start)) [
  | inl bad ↦ rw bad tt
  | inr ((b, n, c₁), run) ↦ elim (Bool-cases (n == 36)) [
    | inr short ↦ rw (run, short) (start, refl, (0, omega arith))
    | inl full ↦ elim (Bool-cases (decode_entry b).in_use) [
      | inl used ↦ rw (run, full, used) (start + 36, refl, refl)
      | inr free ↦
          rw (run, full, free)
            (Follows-later start _ _ (next_in_use-Follows fuel (start + 36) c₁ d))
    ]
  ]
]

-- The results of the two functions.
abbrev pub name_given : Option (DirEntry × ℕ) → Option Text
name_given none = none
name_given (some (e, ofs)) = some (c_string e.name)

abbrev pub sector_given : Option (DirEntry × ℕ) → ℕ
sector_given none = 2 ^ 32 - 1
sector_given (some (e, ofs)) = e.inode_sector

module _ {lib : BitmapLib} where
  -- The file system after a directory was read up to a position.
  abbrev pub read_to : ℕ → Dir → ℕ → Cache → FileSys lib → FileSys lib
  read_to p dir pos c s = record s {
    disk = record (s.disk) { cache = c };
    dirs = store_at s.dirs p (some (record dir { pos = pos }));
  }

  read_next_run :
      (p : ℕ) (dir : Dir) (i : Inode) (s : FileSys lib) {o : Option DirEntry} {pos : ℕ} {c : Cache}
      → s.dirs p ≡ some dir
      → s.inodes.inode_at dir.inode ≡ some i
      → next_in_use (rounds i.data_ + 1) s.disk.cache i.data_ dir.pos ≡ some (o, pos, c)
      → read_next p s ≡ some (o, read_to p dir pos c s)
  unfolding read_next
  read_next_run p dir i s at inode run = rw (at, inode, run) refl

  readdir_run :
      (p : ℕ) (s s' : FileSys lib) (o : Option (DirEntry × ℕ))
      → read_next p s ≡ some (entry_of o, s')
      → (dir_readdir p s ≡ some (name_given o, s'))
        × (dir_readdir_inode p s ≡ some (sector_given o, s'))
  unfolding dir_readdir dir_readdir_inode
  readdir_run p s s' none run = (rw run refl, rw run refl)
  readdir_run p s s' (some (e, ofs)) run = (rw run refl, rw run refl)

  -- For an open directory whose position is that of an entry, over a valid cache in front of a
  -- disk of 512-byte sectors on which every block of the directory has a sector, dir_readdir and
  -- dir_readdir_inode end: they give the name and the sector of the first whole entry from the
  -- position on that is in use, and move the position behind it, or they give nothing and -1, as
  -- no such entry is left, and move it over whole entries. Nothing else of the file system
  -- changes, and the disk shows the same content.
  pub dir_readdir_refines :
      (p k : ℕ) (dir : Dir) (i : Inode) (s : FileSys lib)
      → s.dirs p ≡ some dir
      → s.inodes.inode_at dir.inode ≡ some i
      → dir.pos ≡ 36 * k
      → IsValid s.disk.cache
      → IsSized (contents s.disk.cache)
      → IsMapped (contents s.disk.cache) s.disk.cache.device.size i.data_
      → (o : Option (DirEntry × ℕ)) × (pos : ℕ) × (c : Cache) × (dir_readdir p s
          ≡ some (name_given o, read_to p dir pos c s))
        × (dir_readdir_inode p s ≡ some (sector_given o, read_to p dir pos c s))
        × Finds
            (file_byte (contents s.disk.cache) s.disk.cache.device.size i.data_)
            i.data_.length
            (λ e. e.in_use)
            k
            o
        × IsBehind dir.pos o pos
        × Refines s.disk.cache (contents s.disk.cache) c
  dir_readdir_refines p k dir i s at inode aligned valid sized mapped =
      let c₀ = s.disk.cache in
      let d = i.data_ in
      let now : Shows (contents c₀) c₀.device.size c₀ = record {
        valid = valid;
        content = λ s. refl;
        size = refl;
      } in
      let (o, c, found, finds, h) =
        find_entry_refines (contents c₀) c₀.device.size d (λ e. e.in_use) sized mapped
          (rounds d + 1) k c₀ (omega arith) (omega arith) now in
      let follows : Follows dir.pos (some (o, c)) (next_in_use (rounds d + 1) c₀ d dir.pos) =
        subst (λ x. Follows dir.pos x (next_in_use (rounds d + 1) c₀ d dir.pos))
          (ap (λ q. find_entry (rounds d + 1) (λ e. e.in_use) c₀ d q) aligned ∙ found)
          (next_in_use-Follows (rounds d + 1) dir.pos c₀ d) in
      let (pos, run, behind) = follows in
      let both = readdir_run p s (read_to p dir pos c s) o (read_next_run p dir i s at inode run) in
      (
        o,
        pos,
        c,
        both.0,
        both.1,
        finds,
        behind,
        record { valid = h.valid; content = h.content; size = h.size },
      )
