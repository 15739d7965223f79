-- ===== src/A3/Fs/DirEntry.antt =====
-- a3/fs/directory.h and the loops over the entries of a directory in a3/fs/directory.c. A directory is
-- a file of entries of 36 bytes: a sector, a name of 31 bytes with its terminating zero, and a truth
-- value. The entry at offset 0 is that of the parent directory. `none` is a panic, or fuel that ran
-- out.
pub mod Search
pub mod Lookup
pub mod FreeSlot
use mock_os.Prelude.{
  ℕ, zero, suc, ◌+◌, ◌-◌, ◌/◌, Bool, true, false, not, ◌&&◌, Option, none, some, List, [], ◌∷◌,
  ◌++◌, Text, text_eq, take, drop, get_or, replicate, length, ◌==◌, if◌then◌else◌,
}
use mock_os.A3.Fs.Layout.{InodeDisk, word, word_bytes, bool_byte}
use mock_os.A3.Fs.Cache.{Cache, ◌>>=◌}
use mock_os.A3.Fs.InodeIo.{inode_read_at}

abbrev pub name_max : ℕ
name_max = 30

-- `sizeof(struct dir_entry)`
abbrev pub entry_size : ℕ
entry_size = 36

-- `struct dir_entry`, with the bytes of the name as they are.
pub record DirEntry : Type 0 where
  pub inode_sector : ℕ
  pub name : List ℕ
  pub in_use : Bool

-- The C string in a buffer.
unfoldable pub c_string : List ℕ → Text
c_string [] = []
c_string (c ∷ cs) = if c == 0 then [] else c ∷ c_string cs

unfoldable pub decode_entry : List ℕ → DirEntry
decode_entry b = record {
  inode_sector = word (get_or b 0 0) (get_or b 1 0) (get_or b 2 0) (get_or b 3 0);
  name = take 31 (drop 4 b);
  in_use = not (get_or b 35 0 == 0);
}

unfoldable pub encode_entry : DirEntry → List ℕ
encode_entry e = word_bytes e.inode_sector ++ (e.name ++ (bool_byte e.in_use ∷ []))

-- The C string at `e.name`. A name without a zero in its 31 bytes goes on into the next byte of the
-- structure, `in_use`; behind that byte, which is not 0 in an entry in use, the string is taken to
-- end.
unfoldable pub stored_name : DirEntry → Text
stored_name e = c_string (e.name ++ (bool_byte e.in_use ∷ []))

-- `e.in_use && !strcmp(name, e.name)`
unfoldable pub has_name : Text → DirEntry → Bool
has_name name e = e.in_use && text_eq name (stored_name e)

-- The first entry from `ofs` on that passes a test, with its offset.
unfoldable pub find_entry :
    ℕ → (DirEntry → Bool) → Cache → InodeDisk → ℕ → Option (Option (DirEntry × ℕ) × Cache)
find_entry zero test c d ofs = none
find_entry (suc fuel) test c d ofs = inode_read_at c d entry_size ofs >>= λ r.
    (let e = decode_entry r.0 in
      let next = find_entry fuel test r.2 d (ofs + entry_size) in
      if r.1 == entry_size
      then if test e then some (some (e, ofs), r.2) else next
      else some (none, r.2))

-- Rounds enough for every entry, and one more for the short read at the end.
abbrev pub rounds : InodeDisk → ℕ
rounds d = d.length / entry_size + 1

-- `lookup`
unfoldable pub lookup : Text → Cache → InodeDisk → Option (Option (DirEntry × ℕ) × Cache)
lookup name c d = find_entry (rounds d) (has_name name) c d entry_size

-- `dir_is_empty`
unfoldable pub dir_is_empty : Cache → InodeDisk → Option (Bool × Cache)
dir_is_empty c d = find_entry (rounds d) (λ e. e.in_use) c d entry_size >>= λ r.
    some ((elim (r.0) [ none ↦ true | some e ↦ false ]), r.1)

-- `dir_readdir` and `dir_readdir_inode`: the entry found, and the position afterwards, which is behind
-- the last entry read.
unfoldable pub next_in_use : ℕ → Cache → InodeDisk → ℕ → Option (Option DirEntry × ℕ × Cache)
next_in_use zero c d dir_pos = none
next_in_use (suc fuel) c d dir_pos = inode_read_at c d entry_size dir_pos >>= λ r.
    (let e = decode_entry r.0 in
      let next = next_in_use fuel r.2 d (dir_pos + entry_size) in
      if r.1 == entry_size
      then if e.in_use then some (some e, dir_pos + entry_size, r.2) else next
      else some (none, dir_pos, r.2))

-- The last loop of `dir_add`: the offset of the first entry that is not in use, or of the end.
unfoldable pub free_slot_offset : ℕ → Cache → InodeDisk → ℕ → Option (ℕ × Cache)
free_slot_offset zero c d ofs = none
free_slot_offset (suc fuel) c d ofs = inode_read_at c d entry_size ofs >>= λ r.
    (let e = decode_entry r.0 in
      let next = free_slot_offset fuel r.2 d (ofs + entry_size) in
      if r.1 == entry_size then if e.in_use then next else some (ofs, r.2) else some (ofs, r.2))
