-- ===== src/A3/Fs/DirEntry/Lookup.antt =====
-- a3/fs/directory.c: `lookup` finds the first entry in use with the name.
use mock_os.Prelude.{
  ℕ, ◌+◌, ◌*◌, ◌≤◌, ◌<◌, ◌≡◌, refl, ◌∙◌, ap, sym, Bool, true, false, Option, none, some, Text, ◌&&◌,
  text_eq_iff, arith,
}
use mock_os.A3.Fs.Layout.{InodeDisk}
use mock_os.A3.Fs.Cache.{Cache}
use mock_os.A3.Fs.Cache.Evict.{IsValid, contents}
use mock_os.A3.Fs.Cache.Refine.{Refines}
use mock_os.A3.Fs.InodeIo.Bytes.{file_byte}
use mock_os.A3.Fs.InodeIo.Read.{IsMapped, IsSized, Shows}
use mock_os.A3.Fs.DirEntry.{
  DirEntry, stored_name, has_name, find_entry, lookup, rounds, dir_is_empty,
}
use mock_os.A3.Fs.DirEntry.Search.{entry_at, Finds, find_entry_refines}

-- An entry in use with a name.
abbrev pub IsNamed : Text → DirEntry → Type 0
IsNamed name e = (e.in_use ≡ true) × (stored_name e ≡ name)

both : (a b : Bool) → (a && b) ≡ true → (a ≡ true) × (b ≡ true)
both true b h = (refl, h)
both false b h = absurd (cc h)

has_name-IsNamed : (name : Text) (e : DirEntry) → has_name name e ≡ true → IsNamed name e
unfolding has_name
has_name-IsNamed name e h =
    let (used, same) = both e.in_use _ h in (used, sym ((text_eq_iff name (stored_name e)).0 same))

IsNamed-has_name : (name : Text) (e : DirEntry) → IsNamed name e → has_name name e ≡ true
unfolding has_name
IsNamed-has_name name e (used, same) = cc (used, (text_eq_iff name (stored_name e)).1 (sym same))

has_name-not_IsNamed : (name : Text) (e : DirEntry) → has_name name e ≡ false → ¬ IsNamed name e
has_name-not_IsNamed name e h named = cc (h, IsNamed-has_name name e named)

-- The outcome of a search for a name among the whole entries behind that of the parent, in a file of
-- `len` bytes.
abbrev pub FindsName : (ℕ → ℕ) → ℕ → Text → Option (DirEntry × ℕ) → Type 0
FindsName f len name none = (k : ℕ) → 1 ≤ k → 36 * k + 36 ≤ len → ¬ IsNamed name (entry_at f k)
FindsName f len name (some (e, ofs)) =
    (k : ℕ) × (ofs ≡ 36 * k)
    × (1 ≤ k)
    × (36 * k + 36 ≤ len)
    × (e ≡ entry_at f k)
    × IsNamed name e
    × ((j : ℕ) → 1 ≤ j → j < k → ¬ IsNamed name (entry_at f j))

Finds-FindsName :
    (f : ℕ → ℕ) (len : ℕ) (name : Text) (o : Option (DirEntry × ℕ))
    → Finds f len (has_name name) 1 o
    → FindsName f len name o
Finds-FindsName f len name none h =
    λ k low room. has_name-not_IsNamed name (entry_at f k) (h k low room)
Finds-FindsName f len name (some (e, ofs)) (k, at, low, room, same, pass, before) = (
  k,
  at,
  low,
  room,
  same,
  has_name-IsNamed name e pass,
  λ j lo hi. has_name-not_IsNamed name (entry_at f j) (before j lo hi),
)

-- Over a valid cache in front of a disk of 512-byte sectors on which every block of the directory
-- has a sector, lookup ends, and the disk shows the same content: either it gives the first whole
-- entry behind that of the parent that is in use and has the name, with its offset, or it gives
-- none and no such entry is in the file.
pub lookup_refines :
    (c : Cache) (d : InodeDisk) (name : Text)
    → IsValid c
    → IsSized (contents c)
    → IsMapped (contents c) c.device.size d
    → (o : Option (DirEntry × ℕ)) × (c' : Cache) × (lookup name c d ≡ some (o, c'))
      × FindsName (file_byte (contents c) c.device.size d) d.length name o
      × Refines c (contents c) c'
unfolding lookup
lookup_refines c d name valid sized mapped =
    let now : Shows (contents c) c.device.size c = record {
      valid = valid;
      content = λ s. refl;
      size = refl;
    } in
    let (o, c', run, found, h) =
      find_entry_refines (contents c) c.device.size d (has_name name) sized mapped (rounds d) 1 c
        (omega arith) (omega arith) now in
    (
      o,
      c',
      run,
      Finds-FindsName (file_byte (contents c) c.device.size d) d.length name o found,
      record { valid = h.valid; content = h.content; size = h.size },
    )

-- What the answer of dir_is_empty says of the file.
abbrev pub Tells : (ℕ → ℕ) → ℕ → Bool → Type 0
Tells f len true = (k : ℕ) → 1 ≤ k → 36 * k + 36 ≤ len → (entry_at f k).in_use ≡ false
Tells f len false = (k : ℕ) × (1 ≤ k) × (36 * k + 36 ≤ len) × ((entry_at f k).in_use ≡ true)

answer :
    (c : Cache) (d : InodeDisk) (c' : Cache) (o : Option (DirEntry × ℕ))
    → find_entry (rounds d) (λ e. e.in_use) c d 36 ≡ some (o, c')
    → Finds (file_byte (contents c) c.device.size d) d.length (λ e. e.in_use) 1 o
    → Refines c (contents c) c'
    → (empty : Bool) × (last : Cache) × (dir_is_empty c d ≡ some (empty, last))
      × Tells (file_byte (contents c) c.device.size d) d.length empty
      × Refines c (contents c) last
unfolding dir_is_empty
answer c d c' none run found end = (true, c', rw run refl, found, end)
answer c d c' (some (e, ofs)) run (k, at, low, room, same, used, before) end =
    (false, c', rw run refl, (k, low, room, ap (λ x. x.in_use) (sym same) ∙ used), end)

-- Over a valid cache in front of a disk of 512-byte sectors on which every block of the directory
-- has a sector, dir_is_empty ends, and the disk shows the same content: it answers true when no
-- whole entry behind that of the parent is in use, and false when one is.
pub dir_is_empty_refines :
    (c : Cache) (d : InodeDisk)
    → IsValid c
    → IsSized (contents c)
    → IsMapped (contents c) c.device.size d
    → (empty : Bool) × (c' : Cache) × (dir_is_empty c d ≡ some (empty, c'))
      × Tells (file_byte (contents c) c.device.size d) d.length empty
      × Refines c (contents c) c'
dir_is_empty_refines c d valid sized mapped =
    let now : Shows (contents c) c.device.size c = record {
      valid = valid;
      content = λ s. refl;
      size = refl;
    } in
    let (o, c', run, found, h) =
      find_entry_refines (contents c) c.device.size d (λ e. e.in_use) sized mapped (rounds d) 1 c
        (omega arith) (omega arith) now in
    let end : Refines c (contents c) c' = record {
      valid = h.valid;
      content = h.content;
      size = h.size;
    } in
    answer c d c' o run found end
