-- ===== src/A3/Fs/InodeIo/Read.antt =====
-- a3/fs/inode.c: `inode_read_at` returns the bytes of the file.
use mathlib.Core.Path.{fun_ext}
use mock_os.Prelude.{
  ℕ, zero, suc, ◌+◌, ◌-◌, ◌*◌, ◌/◌, ◌%◌, ◌≤◌, ◌<◌, ◌≡◌, refl, ◌∙◌, ap, sym, inl, inr, false, ◌&&◌,
  Bool-cases, some, List, [], ◌∷◌, length, take, get_or, min, ltb, ltb→lt, ◌==◌, arith,
}
use mock_os.Prelude.Int.{pos}
use mock_os.A3.Fs.Block.{Sector}
use mock_os.A3.Fs.Layout.{InodeDisk}
use mock_os.A3.Fs.Cache.{Cache}
use mock_os.A3.Fs.Cache.Evict.{IsValid, contents}
use mock_os.A3.Fs.Cache.Refine.{Refines, read_refines}
use mock_os.A3.Fs.BlockMap.{no_sector, byte_to_sector}
use mock_os.A3.Fs.BlockMap.Refine.{block_of, byte_to_sector_refines}
use mock_os.A3.Fs.InodeIo.{chunk_size, copied, read_loop, inode_read_at}
use mock_os.A3.Fs.InodeIo.Bytes.{file_byte, slice, slice-append, slice-ext, take-drop-slice}

-- Every block of the file has a sector of the disk.
abbrev pub IsMapped : (ℕ → Sector) → ℕ → InodeDisk → Type 0
IsMapped v sectors d =
    (i : ℕ) → i * 512 < d.length → (s : ℕ) × (block_of v sectors d i ≡ some s) × (s < sectors)

abbrev pub IsSized : (ℕ → Sector) → Type 0
IsSized v = (s : ℕ) → length (v s) ≡ 512

-- A valid cache in front of a disk with that content.
pub record Shows (v : ℕ → Sector) (sectors : ℕ) (c : Cache) : Type 0 where
  pub valid : IsValid c
  pub content : (s : ℕ) → contents c s ≡ v s
  pub size : c.device.size ≡ sectors

pub Shows-kept :
    {v : ℕ → Sector} {sectors : ℕ} {c c' : Cache}
    → Shows v sectors c
    → Refines c (contents c) c'
    → Shows v sectors c'
Shows-kept h r = record {
  valid = r.valid;
  content = λ s. r.content s ∙ h.content s;
  size = r.size ∙ h.size;
}

-- What a round copies lies in the sector and in the file, and is something while bytes are left.
pub record Chunk (d : InodeDisk) (size offset chunk : ℕ) : Type 0 where
  pub asked : chunk ≤ size
  pub in_sector : offset % 512 + chunk ≤ 512
  pub in_file : chunk ≤ d.length - offset
  pub progress : 0 < size → offset < d.length → 0 < chunk

pub chunk_size-Chunk :
    (d : InodeDisk) (size offset : ℕ) → Chunk d size offset (chunk_size d size offset)
unfolding chunk_size
chunk_size-Chunk d size offset = record {
  asked = ground arith;
  in_sector = ground arith;
  in_file = ground arith;
  progress = λ p q. ground arith;
}

take_all : (s : List ℕ) (n : ℕ) → length s ≡ n → take n s ≡ s
take_all [] zero h = refl
take_all [] (suc n) h = refl
take_all (b ∷ s) zero h = absurd (omega arith)
take_all (b ∷ s) (suc n) h = ap (λ t. b ∷ t) (take_all s n (omega arith))

copied-slice :
    (s : Sector) (ofs chunk : ℕ)
    → length s ≡ 512
    → ofs + chunk ≤ 512
    → copied s ofs chunk ≡ slice (λ k. get_or s k 0) ofs chunk
unfolding copied
copied-slice s ofs chunk n h = elim (Bool-cases (ofs == 0 && chunk == 512)) [
  | inr part ↦ rw part (take-drop-slice s ofs chunk (omega arith))
  | inl full ↦
      let start : ofs ≡ 0 = ground (arith, full) in
      let all : chunk ≡ 512 = ground (arith, full) in
      rw full (rw (start, all) (sym (take_all s 512 n) ∙ take-drop-slice s 0 512 (omega arith)))
]

module _ (v : ℕ → Sector) (sectors : ℕ) (d : InodeDisk) where
  -- The bytes of a chunk are those of the file.
  pub part-file_byte :
      (offset chunk s k : ℕ)
      → offset % 512 + chunk ≤ 512
      → block_of v sectors d (offset / 512) ≡ some s
      → k < chunk
      → file_byte v sectors d (offset + k) ≡ get_or (v s) (offset % 512 + k) 0
  part-file_byte offset chunk s k h e lt =
      let q : (offset + k) / 512 ≡ offset / 512 = omega arith in
      let r : (offset + k) % 512 ≡ offset % 512 + k = omega arith in rw (q, r, e)

  -- The sector of a position of the file.
  pub find :
      (c : Cache) (offset : ℕ)
      → Shows v sectors c
      → IsMapped v sectors d
      → offset < d.length
      → (s : ℕ) × (c' : Cache) × (byte_to_sector c d (pos offset) ≡ some (s, c'))
        × (block_of v sectors d (offset / 512) ≡ some s)
        × (s < sectors)
        × Shows v sectors c'
  find c offset h mapped lt =
      let (s, at, inside) = mapped (offset / 512) (omega arith) in
      let same : block_of (contents c) c.device.size d (offset / 512) ≡ some s =
        rw (fun_ext h.content, h.size) at in
      let (c', run, done) = byte_to_sector_refines c d offset h.valid lt same in
      (s, c', run, at, inside, Shows-kept h done)

  -- A round copies the bytes of the file.
  round-slice :
      (offset chunk s : ℕ) {size : ℕ} (c : Cache)
      → Shows v sectors c
      → IsSized v
      → Chunk d size offset chunk
      → block_of v sectors d (offset / 512) ≡ some s
      → copied (contents c s) (offset % 512) chunk ≡ slice (file_byte v sectors d) offset chunk
  round-slice offset chunk s c h sized fits at = rw (h.content s) (
      copied-slice (v s) (offset % 512) chunk (sized s) fits.in_sector
      ∙ slice-ext _ _ _ _ chunk
          (λ k lt. sym (part-file_byte offset chunk s k fits.in_sector at lt)))

  past :
      (c : Cache) (offset : ℕ)
      → ltb offset d.length ≡ false
      → byte_to_sector c d (pos offset) ≡ some (no_sector, c)
  unfolding byte_to_sector
  past c offset e = rw e

  -- The bytes that can be read from a position on.
  abbrev pub readable : ℕ → ℕ → ℕ
  readable size offset = min size (d.length - offset)

  -- The loop ends with the bytes asked for, as far as the file has them.
  pub read_loop_refines :
      (fuel : ℕ) (c : Cache) (size offset : ℕ)
      → size < fuel
      → Shows v sectors c
      → IsSized v
      → IsMapped v sectors d
      → (c' : Cache) × (read_loop fuel c d size offset
          ≡ some (
            slice (file_byte v sectors d) offset (readable size offset),
            readable size offset,
            c',
          ))
        × Shows v sectors c'
  unfolding read_loop
  read_loop_refines zero c size offset lt h sized mapped = absurd (omega arith)
  read_loop_refines (suc fuel) c size offset lt h sized mapped = elim (Bool-cases (size == 0)) [
    | inl done ↦ let e : readable size offset ≡ 0 = ground (arith, done) in (c, rw (done, e), h)
    | inr more ↦ elim (Bool-cases (ltb offset d.length)) [
      | inr behind ↦
          let e : readable size offset ≡ 0 = ground (arith, behind) in
          let nothing : chunk_size d size offset ≡ 0 =
            ground (arith, (chunk_size-Chunk d size offset).in_file, behind) in
          (c, rw (more, past c offset behind, nothing, e), h)
      | inl inside ↦
          let chunk = chunk_size d size offset in
          let rest = readable (size - chunk) (offset + chunk) in
          let within : offset < d.length = ltb→lt _ _ inside in
          let fits = chunk_size-Chunk d size offset in
          let some_left : 0 < size = ground (arith, more) in
          let moves : 0 < chunk = fits.progress some_left within in
          let (s, c₁, run₁, at, known, h₁) = find c offset h mapped within in
          let (c₂, run₂, done) = read_refines c₁ s h₁.valid (omega (arith, h₁.size)) in
          let (c₃, run₃, h₃) =
            read_loop_refines fuel c₂ (size - chunk) (offset + chunk) (omega arith)
              (Shows-kept h₁ done) sized mapped in
          let going : chunk == 0 ≡ false = ground (arith, moves) in
          let total : chunk + rest ≡ readable size offset =
            omega (arith, fits.asked, fits.in_file) in
          (
            c₃,
            rw (more, run₁, going, run₂, run₃)
                (cc (
                  round-slice offset chunk s c₁ h₁ sized fits at,
                  slice-append (file_byte v sectors d) offset chunk rest,
                  total,
                )),
            h₃,
          )
    ]
  ]

-- Over a valid cache in front of a disk of 512-byte sectors on which every block of the file has
-- a sector, inode_read_at ends with the bytes of the file from the offset on, as many as were
-- asked for and as the file has behind the offset, and with their number; the disk shows the same
-- content.
pub inode_read_at_refines :
    (c : Cache) (d : InodeDisk) (size offset : ℕ)
    → IsValid c
    → IsSized (contents c)
    → IsMapped (contents c) c.device.size d
    → (c' : Cache) × (inode_read_at c d size offset
        ≡ some (
          slice (file_byte (contents c) c.device.size d) offset (min size (d.length - offset)),
          min size (d.length - offset),
          c',
        ))
      × Refines c (contents c) c'
unfolding inode_read_at
inode_read_at_refines c d size offset v sized mapped =
    let h : Shows (contents c) c.device.size c = record {
      valid = v;
      content = λ s. refl;
      size = refl;
    } in
    let (c', run, done) =
      read_loop_refines (contents c) c.device.size d (size + 1) c size offset (omega arith) h sized
        mapped in
    (c', run, record { valid = done.valid; content = done.content; size = done.size })
