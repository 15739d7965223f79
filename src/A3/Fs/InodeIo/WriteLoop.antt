-- ===== src/A3/Fs/InodeIo/WriteLoop.antt =====
-- a3/fs/inode.c: the rounds of `inode_write_at` together.
use mock_os.Prelude.{
  ℕ, zero, suc, ◌+◌, ◌-◌, ◌*◌, ◌/◌, ◌%◌, ◌≤◌, ◌<◌, ◌≡◌, refl, ◌∙◌, ap, sym, ◌≢◌, inl, inr, false,
  Bool-cases, some, List, length, take, drop, length-take, length-drop, ◌==◌, arith,
}
use mock_os.A3.Fs.Block.{Sector, update}
use mock_os.A3.Fs.Layout.{InodeDisk}
use mock_os.A3.Fs.Cache.{Cache}
use mock_os.A3.Fs.BlockMap.Refine.{block_of}
use mock_os.A3.Fs.InodeIo.{chunk_size, write_loop}
use mock_os.A3.Fs.InodeIo.Bytes.{file_byte}
use mock_os.A3.Fs.InodeIo.Patch.{get_or-drop, put_chunk_refines}
use mock_os.A3.Fs.InodeIo.Read.{IsSized, Shows, chunk_size-Chunk, find}
use mock_os.A3.Fs.InodeIo.Write.{
  IsWritable, splice, block_of-update, IsWritable-update, patched, patched-IsSized,
  file_byte-patched,
}

-- The disk after a write of `size` bytes at `offset` of a file.
pub record Written (v v' : ℕ → Sector) (sectors : ℕ) (d : InodeDisk) (offset size : ℕ)
    (buffer : List ℕ) : Type 0 where
  pub sized : IsSized v'
  pub writable : IsWritable v' sectors d
  pub bytes :
      (p : ℕ)
      → p < d.length
      → file_byte v' sectors d p ≡ splice (file_byte v sectors d) offset size buffer p
  pub blocks : (j : ℕ) → j * 512 < d.length → block_of v' sectors d j ≡ block_of v sectors d j
  pub others :
      (t : ℕ) → ((j : ℕ) → j * 512 < d.length → block_of v sectors d j ≢ some t) → v' t ≡ v t

-- A splice in two steps.
splice-then :
    (f g h : ℕ → ℕ) (offset chunk size p : ℕ) (buffer : List ℕ)
    → chunk ≤ size
    → h p ≡ splice g (offset + chunk) (size - chunk) (drop chunk buffer) p
    → g p ≡ splice f offset chunk buffer p
    → h p ≡ splice f offset size buffer p
splice-then f g h offset chunk size p buffer le e q =
    ground (arith, e, q, get_or-drop buffer chunk (p - (offset + chunk)))

module _ {sectors : ℕ} {d : InodeDisk} where
  Written-none :
      {v : ℕ → Sector} (offset : ℕ) (buffer : List ℕ)
      → IsSized v
      → IsWritable v sectors d
      → Written v v sectors d offset 0 buffer
  Written-none offset buffer sized w = record {
    sized = sized;
    writable = w;
    bytes = λ p lt. ground arith;
    blocks = λ j lt. refl;
    others = λ t h. refl;
  }

  Written-then :
      {v v₁ v₂ : ℕ → Sector} (offset chunk size : ℕ) (buffer : List ℕ)
      → chunk ≤ size
      → Written v v₁ sectors d offset chunk buffer
      → Written v₁ v₂ sectors d (offset + chunk) (size - chunk) (drop chunk buffer)
      → Written v v₂ sectors d offset size buffer
  Written-then {v} {v₁} {v₂} offset chunk size buffer le one two = record {
    sized = two.sized;
    writable = two.writable;
    bytes = λ p lt.
        splice-then (file_byte v sectors d) (file_byte v₁ sectors d) (file_byte v₂ sectors d) offset
          chunk size p buffer le (two.bytes p lt) (one.bytes p lt);
    blocks = λ j lt. two.blocks j lt ∙ one.blocks j lt;
    others = λ t h. two.others t (λ j lt e. h j lt (sym (one.blocks j lt) ∙ e)) ∙ one.others t h;
  }

  Written-chunk :
      {v : ℕ → Sector} (offset chunk s : ℕ) (buffer : List ℕ)
      → IsSized v
      → IsWritable v sectors d
      → offset < d.length
      → offset % 512 + chunk ≤ 512
      → chunk ≤ length buffer
      → s < sectors
      → block_of v sectors d (offset / 512) ≡ some s
      → Written v (update v s (patched v s offset chunk buffer)) sectors d offset chunk buffer
  Written-chunk {v} offset chunk s buffer sized w lt fits enough below at =
      let i = offset / 512 in
      let b = patched v s offset chunk buffer in
      let start : i * 512 < d.length = omega arith in
      record {
        sized = patched-IsSized w sized offset chunk s buffer lt fits enough at;
        writable = IsWritable-update w i s b start at below;
        bytes = file_byte-patched w sized offset chunk s buffer lt fits enough at;
        blocks = block_of-update w i s b start at;
        others = λ t h. ground (arith, not_here t (λ e. h i start (at ∙ ap some (sym e))));
      }
    where
      not_here : (t : ℕ) → t ≢ s → t == s ≡ false
      not_here t ne = ground (arith, ne)

  -- The loop ends with all of the buffer in the file, when the file is long enough for it.
  pub write_loop_refines :
      (fuel : ℕ) (c : Cache) (v : ℕ → Sector) (buffer : List ℕ) (size offset : ℕ)
      → size < fuel
      → Shows v sectors c
      → IsSized v
      → IsWritable v sectors d
      → size ≤ length buffer
      → offset + size ≤ d.length
      → (c' : Cache) × (v' : ℕ → Sector) × (write_loop fuel c d buffer size offset
          ≡ some (size, c'))
        × Shows v' sectors c'
        × Written v v' sectors d offset size buffer
  unfolding write_loop
  write_loop_refines zero c v buffer size offset lt h sized w enough room = absurd (omega arith)
  write_loop_refines (suc fuel) c v buffer size offset lt h sized w enough room =
      elim (Bool-cases (size == 0)) [
        | inl done ↦
            let e : size ≡ 0 = ground (arith, done) in
            (c, v, rw (done, e), h, rw e (Written-none offset buffer sized w))
        | inr more ↦
            let chunk = chunk_size d size offset in
            let fits = chunk_size-Chunk d size offset in
            let some_left : 0 < size = ground (arith, more) in
            let within : offset < d.length = omega arith in
            let moves : 0 < chunk = fits.progress some_left within in
            let (s, c₁, run₁, at, below, h₁) = find v sectors d c offset h w.mapped within in
            let (c₂, run₂, done) =
              put_chunk_refines c₁ s (offset % 512) chunk (take chunk buffer) h₁.valid
                (omega (arith, h₁.size)) (ap length (h₁.content s) ∙ sized s)
                (omega (arith, length-take {0} chunk buffer, fits.asked)) fits.in_sector moves in
            let v₁ = update v s (patched v s offset chunk buffer) in
            let one =
              Written-chunk offset chunk s buffer sized w within fits.in_sector
                (omega (arith, fits.asked)) below at in
            let h₂ : Shows v₁ sectors c₂ = record {
              valid = done.valid;
              content = λ t. done.content t ∙ cc (h₁.content t, h₁.content s);
              size = done.size ∙ h₁.size;
            } in
            let (c₃, v₂, run₃, h₃, rest) =
              write_loop_refines fuel c₂ v₁ (drop chunk buffer) (size - chunk) (offset + chunk)
                (omega arith) h₂ one.sized one.writable
                (omega (arith, length-drop {0} chunk buffer)) (omega (arith, fits.asked)) in
            let going : chunk == 0 ≡ false = ground (arith, moves) in
            let total : chunk + (size - chunk) ≡ size = omega (arith, fits.asked) in
            (
              c₃,
              v₂,
              rw (more, run₁, going, run₂, run₃) (rw total),
              h₃,
              Written-then offset chunk size buffer fits.asked one rest,
            )
      ]
