-- ===== src/A3/Fs/InodeIo/Write.antt =====
-- a3/fs/inode.c: the loop of `inode_write_at` inside the file puts the buffer into the file's bytes.
use mathlib.Core.Option.{some-injective}
use mock_os.Prelude.{
  ℕ, ◌+◌, ◌-◌, ◌*◌, ◌/◌, ◌%◌, ◌≤◌, ◌<◌, ◌≡◌, refl, ◌∙◌, ap, sym, ◌≢◌, inl, inr, false, ◌&&◌,
  Bool-cases, Option-cases, some, List, length, take, get_or, length-take, leb, ltb, ◌==◌,
  if◌then◌else◌, arith,
}
use mock_os.A3.Fs.Block.{Sector, update}
use mock_os.A3.Fs.Layout.{InodeDisk}
use mock_os.A3.Fs.BlockMap.Refine.{block_at, block_of, block_at-content}
use mock_os.A3.Fs.InodeIo.{patch}
use mock_os.A3.Fs.InodeIo.Bytes.{byte_in, file_byte}
use mock_os.A3.Fs.InodeIo.Patch.{length-patch, get_or-patch, get_or-take}
use mock_os.A3.Fs.InodeIo.Read.{IsMapped, IsSized}

-- The blocks of the file have sectors of their own, and none of these holds block numbers that the
-- file uses.
pub record IsWritable (v : ℕ → Sector) (sectors : ℕ) (d : InodeDisk) : Type 0 where
  pub mapped : IsMapped v sectors d
  pub injective :
      (i j s : ℕ)
      → i * 512 < d.length
      → j * 512 < d.length
      → block_of v sectors d i ≡ some s
      → block_of v sectors d j ≡ some s
      → i ≡ j
  pub single :
      (i s : ℕ)
      → i * 512 < d.length
      → block_of v sectors d i ≡ some s
      → 123 * 512 < d.length
      → d.indirect_block ≢ s
  pub double :
      (i s : ℕ)
      → i * 512 < d.length
      → block_of v sectors d i ≡ some s
      → 251 * 512 < d.length
      → d.doubly_indirect_block ≢ s
  pub tables :
      (i s k t : ℕ)
      → i * 512 < d.length
      → block_of v sectors d i ≡ some s
      → (251 + 128 * k) * 512 < d.length
      → block_at v sectors d.doubly_indirect_block k ≡ some t
      → t ≢ s

-- The values of a function, but for `n` of them from `p` on, which come from a buffer.
abbrev pub splice : (ℕ → ℕ) → ℕ → ℕ → List ℕ → ℕ → ℕ
splice f p n buffer k = if leb p k && ltb k (p + n) then get_or buffer (k - p) 0 else f k

module _ {v : ℕ → Sector} {sectors : ℕ} {d : InodeDisk} (w : IsWritable v sectors d) (i s : ℕ)
    (b : Sector) (in_file : i * 512 < d.length) (at : block_of v sectors d i ≡ some s) where
  table-update : (t k : ℕ) → t ≢ s → block_at (update v s b) sectors t k ≡ block_at v sectors t k
  table-update t k ne =
      block_at-content (update v s b) v sectors sectors t k (ground (arith, ne)) refl

  -- A change of one of the file's data sectors does not move the file's blocks.
  pub block_of-update :
      (j : ℕ) → j * 512 < d.length → block_of (update v s b) sectors d j ≡ block_of v sectors d j
  block_of-update j lt = elim (Bool-cases (ltb j 123)) [
    | inl direct ↦ rw direct
    | inr behind ↦ elim (Bool-cases (ltb j 251)) [
      | inl single ↦
          let used : 123 * 512 < d.length = ground (arith, behind) in
          rw (behind, single)
            (table-update d.indirect_block (j - 123) (w.single i s in_file at used))
      | inr beyond ↦ elim (Bool-cases (ltb j 16635)) [
        | inr out ↦ rw (behind, beyond, out)
        | inl double ↦
            let q = (j - 251) / 128 in
            let used : 251 * 512 < d.length = ground (arith, beyond) in
            let table : (251 + 128 * q) * 512 < d.length =
              (let far : 251 ≤ j = ground (arith, beyond) in omega arith) in
            let outer = table-update d.doubly_indirect_block q (w.double i s in_file at used) in
            elim (Option-cases (block_at v sectors d.doubly_indirect_block q)) [
              | inl missing ↦ rw (behind, beyond, double, outer, missing)
              | inr (first, found) ↦
                  rw (behind, beyond, double, outer, found)
                    (table-update first ((j - 251) % 128)
                      (w.tables i s q first in_file at table found))
            ]
      ]
    ]
  ]

  -- The file can be written to as before.
  pub IsWritable-update : s < sectors → IsWritable (update v s b) sectors d
  IsWritable-update inside = record {
    mapped = λ j lt. (let (t, e, below) = w.mapped j lt in (t, block_of-update j lt ∙ e, below));
    injective = λ j k t p q e f.
        w.injective j k t p q (sym (block_of-update j p) ∙ e) (sym (block_of-update k q) ∙ f);
    single = λ j t p e. w.single j t p (sym (block_of-update j p) ∙ e);
    double = λ j t p e. w.double j t p (sym (block_of-update j p) ∙ e);
    tables = λ j t k u p e used f.
        (let beyond : 251 * 512 < d.length = omega arith in
          w.tables j t k u p (sym (block_of-update j p) ∙ e) used
            (sym (table-update d.doubly_indirect_block k (w.double i s in_file at beyond)) ∙ f));
  }

differs : (t s : ℕ) → t == s ≡ false → t ≢ s
differs t s h e = ground (arith, h, e)

-- A splice seen from the block that it lies in, and from another.
splice-block :
    (f g : ℕ → ℕ) (offset chunk p : ℕ) (buffer : List ℕ)
    → p / 512 ≡ offset / 512
    → g (p % 512) ≡ f p
    → splice g (offset % 512) chunk buffer (p % 512) ≡ splice f offset chunk buffer p
splice-block f g offset chunk p buffer e h =
    let place : p - offset ≡ p % 512 - offset % 512 = omega arith in
    let from : leb (offset % 512) (p % 512) ≡ leb offset p = ground arith in
    let upto : ltb (p % 512) (offset % 512 + chunk) ≡ ltb p (offset + chunk) = ground arith in
    rw (from, upto, place, h)

splice-elsewhere :
    (f : ℕ → ℕ) (offset chunk p : ℕ) (buffer : List ℕ)
    → offset % 512 + chunk ≤ 512
    → p / 512 ≢ offset / 512
    → splice f offset chunk buffer p ≡ f p
splice-elsewhere f offset chunk p buffer h ne =
    let out : leb offset p && ltb p (offset + chunk) ≡ false =
      elim (Bool-cases (leb offset p && ltb p (offset + chunk))) [
        | inr no_hit ↦ no_hit
        | inl hit ↦
            let low : offset ≤ p = ground (arith, hit) in
            let high : p < offset + chunk = ground (arith, hit) in absurd (omega arith)
      ] in
    rw out

-- The sector with the part of the buffer in its place.
abbrev pub patched : (ℕ → Sector) → ℕ → ℕ → ℕ → List ℕ → Sector
patched v s offset chunk buffer = patch (v s) (offset % 512) (take chunk buffer)

-- A part of the buffer that lies in one block changes the bytes of the file as it should.
module _ {v : ℕ → Sector} {sectors : ℕ} {d : InodeDisk} (w : IsWritable v sectors d)
    (sized : IsSized v) (offset chunk s : ℕ) (buffer : List ℕ) (within : offset < d.length)
    (fits : offset % 512 + chunk ≤ 512) (enough : chunk ≤ length buffer)
    (at : block_of v sectors d (offset / 512) ≡ some s) where
  length-part : length (take chunk buffer) ≡ chunk
  length-part = omega (arith, length-take {0} chunk buffer)

  pub patched-IsSized : IsSized (update v s (patched v s offset chunk buffer))
  patched-IsSized t =
      ground (arith, sized t, sized s, length-patch (v s) (offset % 512) (take chunk buffer))

  -- The bytes of the sector that is (patched v s offset chunk buffer).
  patched_byte :
      (k : ℕ)
      → get_or (patched v s offset chunk buffer) k 0
        ≡ splice (λ x. get_or (v s) x 0) (offset % 512) chunk buffer k
  patched_byte k =
      let part = take chunk buffer in
      get_or-patch (v s) (offset % 512) part k (omega (arith, sized s, length-part))
      ∙ ground (arith, length-part, get_or-take buffer chunk (k - offset % 512))

  pub file_byte-patched :
      (p : ℕ)
      → p < d.length
      → file_byte (update v s (patched v s offset chunk buffer)) sectors d p
        ≡ splice (file_byte v sectors d) offset chunk buffer p
  file_byte-patched p lt =
      let start : offset / 512 * 512 < d.length = omega arith in
      let here : p / 512 * 512 < d.length = omega arith in
      let (t, e, inside) = w.mapped (p / 512) here in
      let moved =
        block_of-update w (offset / 512) s (patched v s offset chunk buffer) start at (p / 512)
          here in
      let new = update v s (patched v s offset chunk buffer) in
      let byte = ap (λ o. byte_in v o (p % 512)) e in
      let byte' = ap (λ o. byte_in new o (p % 512)) (moved ∙ e) in
      elim (Bool-cases (t == s)) [
        | inl same ↦
            let q : t ≡ s = ground (arith, same) in
            let block : p / 512 ≡ offset / 512 =
              w.injective (p / 512) (offset / 512) s here start (e ∙ ap some q) at in
            byte'
            ∙ ap (λ b. get_or (if b then (patched v s offset chunk buffer) else v t) (p % 512) 0)
                same
            ∙ patched_byte (p % 512)
            ∙ splice-block (file_byte v sectors d) (λ x. get_or (v s) x 0) offset chunk p buffer
                block (sym (byte ∙ ap (λ x. get_or (v x) (p % 512) 0) q))
        | inr other ↦
            let apart : p / 512 ≢ offset / 512 = λ q.
              differs t s other
                (some-injective t s (sym e ∙ ap (λ k. block_of v sectors d k) q ∙ at)) in
            byte'
            ∙ ap (λ b. get_or (if b then (patched v s offset chunk buffer) else v t) (p % 512) 0)
                other
            ∙ sym byte
            ∙ sym (splice-elsewhere (file_byte v sectors d) offset chunk p buffer fits apart)
      ]
