-- ===== src/A3/Fs/BlockMap/Refine.antt =====
-- a3/fs/inode.c: `index_to_sector` against the map from a file's blocks to sectors that the content
-- of the disk describes.
use mock_os.Prelude.{
  ℕ, ◌-◌, ◌/◌, ◌%◌, ◌<◌, ◌≡◌, refl, ◌∙◌, ap, sym, inl, inr, Bool-cases, Option, Option-cases, none,
  some, ltb, if◌then◌else◌, get_elem?, ltb→lt, lt→ltb,
}
use mock_os.Prelude.Int.{pos}
use mock_os.A3.Fs.Block.{Sector}
use mock_os.A3.Fs.Layout.{InodeDisk, decode_blocks}
use mock_os.A3.Fs.Cache.{Cache, ◌>>=◌}
use mock_os.A3.Fs.Cache.Evict.{IsValid, contents}
use mock_os.A3.Fs.Cache.Refine.{Refines, read_refines}
use mock_os.A3.Fs.BlockMap.{indirect_entry, index_to_sector, byte_to_sector}

-- The `k`-th block number in a sector of a disk of `size` sectors.
abbrev pub block_at : (ℕ → Sector) → ℕ → ℕ → ℕ → Option ℕ
block_at v size s k = if ltb s size then get_elem? (decode_blocks (v s)) k else none

-- The sector of a file's block: in the inode, or through one or two sectors of block numbers.
abbrev pub block_of : (ℕ → Sector) → ℕ → InodeDisk → ℕ → Option ℕ
block_of v size d i =
    if ltb i 123
    then get_elem? d.direct_blocks i
    else if ltb i 251
    then block_at v size d.indirect_block (i - 123)
    else if ltb i 16635
    then (block_at v size d.doubly_indirect_block ((i - 251) / 128) >>= λ first.
        block_at v size first ((i - 251) % 128))
    else none

-- Reading one block number through the cache.
indirect_entry_refines :
    (c : Cache) (s k : ℕ) {t : ℕ}
    → IsValid c
    → block_at (contents c) c.device.size s k ≡ some t
    → (c' : Cache) × (indirect_entry c s k ≡ some (t, c')) × Refines c (contents c) c'
unfolding indirect_entry
indirect_entry_refines c s k v h = elim (Bool-cases (ltb s c.device.size)) [
  | inr out ↦ absurd (cc (out, h))
  | inl inside ↦
      let (c', run, done) = read_refines c s v (ltb→lt _ _ inside) in
      let at =
        ap (λ b. if b then get_elem? (decode_blocks (contents c s)) k else none) (sym inside) ∙ h in
      (c', rw (run, at), done)
]

pub Refines-keep : (c : Cache) → IsValid c → Refines c (contents c) c
Refines-keep c v = record { valid = v; content = λ s. refl; size = refl }

pub Refines-then :
    {c c₁ c₂ : Cache} {v : ℕ → Sector}
    → Refines c v c₁
    → Refines c₁ (contents c₁) c₂
    → Refines c v c₂
Refines-then p q = record {
  valid = q.valid;
  content = λ s. q.content s ∙ p.content s;
  size = q.size ∙ p.size;
}

-- Two disks that agree at a sector of block numbers.
pub block_at-content :
    (v v' : ℕ → Sector) (size size' s k : ℕ)
    → v s ≡ v' s
    → size ≡ size'
    → block_at v size s k ≡ block_at v' size' s k
block_at-content v v' size size' s k e f = cc

-- Where the disk's content gives a block a sector, the code finds it, and keeps the content.
pub index_to_sector_refines :
    (c : Cache) (d : InodeDisk) (i : ℕ) {s : ℕ}
    → IsValid c
    → block_of (contents c) c.device.size d i ≡ some s
    → (c' : Cache) × (index_to_sector c d i ≡ some (s, c')) × Refines c (contents c) c'
unfolding index_to_sector
index_to_sector_refines c d i {s} v h = elim (Bool-cases (ltb i 123)) [
  | inl direct ↦ (c, rw (direct, rw direct at h), Refines-keep c v)
  | inr behind ↦ elim (Bool-cases (ltb i 251)) [
    | inl single ↦
        let (c', run, done) =
          indirect_entry_refines c d.indirect_block (i - 123) v (rw (behind, single) at h) in
        (c', rw (behind, single) run, done)
    | inr beyond ↦ elim (Bool-cases (ltb i 16635)) [
      | inr out ↦ absurd (cc (rw (behind, beyond, out) at h))
      | inl double ↦
          let h' = rw (behind, beyond, double) at h in
          elim (Option-cases
            (block_at (contents c) c.device.size d.doubly_indirect_block ((i - 251) / 128))) [
              | inl missing ↦ absurd (cc (h', missing))
              | inr (first, found) ↦
                  let (c₁, run, one) =
                    indirect_entry_refines c d.doubly_indirect_block ((i - 251) / 128) v found in
                  let second =
                    block_at-content (contents c₁) (contents c) c₁.device.size c.device.size first
                      ((i - 251) % 128) (one.content first) one.size
                    ∙ (rw found at h') in
                  let (c₂, run₂, two) =
                    indirect_entry_refines c₁ first ((i - 251) % 128) one.valid second in
                  (c₂, rw (behind, beyond, double, run) run₂, Refines-then one two)
            ]
    ]
  ]
]

-- The position of a byte of the file.
pub byte_to_sector_refines :
    (c : Cache) (d : InodeDisk) (p : ℕ) {s : ℕ}
    → IsValid c
    → p < d.length
    → block_of (contents c) c.device.size d (p / 512) ≡ some s
    → (c' : Cache) × (byte_to_sector c d (pos p) ≡ some (s, c')) × Refines c (contents c) c'
unfolding byte_to_sector
byte_to_sector_refines c d p v lt h =
    let (c', run, done) = index_to_sector_refines c d (p / 512) v h in
    (c', rw (lt→ltb p d.length lt) run, done)
