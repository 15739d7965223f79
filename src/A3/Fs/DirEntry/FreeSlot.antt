-- ===== src/A3/Fs/DirEntry/FreeSlot.antt =====
-- a3/fs/directory.c: the search of `dir_add` for a free slot.
use mathlib.Core.Path.{subst}
use mock_os.Prelude.{
  ℕ, zero, suc, ◌+◌, ◌*◌, ◌≤◌, ◌<◌, ◌≡◌, refl, ◌∙◌, ap, inl, inr, true, false, Bool-cases, leb,
  some, List, ◌==◌, arith,
}
use mock_os.A3.Fs.Block.{Sector}
use mock_os.A3.Fs.Layout.{InodeDisk}
use mock_os.A3.Fs.Cache.{Cache}
use mock_os.A3.Fs.Cache.Evict.{IsValid, contents}
use mock_os.A3.Fs.Cache.Refine.{Refines}
use mock_os.A3.Fs.InodeIo.{inode_read_at}
use mock_os.A3.Fs.InodeIo.Bytes.{file_byte, slice}
use mock_os.A3.Fs.InodeIo.Read.{IsMapped, IsSized, Shows, readable, read_loop_refines}
use mock_os.A3.Fs.DirEntry.{decode_entry, rounds, free_slot_offset}
use mock_os.A3.Fs.DirEntry.Search.{entry_at}

-- Where a search for a free slot stops: at the first entry from an index on that is not in use, or
-- behind the last whole entry.
pub record StopsAt (f : ℕ → ℕ) (len from ofs k : ℕ) : Type 0 where
  pub place : ofs ≡ 36 * k
  pub later : from ≤ k
  pub used : (j : ℕ) → from ≤ j → j < k → (entry_at f j).in_use ≡ true
  pub before : (j : ℕ) → from ≤ j → j < k → 36 * j + 36 ≤ len
  pub free : 36 * k + 36 ≤ len → (entry_at f k).in_use ≡ false

StopsAt-earlier :
    (f : ℕ → ℕ) (len from ofs k : ℕ)
    → (entry_at f from).in_use ≡ true
    → 36 * from + 36 ≤ len
    → StopsAt f len (from + 1) ofs k
    → StopsAt f len from ofs k
StopsAt-earlier f len from ofs k here room stop = record {
  place = stop.place;
  later = omega (arith, stop.later);
  used = λ j p q. elim (Bool-cases (from == j)) [
    | inl same ↦
        let e : from ≡ j = ground (arith, same) in subst (λ i. (entry_at f i).in_use ≡ true) e here
    | inr other ↦ stop.used j (ground (arith, other)) q
  ];
  before = λ j p q. elim (Bool-cases (from == j)) [
    | inl same ↦ ground (arith, same, room)
    | inr other ↦ stop.before j (ground (arith, other)) q
  ];
  free = stop.free;
}

module _ (v : ℕ → Sector) (sectors : ℕ) (d : InodeDisk) (sized : IsSized v)
    (mapped : IsMapped v sectors d) where
  abbrev bytes : ℕ → ℕ
  bytes = file_byte v sectors d

  slot_ends :
      (fuel ofs n : ℕ) {b : List ℕ} (c c' : Cache)
      → inode_read_at c d 36 ofs ≡ some (b, n, c')
      → n == 36 ≡ false
      → free_slot_offset (suc fuel) c d ofs ≡ some (ofs, c')
  unfolding free_slot_offset
  slot_ends fuel ofs n c c' run short = rw (run, short) refl

  slot_stops :
      (fuel ofs : ℕ) {b : List ℕ} (c c' : Cache)
      → inode_read_at c d 36 ofs ≡ some (b, 36, c')
      → (decode_entry b).in_use ≡ false
      → free_slot_offset (suc fuel) c d ofs ≡ some (ofs, c')
  unfolding free_slot_offset
  slot_stops fuel ofs c c' run free = rw (run, free) refl

  slot_goes_on :
      (fuel ofs : ℕ) {b : List ℕ} (c c' : Cache)
      → inode_read_at c d 36 ofs ≡ some (b, 36, c')
      → (decode_entry b).in_use ≡ true
      → free_slot_offset (suc fuel) c d ofs ≡ free_slot_offset fuel c' d (ofs + 36)
  unfolding free_slot_offset
  slot_goes_on fuel ofs c c' run used = rw (run, used) refl

  free_slot_refines :
      (fuel k : ℕ) (c : Cache)
      → d.length < 36 * (k + fuel)
      → 0 < fuel
      → Shows v sectors c
      → (ofs : ℕ) × (c' : Cache) × (free_slot_offset fuel c d (36 * k) ≡ some (ofs, c'))
        × ((i : ℕ) × StopsAt bytes d.length k ofs i)
        × Shows v sectors c'
  unfolding inode_read_at
  free_slot_refines zero k c lt some_fuel h = absurd (omega arith)
  free_slot_refines (suc fuel) k c lt some_fuel h =
      let (c₁, run, h₁) =
        read_loop_refines v sectors d 37 c 36 (36 * k) (omega arith) h sized mapped in
      elim (Bool-cases (leb (36 * k + 36) d.length)) [
        | inr short ↦
            let less : readable v sectors d 36 (36 * k) == 36 ≡ false = ground (arith, short) in
            (
              36 * k,
              c₁,
              slot_ends fuel (36 * k) (readable v sectors d 36 (36 * k)) c c₁ run less,
              (
                k,
                record {
                  place = refl;
                  later = omega arith;
                  used = λ j p q. absurd (omega arith);
                  before = λ j p q. absurd (omega arith);
                  free = λ room. absurd (ground (arith, short));
                },
              ),
              h₁,
            )
        | inl full ↦
            let room : 36 * k + 36 ≤ d.length = ground (arith, full) in
            let all : readable v sectors d 36 (36 * k) ≡ 36 = omega arith in
            let whole : inode_read_at c d 36 (36 * k) ≡ some (slice bytes (36 * k) 36, 36, c₁) =
              run ∙ ap (λ n. some (slice bytes (36 * k) n, n, c₁)) all in
            elim (Bool-cases ((entry_at bytes k).in_use)) [
              | inr free ↦ (
                36 * k,
                c₁,
                slot_stops fuel (36 * k) c c₁ whole free,
                (
                  k,
                  record {
                    place = refl;
                    later = omega arith;
                    used = λ j p q. absurd (omega arith);
                    before = λ j p q. absurd (omega arith);
                    free = λ fits. free;
                  },
                ),
                h₁,
              )
              | inl used ↦
                  let next : 36 * k + 36 ≡ 36 * (k + 1) = omega arith in
                  let (ofs, c₂, run₂, (i, stop), h₂) =
                    free_slot_refines fuel (k + 1) c₁ (omega arith) (omega arith) h₁ in
                  (
                    ofs,
                    c₂,
                    slot_goes_on fuel (36 * k) c c₁ whole used
                        ∙ ap (λ o. free_slot_offset fuel c₁ d o) next
                        ∙ run₂,
                    (i, StopsAt-earlier bytes d.length k ofs i used room stop),
                    h₂,
                  )
            ]
      ]

-- Over a valid cache in front of a disk of 512-byte sectors on which every block of the directory
-- has a sector, the search of dir_add for a free slot ends, and the disk shows the same content:
-- it gives the offset of the first entry that is not in use or, when all whole entries are in
-- use, the offset behind them.
pub free_slot_offset_refines :
    (c : Cache) (d : InodeDisk)
    → IsValid c
    → IsSized (contents c)
    → IsMapped (contents c) c.device.size d
    → (ofs : ℕ) × (c' : Cache) × (free_slot_offset (rounds d + 1) c d 0 ≡ some (ofs, c'))
      × ((k : ℕ) × StopsAt (file_byte (contents c) c.device.size d) d.length 0 ofs k)
      × Refines c (contents c) c'
free_slot_offset_refines c d valid sized mapped =
    let now : Shows (contents c) c.device.size c = record {
      valid = valid;
      content = λ s. refl;
      size = refl;
    } in
    let (ofs, c', run, stop, h) =
      free_slot_refines (contents c) c.device.size d sized mapped (rounds d + 1) 0 c (omega arith)
        (omega arith) now in
    (ofs, c', run, stop, record { valid = h.valid; content = h.content; size = h.size })
