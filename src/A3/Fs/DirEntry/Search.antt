-- ===== src/A3/Fs/DirEntry/Search.antt =====
-- a3/fs/directory.c: a search through the entries of a directory ends, with the first that passes.
use mathlib.Core.Path.{subst}
use mock_os.Prelude.{
  ℕ, zero, suc, ◌+◌, ◌*◌, ◌≤◌, ◌<◌, ◌≡◌, refl, ◌∙◌, ap, inl, inr, Bool, true, false, Bool-cases,
  leb, Option, none, some, List, ◌==◌, arith,
}
use mock_os.A3.Fs.Block.{Sector}
use mock_os.A3.Fs.Layout.{InodeDisk}
use mock_os.A3.Fs.Cache.{Cache}
use mock_os.A3.Fs.InodeIo.{inode_read_at}
use mock_os.A3.Fs.InodeIo.Bytes.{file_byte, slice}
use mock_os.A3.Fs.InodeIo.Read.{IsMapped, IsSized, Shows, readable, read_loop_refines}
use mock_os.A3.Fs.DirEntry.{DirEntry, decode_entry, find_entry}

-- The entry at an index of a file of entries.
abbrev pub entry_at : (ℕ → ℕ) → ℕ → DirEntry
entry_at f k = decode_entry (slice f (36 * k) 36)

-- The outcome of a search for the first entry that passes a test, among the whole entries of a file of
-- `len` bytes from the index `from` on.
abbrev pub Finds : (ℕ → ℕ) → ℕ → (DirEntry → Bool) → ℕ → Option (DirEntry × ℕ) → Type 0
Finds f len test from none = (k : ℕ) → from ≤ k → 36 * k + 36 ≤ len → test (entry_at f k) ≡ false
Finds f len test from (some (e, ofs)) =
    (k : ℕ) × (ofs ≡ 36 * k)
    × (from ≤ k)
    × (36 * k + 36 ≤ len)
    × (e ≡ entry_at f k)
    × (test e ≡ true)
    × ((j : ℕ) → from ≤ j → j < k → test (entry_at f j) ≡ false)

-- A search that goes on behind an entry that does not pass.
Finds-later :
    (f : ℕ → ℕ) (len : ℕ) (test : DirEntry → Bool) (from : ℕ) (o : Option (DirEntry × ℕ))
    → test (entry_at f from) ≡ false
    → Finds f len test (from + 1) o
    → Finds f len test from o
Finds-later f len test from none h g = λ k le room. elim (Bool-cases (from == k)) [
  | inl same ↦
      let q : from ≡ k = ground (arith, same) in subst (λ i. test (entry_at f i) ≡ false) q h
  | inr other ↦ g k (ground (arith, other)) room
]
Finds-later f len test from (some (e, ofs)) h (k, at, le, room, same, pass, before) = (
  k,
  at,
  omega arith,
  room,
  same,
  pass,
  λ j lo hi. elim (Bool-cases (from == j)) [
    | inl q ↦ let q' : from ≡ j = ground (arith, q) in subst (λ i. test (entry_at f i) ≡ false) q' h
    | inr other ↦ before j (ground (arith, other)) hi
  ],
)

module _ (v : ℕ → Sector) (sectors : ℕ) (d : InodeDisk) (test : DirEntry → Bool) (sized : IsSized v)
    (mapped : IsMapped v sectors d) where
  abbrev bytes : ℕ → ℕ
  bytes = file_byte v sectors d

  -- The rounds of the search: behind the last whole entry, at one that passes, at one that does not.
  ends :
      (fuel ofs n : ℕ) {b : List ℕ} (c c' : Cache)
      → inode_read_at c d 36 ofs ≡ some (b, n, c')
      → n == 36 ≡ false
      → find_entry (suc fuel) test c d ofs ≡ some (none, c')
  unfolding find_entry
  ends fuel ofs n c c' run short = rw (run, short) refl

  stops :
      (fuel ofs : ℕ) {b : List ℕ} (c c' : Cache)
      → inode_read_at c d 36 ofs ≡ some (b, 36, c')
      → test (decode_entry b) ≡ true
      → find_entry (suc fuel) test c d ofs ≡ some (some (decode_entry b, ofs), c')
  unfolding find_entry
  stops fuel ofs c c' run pass = rw (run, pass) refl

  goes_on :
      (fuel ofs : ℕ) {b : List ℕ} (c c' : Cache)
      → inode_read_at c d 36 ofs ≡ some (b, 36, c')
      → test (decode_entry b) ≡ false
      → find_entry (suc fuel) test c d ofs ≡ find_entry fuel test c' d (ofs + 36)
  unfolding find_entry
  goes_on fuel ofs c c' run fail = rw (run, fail) refl

  -- A whole entry is read.
  read_entry :
      (k : ℕ) (c c' : Cache)
      → inode_read_at c d 36 (36 * k)
        ≡ some (
          slice bytes (36 * k) (readable v sectors d 36 (36 * k)),
          readable v sectors d 36 (36 * k),
          c',
        )
      → 36 * k + 36 ≤ d.length
      → inode_read_at c d 36 (36 * k) ≡ some (slice bytes (36 * k) 36, 36, c')
  read_entry k c c' run full =
      let whole : readable v sectors d 36 (36 * k) ≡ 36 = omega arith in
      run ∙ ap (λ n. some (slice bytes (36 * k) n, n, c')) whole

  -- The search ends, with the first entry that passes.
  pub find_entry_refines :
      (fuel k : ℕ) (c : Cache)
      → d.length < 36 * (k + fuel)
      → 0 < fuel
      → Shows v sectors c
      → (o : Option (DirEntry × ℕ)) × (c' : Cache) × (find_entry fuel test c d (36 * k)
          ≡ some (o, c'))
        × Finds bytes d.length test k o
        × Shows v sectors c'
  unfolding find_entry inode_read_at
  find_entry_refines zero k c lt some_fuel h = absurd (omega arith)
  find_entry_refines (suc fuel) k c lt some_fuel h =
      let (c₁, run, h₁) =
        read_loop_refines v sectors d 37 c 36 (36 * k) (omega arith) h sized mapped in
      elim (Bool-cases (leb (36 * k + 36) d.length)) [
        | inr short ↦
            let less : readable v sectors d 36 (36 * k) == 36 ≡ false = ground (arith, short) in
            (
              none,
              c₁,
              ends fuel (36 * k) (readable v sectors d 36 (36 * k)) c c₁ run less,
              (λ j lo room. absurd (ground (arith, short))),
              h₁,
            )
        | inl full ↦
            let room : 36 * k + 36 ≤ d.length = ground (arith, full) in
            let whole = read_entry k c c₁ run room in
            elim (Bool-cases (test (entry_at bytes k))) [
              | inl pass ↦ (
                some (entry_at bytes k, 36 * k),
                c₁,
                stops fuel (36 * k) c c₁ whole pass,
                (k, refl, omega arith, room, refl, pass, λ j lo hi. absurd (omega arith)),
                h₁,
              )
              | inr fail ↦
                  let next : 36 * k + 36 ≡ 36 * (k + 1) = omega arith in
                  let (o, c₂, run₂, found, h₂) =
                    find_entry_refines fuel (k + 1) c₁ (omega arith) (omega arith) h₁ in
                  (
                    o,
                    c₂,
                    goes_on fuel (36 * k) c c₁ whole fail
                        ∙ ap (λ ofs. find_entry fuel test c₁ d ofs) next
                        ∙ run₂,
                    Finds-later bytes d.length test k o fail found,
                    h₂,
                  )
            ]
      ]
