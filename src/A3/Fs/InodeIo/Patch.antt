-- ===== src/A3/Fs/InodeIo/Patch.antt =====
-- a3/fs/inode.c: what `memcpy` into the bounce buffer leaves at each position, and a round of writing
-- to one sector.
use mock_os.Prelude.{
  ℕ, zero, suc, ◌+◌, ◌-◌, ◌≤◌, ◌<◌, ◌≡◌, refl, ◌∙◌, ap, inl, inr, true, ◌&&◌, ◌||◌, Bool-cases,
  some, List, [], ◌∷◌, length, take, drop, get_or, leb, ltb, ◌==◌, if◌then◌else◌, arith,
}
use mock_os.A3.Fs.Block.{update}
use mock_os.A3.Fs.Cache.{Cache}
use mock_os.A3.Fs.Cache.Evict.{IsValid, contents}
use mock_os.A3.Fs.Cache.Refine.{Refines, read_refines, write_refines}
use mock_os.A3.Fs.InodeIo.{patch, put_chunk}

pub length-patch : (s : List ℕ) (ofs : ℕ) (part : List ℕ) → length (patch s ofs part) ≡ length s
length-patch [] zero [] = refl
length-patch [] zero (p ∷ part) = refl
length-patch [] (suc ofs) part = refl
length-patch (b ∷ s) zero [] = refl
length-patch (b ∷ s) zero (p ∷ part) = ap suc (length-patch s zero part)
length-patch (b ∷ s) (suc ofs) part = ap suc (length-patch s ofs part)

-- The part lies at its place, and all else is as before.
pub get_or-patch :
    (s : List ℕ) (ofs : ℕ) (part : List ℕ) (k : ℕ)
    → ofs + length part ≤ length s
    → get_or (patch s ofs part) k 0
      ≡ (if leb ofs k && ltb k (ofs + length part) then get_or part (k - ofs) 0 else get_or s k 0)
get_or-patch [] zero [] k h = ground arith
get_or-patch [] zero (p ∷ part) k h = absurd (omega arith)
get_or-patch [] (suc ofs) part k h = absurd (omega arith)
get_or-patch (b ∷ s) zero [] k h = ground arith
get_or-patch (b ∷ s) zero (p ∷ part) zero h = ground arith
get_or-patch (b ∷ s) zero (p ∷ part) (suc k) h = ground (arith, get_or-patch s zero part k)
get_or-patch (b ∷ s) (suc ofs) part zero h = ground arith
get_or-patch (b ∷ s) (suc ofs) part (suc k) h = ground (arith, get_or-patch s ofs part k)

pub patch_all : (s part : List ℕ) → length part ≡ length s → patch s 0 part ≡ part
patch_all [] [] h = refl
patch_all [] (p ∷ part) h = absurd (omega arith)
patch_all (b ∷ s) [] h = absurd (omega arith)
patch_all (b ∷ s) (p ∷ part) h = ap (λ t. p ∷ t) (patch_all s part (omega arith))

pub get_or-take :
    (buffer : List ℕ) (n k : ℕ) → k < n → get_or (take n buffer) k 0 ≡ get_or buffer k 0
get_or-take buffer zero k h = absurd (omega arith)
get_or-take [] (suc n) k h = refl
get_or-take (b ∷ buffer) (suc n) zero h = refl
get_or-take (b ∷ buffer) (suc n) (suc k) h = get_or-take buffer n k (omega arith)

pub get_or-drop : (buffer : List ℕ) (n k : ℕ) → get_or (drop n buffer) k 0 ≡ get_or buffer (n + k) 0
get_or-drop buffer zero k = let e : zero + k ≡ k = omega arith in rw e
get_or-drop [] (suc n) k = refl
get_or-drop (b ∷ buffer) (suc n) k =
    let e : suc n + k ≡ suc (n + k) = omega arith in rw e (get_or-drop buffer n k)

-- A round puts its part into the sector: whole, or over the old bytes. The bounce buffer of zeros is
-- never used.
pub put_chunk_refines :
    (c : Cache) (s ofs chunk : ℕ) (part : List ℕ)
    → IsValid c
    → s < c.device.size
    → length (contents c s) ≡ 512
    → length part ≡ chunk
    → ofs + chunk ≤ 512
    → 0 < chunk
    → (c' : Cache) × (put_chunk c s ofs chunk part ≡ some c')
      × Refines c (update (contents c) s (patch (contents c s) ofs part)) c'
unfolding put_chunk
put_chunk_refines c s ofs chunk part v lt sized n h more =
    elim (Bool-cases (ofs == 0 && chunk == 512)) [
      | inl full ↦
          let (c', run, done) = write_refines c s part v lt in
          let start : ofs ≡ 0 = ground (arith, full) in
          let all : length part ≡ length (contents c s) = ground (arith, full) in
          (c', rw full run, rw (start, patch_all (contents c s) part all) done)
      | inr some_stay ↦
          let (c₁, run₁, one) = read_refines c s v lt in
          let (c₂, run₂, two) =
            write_refines c₁ s (patch (contents c s) ofs part) one.valid
              (omega (arith, one.size)) in
          let test : ltb 0 ofs || ltb chunk (512 - ofs) ≡ true = ground (arith, some_stay) in
          (
            c₂,
            rw (some_stay, test, run₁) run₂,
            record {
              valid = two.valid;
              content = λ k. two.content k ∙ ground (arith, one.content k);
              size = two.size ∙ one.size;
            },
          )
    ]
