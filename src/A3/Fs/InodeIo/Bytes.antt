-- ===== src/A3/Fs/InodeIo/Bytes.antt =====
-- a3/fs/inode.c: the bytes of a file, as the content of the disk and the map of blocks give them.
use mock_os.Prelude.{
  ℕ, zero, suc, ◌+◌, ◌/◌, ◌%◌, ◌≤◌, ◌<◌, ◌≡◌, refl, ◌∙◌, ap, sym, Option, none, some, List, [], ◌∷◌,
  ◌++◌, length, take, drop, get_or, arith,
}
use mock_os.A3.Fs.Block.{Sector}
use mock_os.A3.Fs.Layout.{InodeDisk}
use mock_os.A3.Fs.BlockMap.Refine.{block_of}

-- The byte at a position of a sector that may be missing.
abbrev pub byte_in : (ℕ → Sector) → Option ℕ → ℕ → ℕ
byte_in v none k = 0
byte_in v (some s) k = get_or (v s) k 0

-- The byte at a position of the file.
abbrev pub file_byte : (ℕ → Sector) → ℕ → InodeDisk → ℕ → ℕ
file_byte v size d p = byte_in v (block_of v size d (p / 512)) (p % 512)

-- `n` values of a function from a position on.
abbrev pub slice : (ℕ → ℕ) → ℕ → ℕ → List ℕ
slice f p zero = []
slice f p (suc n) = f p ∷ slice f (p + 1) n

pub slice-append : (f : ℕ → ℕ) (p m n : ℕ) → slice f p (m + n) ≡ slice f p m ++ slice f (p + m) n
slice-append f p zero n =
    let e : zero + n ≡ n = omega arith in let g : p + 0 ≡ p = omega arith in rw (e, g)
slice-append f p (suc m) n =
    let e : suc m + n ≡ suc (m + n) = omega arith in
    let g : p + suc m ≡ p + 1 + m = omega arith in
    rw (e, g) (ap (λ t. f p ∷ t) (slice-append f (p + 1) m n))

pub slice-ext :
    (f g : ℕ → ℕ) (p q n : ℕ)
    → ((k : ℕ) → k < n → f (p + k) ≡ g (q + k))
    → slice f p n ≡ slice g q n
slice-ext f g p q zero h = refl
slice-ext f g p q (suc n) h =
    let first : f p ≡ g q =
      let e : p + 0 ≡ p = omega arith in
      let e' : q + 0 ≡ q = omega arith in (rw (e, e') at (h 0 (omega arith))) in
    cc (
      first,
      slice-ext f g (p + 1) (q + 1) n λ k lt.
          let e : p + 1 + k ≡ p + suc k = omega arith in
          let e' : q + 1 + k ≡ q + suc k = omega arith in rw (e, e') (h (suc k) (omega arith)),
    )

pub length-slice : (f : ℕ → ℕ) (p n : ℕ) → length (slice f p n) ≡ n
length-slice f p zero = refl
length-slice f p (suc n) = ap suc (length-slice f (p + 1) n)

-- A sector or a part of it, by what its positions hold.
slice-shift : (f : ℕ → ℕ) (p n : ℕ) → slice f (suc p) n ≡ slice (λ k. f (suc k)) p n
slice-shift f p zero = refl
slice-shift f p (suc n) =
    let e : suc p + 1 ≡ suc (p + 1) = omega arith in
    rw e (ap (λ t. f (suc p) ∷ t) (slice-shift f (p + 1) n))

-- A part of a list is the slice of its elements.
pub take-drop-slice :
    (s : List ℕ) (o n : ℕ) → o + n ≤ length s → take n (drop o s) ≡ slice (λ k. get_or s k 0) o n
take-drop-slice s o zero h = refl
take-drop-slice [] o (suc n) h = absurd (omega arith)
take-drop-slice (b ∷ s) zero (suc n) h =
    ap (λ t. b ∷ t)
      (take-drop-slice s 0 n (omega arith) ∙ sym (slice-shift (λ k. get_or (b ∷ s) k 0) 0 n))
take-drop-slice (b ∷ s) (suc o) (suc n) h =
    take-drop-slice s o (suc n) (omega arith)
    ∙ sym (slice-shift (λ k. get_or (b ∷ s) k 0) o (suc n))
