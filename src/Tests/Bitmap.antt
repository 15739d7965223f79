-- ===== src/Tests/Bitmap.antt =====
-- A bitmap with the behaviour that a3/fs/free-map.c relies on: a size and a truth value for each bit.
-- Writing it always succeeds and leaves the cache as it is.
use mock_os.Prelude.{
  ℕ, zero, suc, ◌+◌, ◌/◌, ◌≤◌, ◌<◌, ◌≡◌, refl, ◌⊎◌, inl, inr, Bool, true, false, not, Bool-cases,
  some, leb, ltb, ◌==◌, ◌&&◌, if◌then◌else◌, arith,
}
use mock_os.A3.Fs.FreeMap.{BitmapLib, BitmapLaws, bitmap_error, in_range}

pub record Bits : Type 0 where
  pub size : ℕ
  pub bit : ℕ → Bool

-- Are `n` bits from `i` on all clear?
abbrev clear : (ℕ → Bool) → ℕ → ℕ → Bool
clear bit i zero = true
clear bit i (suc n) = not (bit i) && clear bit (i + 1) n

abbrev fill : (ℕ → Bool) → ℕ → ℕ → Bool → ℕ → Bool
fill bit start cnt value k = if in_range start cnt k then value else bit k

abbrev fits : Bits → ℕ → ℕ → Bool
fits b cnt i = leb (i + cnt) b.size && ltb i bitmap_error && clear b.bit i cnt

unfoldable pub scan_from : ℕ → Bits → ℕ → ℕ → ℕ
scan_from zero b cnt i = bitmap_error
scan_from (suc fuel) b cnt i =
    let rest = scan_from fuel b cnt (i + 1) in if fits b cnt i then i else rest

abbrev flip : Bits → ℕ → ℕ → ℕ × Bits
flip b i cnt = if i == bitmap_error then (i, b) else (i, record b { bit = fill b.bit i cnt true })

abbrev same : Bool → Bool → Bool
same true b = b
same false b = not b

abbrev count_bits : (ℕ → Bool) → ℕ → ℕ → Bool → ℕ
count_bits bit i zero value = 0
count_bits bit i (suc n) value =
    (if same (bit i) value then 1 else 0) + count_bits bit (i + 1) n value

abbrev pub bits_lib : BitmapLib
bits_lib = record {
  Bitmap = Bits;
  bitmap_create = λ n. some (record { size = n; bit = λ k. false });
  bitmap_size = λ b. b.size;
  bitmap_test = λ b k. b.bit k;
  bitmap_mark = λ b i. record b { bit = fill b.bit i 1 true };
  bitmap_count = λ b start cnt value. count_bits b.bit start cnt value;
  bitmap_all = λ b start cnt. clear (λ k. not (b.bit k)) start cnt;
  bitmap_scan_and_flip = λ b start cnt value. flip b (scan_from (b.size + 1) b cnt start) cnt;
  bitmap_set_multiple = λ b start cnt value. record b { bit = fill b.bit start cnt value };
  bitmap_file_size = λ b. b.size / 8 + 1;
  bitmap_write = λ b c. some (true, c);
  bitmap_read = λ b c. some (true, b, c);
}

clear_lem :
    (bit : ℕ → Bool) (i n k : ℕ) → clear bit i n ≡ true → in_range i n k ≡ true → bit k ≡ false
clear_lem bit i zero k h r = ground arith
clear_lem bit i (suc n) k h r = ground (arith, clear_lem bit (i + 1) n k)

-- A search finds nothing or bits that fit.
scan_from_lem :
    (fuel : ℕ) (b : Bits) (cnt i : ℕ)
    → (scan_from fuel b cnt i ≡ bitmap_error)
      ⊎ ((j : ℕ) × (scan_from fuel b cnt i ≡ j) × (fits b cnt j ≡ true))
unfolding scan_from
scan_from_lem zero b cnt i = inl refl
scan_from_lem (suc fuel) b cnt i = elim (Bool-cases (fits b cnt i)) [
  | inl here ↦ inr (i, rw here, here)
  | inr later ↦ rw later (scan_from_lem fuel b cnt (i + 1))
]

pub bits_laws : BitmapLaws bits_lib
bits_laws = record {
  set_multiple = λ b start cnt value k h. refl;
  scan = λ b start cnt. elim (scan_from_lem (b.size + 1) b cnt start) [
    | inl e ↦ inl (rw e, λ k. rw e)
    | inr (j, e, found) ↦
        let below : j < bitmap_error = ground (arith, found) in
        let inside : j + cnt ≤ b.size = ground (arith, found) in
        let all : clear b.bit j cnt ≡ true = ground (arith, found) in
        let real : j == bitmap_error ≡ false = ground (arith, below) in
        inr (
          j,
          rw (e, real),
          inside,
          below,
          rw (e, real),
          λ k r. clear_lem b.bit j cnt k all r,
          λ k. rw (e, real),
        )
  ];
}
