-- ===== src/A3/Fs/FreeMap/Allocate.antt =====
-- a3/fs/free-map.c: `free_map_allocate` takes sectors that were free, or changes no bit.
use mock_os.Prelude.{
  ℕ, ◌+◌, ◌≤◌, ◌≡◌, inl, inr, Bool, true, false, Bool-cases, Option, none, some, ◌==◌,
  if◌then◌else◌, arith,
}
use mock_os.A3.Fs.Cache.{Cache}
use mock_os.A3.Fs.FreeMap.{
  BitmapLib, BitmapLaws, Disk, bitmap_error, in_range, free_map_allocate, keep_allocation,
}

module _ {lib : BitmapLib} (laws : BitmapLaws lib) where
  open lib use {bitmap_test, bitmap_size, bitmap_write, bitmap_scan_and_flip}

  -- The sectors were free and are now in use, and no other bit has changed.
  pub record Allocated (d : Disk lib) (cnt i : ℕ) (d' : Disk lib) : Type 0 where
    pub inside : i + cnt ≤ bitmap_size d.free_map
    pub were_free : (k : ℕ) → in_range i cnt k ≡ true → bitmap_test d.free_map k ≡ false
    pub bits :
        (k : ℕ)
        → bitmap_test d'.free_map k ≡ (if in_range i cnt k then true else bitmap_test d.free_map k)

  abbrev pub Allocates : Disk lib → ℕ → Option (Option ℕ × Disk lib) → Type 0
  Allocates d cnt none = ⊥
  Allocates d cnt (some (none, d')) = (k : ℕ) → bitmap_test d'.free_map k ≡ bitmap_test d.free_map k
  Allocates d cnt (some (some i, d')) = Allocated d cnt i d'

  rolled_back :
      (p : Bool) (x y z : Bool)
      → (p ≡ true → z ≡ false)
      → y ≡ (if p then true else z)
      → x ≡ (if p then false else y)
      → x ≡ z
  rolled_back true x y z h e f = ground (arith, h)
  rolled_back false x y z h e f = ground arith

  -- What the code does with sectors that the bitmap has given.
  keep_allocation-Allocates :
      (d : Disk lib) (cnt i : ℕ) (b : lib.Bitmap)
      → ((b' : lib.Bitmap) → (r : Bool × Cache) × (bitmap_write b' d.cache ≡ some r))
      → Allocated d cnt i (record d { free_map = b })
      → bitmap_size b ≡ bitmap_size d.free_map
      → Allocates d cnt (keep_allocation i cnt (record d { free_map = b }))
  unfolding keep_allocation
  keep_allocation-Allocates d cnt i b writes a size =
      let (r, written) = writes b in
      elim (Bool-cases d.free_map_file) [
        | inr closed ↦
            rw closed (record { inside = a.inside; were_free = a.were_free; bits = a.bits })
        | inl open_ ↦ elim (Bool-cases r.0) [
          | inl kept ↦
              rw (open_, written, kept)
                (record { inside = a.inside; were_free = a.were_free; bits = a.bits })
          | inr failed ↦
              rw (open_, written, failed)
                λ k.
                  rolled_back (in_range i cnt k) _ _ _ (a.were_free k) (a.bits k)
                    (laws.set_multiple b i cnt false k (omega (arith, a.inside, size)))
        ]
      ]

  -- With a bitmap library that behaves as its comments say, and where writing the bitmap does not
  -- panic, free_map_allocate either gives the first of sectors that were all free, lie in the
  -- map, and are marked afterwards while every other bit is as before; or it gives none and every
  -- bit is as before, also when writing the map failed and the marks had to be taken back.
  pub free_map_allocate-Allocates :
      (d : Disk lib) (cnt : ℕ)
      → ((b : lib.Bitmap) → (r : Bool × Cache) × (bitmap_write b d.cache ≡ some r))
      → Allocates d cnt (free_map_allocate cnt d)
  unfolding free_map_allocate
  free_map_allocate-Allocates d cnt writes = elim (laws.scan d.free_map 0 cnt) [
    | inl (e, same) ↦ rw e same
    | inr (i, e, inside, below, size, were_free, bits) ↦
        let found : i == bitmap_error ≡ false = ground (arith, below) in
        rw (e, found)
          (keep_allocation-Allocates d cnt i (bitmap_scan_and_flip d.free_map 0 cnt false).1 writes
            (record { inside = inside; were_free = were_free; bits = bits }) size)
  ]
