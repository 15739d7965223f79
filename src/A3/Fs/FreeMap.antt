-- ===== src/A3/Fs/FreeMap.antt =====
-- a3/fs/free-map.c: the map of the sectors in use. The bitmap itself (a3/fs/bitmap.c) is a library: its
-- functions are a parameter, and `BitmapLaws` is what its comments say of them. `none` is a panic,
-- a failed assertion or a null pointer that is used.
pub mod Allocate
use mock_os.Prelude.{
  ℕ, ◌+◌, ◌-◌, ◌^◌, ◌≤◌, ◌<◌, ◌≡◌, ◌⊎◌, Bool, true, false, Option, none, some, leb, ltb, ◌==◌, ◌&&◌,
  if◌then◌else◌,
}
use mock_os.A3.Fs.Cache.{Cache, ◌>>=◌}

-- `BITMAP_ERROR`
abbrev pub bitmap_error : ℕ
bitmap_error = 2 ^ 32 - 1

pub record BitmapLib : Type 1 where
  pub Bitmap : Type 0
  pub bitmap_create : ℕ → Option Bitmap
  pub bitmap_size : Bitmap → ℕ
  pub bitmap_test : Bitmap → ℕ → Bool
  pub bitmap_mark : Bitmap → ℕ → Bitmap
  pub bitmap_count : Bitmap → ℕ → ℕ → Bool → ℕ
  pub bitmap_all : Bitmap → ℕ → ℕ → Bool
  pub bitmap_scan_and_flip : Bitmap → ℕ → ℕ → Bool → ℕ × Bitmap
  pub bitmap_set_multiple : Bitmap → ℕ → ℕ → Bool → Bitmap
  pub bitmap_file_size : Bitmap → ℕ
  -- the write of the bitmap to its open file, through the cache; nothing is a panic
  pub bitmap_write : Bitmap → Cache → Option (Bool × Cache)
  -- the bitmap read back from its file
  pub bitmap_read : Bitmap → Cache → Option (Bool × Bitmap × Cache)

-- Is the bit one of the `cnt` bits from `start` on?
abbrev pub in_range : ℕ → ℕ → ℕ → Bool
in_range start cnt k = leb start k && ltb k (start + cnt)

module _ (lib : BitmapLib) where
  open lib use {Bitmap, bitmap_create, bitmap_size, bitmap_test, bitmap_mark, bitmap_count}
  open lib use {bitmap_all, bitmap_scan_and_flip, bitmap_set_multiple, bitmap_write}

  -- What the comments in a3/fs/bitmap.c say.
  pub record BitmapLaws : Type 0 where
    pub set_multiple :
        (b : Bitmap) (start cnt : ℕ) (value : Bool) (k : ℕ)
        → start + cnt ≤ bitmap_size b
        → bitmap_test (bitmap_set_multiple b start cnt value) k
          ≡ (if in_range start cnt k then value else bitmap_test b k)
    pub scan :
        (b : Bitmap) (start cnt : ℕ)
        → ((bitmap_scan_and_flip b start cnt false).0 ≡ bitmap_error)
            × ((k : ℕ) → bitmap_test (bitmap_scan_and_flip b start cnt false).1 k ≡ bitmap_test b k)
          ⊎ ((i : ℕ) × ((bitmap_scan_and_flip b start cnt false).0 ≡ i)
              × (i + cnt ≤ bitmap_size b)
              × (i < bitmap_error)
              × (bitmap_size (bitmap_scan_and_flip b start cnt false).1 ≡ bitmap_size b)
              × ((k : ℕ) → in_range i cnt k ≡ true → bitmap_test b k ≡ false)
              × ((k : ℕ)
                  → bitmap_test (bitmap_scan_and_flip b start cnt false).1 k
                    ≡ (if in_range i cnt k then true else bitmap_test b k)))

  -- The cache over the device, the free map, and whether its file is open.
  pub record Disk : Type 0 where
    pub cache : Cache
    pub free_map : Bitmap
    pub free_map_file : Bool

module _ {lib : BitmapLib} where
  open lib use {bitmap_create, bitmap_size, bitmap_mark, bitmap_count}
  open lib use {bitmap_all, bitmap_scan_and_flip, bitmap_set_multiple, bitmap_write}

  -- `free_map_init`, with the sectors of the free map and of the root directory
  unfoldable pub free_map_init : Disk lib → Option (Disk lib)
  free_map_init d = bitmap_create (d.cache.device.size - 1) >>= λ b.
      some (record d { free_map = bitmap_mark (bitmap_mark b 0) 1 })

  unfoldable pub num_free_sectors : Disk lib → ℕ
  num_free_sectors d = bitmap_count d.free_map 0 (bitmap_size d.free_map) false

  -- The write of a new free map, and its return to what it was when that fails.
  unfoldable pub keep_allocation : ℕ → ℕ → Disk lib → Option (Option ℕ × Disk lib)
  keep_allocation sector cnt d =
      if d.free_map_file
      then (bitmap_write d.free_map d.cache >>= λ r.
          if r.0
          then some (some sector, record d { cache = r.1 })
          else some (
            none,
            record d { cache = r.1; free_map = bitmap_set_multiple d.free_map sector cnt false },
          ))
      else some (some sector, d)

  -- `free_map_allocate`: the first sector, or nothing where the source returns false.
  unfoldable pub free_map_allocate : ℕ → Disk lib → Option (Option ℕ × Disk lib)
  unfolding keep_allocation
  free_map_allocate cnt d =
      let (sector, b) = bitmap_scan_and_flip d.free_map 0 cnt false in
      let d' : Disk lib = record d { free_map = b } in
      if sector == bitmap_error then some (none, d') else keep_allocation sector cnt d'

  unfoldable pub free_map_release : ℕ → ℕ → Disk lib → Option (Disk lib)
  free_map_release sector cnt d =
      if bitmap_all d.free_map sector cnt && d.free_map_file
      then (let b = bitmap_set_multiple d.free_map sector cnt false in
          bitmap_write b d.cache >>= λ r. some (record d { cache = r.1; free_map = b }))
      else none
