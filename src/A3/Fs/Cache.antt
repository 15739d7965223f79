-- ===== src/A3/Fs/Cache.antt =====
-- a3/fs/cache.c: a write-back buffer cache of 64 sectors with clock replacement. The static array,
-- the static clock hand and the device are one state; a pointer into the array is an index.
-- `none` is a panic of the device, a failed assertion, an index out of the array, or fuel that ran
-- out.
use mock_os.Prelude.{
  ℕ, zero, suc, ◌+◌, ◌%◌, Bool, true, false, ◌&&◌, Option, none, some, List, [], ◌∷◌, get_elem?,
  set, ◌==◌, if◌then◌else◌, length,
}
use mock_os.A3.Fs.Block.{Sector, Block, block_read, block_write}
pub mod Slots
pub mod Evict
pub mod Refine
pub mod Session

abbrev pub buffer_cache_size : ℕ
buffer_cache_size = 64

-- `struct buffer_cache_entry_t`
pub record Entry : Type 0 where
  pub occupied : Bool
  pub disk_sector : ℕ
  pub buffer : Sector
  pub dirty : Bool
  pub access : Bool

pub record Cache : Type 0 where
  pub entries : List Entry
  pub clock : ℕ
  pub device : Block

infixl 5 ◌>>=◌
abbrev pub ◌>>=◌ {ℓ κ} : {A : Type ℓ} {B : Type κ} → Option A → (A → Option B) → Option B
none >>= f = none
some a >>= f = f a

-- The loop of `buffer_cache_init`.
init_entries : List Entry → List Entry
init_entries [] = []
init_entries (e ∷ es) = record e { occupied = false; dirty = false } ∷ init_entries es

pub buffer_cache_init : Cache → Cache
unfolding init_entries
buffer_cache_init c = record c { entries = init_entries c.entries }

-- `buffer_cache_flush`: the entry and the device afterwards.
pub buffer_cache_flush : Entry → Block → Option (Entry × Block)
buffer_cache_flush e d =
    if e.occupied
    then if e.dirty
      then (block_write d e.disk_sector e.buffer >>= λ d'. some (record e { dirty = false }, d'))
      else some (e, d)
    else none

-- The loop of `buffer_cache_close`.
pub flush_all : List Entry → Block → Option (List Entry × Block)
flush_all [] d = some ([], d)
flush_all (e ∷ es) d = (if e.occupied then buffer_cache_flush e d else some (e, d)) >>= λ r.
    flush_all es r.1 >>= λ rest. some (r.0 ∷ rest.0, rest.1)

pub buffer_cache_close : Cache → Option Cache
buffer_cache_close c =
    flush_all c.entries c.device >>= λ r. some (record c { entries = r.0; device = r.1 })

-- Does the entry hold the sector?
abbrev pub hit : Entry → ℕ → Bool
hit e sector = e.occupied && e.disk_sector == sector

-- The loop of `buffer_cache_lookup`, from index `i`.
unfoldable pub lookup_from : List Entry → ℕ → ℕ → Option ℕ
lookup_from [] sector i = none
lookup_from (e ∷ es) sector i = if hit e sector then some i else lookup_from es sector (i + 1)

unfoldable pub buffer_cache_lookup : Cache → ℕ → Option ℕ
buffer_cache_lookup c sector = lookup_from c.entries sector 0

-- `access = false; clock++; clock %= BUFFER_CACHE_SIZE`
abbrev pub second_chance : Cache → Entry → Cache
second_chance c e = record c {
  entries = set c.entries c.clock (record e { access = false });
  clock = (c.clock + 1) % buffer_cache_size;
}

-- The `while (true)` of `buffer_cache_evict`, which stops at a slot and moves the hand to it.
unfoldable pub clock_loop : ℕ → Cache → Option Cache
clock_loop zero c = none
clock_loop (suc fuel) c = elim (get_elem? c.entries c.clock) [
  | none ↦ none
  | some e ↦
      let again = clock_loop fuel (second_chance c e) in
      if e.occupied then if e.access then again else some c else some c
]

-- What `buffer_cache_evict` does with the slot under the hand.
unfoldable pub vacate : Cache → Entry → Option Cache
vacate c e =
    if e.occupied
    then ((if e.dirty then buffer_cache_flush e c.device else some (e, c.device)) >>= λ r.
        some (record c {
          entries = set c.entries c.clock (record (r.0) { occupied = false });
          device = r.1;
        }))
    else some c

-- One round for each entry with its access bit set, and one more, are enough.
unfoldable pub buffer_cache_evict : Cache → Option Cache
buffer_cache_evict c =
    clock_loop (length c.entries + 1) c >>= λ c'. get_elem? c'.entries c'.clock >>= λ e. vacate c' e

-- The miss branch of `buffer_cache_read` and of `buffer_cache_write`, with its assertion.
unfoldable pub fill : Cache → ℕ → Option Cache
fill c sector = buffer_cache_evict c >>= λ c'. get_elem? c'.entries c'.clock >>= λ e.
    if e.occupied
    then none
    else block_read c'.device sector >>= λ r. some (record c' {
      entries =
          set c'.entries c'.clock
            (record e { occupied = true; disk_sector = sector; dirty = false; buffer = r.0 });
      device = r.1;
    })

-- The slot that the operations below work on: of a hit, or filled under the clock hand.
unfoldable pub obtain : Cache → ℕ → Option (ℕ × Cache)
obtain c sector = elim (buffer_cache_lookup c sector) [
  | some i ↦ some (i, c)
  | none ↦ fill c sector >>= λ c'. some (c'.clock, c')
]

unfoldable pub buffer_cache_read : Cache → ℕ → Option (Sector × Cache)
buffer_cache_read c sector = obtain c sector >>= λ r. get_elem? r.1.entries r.0 >>= λ e.
    some (e.buffer, record (r.1) { entries = set r.1.entries r.0 (record e { access = true }) })

pub buffer_cache_write : Cache → ℕ → Sector → Option Cache
buffer_cache_write c sector source = obtain c sector >>= λ r. get_elem? r.1.entries r.0 >>= λ e.
    some (record (r.1) {
      entries = set r.1.entries r.0 (record e { access = true; dirty = true; buffer = source });
    })
