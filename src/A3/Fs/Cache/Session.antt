-- ===== src/A3/Fs/Cache/Session.antt =====
-- a3/fs/cache.c: closing the cache, and whole sessions of requests from start to close.
use mathlib.Core.Path.{fun_ext, subst}
use mock_os.Prelude.{
  ℕ, suc, ◌+◌, ◌%◌, ◌^◌, ◌<◌, ◌≡◌, refl, sym, ◌∙◌, ap, inl, inr, false, Option, some, List, [], ◌∷◌,
  arith, if◌then◌else◌, Bool-cases, length,
}
use mock_os.A3.Fs.Block.{Sector, Block, update, block_write}
use mock_os.A3.Fs.Cache.{
  Entry, Cache, hit, buffer_cache_flush, ◌>>=◌, buffer_cache_read, buffer_cache_write, flush_all,
  buffer_cache_close, init_entries, buffer_cache_init, buffer_cache_size,
}
use mock_os.A3.Fs.Cache.Slots.{
  view, Absent, Distinct, AllSound, IsSound, view-Absent, view-device, hit_parts,
}
use mock_os.A3.Fs.Cache.Evict.{IsValid, contents, AllSound-Absent}
use mock_os.A3.Fs.Cache.Refine.{Refines, read_refines, write_refines}

-- One entry of the closing loop.
abbrev close_one : Entry → Block → Option (Entry × Block)
close_one e d = if e.occupied then buffer_cache_flush e d else some (e, d)

-- The device after one step of the loop, with what the remaining entries rely on.
record Closed (e : Entry) (d : Block) (e' : Entry) (d' : Block) : Type 0 where
  run : close_one e d ≡ some (e', d')
  size : d'.size ≡ d.size
  store : (s : ℕ) → d'.store s ≡ (if hit e s then e.buffer else d.store s)

close_one-Closed :
    (e : Entry) (d : Block)
    → IsSound d.store d.size e
    → (e' : Entry) × (d' : Block) × Closed e d e' d'
unfolding buffer_cache_flush block_write
close_one-Closed e d h = elim (Bool-cases e.occupied) [
  | inr free ↦ (e, d, record { run = ground arith; size = refl; store = λ s. ground arith })
  | inl used ↦ elim (Bool-cases e.dirty) [
    | inr same ↦ (
      e,
      d,
      record { run = ground arith; size = refl; store = λ s. ground (arith, (h used).1 same) },
    )
    | inl stale ↦ (
      record e { dirty = false },
      record d {
        store = update d.store e.disk_sector e.buffer;
        write_cnt = (d.write_cnt + 1) % 2 ^ 64;
      },
      record { run = ground (arith, h used); size = refl; store = λ s. ground arith },
    )
  ]
]

module _ (e : Entry) (es : List Entry) (d d' : Block) (distinct : Distinct (e ∷ es))
    (store : (s : ℕ) → d'.store s ≡ (if hit e s then e.buffer else d.store s)) where
  -- The remaining entries show the same over the new device, but for the sector written.
  view-Closed : (s : ℕ) → view es d'.store s ≡ view (e ∷ es) d.store s
  view-Closed s = elim (Bool-cases (hit e s)) [
    | inl held ↦ ground (
      arith,
      hit_parts e s held,
      view-Absent es d'.store e.disk_sector (distinct.0 (hit_parts e s held).0),
      store e.disk_sector,
    )
    | inr other ↦ rw other (view-device es d'.store d.store s (ground (arith, store s)))
  ]

  AllSound-Closed : AllSound d.store d.size es → AllSound d'.store d.size es
  AllSound-Closed h = elim (Bool-cases e.occupied) [
    | inl used ↦
        AllSound-Absent es d.store d'.store d.size e.disk_sector e.buffer h (distinct.0 used)
          (λ s. ground (arith, store s))
    | inr free ↦ subst (λ f. AllSound f d.size es) (sym (fun_ext λ s. ground (arith, store s))) h
  ]

flush_all-lem :
    (es : List Entry) (d : Block)
    → Distinct es
    → AllSound d.store d.size es
    → (es' : List Entry) × (d' : Block) × (flush_all es d ≡ some (es', d'))
      × ((s : ℕ) → d'.store s ≡ view es d.store s)
unfolding flush_all
flush_all-lem [] d v h = ([], d, refl, λ s. refl)
flush_all-lem (e ∷ es) d v h =
    let (e', d₁, one) = close_one-Closed e d h.0 in
    let (es', d₂, run, stored) =
      flush_all-lem es d₁ v.1 (rw one.size (AllSound-Closed e es d d₁ v one.store h.1)) in
    (e' ∷ es', d₂, rw (one.run, run), λ s. stored s ∙ view-Closed e es d d₁ v one.store s)

-- `buffer_cache_close` of a valid cache succeeds, and the device then stores all of the content.
pub close_persists :
    (c : Cache)
    → IsValid c
    → (c' : Cache) × (buffer_cache_close c ≡ some c') × ((s : ℕ) → c'.device.store s ≡ contents c s)
unfolding buffer_cache_close
close_persists c v =
    let (es, d, run, stored) = flush_all-lem c.entries c.device v.distinct v.sound in
    (record c { entries = es; device = d }, rw run, stored)

-- What the file system asks of the cache.
pub data Request : Type 0 where
  get : ℕ → Request
  put : ℕ → Sector → Request

abbrev pub sector_of : Request → ℕ
sector_of (get s) = s
sector_of (put s b) = s

-- Requests in order: the sectors read, and the cache afterwards.
pub run : Cache → List Request → Option (List Sector × Cache)
run c [] = some ([], c)
run c (get s ∷ rs) =
    buffer_cache_read c s >>= λ r. run r.1 rs >>= λ rest. some (r.0 ∷ rest.0, rest.1)
run c (put s b ∷ rs) = buffer_cache_write c s b >>= λ c'. run c' rs

-- The same requests on a plain disk.
unfoldable pub disk_replies : (ℕ → Sector) → List Request → List Sector
disk_replies f [] = []
disk_replies f (get s ∷ rs) = f s ∷ disk_replies f rs
disk_replies f (put s b ∷ rs) = disk_replies (update f s b) rs

unfoldable pub disk_after : (ℕ → Sector) → List Request → ℕ → Sector
disk_after f [] = f
disk_after f (get s ∷ rs) = disk_after f rs
disk_after f (put s b ∷ rs) = disk_after (update f s b) rs

abbrev pub AllInRange : ℕ → List Request → Type 0
AllInRange size [] = Unit {0}
AllInRange size (r ∷ rs) = (sector_of r < size) × AllInRange size rs

run-Refines :
    (c : Cache) (f : ℕ → Sector) (rs : List Request)
    → IsValid c
    → ((s : ℕ) → contents c s ≡ f s)
    → AllInRange c.device.size rs
    → (c' : Cache) × (run c rs ≡ some (disk_replies f rs, c')) × Refines c (disk_after f rs) c'
unfolding run disk_replies disk_after
run-Refines c f [] v h ok = (c, refl, record { valid = v; content = h; size = refl })
run-Refines c f (get s ∷ rs) v h ok =
    let (c₁, step, one) = read_refines c s v ok.0 in
    let (c₂, rest, all) =
      run-Refines c₁ f rs one.valid (λ k. one.content k ∙ h k)
        (subst (λ n. AllInRange n rs) (sym one.size) ok.1) in
    (
      c₂,
      rw (step, rest, h s),
      record { valid = all.valid; content = all.content; size = all.size ∙ one.size },
    )
run-Refines c f (put s b ∷ rs) v h ok =
    let (c₁, step, one) = write_refines c s b v ok.0 in
    let (c₂, rest, all) =
      run-Refines c₁ (update f s b) rs one.valid (λ k. one.content k ∙ ground (arith, h k))
        (subst (λ n. AllInRange n rs) (sym one.size) ok.1) in
    (
      c₂,
      rw (step, rest),
      record { valid = all.valid; content = all.content; size = all.size ∙ one.size },
    )

-- `buffer_cache_init` gives a valid cache that shows the device as it is.
init-Absent : (es : List Entry) (s : ℕ) → Absent (init_entries es) s
unfolding init_entries
init-Absent [] s = tt
init-Absent (e ∷ es) s = (refl, init-Absent es s)

init-Distinct : (es : List Entry) → Distinct (init_entries es)
unfolding init_entries
init-Distinct [] = tt
init-Distinct (e ∷ es) = (λ o. init-Absent es e.disk_sector, init-Distinct es)

init-AllSound : (es : List Entry) (d : ℕ → Sector) (size : ℕ) → AllSound d size (init_entries es)
unfolding init_entries
init-AllSound [] d size = tt
init-AllSound (e ∷ es) d size = (λ o. cc, init-AllSound es d size)

length-init_entries : (es : List Entry) → length (init_entries es) ≡ length es
unfolding init_entries
length-init_entries [] = refl
length-init_entries (e ∷ es) = ap suc (length-init_entries es)

pub init-Refines :
    (c : Cache)
    → length c.entries ≡ buffer_cache_size
    → c.clock < buffer_cache_size
    → Refines c c.device.store (buffer_cache_init c)
unfolding buffer_cache_init
init-Refines c n hand = record {
  valid = record {
    count = length-init_entries c.entries ∙ n;
    hand = hand;
    distinct = init-Distinct c.entries;
    sound = init-AllSound c.entries c.device.store c.device.size;
  };
  content = λ s. view-Absent (init_entries c.entries) c.device.store s (init-Absent c.entries s);
  size = refl;
}

-- After `buffer_cache_init`, from whatever the static array held and with its clock hand in range,
-- every sequence of reads and writes of sectors of the device, followed by `buffer_cache_close`,
-- runs without a panic; the reads return what a plain disk would return, and the device ends with
-- what the plain disk would hold.
pub session_persists :
    (c : Cache) (rs : List Request)
    → length c.entries ≡ buffer_cache_size
    → c.clock < buffer_cache_size
    → AllInRange c.device.size rs
    → (c' c'' : Cache) × (run (buffer_cache_init c) rs ≡ some (disk_replies c.device.store rs, c'))
      × (buffer_cache_close c' ≡ some c'')
      × ((s : ℕ) → c''.device.store s ≡ disk_after c.device.store rs s)
session_persists c rs n hand ok =
    let start = init-Refines c n hand in
    let (c', ran, all) =
      run-Refines (buffer_cache_init c) c.device.store rs start.valid start.content
        (subst (λ k. AllInRange k rs) (sym start.size) ok) in
    let (c'', closed, stored) = close_persists c' all.valid in
    (c', c'', ran, closed, λ s. stored s ∙ all.content s)
