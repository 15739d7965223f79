-- ===== src/A3/Fs/Cache/Refine.antt =====
-- a3/fs/cache.c: a client of the cache sees a plain disk. A read returns the sector's content, a
-- write changes that sector alone, and closing the cache brings the content to the device.
use mathlib.Core.Path.{subst}
use mock_os.Prelude.{
  ℕ, suc, ◌+◌, ◌%◌, ◌^◌, ◌<◌, ◌≡◌, refl, sym, ◌∙◌, inl, inr, true, false, Option, none, some, List,
  [], ◌∷◌, arith, get_elem?, set, Bool-cases, length-set, get_elem?-set_self, Option-cases,
}
use mock_os.A3.Fs.Block.{Sector, update, block_read}
use mock_os.A3.Fs.Cache.{
  Entry, Cache, hit, buffer_cache_evict, fill, obtain, buffer_cache_lookup, lookup_from,
  buffer_cache_read, buffer_cache_write,
}
use mock_os.A3.Fs.Cache.Slots.{
  Absent, Others, get_elem?-AllSound, view-set_same, view-set_put, view-held, Absent-Others,
  AllSound-set, Distinct-Others, Distinct-set, lookup_from-Absent, hit_parts, view-Absent,
}
use mock_os.A3.Fs.Cache.Evict.{IsValid, contents, evict-Emptied, IsValid-access}

-- `c'` is a valid cache with content `v` over a device of the same size.
pub record Refines (c : Cache) (v : ℕ → Sector) (c' : Cache) : Type 0 where
  pub valid : IsValid c'
  pub content : (s : ℕ) → contents c' s ≡ v s
  pub size : c'.device.size ≡ c.device.size

-- The slot that an operation works on: index and entry.
pub record Held (c : Cache) (sector : ℕ) (i : ℕ) (c' : Cache) (e : Entry) : Type 0 where
  pub refines : Refines c (contents c) c'
  pub here : get_elem? c'.entries i ≡ some e
  pub occupied : e.occupied ≡ true
  pub holds : e.disk_sector ≡ sector

-- A miss reads the sector into an emptied slot.
abbrev loaded : Cache → Entry → ℕ → Entry
loaded c e sector = record e {
  occupied = true;
  disk_sector = sector;
  dirty = false;
  buffer = c.device.store sector;
}

abbrev filled : Cache → Entry → ℕ → Cache
filled c e sector = record c {
  entries = set c.entries c.clock (loaded c e sector);
  device = record (c.device) { read_cnt = (c.device.read_cnt + 1) % 2 ^ 64 };
}

module _ (c : Cache) (e : Entry) (sector : ℕ) (v : IsValid c)
    (g : get_elem? c.entries c.clock ≡ some e) (free : e.occupied ≡ false)
    (out : Absent c.entries sector) (in_range : sector < c.device.size) where
  filled-content : (s : ℕ) → contents (filled c e sector) s ≡ contents c s
  filled-content s =
      view-set_put c.entries c.device.store c.clock sector s (loaded c e sector) g
        (Absent-Others c.entries c.clock sector out) refl refl (inl free)
      ∙ ground (arith, view-Absent c.entries c.device.store sector out)

  filled-Refines : Refines c (contents c) (filled c e sector)
  filled-Refines = record {
    valid = record {
      count = rw (length-set c.entries c.clock (loaded c e sector)) v.count;
      hand = v.hand;
      distinct =
          Distinct-set c.entries c.clock (loaded c e sector) v.distinct
            (λ o. Absent-Others c.entries c.clock sector out);
      sound =
          AllSound-set _ _ c.entries c.clock (loaded c e sector) v.sound
            (λ o. (in_range, λ d. refl));
    };
    content = filled-content;
    size = refl;
  }

-- The slot of a sector, obtained from a valid cache.
abbrev Obtains : Cache → ℕ → Option (ℕ × Cache) → Type 0
Obtains c sector r =
    (i : ℕ) × (c' : Cache) × (e : Entry) × (r ≡ some (i, c')) × Held c sector i c' e

fill_run :
    (c c' : Cache) (e : Entry) (sector : ℕ)
    → buffer_cache_evict c ≡ some c'
    → get_elem? c'.entries c'.clock ≡ some e
    → e.occupied ≡ false
    → sector < c'.device.size
    → fill c sector ≡ some (filled c' e sector)
unfolding fill block_read
fill_run c c' e sector run g free lt = ground arith

fill-Held :
    (c : Cache) (sector : ℕ)
    → IsValid c
    → Absent c.entries sector
    → sector < c.device.size
    → (c' : Cache) × (e : Entry) × (fill c sector ≡ some c') × Held c sector c'.clock c' e
fill-Held c sector v out lt =
    let (c', e, run, free, slot) = evict-Emptied c v in
    let in_range : sector < c'.device.size = omega (arith, slot.size) in
    let done =
      filled-Refines c' e sector slot.valid slot.here free (slot.absent sector out) in_range in
    (
      filled c' e sector,
      loaded c' e sector,
      fill_run c c' e sector run slot.here free in_range,
      record {
        refines = record {
          valid = done.valid;
          content = λ s. done.content s ∙ slot.content s;
          size = slot.size;
        };
        here =
            get_elem?-set_self c'.entries c'.clock (loaded c' e sector)
              (omega (arith, slot.valid.count, slot.valid.hand));
        occupied = refl;
        holds = refl;
      },
    )

lookup_from-some :
    (es : List Entry) (s i : ℕ) {j : ℕ}
    → lookup_from es s i ≡ some j
    → (k : ℕ) × (e : Entry) × (j ≡ i + k) × (get_elem? es k ≡ some e) × (hit e s ≡ true)
unfolding lookup_from
lookup_from-some [] s i h = cc
lookup_from-some (x ∷ es) s i {j} h = elim (Bool-cases (hit x s)) [
  | inl found ↦ (0, x, ground arith, refl, found)
  | inr other ↦
      let rest : lookup_from es s (i + 1) ≡ some j = ground arith in
      let (k, e, p, g, q) = lookup_from-some es s (i + 1) rest in (suc k, e, omega arith, g, q)
]

lookup-Held :
    (c : Cache) (sector i : ℕ)
    → IsValid c
    → buffer_cache_lookup c sector ≡ some i
    → (e : Entry) × Held c sector i c e
unfolding buffer_cache_lookup
lookup-Held c sector i v h =
    let (k, e, p, g, q) = lookup_from-some c.entries sector 0 h in
    let same : i ≡ k = omega arith in
    (
      e,
      record {
        refines = record { valid = v; content = λ s. refl; size = refl };
        here = rw same g;
        occupied = (hit_parts e sector q).0;
        holds = (hit_parts e sector q).1;
      },
    )

lookup-Absent :
    (c : Cache) (sector : ℕ) → buffer_cache_lookup c sector ≡ none → Absent c.entries sector
unfolding buffer_cache_lookup
lookup-Absent c sector h = lookup_from-Absent c.entries sector 0 h

-- A hit or a filled slot: an obtained slot always holds the sector, and no content changes.
obtain-Held :
    (c : Cache) (sector : ℕ)
    → IsValid c
    → sector < c.device.size
    → Obtains c sector (obtain c sector)
unfolding obtain
obtain-Held c sector v lt = elim (Option-cases (buffer_cache_lookup c sector)) [
  | inr (i, found) ↦
      let (e, held) = lookup-Held c sector i v found in (i, c, e, rw (found, obtain), held)
  | inl missing ↦
      let (c', e, run, held) = fill-Held c sector v (lookup-Absent c sector missing) lt in
      (c'.clock, c', e, rw (missing, obtain, run), held)
]

Held-Others :
    {c c' : Cache} {sector i : ℕ} {e : Entry}
    → Held c sector i c' e
    → Others c'.entries i e.disk_sector
Held-Others {c' = c'} {i = i} h =
    Distinct-Others c'.entries i h.refines.valid.distinct h.here h.occupied

-- The entry of an obtained slot shows the sector's content.
Held-content :
    {c c' : Cache} {sector i : ℕ} {e : Entry} → Held c sector i c' e → e.buffer ≡ contents c sector
Held-content {c} {c'} {sector} {i} {e} h =
    sym (view-held c'.entries c'.device.store i h.here (Held-Others h) h.occupied)
    ∙ rw h.holds (h.refines.content sector)

-- `buffer_cache_read` of a sector of the device succeeds, returns the sector's content, and changes
-- no content.
pub read_refines :
    (c : Cache) (sector : ℕ)
    → IsValid c
    → sector < c.device.size
    → (c' : Cache) × (buffer_cache_read c sector ≡ some (contents c sector, c'))
      × Refines c (contents c) c'
unfolding buffer_cache_read
read_refines c sector v lt =
    let (i, c', e, run, held) = obtain-Held c sector v lt in
    (
      record c' { entries = set c'.entries i (record e { access = true }) },
      rw (run, held.here, Held-content held),
      record {
        valid =
            IsValid-access c' i held.refines.valid held.here true c'.clock held.refines.valid.hand;
        content = λ s.
            view-set_same c'.entries c'.device.store i s _ held.here refl refl
            ∙ held.refines.content s;
        size = held.refines.size;
      },
    )

-- `buffer_cache_write` to a sector of the device succeeds, and afterwards the content is the data
-- at that sector and what it was at every other.
pub write_refines :
    (c : Cache) (sector : ℕ) (source : Sector)
    → IsValid c
    → sector < c.device.size
    → (c' : Cache) × (buffer_cache_write c sector source ≡ some c')
      × Refines c (update (contents c) sector source) c'
unfolding buffer_cache_write
write_refines c sector source v lt =
    let (i, c', e, run, held) = obtain-Held c sector v lt in
    let e' : Entry = record e { access = true; dirty = true; buffer = source } in
    let ok = held.refines.valid in
    (
      record c' { entries = set c'.entries i e' },
      rw (run, held.here),
      record {
        valid = record {
          count = rw (length-set c'.entries i e') ok.count;
          hand = ok.hand;
          distinct = Distinct-set c'.entries i e' ok.distinct (λ o. Held-Others held);
          sound = AllSound-set _ _ c'.entries i e' ok.sound λ o.
              ((get_elem?-AllSound _ _ c'.entries i ok.sound held.here held.occupied).0, λ d. cc);
        };
        content = λ s.
            view-set_put c'.entries c'.device.store i sector s e' held.here
              (subst (Others c'.entries i) held.holds (Held-Others held)) held.occupied held.holds
              (inr held.holds)
            ∙ ground (arith, held.refines.content s);
        size = held.refines.size;
      },
    )
