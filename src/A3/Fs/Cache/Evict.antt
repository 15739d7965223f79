-- ===== src/A3/Fs/Cache/Evict.antt =====
-- a3/fs/cache.c: the clock loop stops within one round for each access bit and one more, and
-- eviction empties the slot under the hand without losing content.
use mock_os.Prelude.{
  ℕ, zero, suc, ◌+◌, ◌%◌, ◌^◌, ◌<◌, ◌≤◌, ◌≡◌, refl, ◌∙◌, ◌⊎◌, inl, inr, Bool, true, false, Option,
  some, List, [], ◌∷◌, arith, get_elem?, set, ◌==◌, if◌then◌else◌, length, Bool-cases, length-set,
  get_elem?-set_self,
}
use mock_os.A3.Fs.Block.{Sector, Block, update, block_write}
use mock_os.A3.Fs.Cache.{
  buffer_cache_evict, Entry, Cache, hit, buffer_cache_size, buffer_cache_flush, clock_loop, vacate,
  second_chance,
}
use mock_os.A3.Fs.Cache.Slots.{
  view, Absent, Others, Distinct, IsSound, AllSound, get_elem?-AllSound, view-set_same, view-held,
  view-set_empty, view-device, AllSound-set, Distinct-Others, Distinct-set,
}

pub record IsValid (c : Cache) : Type 0 where
  pub count : length c.entries ≡ buffer_cache_size
  pub hand : c.clock < buffer_cache_size
  pub distinct : Distinct c.entries
  pub sound : AllSound c.device.store c.device.size c.entries

-- What the file system sees of the disk.
abbrev pub contents : Cache → ℕ → Sector
contents c = view c.entries c.device.store

-- `c'` has the slot `e` under the hand and the content of `c`, and holds no sector that `c` does
-- not hold.
pub record Slot (c c' : Cache) (e : Entry) : Type 0 where
  pub valid : IsValid c'
  pub content : (s : ℕ) → contents c' s ≡ contents c s
  pub size : c'.device.size ≡ c.device.size
  pub absent : (s : ℕ) → Absent c.entries s → Absent c'.entries s
  pub here : get_elem? c'.entries c'.clock ≡ some e

pub get_elem?-some {ℓ} :
    {A : Type ℓ} (xs : List A) (i : ℕ) → i < length xs → (a : A) × (get_elem? xs i ≡ some a)
get_elem?-some [] i h = absurd (omega arith)
get_elem?-some (x ∷ xs) zero h = (x, refl)
get_elem?-some (x ∷ xs) (suc i) h = get_elem?-some xs i (omega arith)

Absent-set_same :
    (es : List Entry) (i s : ℕ) {e : Entry} (e' : Entry)
    → get_elem? es i ≡ some e
    → (hit e s ≡ false → hit e' s ≡ false)
    → Absent es s
    → Absent (set es i e') s
Absent-set_same [] i s e' g h a = tt
Absent-set_same (x ∷ es) zero s e' g h a = (ground (arith, h), a.1)
Absent-set_same (x ∷ es) (suc i) s e' g h a = (a.0, Absent-set_same es i s e' g h a.1)

-- An entry changes in its flags alone; `dirty` may only be kept.
module _ (c : Cache) (i : ℕ) {e : Entry} (v : IsValid c) (g : get_elem? c.entries i ≡ some e) where
  pub IsValid-access :
      (b : Bool) (hand : ℕ)
      → hand < buffer_cache_size
      → IsValid (record c { entries = set c.entries i (record e { access = b }); clock = hand })
  IsValid-access b hand lt = record {
    count = rw (length-set c.entries i (record e { access = b })) v.count;
    hand = lt;
    distinct =
        Distinct-set c.entries i _ v.distinct λ o. Distinct-Others c.entries i v.distinct g o;
    sound = AllSound-set _ _ c.entries i _ v.sound (get_elem?-AllSound _ _ c.entries i v.sound g);
  }

-- How many access bits are set.
abbrev marked : List Entry → ℕ
marked [] = 0
marked (e ∷ es) = (if e.access then 1 else 0) + marked es

marked-set :
    (es : List Entry) (i : ℕ) {e : Entry} (e' : Entry)
    → get_elem? es i ≡ some e
    → e.access ≡ true
    → e'.access ≡ false
    → marked (set es i e') < marked es
marked-set [] i e' g a b = cc
marked-set (x ∷ es) zero e' g a b = ground arith
marked-set (x ∷ es) (suc i) e' g a b = ground (arith, marked-set es i e' g a b)

marked-le-length : (es : List Entry) → marked es ≤ length es
marked-le-length [] = omega arith
marked-le-length (e ∷ es) = ground (arith, marked-le-length es)

module _ (fuel : ℕ) (c : Cache) {e : Entry} (g : get_elem? c.entries c.clock ≡ some e) where
  clock_loop_stops : (e.occupied ≡ false) ⊎ (e.access ≡ false) → clock_loop (suc fuel) c ≡ some c
  unfolding clock_loop
  clock_loop_stops h = ground arith

  clock_loop_goes_on :
      e.occupied ≡ true
      → e.access ≡ true
      → clock_loop (suc fuel) c ≡ clock_loop fuel (second_chance c e)
  unfolding clock_loop
  clock_loop_goes_on u a = ground arith

-- The next round starts from a valid cache with the same content.
module _ (c : Cache) {e : Entry} (v : IsValid c) (g : get_elem? c.entries c.clock ≡ some e) where
  Slot-second_chance : {c' : Cache} {e' : Entry} → Slot (second_chance c e) c' e' → Slot c c' e'
  Slot-second_chance p = record {
    valid = p.valid;
    content = λ s. p.content s ∙ view-set_same c.entries c.device.store c.clock s _ g refl refl;
    size = p.size;
    absent = λ s a. p.absent s (Absent-set_same c.entries c.clock s _ g (λ h. h) a);
    here = p.here;
  }

-- What a run of the clock hand gives: it stops, at a slot of a valid cache with the same content.
abbrev Stops : ℕ → Cache → Type 0
Stops fuel c = (c' : Cache) × (e : Entry) × (clock_loop fuel c ≡ some c') × Slot c c' e

module _ (fuel : ℕ) (c : Cache) (v : IsValid c) (m : marked c.entries < suc fuel) where
  clock_round :
      ((c : Cache) → IsValid c → marked c.entries < fuel → Stops fuel c)
      → (e : Entry) × (get_elem? c.entries c.clock ≡ some e)
      → Stops (suc fuel) c
  clock_round next (e, g) = elim (Bool-cases e.occupied) [
    | inr free ↦ (c, e, clock_loop_stops fuel c g (inl free), stay)
    | inl used ↦ elim (Bool-cases e.access) [
      | inr old ↦ (c, e, clock_loop_stops fuel c g (inr old), stay)
      | inl young ↦
          let (c', e', run, slot) =
            next (second_chance c e)
              (IsValid-access c c.clock v g false ((c.clock + 1) % buffer_cache_size) (omega arith))
              (omega
                (arith, marked-set c.entries c.clock (record e { access = false }) g young refl)) in
          (c', e', clock_loop_goes_on fuel c g used young ∙ run, Slot-second_chance c v g slot)
    ]
  ]
    where
      stay : Slot c c e
      stay = record { valid = v; content = λ s. refl; size = refl; absent = λ s a. a; here = g }

clock_loop-Slot : (fuel : ℕ) (c : Cache) → IsValid c → marked c.entries < fuel → Stops fuel c
clock_loop-Slot zero c v m = absurd (omega arith)
clock_loop-Slot (suc fuel) c v m =
    clock_round fuel c v m (clock_loop-Slot fuel)
      (get_elem?-some c.entries c.clock (omega (arith, v.count, v.hand)))

-- Writing a dirty entry back makes the device agree with it, and changes no other sector.
flush_lem :
    (e : Entry) (d : Block)
    → e.occupied ≡ true
    → IsSound d.store d.size e
    → (d' : Block) × ((if e.dirty then buffer_cache_flush e d else some (e, d))
        ≡ some (record e { dirty = false }, d'))
      × (d'.size ≡ d.size)
      × ((s : ℕ) → d'.store s ≡ (if s == e.disk_sector then e.buffer else d.store s))
unfolding buffer_cache_flush block_write
flush_lem e d o h = elim (Bool-cases e.dirty) [
  | inl stale ↦ (
    record d {
      store = update d.store e.disk_sector e.buffer;
      write_cnt = (d.write_cnt + 1) % 2 ^ 64;
    },
    ground (arith, h o),
    refl,
    λ s. refl,
  )
  | inr same ↦ (d, ground arith, refl, λ s. ground (arith, (h o).1 same))
]

-- An empty slot under the hand, with all content kept.
abbrev pub Emptied : Cache → Option Cache → Type 0
Emptied c r = (c' : Cache) × (e : Entry) × (r ≡ some c') × (e.occupied ≡ false) × Slot c c' e

IsSound-ne :
    (x : Entry) (d d' : ℕ → Sector) (size k : ℕ) (b : Sector)
    → IsSound d size x
    → hit x k ≡ false
    → d' x.disk_sector ≡ (if x.disk_sector == k then b else d x.disk_sector)
    → IsSound d' size x
IsSound-ne x d d' size k b h n st = λ o. ((h o).0, λ c. ground (arith, (h o).1 c))

pub AllSound-Absent :
    (es : List Entry) (d d' : ℕ → Sector) (size k : ℕ) (b : Sector)
    → AllSound d size es
    → Absent es k
    → ((s : ℕ) → d' s ≡ (if s == k then b else d s))
    → AllSound d' size es
AllSound-Absent [] d d' size k b h a st = tt
AllSound-Absent (x ∷ es) d d' size k b h a st = (
  IsSound-ne x d d' size k b h.0 a.0 (st x.disk_sector),
  AllSound-Absent es d d' size k b h.1 a.1 st,
)

-- The device after the flush still agrees with every entry that is not dirty.
sound-flush :
    (es : List Entry) (d d' : ℕ → Sector) (size i : ℕ) {e : Entry} (e' : Entry)
    → AllSound d size es
    → get_elem? es i ≡ some e
    → Others es i e.disk_sector
    → e'.occupied ≡ false
    → ((s : ℕ) → d' s ≡ (if s == e.disk_sector then e.buffer else d s))
    → AllSound d' size (set es i e')
sound-flush [] d d' size i e' h g o u st = tt
sound-flush (x ∷ es) d d' size zero {e} e' h g o u st =
    (λ p. ground arith, AllSound-Absent es d d' size e.disk_sector e.buffer h.1 o st)
sound-flush (x ∷ es) d d' size (suc i) {e} e' h g o u st = (
  IsSound-ne x d d' size e.disk_sector e.buffer h.0 o.0 (st x.disk_sector),
  sound-flush es d d' size i e' h.1 g o.1 u st,
)

vacated :
    (c : Cache) (e : Entry)
    → IsValid c
    → get_elem? c.entries c.clock ≡ some e
    → e.occupied ≡ true
    → (d : Block) → d.size ≡ c.device.size
    → ((s : ℕ) → d.store s ≡ (if s == e.disk_sector then e.buffer else c.device.store s))
    → Slot c
        (record c {
          entries = set c.entries c.clock (record e { occupied = false; dirty = false });
          device = d;
        })
        (record e { occupied = false; dirty = false })
vacated c e v g used d size store = record {
  valid = record {
    count =
        rw (length-set c.entries c.clock (record e { occupied = false; dirty = false })) v.count;
    hand = v.hand;
    distinct = Distinct-set c.entries c.clock _ v.distinct (λ o. ground arith);
    sound = rw size (
        sound-flush c.entries c.device.store d.store c.device.size c.clock _ v.sound g others refl
          store);
  };
  content = λ s. content s;
  size = size;
  absent = λ s a. Absent-set_same c.entries c.clock s _ g (λ h. refl) a;
  here = get_elem?-set_self c.entries c.clock _ (omega (arith, v.count, v.hand));
}
  where
    others : Others c.entries c.clock e.disk_sector
    others = Distinct-Others c.entries c.clock v.distinct g used

    content :
        (s : ℕ)
        → view (set c.entries c.clock (record e { occupied = false; dirty = false })) d.store s
          ≡ view c.entries c.device.store s
    content s =
        view-set_empty c.entries d.store c.clock s _ g others refl
          (ground (arith, store e.disk_sector))
        ∙ (elim (Bool-cases (s == e.disk_sector)) [
          | inl same ↦ ground (
            arith,
            view-held c.entries d.store c.clock g others used,
            view-held c.entries c.device.store c.clock g others used,
          )
          | inr other ↦ view-device c.entries d.store c.device.store s (ground (arith, store s))
        ])

vacate_used :
    (c : Cache) (e : Entry) {d : Block}
    → e.occupied ≡ true
    → (if e.dirty then buffer_cache_flush e c.device else some (e, c.device))
      ≡ some (record e { dirty = false }, d)
    → vacate c e
      ≡ some (record c {
        entries = set c.entries c.clock (record e { occupied = false; dirty = false });
        device = d;
      })
unfolding vacate
vacate_used c e used run = ground arith

vacate-Emptied :
    (c : Cache) (e : Entry)
    → IsValid c
    → get_elem? c.entries c.clock ≡ some e
    → Emptied c (vacate c e)
unfolding vacate
vacate-Emptied c e v g = elim (Bool-cases e.occupied) [
  | inr free ↦ (
    c,
    e,
    rw free,
    free,
    record { valid = v; content = λ s. refl; size = refl; absent = λ s a. a; here = g },
  )
  | inl used ↦
      let sound = get_elem?-AllSound _ _ c.entries c.clock v.sound g in
      let (d, run, size, store) = flush_lem e c.device used sound in
      (
        record c {
          entries = set c.entries c.clock (record e { occupied = false; dirty = false });
          device = d;
        },
        record e { occupied = false; dirty = false },
        vacate_used c e used run,
        refl,
        vacated c e v g used d size store,
      )
]

-- `buffer_cache_evict` of a valid cache returns an empty slot: its loop ends, the write-back of the
-- victim does not panic, and no content is lost.
pub evict-Emptied : (c : Cache) → IsValid c → Emptied c (buffer_cache_evict c)
unfolding buffer_cache_evict
evict-Emptied c v =
    let (c', e, run, slot) =
      clock_loop-Slot (length c.entries + 1) c v (omega (arith, marked-le-length c.entries)) in
    let (c'', e', run', free, slot') = vacate-Emptied c' e slot.valid slot.here in
    (
      c'',
      e',
      rw (run, slot.here) run',
      free,
      record {
        valid = slot'.valid;
        content = λ s. slot'.content s ∙ slot.content s;
        size = slot'.size ∙ slot.size;
        absent = λ s a. slot'.absent s (slot.absent s a);
        here = slot'.here;
      },
    )
