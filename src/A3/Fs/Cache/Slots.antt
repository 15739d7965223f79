-- ===== src/A3/Fs/Cache/Slots.antt =====
-- a3/fs/cache.c: what an array of cache entries over a device stands for, and how a change of one
-- entry changes it.
use mock_os.Prelude.{
  ℕ, zero, suc, ◌+◌, ◌<◌, ◌≡◌, refl, ◌⊎◌, inl, inr, true, false, none, some, List, [], ◌∷◌, arith,
  get_elem?, set, ◌==◌, if◌then◌else◌, Bool-cases,
}
use mathlib.Core.Path.{subst}
use mathlib.Core.Option.{some-injective}
use mock_os.A3.Fs.Block.{Sector}
use mock_os.A3.Fs.Cache.{Entry, hit, lookup_from}

-- The content of each sector: the cached buffer, or else what the device stores.
abbrev pub view : List Entry → (ℕ → Sector) → ℕ → Sector
view [] d s = d s
view (e ∷ es) d s = if hit e s then e.buffer else view es d s

-- No entry holds the sector.
abbrev pub Absent : List Entry → ℕ → Type 0
Absent [] s = Unit {0}
Absent (e ∷ es) s = (hit e s ≡ false) × Absent es s

-- No entry but that at the index holds the sector.
abbrev pub Others : List Entry → ℕ → ℕ → Type 0
Others [] i s = Unit {0}
Others (e ∷ es) zero s = Absent es s
Others (e ∷ es) (suc i) s = (hit e s ≡ false) × Others es i s

-- Each sector is held at most once.
abbrev pub Distinct : List Entry → Type 0
Distinct [] = Unit {0}
Distinct (e ∷ es) = (e.occupied ≡ true → Absent es e.disk_sector) × Distinct es

-- An occupied entry holds a sector of the device, and agrees with it unless it is dirty.
abbrev pub IsSound : (ℕ → Sector) → ℕ → Entry → Type 0
IsSound d size e =
    e.occupied ≡ true → (e.disk_sector < size) × (e.dirty ≡ false → d e.disk_sector ≡ e.buffer)

abbrev pub AllSound : (ℕ → Sector) → ℕ → List Entry → Type 0
AllSound d size [] = Unit {0}
AllSound d size (e ∷ es) = IsSound d size e × AllSound d size es

pub get_elem?-AllSound :
    (d : ℕ → Sector) (size : ℕ) (es : List Entry) (i : ℕ) {e : Entry}
    → AllSound d size es
    → get_elem? es i ≡ some e
    → IsSound d size e
get_elem?-AllSound d size [] i h g = cc
get_elem?-AllSound d size (x ∷ es) zero h g = subst (IsSound d size) (some-injective _ _ g) h.0
get_elem?-AllSound d size (x ∷ es) (suc i) h g = get_elem?-AllSound d size es i h.1 g

-- Looking a sector up finds an entry that holds it, alone if the entries are distinct.
pub lookup_from-Absent : (es : List Entry) (s i : ℕ) → lookup_from es s i ≡ none → Absent es s
unfolding lookup_from
lookup_from-Absent [] s i h = tt
lookup_from-Absent (e ∷ es) s i h = ground (arith, lookup_from-Absent es s (i + 1))

pub Absent-lookup_from : (es : List Entry) (s i : ℕ) → Absent es s → lookup_from es s i ≡ none
unfolding lookup_from
Absent-lookup_from [] s i h = refl
Absent-lookup_from (e ∷ es) s i h = ground (arith, Absent-lookup_from es s (i + 1))

pub view-Absent : (es : List Entry) (d : ℕ → Sector) (s : ℕ) → Absent es s → view es d s ≡ d s
view-Absent [] d s h = refl
view-Absent (e ∷ es) d s h = ground (arith, view-Absent es d s)

-- The device matters only at the sector itself.
pub view-device :
    (es : List Entry) (d d' : ℕ → Sector) (s : ℕ) → d s ≡ d' s → view es d s ≡ view es d' s
view-device [] d d' s h = h
view-device (e ∷ es) d d' s h = ground (arith, view-device es d d' s)

-- A change that keeps what an entry holds changes nothing.
pub view-set_same :
    (es : List Entry) (d : ℕ → Sector) (i s : ℕ) {e : Entry} (e' : Entry)
    → get_elem? es i ≡ some e
    → hit e' s ≡ hit e s
    → e'.buffer ≡ e.buffer
    → view (set es i e') d s ≡ view es d s
view-set_same [] d i s e' g h b = refl
view-set_same (x ∷ es) d zero s e' g h b = ground arith
view-set_same (x ∷ es) d (suc i) s e' g h b = ground (arith, view-set_same es d i s e' g h b)

pub Absent-set :
    (es : List Entry) (i s : ℕ) (e' : Entry)
    → Others es i s
    → hit e' s ≡ false
    → Absent (set es i e') s
Absent-set [] i s e' o h = tt
Absent-set (x ∷ es) zero s e' o h = (h, o)
Absent-set (x ∷ es) (suc i) s e' o h = (o.0, Absent-set es i s e' o.1 h)

pub Absent-Others : (es : List Entry) (i s : ℕ) → Absent es s → Others es i s
Absent-Others [] i s a = tt
Absent-Others (x ∷ es) zero s a = a.1
Absent-Others (x ∷ es) (suc i) s a = (a.0, Absent-Others es i s a.1)

pub Others-set : (es : List Entry) (i s : ℕ) (e' : Entry) → Others es i s → Others (set es i e') i s
Others-set [] i s e' o = tt
Others-set (x ∷ es) zero s e' o = o
Others-set (x ∷ es) (suc i) s e' o = (o.0, Others-set es i s e' o.1)

Absent-ne :
    (es : List Entry) (i s : ℕ) {e : Entry}
    → get_elem? es i ≡ some e
    → Absent es s
    → hit e s ≡ false
Absent-ne [] i s g a = cc
Absent-ne (x ∷ es) zero s g a = ground arith
Absent-ne (x ∷ es) (suc i) s g a = Absent-ne es i s g a.1

pub hit_parts : (e : Entry) (s : ℕ) → hit e s ≡ true → (e.occupied ≡ true) × (e.disk_sector ≡ s)
hit_parts e s h = ground arith

-- In distinct entries, the sector of an occupied one is held by no other.
pub Distinct-Others :
    (es : List Entry) (i : ℕ) {e : Entry}
    → Distinct es
    → get_elem? es i ≡ some e
    → e.occupied ≡ true
    → Others es i e.disk_sector
Distinct-Others [] i v g o = tt
Distinct-Others (x ∷ es) zero v g o =
    subst (λ a. a.occupied ≡ true → Absent es a.disk_sector) (some-injective _ _ g) v.0 o
Distinct-Others (x ∷ es) (suc i) {e} v g o = (
  elim (Bool-cases (hit x e.disk_sector)) [
    | inl yes_hit ↦ ground (
      arith,
      Absent-ne es i x.disk_sector g (v.0 (hit_parts x e.disk_sector yes_hit).0),
      hit_parts x e.disk_sector yes_hit,
    )
    | inr no_hit ↦ no_hit
  ],
  Distinct-Others es i v.1 g o,
)

-- The only entry that holds a sector is what the view shows there.
pub view-held :
    (es : List Entry) (d : ℕ → Sector) (i : ℕ) {e : Entry}
    → get_elem? es i ≡ some e
    → Others es i e.disk_sector
    → e.occupied ≡ true
    → view es d e.disk_sector ≡ e.buffer
view-held [] d i g o u = cc
view-held (x ∷ es) d zero g o u = ground arith
view-held (x ∷ es) d (suc i) g o u = ground (arith, view-held es d i g o.1 u)

-- Emptying a slot keeps the view, where the device has its sector's content.
pub view-set_empty :
    (es : List Entry) (d : ℕ → Sector) (i s : ℕ) {e : Entry} (e' : Entry)
    → get_elem? es i ≡ some e
    → Others es i e.disk_sector
    → e'.occupied ≡ false
    → d e.disk_sector ≡ e.buffer
    → view (set es i e') d s ≡ view es d s
view-set_empty [] d i s e' g o u b = refl
view-set_empty (x ∷ es) d zero s {e} e' g o u b =
    ground (arith, view-Absent es d s, view-Absent es d e.disk_sector o)
view-set_empty (x ∷ es) d (suc i) s e' g o u b =
    ground (arith, view-set_empty es d i s e' g o.1 u b)

-- Filling or overwriting the only slot of a sector changes the view at that sector alone.
pub view-set_put :
    (es : List Entry) (d : ℕ → Sector) (i k s : ℕ) {e : Entry} (e' : Entry)
    → get_elem? es i ≡ some e
    → Others es i k
    → e'.occupied ≡ true
    → e'.disk_sector ≡ k
    → (e.occupied ≡ false) ⊎ (e.disk_sector ≡ k)
    → view (set es i e') d s ≡ (if s == k then e'.buffer else view es d s)
view-set_put [] d i k s e' g o u p was = cc
view-set_put (x ∷ es) d zero k s e' g o u p was = ground arith
view-set_put (x ∷ es) d (suc i) k s e' g o u p was =
    ground (arith, view-set_put es d i k s e' g o.1 u p was)

pub AllSound-set :
    (d : ℕ → Sector) (size : ℕ) (es : List Entry) (i : ℕ) (e' : Entry)
    → AllSound d size es
    → IsSound d size e'
    → AllSound d size (set es i e')
AllSound-set d size [] i e' h h' = tt
AllSound-set d size (x ∷ es) zero e' h h' = (h', h.1)
AllSound-set d size (x ∷ es) (suc i) e' h h' = (h.0, AllSound-set d size es i e' h.1 h')

Absent-set_keep :
    (es : List Entry) (i s : ℕ) (e' : Entry)
    → Absent es s
    → hit e' s ≡ false
    → Absent (set es i e') s
Absent-set_keep es i s e' a h = Absent-set es i s e' (Absent-Others es i s a) h

-- Entries stay distinct when one is emptied, or holds a sector that no other one has.
pub Distinct-set :
    (es : List Entry) (i : ℕ) (e' : Entry)
    → Distinct es
    → (e'.occupied ≡ true → Others es i e'.disk_sector)
    → Distinct (set es i e')
Distinct-set [] i e' v o = tt
Distinct-set (x ∷ es) zero e' v o = (o, v.1)
Distinct-set (x ∷ es) (suc i) e' v o = (
  λ ox.
      Absent-set_keep es i x.disk_sector e' (v.0 ox) (elim (Bool-cases e'.occupied) [
        | inl oe ↦ ground (arith, (o oe).0)
        | inr oe ↦ ground arith
      ]),
  Distinct-set es i e' v.1 (λ oe. (o oe).1),
)
