-- ===== src/A3/Machine/Live.antt =====
-- About the state of a3: the processes that exist, and those that the lists of a3/kernel.c name. `roots`
-- are the processes that the code still has a pointer to.
use mock_os.Prelude.{
  ℕ, true, false, refl, Option, none, some, List, [], ◌∷◌, ◌++◌, ==_iff, ◌==◌, ◌≡◌, if◌then◌else◌,
}
use mock_os.Store.{Slot}
use mock_os.A3.Pcb.{Pcb}
use mock_os.A3.Fs.FreeMap.{BitmapLib}
use mock_os.A3.Machine.{Machine, store_pcb, pop_last}

abbrev pub IsAlive : Option Pcb → Type 0
IsAlive none = ⊥
IsAlive (some p) = Unit

abbrev pub AreAlive : (ℕ → Option Pcb) → List ℕ → Type 0
AreAlive f [] = Unit
AreAlive f (a ∷ as_) = IsAlive (f a) × AreAlive f as_

-- No process is under any of the addresses.
abbrev pub AreGone : (ℕ → Option Pcb) → List ℕ → Type 0
AreGone f [] = Unit
AreGone f (a ∷ as_) = (f a ≡ none) × AreGone f as_

store_none_other : (f : ℕ → Option Pcb) (a b : ℕ) → f b ≡ none → store_pcb f a none b ≡ none
store_none_other f a b h = elim (b == a) as (λ t. (if t then none else f b) ≡ none) [
  | true ↦ refl
  | false ↦ h
]

pub AreGone-store_none :
    (f : ℕ → Option Pcb) (a : ℕ) (bs : List ℕ) → AreGone f bs → AreGone (store_pcb f a none) bs
AreGone-store_none f a [] h = tt
AreGone-store_none f a (b ∷ bs) (g, h) = (store_none_other f a b g, AreGone-store_none f a bs h)

pub store_none_self : (f : ℕ → Option Pcb) (a : ℕ) → store_pcb f a none a ≡ none
store_none_self f a = rw ((==_iff a a).1 refl) refl

abbrev pub owners : List (ℕ × ℕ) → List ℕ
owners [] = []
owners ((a, i) ∷ pages) = a ∷ owners pages

pub AreAlive-append :
    (f : ℕ → Option Pcb) (as_ : List ℕ) (b : ℕ)
    → AreAlive f as_
    → IsAlive (f b)
    → AreAlive f (as_ ++ (b ∷ []))
AreAlive-append f [] b h k = (k, tt)
AreAlive-append f (a ∷ as_) b (l, h) k = (l, AreAlive-append f as_ b h k)

IsAlive-store_pcb :
    (f : ℕ → Option Pcb) (a b : ℕ) (p : Pcb) → IsAlive (f b) → IsAlive (store_pcb f a (some p) b)
IsAlive-store_pcb f a b p h = elim (b == a) as (λ t. IsAlive (if t then some p else f b)) [
  | true ↦ tt
  | false ↦ h
]

AreAlive-store_pcb :
    (f : ℕ → Option Pcb) (a : ℕ) (p : Pcb) (bs : List ℕ)
    → AreAlive f bs
    → AreAlive (store_pcb f a (some p)) bs
AreAlive-store_pcb f a p [] h = tt
AreAlive-store_pcb f a p (b ∷ bs) (l, h) =
    (IsAlive-store_pcb f a b p l, AreAlive-store_pcb f a p bs h)

IsAlive-self : (f : ℕ → Option Pcb) (a : ℕ) (p : Pcb) → IsAlive (store_pcb f a (some p) a)
IsAlive-self f a p = rw ((==_iff a a).1 refl) tt

-- What `pop_last` leaves and takes.
abbrev pub ArePopped : (ℕ → Option Pcb) → Option (List (ℕ × ℕ) × (ℕ × ℕ)) → Type 0
ArePopped f none = Unit
ArePopped f (some (rest, page)) = AreAlive f (owners rest) × IsAlive (f page.0)

pub pop_last-ArePopped :
    (f : ℕ → Option Pcb) (pages : List (ℕ × ℕ))
    → AreAlive f (owners pages)
    → ArePopped f (pop_last pages)
pop_last-ArePopped f [] h = tt
pop_last-ArePopped f (x ∷ pages) (l, h) =
    (elim (pop_last pages)
        as (λ o.
          ArePopped f o
          → ArePopped f (elim o [ none ↦ some ([], x) | some (ys, y) ↦ some (x ∷ ys, y) ])) [
            | none ↦ (λ popped. (tt, l))
            | some (rest, page) ↦ (λ popped. ((l, popped.0), popped.1))
          ])
      (pop_last-ArePopped f pages h)

module _ {lib : BitmapLib} {W : Type 0} where
  pub record IsLive (roots : List ℕ) (s : Machine lib W) : Type 0 where
    pub queued : AreAlive s.pcbs s.queue
    pub cached : AreAlive s.pcbs (owners s.lru_cache)
    pub listed : AreAlive s.pcbs s.all_pcb
    pub rooted : AreAlive s.pcbs roots

  -- A process is written, and the memory.
  pub store-IsLive :
      (roots : List ℕ) (a : ℕ) (p : Pcb) (memory : List Slot) (s : Machine lib W)
      → IsLive roots s
      → IsLive roots (record s { memory = memory; pcbs = store_pcb s.pcbs a (some p) })
  store-IsLive roots a p memory s h = record {
    queued = AreAlive-store_pcb s.pcbs a p s.queue h.queued;
    cached = AreAlive-store_pcb s.pcbs a p (owners s.lru_cache) h.cached;
    listed = AreAlive-store_pcb s.pcbs a p s.all_pcb h.listed;
    rooted = AreAlive-store_pcb s.pcbs a p roots h.rooted;
  }

  -- A pointer is forgotten.
  pub IsLive-forget :
      (roots : List ℕ) (a : ℕ) (s : Machine lib W) → IsLive (a ∷ roots) s → IsLive roots s
  IsLive-forget roots a s h = record {
    queued = h.queued;
    cached = h.cached;
    listed = h.listed;
    rooted = (h.rooted).1;
  }

  pub IsLive-forget_all : (roots : List ℕ) (s : Machine lib W) → IsLive roots s → IsLive [] s
  IsLive-forget_all roots s h = record {
    queued = h.queued;
    cached = h.cached;
    listed = h.listed;
    rooted = tt;
  }

  -- A new process under an address, in the list of all processes.
  pub list-IsLive :
      (roots : List ℕ) (a fresh : ℕ) (p : Pcb) (s : Machine lib W)
      → IsLive roots s
      → IsLive (a ∷ roots) (record s {
        fresh = fresh;
        pcbs = store_pcb s.pcbs a (some p);
        all_pcb = s.all_pcb ++ (a ∷ []);
      })
  list-IsLive roots a fresh p s h = record {
    queued = AreAlive-store_pcb s.pcbs a p s.queue h.queued;
    cached = AreAlive-store_pcb s.pcbs a p (owners s.lru_cache) h.cached;
    listed =
        AreAlive-append (store_pcb s.pcbs a (some p)) s.all_pcb a
          (AreAlive-store_pcb s.pcbs a p s.all_pcb h.listed) (IsAlive-self s.pcbs a p);
    rooted = (IsAlive-self s.pcbs a p, AreAlive-store_pcb s.pcbs a p roots h.rooted);
  }

  -- A page that is in the LRU list is put in front.
  pub cache-IsLive :
      (roots : List ℕ) (q : ℕ × ℕ) (rest : List (ℕ × ℕ)) (s : Machine lib W)
      → IsLive roots s
      → IsAlive (s.pcbs q.0)
      → AreAlive s.pcbs (owners rest)
      → IsLive roots (record s { lru_cache = q ∷ rest })
  cache-IsLive roots q rest s h l k = record {
    queued = h.queued;
    cached = (l, k);
    listed = h.listed;
    rooted = h.rooted;
  }

  pub IsLive-memory :
      (roots : List ℕ) (memory : List Slot) (s : Machine lib W)
      → IsLive roots s
      → IsLive roots (record s { memory = memory })
  IsLive-memory roots memory s h = record {
    queued = h.queued;
    cached = h.cached;
    listed = h.listed;
    rooted = h.rooted;
  }
