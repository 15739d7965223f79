-- ===== src/A3/ShellMemory/Frames.antt =====
-- a3/shellmemory.c: `frame_alloc` is first fit.
use mathlib.Core.Path.{subst}
use mathlib.Core.Option.{some-injective}
use mock_os.Prelude.{
  get_elem?-set, ◌∙◌, ℕ, zero, suc, ◌+◌, ◌≤◌, ◌<◌, ◌≡◌, ◌⊎◌, inl, inr, true, false, Option, none,
  some, List, Text, ◌==◌, if◌then◌else◌, length, get_elem?, arith, Bool-cases, Option-cases,
  length-set, dec_lt, ltb, refl, sym, text_eq, text_eq_iff,
}
use mock_os.Store.{Slot, none_text}
use mock_os.A3.ShellMemory.{Config, all_free, find_frame, mark, claim_slot, frame_alloc}

-- A slot below the border that belongs to no process.
abbrev pub IsFree : ℕ → List Slot → ℕ → Type 0
IsFree border mem k = (k < border) × ((s : Slot) × (get_elem? mem k ≡ some s) × (s.var ≡ none_text))

-- The three slots from a position on.
abbrev pub AreFree : ℕ → List Slot → ℕ → Type 0
AreFree border mem j = IsFree border mem j × IsFree border mem (j + 1) × IsFree border mem (j + 2)

all_free-here :
    (border n j : ℕ) (mem : List Slot)
    → all_free border (suc n) j mem ≡ true
    → IsFree border mem j × (all_free border n (j + 1) mem ≡ true)
unfolding all_free
all_free-here border n j mem e = elim (Bool-cases (ltb j border)) [
  | inr out ↦ absurd (let e' = rw (out, all_free) at e in cc e')
  | inl inside ↦ elim (Option-cases (get_elem? mem j)) [
    | inl missing ↦ absurd (let e' = rw (inside, missing, all_free) at e in cc e')
    | inr (s, at) ↦ elim (Bool-cases (text_eq s.var none_text)) [
      | inl same ↦ (
        (ground (arith, inside), (s, at, (text_eq_iff s.var none_text).0 same)),
        let e' = rw (inside, at, same, all_free) at e in e',
      )
      | inr other ↦ absurd (let e' = rw (inside, at, other, all_free) at e in cc e')
    ]
  ]
]

IsFree-all_free :
    (border n j : ℕ) (mem : List Slot)
    → IsFree border mem j
    → all_free border n (j + 1) mem ≡ true
    → all_free border (suc n) j mem ≡ true
unfolding all_free
IsFree-all_free border n j mem (lt, (s, at, free)) rest =
    let inside : ltb j border ≡ true = ground (arith, lt) in
    rw (inside, at, (text_eq_iff s.var none_text).1 free, all_free) rest

all_free-AreFree :
    (border j : ℕ) (mem : List Slot) → all_free border 3 j mem ≡ true → AreFree border mem j
all_free-AreFree border j mem e =
    let (a, e₁) = all_free-here border 2 j mem e in
    let (b, e₂) = all_free-here border 1 (j + 1) mem e₁ in
    let same : j + 1 + 1 ≡ j + 2 = omega arith in
    (a, b, subst (IsFree border mem) same (all_free-here border 0 (j + 1 + 1) mem e₂).0)

all_free-not_AreFree :
    (border j : ℕ) (mem : List Slot) → all_free border 3 j mem ≡ false → ¬ AreFree border mem j
unfolding all_free
all_free-not_AreFree border j mem e (a, b, c) =
    let same : j + 2 ≡ j + 1 + 1 = omega arith in
    let e' = IsFree-all_free border 2 j mem a (
      IsFree-all_free border 1 (j + 1) mem b
        (IsFree-all_free border 0 (j + 1 + 1) mem (subst (IsFree border mem) same c) refl)) in
    cc (e, e')

-- What the search for a frame finds: the first position from `i` on whose three slots are free.
pub record FirstFit (border i n : ℕ) (mem : List Slot) (j : ℕ) : Type 0 where
  pub from : i ≤ j
  pub before : j < i + n
  pub free : AreFree border mem j
  pub first : (h : ℕ) → i ≤ h → h < j → ¬ AreFree border mem h

find_frame-FirstFit :
    (border n i : ℕ) (mem : List Slot) {j : ℕ}
    → find_frame border n i mem ≡ some j
    → FirstFit border i n mem j
unfolding find_frame
find_frame-FirstFit border zero i mem e = cc
find_frame-FirstFit border (suc n) i mem {j} e = elim (Bool-cases (all_free border 3 i mem)) [
  | inl here ↦
      let same : i ≡ j = ground arith in
      rw (← same) (record {
        from = omega arith;
        before = omega arith;
        free = all_free-AreFree border i mem here;
        first = λ h p q. absurd (omega arith);
      })
  | inr not_here ↦
      let later = find_frame-FirstFit border n (i + 1) mem {j = j} (ground arith) in
      record {
        from = omega (arith, later.from);
        before = omega (arith, later.before);
        free = later.free;
        first = λ h p q. elim (dec_lt i h) [
          | yes lt ↦ later.first h (omega arith) q
          | no ge ↦
              let same : h ≡ i = omega arith in
              subst (λ k. ¬ AreFree border mem k) (sym same)
                (all_free-not_AreFree border i mem not_here)
        ];
      }
]

find_frame-none :
    (border n i : ℕ) (mem : List Slot)
    → find_frame border n i mem ≡ none
    → (h : ℕ) → i ≤ h
    → h < i + n
    → ¬ AreFree border mem h
unfolding find_frame
find_frame-none border zero i mem e h p q = absurd (omega arith)
find_frame-none border (suc n) i mem e h p q = elim (Bool-cases (all_free border 3 i mem)) [
  | inl here ↦ absurd (ground arith)
  | inr not_here ↦ elim (dec_lt i h) [
    | yes lt ↦ find_frame-none border n (i + 1) mem (ground arith) h (omega arith) (omega arith)
    | no ge ↦
        let same : h ≡ i = omega arith in
        subst (λ k. ¬ AreFree border mem k) (sym same) (all_free-not_AreFree border i mem not_here)
  ]
]

-- A slot with the process put in, where there is one.
abbrev claimed : Text → Option Slot → Option Slot
claimed pid none = none
claimed pid (some s) = some (claim_slot pid s)

get_elem?-mark :
    (pid : Text) (k : ℕ) (mem : List Slot) (j : ℕ)
    → get_elem? (mark pid k mem) j
      ≡ (if k == j then claimed pid (get_elem? mem j) else get_elem? mem j)
unfolding mark
get_elem?-mark pid k mem j = elim (Option-cases (get_elem? mem k)) [
  | inl out ↦
      rw (out, mark)
        (elim (Bool-cases (k == j)) [
          | inl same ↦ rw same (let e : k ≡ j = ground arith in rw (← e, out))
          | inr other ↦ rw other
        ])
  | inr (s, at) ↦
      rw (at, mark)
        (get_elem?-set mem k j (claim_slot pid s) at ∙ elim (Bool-cases (k == j)) [
          | inl same ↦ rw same (let e : k ≡ j = ground arith in rw (← e, at))
          | inr other ↦ rw other
        ])
]

length-mark : (pid : Text) (k : ℕ) (mem : List Slot) → length (mark pid k mem) ≡ length mem
unfolding mark
length-mark pid k mem = elim (Option-cases (get_elem? mem k)) [
  | inl out ↦ rw (out, mark)
  | inr (s, at) ↦ rw (at, mark) (length-set mem k (claim_slot pid s))
]

-- What a successful `frame_alloc` leaves: the three slots belong to the process and keep their
-- values, and all others are as they were.
pub record Allocated (pid : Text) (mem : List Slot) (i : ℕ) (mem' : List Slot) : Type 0 where
  pub taken : (k : ℕ) → i ≤ k → k < i + 3 → get_elem? mem' k ≡ claimed pid (get_elem? mem k)
  pub others : (k : ℕ) → (k < i) ⊎ (i + 3 ≤ k) → get_elem? mem' k ≡ get_elem? mem k
  pub size : length mem' ≡ length mem

marked-Allocated :
    (pid : Text) (mem : List Slot) (i : ℕ)
    → Allocated pid mem i (mark pid (i + 2) (mark pid (i + 1) (mark pid i mem)))
marked-Allocated pid mem i =
    let m₁ = mark pid i mem in
    let m₂ = mark pid (i + 1) m₁ in
    record {
      taken = λ k p q. ground (
        arith,
        get_elem?-mark pid (i + 2) m₂ k,
        get_elem?-mark pid (i + 1) m₁ k,
        get_elem?-mark pid i mem k,
      );
      others = λ k p. ground (
        arith,
        get_elem?-mark pid (i + 2) m₂ k,
        get_elem?-mark pid (i + 1) m₁ k,
        get_elem?-mark pid i mem k,
      );
      size = length-mark pid (i + 2) m₂ ∙ length-mark pid (i + 1) m₁ ∙ length-mark pid i mem;
    }

pub frame_alloc-Allocated :
    (cfg : Config) (pid : Text) (mem : List Slot) (i : ℕ) (mem' : List Slot)
    → frame_alloc cfg pid mem ≡ some (i, mem')
    → Allocated pid mem i mem'
unfolding frame_alloc
frame_alloc-Allocated cfg pid mem i mem' e =
    elim (Option-cases (find_frame cfg.frame_store_size cfg.frame_store_size 0 mem)) [
      | inl none_found ↦ absurd (let same = rw (none_found, frame_alloc) at e in cc same)
      | inr (k, found) ↦
          let same = rw (found, frame_alloc) at e in
          subst (λ r. Allocated pid mem r.0 r.1) (some-injective _ _ same)
            (marked-Allocated pid mem k)
    ]

-- `frame_alloc` takes the first three slots in a row below the border that are free, and fails
-- exactly where there are none.
pub frame_alloc-FirstFit :
    (cfg : Config) (pid : Text) (mem : List Slot)
    → ((h : ℕ) → h < cfg.frame_store_size → ¬ AreFree cfg.frame_store_size mem h)
        × (frame_alloc cfg pid mem ≡ none)
      ⊎ ((i : ℕ) × (mem' : List Slot) × (frame_alloc cfg pid mem ≡ some (i, mem'))
          × FirstFit cfg.frame_store_size 0 cfg.frame_store_size mem i
          × Allocated pid mem i mem')
unfolding frame_alloc
frame_alloc-FirstFit cfg pid mem =
    elim (Option-cases (find_frame cfg.frame_store_size cfg.frame_store_size 0 mem)) [
      | inl none_found ↦ inl (
        λ h lt.
            find_frame-none cfg.frame_store_size cfg.frame_store_size 0 mem none_found h
              (omega arith) (omega arith),
        rw (none_found, frame_alloc),
      )
      | inr (i, found) ↦ inr (
        i,
        mark pid (i + 2) (mark pid (i + 1) (mark pid i mem)),
        rw (found, frame_alloc),
        find_frame-FirstFit cfg.frame_store_size cfg.frame_store_size 0 mem found,
        marked-Allocated pid mem i,
      )
    ]
