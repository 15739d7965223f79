-- ===== src/Store/Laws.antt =====
-- Laws of the key-value array: look-up after assignment, what stays, and the count of free slots.
use mock_os.Prelude.{
  suc, ◌+◌, ◌≡◌, refl, ap, ◌≢◌, inl, inr, Bool, true, false, ◌||◌, none, some, List, [], ◌∷◌, ◌++◌,
  arith, Text, text_eq, text_eq_iff, text_eq_refl, length, Bool-cases,
}
use mock_os.Store.{Slot, none_text, assign, claim, store_set, store_get, count_empty, reset}

-- Some slot of the range has the name.
unfoldable pub has : Text → List Slot → Bool
has var [] = false
has var (s ∷ ss) = text_eq s.var var || has var ss

-- An assignment has an effect: the variable is there, or a free slot is.
abbrev pub has_room : Text → List Slot → Bool
has_room var ss = has var ss || has none_text ss

-- What the two loops return, and what look-up finds afterwards.
assign-none : (var value : Text) (ss : List Slot) → has var ss ≡ false → assign var value ss ≡ none
unfolding has assign
assign-none var value [] h = refl
assign-none var value (s ∷ ss) h = ground (arith, assign-none var value ss)

assign-some :
    (var value : Text) (ss : List Slot)
    → has var ss ≡ true
    → (r : List Slot) × (assign var value ss ≡ some r)
      × (store_get var r ≡ some value)
      × ((k : Text) → k ≢ var → store_get k r ≡ store_get k ss)
      × (length r ≡ length ss)
      × (count_empty r ≡ count_empty ss)
unfolding has assign store_get count_empty
assign-some var value [] h = cc
assign-some var value (s ∷ ss) h = elim (Bool-cases (text_eq s.var var)) [
  | inl here ↦ (
    record s { value = value } ∷ ss,
    rw here,
    rw here,
    λ k ne. ground (arith, text_eq_iff s.var var, text_eq_iff s.var k),
    refl,
    refl,
  )
  | inr there ↦
      let (r, run, self, other, len, cnt) = assign-some var value ss (ground arith) in
      (
        s ∷ r,
        rw (there, run),
        rw there self,
        λ k ne. ground (arith, other k ne),
        omega (arith, len),
        ground (arith, cnt),
      )
]

claim-none :
    (var value : Text) (ss : List Slot) → has none_text ss ≡ false → claim var value ss ≡ none
unfolding has claim
claim-none var value [] h = refl
claim-none var value (s ∷ ss) h = ground (arith, claim-none var value ss)

claim-some :
    (var value : Text) (ss : List Slot)
    → has none_text ss ≡ true
    → (r : List Slot) × (claim var value ss ≡ some r)
      × (has var ss ≡ false → store_get var r ≡ some value)
      × ((k : Text) → k ≢ var → k ≢ none_text → store_get k r ≡ store_get k ss)
      × (length r ≡ length ss)
      × (var ≢ none_text → count_empty r + 1 ≡ count_empty ss)
unfolding has claim store_get count_empty
claim-some var value [] h = cc
claim-some var value (s ∷ ss) h = elim (Bool-cases (text_eq s.var none_text)) [
  | inl here ↦ (
    record { var = var; value = value } ∷ ss,
    rw here,
    λ out. ground (arith, text_eq_refl var),
    λ k ne ne'. ground (arith, text_eq_iff s.var none_text, text_eq_iff s.var k, text_eq_iff var k),
    refl,
    λ ne. ground (arith, text_eq_iff var none_text),
  )
  | inr there ↦
      let (r, run, self, other, len, cnt) = claim-some var value ss (ground arith) in
      (
        s ∷ r,
        rw (there, run),
        λ out. ground (arith, self (ground arith)),
        λ k ne ne'. ground (arith, other k ne ne'),
        omega (arith, len),
        λ ne. ground (arith, cnt ne),
      )
]

-- What `mem_set_value` does to its range: with room the variable reads back, no other variable
-- changes, and the size stays; without room nothing changes.
pub record Stored (var value : Text) (ss r : List Slot) : Type 0 where
  pub self : has_room var ss ≡ true → store_get var r ≡ some value
  pub other : (k : Text) → k ≢ var → k ≢ none_text → store_get k r ≡ store_get k ss
  pub size : length r ≡ length ss
  pub full : has_room var ss ≡ false → r ≡ ss
  pub used : var ≢ none_text → has var ss ≡ true → count_empty r ≡ count_empty ss
  pub taken :
      var ≢ none_text
      → has var ss ≡ false
      → has_room var ss ≡ true
      → count_empty r + 1 ≡ count_empty ss

pub store_set-Stored :
    (var value : Text) (ss : List Slot) → Stored var value ss (store_set var value ss)
unfolding store_set
store_set-Stored var value ss = elim (Bool-cases (has var ss)) [
  | inl known ↦
      let (r, run, self, other, len, cnt) = assign-some var value ss known in
      rw (run, store_set)
        (record {
          self = λ room. self;
          other = λ k ne ne'. other k ne;
          size = len;
          full = λ no_room. ground arith;
          used = λ ne h. cnt;
          taken = λ ne h. cc;
        })
  | inr fresh ↦ elim (Bool-cases (has none_text ss)) [
    | inl free ↦
        let (r, run, self, other, len, cnt) = claim-some var value ss free in
        rw (assign-none var value ss fresh, run, store_set)
          (record {
            self = λ room. self fresh;
            other = other;
            size = len;
            full = λ no_room. ground arith;
            used = λ ne h. cc;
            taken = λ ne h room. cnt ne;
          })
    | inr filled ↦
        rw (assign-none var value ss fresh, claim-none var value ss filled, store_set)
          (record {
            self = λ room. ground arith;
            other = λ k ne ne'. refl;
            size = refl;
            full = λ no_room. refl;
            used = λ ne h. refl;
            taken = λ ne h room. ground arith;
          })
  ]
]

-- A look-up over two ranges reads the first that has the variable.
pub store_get-append :
    (k : Text) (xs ys : List Slot)
    → store_get k (xs ++ ys) ≡ (elim (store_get k xs) [ some v ↦ some v | none ↦ store_get k ys ])
unfolding store_get
store_get-append k [] ys = refl
store_get-append k (s ∷ xs) ys = ground (arith, store_get-append k xs ys)

-- After a reset only the free name is found, and every slot is free.
pub store_get-reset : (k : Text) (ss : List Slot) → k ≢ none_text → store_get k (reset ss) ≡ none
unfolding store_get reset
store_get-reset k [] ne = refl
store_get-reset k (s ∷ ss) ne = ground (arith, text_eq_iff none_text k, store_get-reset k ss ne)

pub length-reset : (ss : List Slot) → length (reset ss) ≡ length ss
unfolding reset
length-reset [] = refl
length-reset (s ∷ ss) = ap suc (length-reset ss)

pub count_empty-reset : (ss : List Slot) → count_empty (reset ss) ≡ length ss
unfolding reset count_empty
count_empty-reset [] = refl
count_empty-reset (s ∷ ss) = ground (arith, text_eq_refl none_text, count_empty-reset ss)
