-- ===== src/A3/LinkedList/Links.antt =====
-- a3/linked_list.c: nodes that are linked in both directions, under the pointer writes that put a
-- node in and take one out.
use mathlib.Core.Path.{subst}
use mock_os.Prelude.{
  ℕ, zero, suc, ◌+◌, ◌≤◌, ◌<◌, ◌≡◌, ◌∙◌, ap, ◌≢◌, sym, ◌⊎◌, inl, inr, Option, some, List, [], ◌∷◌,
  ◌++◌, length, length-append, arith,
}
use native.Mathlib.Decide.{ℕ_discrete}

-- From `c` the nodes in order, by `next` and back by `prev`.
abbrev pub Linked : (ℕ → Option ℕ) → (ℕ → Option ℕ) → ℕ → List ℕ → Type 0
Linked nx pv c [] = Unit {0}
Linked nx pv c (b ∷ bs) = (nx c ≡ some b) × (pv b ≡ some c) × Linked nx pv b bs

abbrev pub NotIn : ℕ → List ℕ → Type 0
NotIn k [] = Unit {0}
NotIn k (b ∷ bs) = (k ≢ b) × NotIn k bs

abbrev pub Distinct : List ℕ → Type 0
Distinct [] = Unit {0}
Distinct (a ∷ as_) = NotIn a as_ × Distinct as_

abbrev pub AllBelow : ℕ → List ℕ → Type 0
AllBelow m [] = Unit {0}
AllBelow m (a ∷ as_) = (a < m) × AllBelow m as_

abbrev pub last : ℕ → List ℕ → ℕ
last c [] = c
last c (x ∷ xs) = last x xs

pub AllBelow-NotIn : (m : ℕ) (as_ : List ℕ) → AllBelow m as_ → NotIn m as_
AllBelow-NotIn m [] h = tt
AllBelow-NotIn m (a ∷ as_) h = (λ e. omega arith, AllBelow-NotIn m as_ h.1)

pub AllBelow-insert :
    (m : ℕ) (xs zs : List ℕ) → AllBelow m (xs ++ zs) → AllBelow (m + 1) (xs ++ (m ∷ zs))
AllBelow-insert m [] [] h = (omega arith, tt)
AllBelow-insert m [] (z ∷ zs) h =
    let rest = AllBelow-insert m [] zs h.1 in (omega arith, (omega arith, rest.1))
AllBelow-insert m (x ∷ xs) zs h = (omega arith, AllBelow-insert m xs zs h.1)

pub NotIn-insert :
    (k n : ℕ) (xs zs : List ℕ) → k ≢ n → NotIn k (xs ++ zs) → NotIn k (xs ++ (n ∷ zs))
NotIn-insert k n [] zs ne h = (ne, h)
NotIn-insert k n (x ∷ xs) zs ne h = (h.0, NotIn-insert k n xs zs ne h.1)

pub Distinct-insert :
    (n : ℕ) (xs zs : List ℕ) → NotIn n (xs ++ zs) → Distinct (xs ++ zs) → Distinct (xs ++ (n ∷ zs))
Distinct-insert n [] zs new h = (new, h)
Distinct-insert n (x ∷ xs) zs new h =
    (NotIn-insert x n xs zs (λ e. new.0 (sym e)) h.0, Distinct-insert n xs zs new.1 h.1)

pub NotIn-remove : (k n : ℕ) (xs zs : List ℕ) → NotIn k (xs ++ (n ∷ zs)) → NotIn k (xs ++ zs)
NotIn-remove k n [] zs h = h.1
NotIn-remove k n (x ∷ xs) zs h = (h.0, NotIn-remove k n xs zs h.1)

pub Distinct-remove : (n : ℕ) (xs zs : List ℕ) → Distinct (xs ++ (n ∷ zs)) → Distinct (xs ++ zs)
Distinct-remove n [] zs h = h.1
Distinct-remove n (x ∷ xs) zs h = (NotIn-remove x n xs zs h.0, Distinct-remove n xs zs h.1)

pub AllBelow-remove :
    (m n : ℕ) (xs zs : List ℕ) → AllBelow m (xs ++ (n ∷ zs)) → AllBelow m (xs ++ zs)
AllBelow-remove m n [] zs h = h.1
AllBelow-remove m n (x ∷ xs) zs h = (h.0, AllBelow-remove m n xs zs h.1)

-- The node before `zs` is none of `zs`, and not the node in front of others.
pub last-NotIn : (c : ℕ) (xs zs : List ℕ) → Distinct (c ∷ (xs ++ zs)) → NotIn (last c xs) zs
last-NotIn c [] zs h = h.0
last-NotIn c (x ∷ xs) zs h = last-NotIn x xs zs h.1

pub last-behind : (c x : ℕ) (xs zs : List ℕ) → NotIn c (x ∷ (xs ++ zs)) → c ≢ last x xs
last-behind c x [] zs h = h.0
last-behind c x (y ∷ xs) zs h = last-behind c y xs zs h.1

pub NotIn-behind : (k : ℕ) (xs zs : List ℕ) → NotIn k (xs ++ zs) → NotIn k zs
NotIn-behind k [] zs h = h
NotIn-behind k (x ∷ xs) zs h = NotIn-behind k xs zs h.1

pub AllBelow-behind : (m : ℕ) (xs zs : List ℕ) → AllBelow m (xs ++ zs) → AllBelow m zs
AllBelow-behind m [] zs h = h
AllBelow-behind m (x ∷ xs) zs h = AllBelow-behind m xs zs h.1

pub NotIn-front : (k : ℕ) (xs zs : List ℕ) → NotIn k (xs ++ zs) → NotIn k xs
NotIn-front k [] zs h = tt
NotIn-front k (x ∷ xs) zs h = (h.0, NotIn-front k xs zs h.1)

-- A number is not in a list, or the list splits at it.
split_at :
    (k : ℕ) (as_ : List ℕ) → NotIn k as_ ⊎ ((xs : List ℕ) × (zs : List ℕ) × (as_ ≡ xs ++ (k ∷ zs)))
split_at k [] = inl tt
split_at k (a ∷ as_) = elim (ℕ_discrete k a) [
  | yes e ↦ inr ([], as_, ap (λ b. b ∷ as_) (sym e))
  | no ne ↦ elim (split_at k as_) [
    | inl new ↦ inl (ne, new)
    | inr (xs, zs, e) ↦ inr (a ∷ xs, zs, ap (λ t. a ∷ t) e)
  ]
]

AllBelow-lower : (m : ℕ) (as_ : List ℕ) → NotIn m as_ → AllBelow (suc m) as_ → AllBelow m as_
AllBelow-lower m [] new h = tt
AllBelow-lower m (a ∷ as_) new h =
    let apart : m ≢ a = new.0 in (omega arith, AllBelow-lower m as_ new.1 h.1)

Distinct-NotIn : (n : ℕ) (xs zs : List ℕ) → Distinct (xs ++ (n ∷ zs)) → NotIn n (xs ++ zs)
Distinct-NotIn n [] zs d = d.0
Distinct-NotIn n (x ∷ xs) zs d =
    (λ e. (NotIn-behind x xs (n ∷ zs) d.0).0 (sym e), Distinct-NotIn n xs zs d.1)

-- Different numbers below a bound are at most as many as the bound.
pub length-le-bound : (m : ℕ) (as_ : List ℕ) → Distinct as_ → AllBelow m as_ → length as_ ≤ m
length-le-bound m [] d h = omega arith
length-le-bound zero (a ∷ as_) d h = absurd (omega arith)
length-le-bound (suc m) (a ∷ as_) d h = elim (split_at m (a ∷ as_)) [
  | inl new ↦
      let le = length-le-bound m (a ∷ as_) d (AllBelow-lower m (a ∷ as_) new h) in omega arith
  | inr (xs, zs, e) ↦
      let d' = subst Distinct e d in
      let below = AllBelow-remove (suc m) m xs zs (subst (AllBelow (suc m)) e h) in
      let le =
        length-le-bound m (xs ++ zs) (Distinct-remove m xs zs d')
          (AllBelow-lower m (xs ++ zs) (Distinct-NotIn m xs zs d') below) in
      omega (arith, ap length e, length-append {0} xs (m ∷ zs), length-append {0} xs zs)
]

-- The pointers at a node in the middle.
pub Linked-at :
    (nx pv : ℕ → Option ℕ) (c : ℕ) (xs : List ℕ) (n : ℕ) (zs : List ℕ)
    → Linked nx pv c (xs ++ (n ∷ zs))
    → (nx (last c xs) ≡ some n) × (pv n ≡ some (last c xs)) × Linked nx pv n zs
Linked-at nx pv c [] n zs h = h
Linked-at nx pv c (x ∷ xs) n zs h = Linked-at nx pv x xs n zs h.2

-- `nx'` and `pv'` have the links of `nx` and `pv`, but for `next` of `a` and `n`, and `prev` of `n`
-- and `y`.
pub record Keeps (nx pv nx' pv' : ℕ → Option ℕ) (a n y : ℕ) : Type 0 where
  pub nexts : (k : ℕ) → k ≢ a → k ≢ n → nx' k ≡ nx k
  pub prevs : (k : ℕ) → k ≢ n → k ≢ y → pv' k ≡ pv k

module _ {nx pv nx' pv' : ℕ → Option ℕ} {a n y : ℕ} (keeps : Keeps nx pv nx' pv' a n y) where
  pub Linked-kept :
      (c : ℕ) (bs : List ℕ)
      → NotIn a (c ∷ bs)
      → NotIn n (c ∷ bs)
      → NotIn y bs
      → Linked nx pv c bs
      → Linked nx' pv' c bs
  Linked-kept c [] p q r h = tt
  Linked-kept c (b ∷ bs) p q r h = (
    keeps.nexts c (λ e. p.0 (sym e)) (λ e. q.0 (sym e)) ∙ h.0,
    keeps.prevs b (λ e. q.1.0 (sym e)) (λ e. r.0 (sym e)) ∙ h.1,
    Linked-kept b bs p.1 q.1 r.1 h.2,
  )

  -- `n` is put in between the end of `xs` and `y`.
  pub Linked-insert :
      (c : ℕ) (xs ys : List ℕ)
      → last c xs ≡ a
      → (nx' a ≡ some n) × (pv' n ≡ some a) × (nx' n ≡ some y) × (pv' y ≡ some n)
      → NotIn n (c ∷ (xs ++ (y ∷ ys)))
      → Distinct (c ∷ (xs ++ (y ∷ ys)))
      → Linked nx pv c (xs ++ (y ∷ ys))
      → Linked nx' pv' c (xs ++ (n ∷ y ∷ ys))
  Linked-insert c [] ys e w new d h =
      let front : NotIn a (y ∷ ys) = subst (λ k. NotIn k (y ∷ ys)) e d.0 in
      (cc, cc, (w.2, w.3, Linked-kept y ys front new.1 d.1.0 h.2))
  Linked-insert c (x ∷ xs) ys e w new d h = (
    keeps.nexts c (λ f. last-behind c x xs (y ∷ ys) d.0 (f ∙ sym e)) (λ f. new.0 (sym f)) ∙ h.0,
    keeps.prevs x (λ f. new.1.0 (sym f)) (NotIn-behind x xs (y ∷ ys) d.1.0).0 ∙ h.1,
    Linked-insert x xs ys e w new.1 d.1 h.2,
  )

  -- `n` is taken out from between the end of `xs` and `y`.
  pub Linked-remove :
      (c : ℕ) (xs ys : List ℕ)
      → last c xs ≡ a
      → (nx' a ≡ some y) × (pv' y ≡ some a)
      → Distinct (c ∷ (xs ++ (n ∷ y ∷ ys)))
      → Linked nx pv c (xs ++ (n ∷ y ∷ ys))
      → Linked nx' pv' c (xs ++ (y ∷ ys))
  Linked-remove c [] ys e w d h =
      (cc, cc, Linked-kept y ys (subst (λ k. NotIn k (y ∷ ys)) e d.0.1) d.1.0 d.1.1.0 h.2.2)
  Linked-remove c (x ∷ xs) ys e w d h =
      let later = NotIn-behind x xs (n ∷ y ∷ ys) d.1.0 in
      (
        keeps.nexts c (λ f. last-behind c x xs (n ∷ y ∷ ys) d.0 (f ∙ sym e))
              (NotIn-behind c xs (n ∷ y ∷ ys) d.0.1).0
            ∙ h.0,
        keeps.prevs x later.0 later.1.0 ∙ h.1,
        Linked-remove x xs ys e w d.1 h.2,
      )
