-- ===== src/A3/LinkedList/Represents.antt =====
-- a3/linked_list.c: what it means that a linked list holds a sequence of data, and the operations
-- that make a list empty.
use mathlib.Core.List.{map-append}
use mock_os.Prelude.{
  ℕ, ◌≡◌, refl, ◌∙◌, ap, sym, Bool, Option, none, some, List, [], ◌∷◌, ◌++◌, map, length, arith,
}
use mock_os.A3.LinkedList.{update, Heap, LinkedList, list_init, list_clear}
use mock_os.A3.LinkedList.Links.{Linked, NotIn, Distinct, AllBelow, NotIn-behind, AllBelow-behind}

pub map-update {ℓ} :
    {A : Type ℓ} (f : ℕ → A) (k : ℕ) (v : A) (as_ : List ℕ)
    → NotIn k as_
    → map (update f k v) as_ ≡ map f as_
map-update f k v [] h = refl
map-update f k v (a ∷ as_) h = ground (arith, map-update f k v as_ h.1, h.0)

-- The data of nodes and of one that is new.
pub map_fresh {ℓ} :
    {A : Type ℓ} (f : ℕ → Option A) (k : ℕ) (v : A) (as_ : List ℕ)
    → NotIn k as_
    → map (update (update f k none) k (some v)) as_ ≡ map f as_
map_fresh f k v as_ h = map-update (update f k none) k (some v) as_ h ∙ map-update f k none as_ h

pub map_snoc {ℓ} :
    {A : Type ℓ} (f : ℕ → Option A) (k : ℕ) (v : A) (as_ : List ℕ) (vs : List A)
    → NotIn k as_
    → map f as_ ≡ map some vs
    → map (update (update f k none) k (some v)) (as_ ++ (k ∷ [])) ≡ map some (vs ++ (v ∷ []))
map_snoc f k v as_ vs h e =
    let g = update (update f k none) k (some v) in
    map-append g as_ (k ∷ [])
    ∙ ap (λ t. t ++ (g k ∷ [])) (map_fresh f k v as_ h ∙ e)
    ∙ ap (λ w. map some vs ++ (w ∷ [])) (ground arith)
    ∙ sym (map-append some vs (v ∷ []))

-- The list of nodes with the dummy behind it is not empty.
pub snoc-cons : (nodes : List ℕ) (t : ℕ) → (y : ℕ) × (ys : List ℕ) × (nodes ++ (t ∷ []) ≡ y ∷ ys)
snoc-cons [] t = (t, [], refl)
snoc-cons (n ∷ nodes) t = (n, nodes ++ (t ∷ []), refl)

module _ {D : Type 0} where
  -- The nodes between the dummies carry the data `vs`.
  pub record Holds (l : LinkedList D) (h : Heap D) (nodes : List ℕ) (vs : List D) : Type 0 where
    pub linked : Linked h.next_of h.prev_of l.dummy_head (nodes ++ (l.dummy_tail ∷ []))
    pub distinct : Distinct (l.dummy_head ∷ (nodes ++ (l.dummy_tail ∷ [])))
    pub below : AllBelow h.fresh (l.dummy_head ∷ (nodes ++ (l.dummy_tail ∷ [])))
    pub data_held : map h.data_of nodes ≡ map some vs
    pub blank : h.data_of l.dummy_tail ≡ none
    pub size : l.size ≡ length vs

  abbrev pub Represents : LinkedList D × Heap D → List D → Type 0
  Represents s vs = (nodes : List ℕ) × Holds s.0 s.1 nodes vs

  -- `list_init` makes an empty list.
  pub list_init_refines : (equal : D → D → Bool) (h : Heap D) → Represents (list_init equal h) []
  unfolding list_init
  list_init_refines equal h = (
    [],
    record {
      linked = (ground arith, ground arith, tt);
      distinct = ((λ e. omega arith, tt), (tt, tt));
      below = (omega arith, (omega arith, tt));
      data_held = refl;
      blank = ground arith;
      size = refl;
    },
  )

  -- `list_clear` makes the list empty, whatever it held.
  pub list_clear_refines :
      (l : LinkedList D) (h : Heap D) (vs : List D)
      → Represents (l, h) vs
      → Represents (list_clear l h) []
  unfolding list_clear
  list_clear_refines l h vs (nodes, r) =
      let tail = l.dummy_tail in
      let apart = (NotIn-behind l.dummy_head nodes (tail ∷ []) r.distinct.0).0 in
      (
        [],
        record {
          linked = (ground arith, ground arith, tt);
          distinct = ((apart, tt), (tt, tt));
          below = (r.below.0, AllBelow-behind h.fresh nodes (tail ∷ []) r.below.1);
          data_held = refl;
          blank = r.blank;
          size = refl;
        },
      )
