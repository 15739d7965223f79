-- ===== src/A3/LinkedList/Find.antt =====
-- a3/linked_list.c: `get_node_by_value`, and `remove_elem` and `get_by_value` on top of it.
use mathlib.Core.Path.{subst}
use mathlib.Core.List.{append_assoc}
use mock_os.Prelude.{
  ℕ, zero, suc, ◌+◌, ◌≤◌, ◌<◌, ◌≡◌, refl, ◌∙◌, ap, Bool, true, false, Option, none, some, List, [],
  ◌∷◌, ◌++◌, map, length, length-append, if◌then◌else◌, arith,
}
use mock_os.A3.LinkedList.{
  ok, fault, deref, ◌>>=◌, Heap, LinkedList, delete, find_node, get_node_by_value, get_by_value,
  remove_elem,
}
use mock_os.A3.LinkedList.Links.{Linked, length-le-bound}
use mock_os.A3.LinkedList.Represents.{Holds, Represents}
use mock_os.A3.LinkedList.Remove.{delete_refines}

module _ {D : Type 0} where
  -- No value of the list is equal to the target, as the list's own function has it.
  abbrev pub NoneEqual : (D → D → Bool) → D → List D → Type 0
  NoneEqual equal target [] = Unit {0}
  NoneEqual equal target (v ∷ vs) = (equal target v ≡ false) × NoneEqual equal target vs

  -- One round of the search.
  find_node_at :
      (fuel : ℕ) (equal : D → D → Bool) (target : D) (h : Heap D) (p : Option ℕ) (a : ℕ) (v : D)
      → p ≡ some a
      → h.data_of a ≡ some v
      → find_node (suc fuel) equal target p h
        ≡ (if equal target v then ok (some a) else find_node fuel equal target (h.next_of a) h)
  unfolding find_node
  find_node_at fuel equal target h p a v e held =
      ap (λ o. find_node (suc fuel) equal target o h) e
      ∙ ap
          (λ o. deref o >>= λ d.
            if equal target d then ok (some a) else find_node fuel equal target (h.next_of a) h)
          held

  -- The search stops at the first value that is equal to the target.
  find_node_hit :
      (fuel : ℕ) (equal : D → D → Bool) (target : D) (h : Heap D) (c : ℕ) (xs : List ℕ) (n : ℕ)
      (zs : List ℕ) (us : List D) (v : D)
      → Linked h.next_of h.prev_of c (xs ++ (n ∷ zs))
      → map h.data_of xs ≡ map some us
      → h.data_of n ≡ some v
      → NoneEqual equal target us
      → equal target v ≡ true
      → length xs < fuel
      → find_node fuel equal target (h.next_of c) h ≡ ok (some n)
  find_node_hit zero equal target h c xs n zs us v linked held at ne eq lt = absurd (omega arith)
  find_node_hit (suc fuel) equal target h c [] n zs us v linked held at ne eq lt =
      find_node_at fuel equal target h (h.next_of c) n v linked.0 at ∙ rw eq
  find_node_hit (suc fuel) equal target h c (x ∷ xs) n zs [] v linked held at ne eq lt = absurd (cc)
  find_node_hit (suc fuel) equal target h c (x ∷ xs) n zs (u ∷ us) v linked held at ne eq lt =
      find_node_at fuel equal target h (h.next_of c) x u linked.0 (cc)
      ∙ rw ne.0
          (find_node_hit fuel equal target h x xs n zs us v linked.2 (cc) at ne.1 eq (omega arith))

  -- The search for a value that is not there compares with what the node at the end never got.
  find_node_miss :
      (fuel : ℕ) (equal : D → D → Bool) (target : D) (h : Heap D) (c : ℕ) (xs : List ℕ) (tail : ℕ)
      (us : List D)
      → Linked h.next_of h.prev_of c (xs ++ (tail ∷ []))
      → map h.data_of xs ≡ map some us
      → h.data_of tail ≡ none
      → NoneEqual equal target us
      → length xs < fuel
      → find_node fuel equal target (h.next_of c) h ≡ fault
  unfolding find_node
  find_node_miss zero equal target h c xs tail us linked held blank ne lt = absurd (omega arith)
  find_node_miss (suc fuel) equal target h c [] tail us linked held blank ne lt =
      ap (λ o. find_node (suc fuel) equal target o h) linked.0
      ∙ ap
          (λ o. deref o >>= λ d.
            if equal target d
            then ok (some tail)
            else find_node fuel equal target (h.next_of tail) h)
          blank
  find_node_miss (suc fuel) equal target h c (x ∷ xs) tail [] linked held blank ne lt = absurd (cc)
  find_node_miss (suc fuel) equal target h c (x ∷ xs) tail (u ∷ us) linked held blank ne lt =
      find_node_at fuel equal target h (h.next_of c) x u linked.0 (cc)
      ∙ rw ne.0
          (find_node_miss fuel equal target h x xs tail us linked.2 (cc) blank ne.1 (omega arith))

  -- The nodes of a sequence split where the sequence does.
  split_node :
      (f : ℕ → Option D) (nodes : List ℕ) (us : List D) (v : D) (ws : List D)
      → map f nodes ≡ map some (us ++ (v ∷ ws))
      → (xs : List ℕ) × (n : ℕ) × (zs : List ℕ) × (nodes ≡ xs ++ (n ∷ zs))
        × (length xs ≡ length us)
        × (map f xs ≡ map some us)
        × (f n ≡ some v)
  split_node f [] [] v ws h = absurd (cc)
  split_node f [] (u ∷ us) v ws h = absurd (cc)
  split_node f (x ∷ nodes) [] v ws h = ([], x, nodes, refl, refl, refl, cc)
  split_node f (x ∷ nodes) (u ∷ us) v ws h =
      let (xs, n, zs, shape, same, held, at) = split_node f nodes us v ws (cc) in
      (x ∷ xs, n, zs, ap (λ t. x ∷ t) shape, ap suc same, cc held, at)

  -- There are fewer nodes than addresses given out.
  length-nodes-le :
      (l : LinkedList D) (h : Heap D) (nodes : List ℕ) (vs : List D)
      → Holds l h nodes vs
      → length nodes + 2 ≤ h.fresh
  length-nodes-le l h nodes vs r = omega (
    arith,
    length-append {0} nodes (l.dummy_tail ∷ []),
    length-le-bound h.fresh (l.dummy_head ∷ (nodes ++ (l.dummy_tail ∷ []))) r.distinct r.below,
  )

  -- `get_by_value` returns the first value that is equal to the target.
  pub get_by_value_refines :
      (l : LinkedList D) (h : Heap D) (target : D) (us : List D) (v : D) (ws : List D)
      → Represents (l, h) (us ++ (v ∷ ws))
      → NoneEqual l.equal target us
      → l.equal target v ≡ true
      → get_by_value l target h ≡ ok (some v)
  unfolding get_by_value
  get_by_value_refines l h target us v ws (nodes, r) ne eq =
      let (xs, n, zs, shape, same, held, at) = split_node h.data_of nodes us v ws r.data_held in
      let linked =
        subst (Linked h.next_of h.prev_of l.dummy_head)
          (ap (λ t. t ++ (l.dummy_tail ∷ [])) shape ∙ append_assoc xs (n ∷ zs) (l.dummy_tail ∷ []))
          r.linked in
      let found =
        find_node_hit (h.fresh + 1) l.equal target h l.dummy_head xs n (zs ++ (l.dummy_tail ∷ []))
          us v linked held at ne eq
          (omega (
            arith,
            length-nodes-le l h nodes (us ++ (v ∷ ws)) r,
            ap length shape,
            length-append {0} xs (n ∷ zs),
          )) in
      ap (λ o. o >>= λ p. deref p >>= λ a. ok (h.data_of a)) found ∙ ap (λ o. ok o) at

  -- On a list with the data us, v and ws in order, where the target is equal to v and to none of
  -- us as the list's own function decides, remove_elem ends, returns v and leaves a linked list
  -- with us and ws.
  pub remove_elem_refines :
      (l : LinkedList D) (h : Heap D) (target : D) (us : List D) (v : D) (ws : List D)
      → Represents (l, h) (us ++ (v ∷ ws))
      → NoneEqual l.equal target us
      → l.equal target v ≡ true
      → (s : LinkedList D × Heap D) × (remove_elem target l h ≡ ok (some v, s.0, s.1))
        × Represents s (us ++ ws)
  unfolding remove_elem get_node_by_value
  remove_elem_refines l h target us v ws (nodes, r) ne eq =
      let (xs, n, zs, shape, same, held, at) = split_node h.data_of nodes us v ws r.data_held in
      let r' = subst (λ ns. Holds l h ns (us ++ (v ∷ ws))) shape r in
      let linked =
        subst (Linked h.next_of h.prev_of l.dummy_head)
          (append_assoc xs (n ∷ zs) (l.dummy_tail ∷ [])) r'.linked in
      let found =
        find_node_hit (h.fresh + 1) l.equal target h l.dummy_head xs n (zs ++ (l.dummy_tail ∷ []))
          us v linked held at ne eq
          (omega (
            arith,
            length-nodes-le l h nodes (us ++ (v ∷ ws)) r,
            ap length shape,
            length-append {0} xs (n ∷ zs),
          )) in
      let (s, e, done) = delete_refines l h xs n zs us v ws r' same in
      (s, ap (λ o. o >>= λ p. deref p >>= λ m. delete m l h) found ∙ e, done)

  -- On a list in which no value is equal to the target, as the list's own function decides,
  -- remove_elem faults: the search goes on to the dummy at the end and compares with data that
  -- were never written.
  pub remove_elem_faults :
      (l : LinkedList D) (h : Heap D) (target : D) (vs : List D)
      → Represents (l, h) vs
      → NoneEqual l.equal target vs
      → remove_elem target l h ≡ fault
  unfolding remove_elem get_node_by_value
  remove_elem_faults l h target vs (nodes, r) ne =
      ap (λ o. o >>= λ p. deref p >>= λ m. delete m l h)
        (find_node_miss (h.fresh + 1) l.equal target h l.dummy_head nodes l.dummy_tail vs r.linked
          r.data_held r.blank ne (omega (arith, length-nodes-le l h nodes vs r)))
