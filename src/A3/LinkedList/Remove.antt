-- ===== src/A3/LinkedList/Remove.antt =====
-- a3/linked_list.c: the operations that take a node out.
use mathlib.Core.Path.{subst}
use mathlib.Core.List.{append_assoc, append-nil}
use mock_os.Prelude.{
  ℕ, suc, ◌-◌, ◌≡◌, refl, ◌∙◌, ap, ◌≢◌, sym, false, Option, some, List, [], ◌∷◌, ◌++◌, map, length,
  length-append, leb, if◌then◌else◌, arith,
}
use mock_os.A3.LinkedList.{
  ok, exited, deref, ◌>>=◌, update, Heap, LinkedList, set_next, set_prev, pop_head, pop_tail,
  unlink, delete,
}
use mock_os.A3.LinkedList.Links.{
  Linked, Distinct, AllBelow, last, Distinct-remove, AllBelow-remove, last-NotIn, Linked-at, Keeps,
  Linked-remove,
}
use mock_os.A3.LinkedList.Represents.{snoc-cons, Holds, Represents}

module _ {D : Type 0} where
  -- What `unlink` leaves of a heap when the node stands between `a` and `y`.
  abbrev without : ℕ → ℕ → Heap D → Heap D
  without a y h = set_prev y (some a) (set_next a (some y) h)

  unlink-without :
      (n a y : ℕ) (h : Heap D)
      → h.prev_of n ≡ some a
      → h.next_of n ≡ some y
      → n ≢ a
      → unlink n h ≡ ok (without a y h)
  unfolding unlink
  unlink-without n a y h p q ne =
      let found : update h.next_of a (h.next_of n) n ≡ some y = ground (arith, ne) in
      ap
        (λ o. deref o >>= λ c.
          (let h₁ = set_next c (h.next_of n) h in
            deref (h₁.next_of n) >>= λ m. ok (set_prev m (h₁.prev_of n) h₁)))
        p
      ∙ ap (λ o. deref o >>= λ m. ok (set_prev m (h.prev_of n) (set_next a (h.next_of n) h))) found
      ∙ ap (λ o. ok (set_prev y o (set_next a (h.next_of n) h))) p
      ∙ ap (λ o. ok (set_prev y (some a) (set_next a o h))) q

  map_middle :
      (f : ℕ → Option D) (xs : List ℕ) (n : ℕ) (zs : List ℕ) (us : List D) (v : D) (ws : List D)
      → length xs ≡ length us
      → map f (xs ++ (n ∷ zs)) ≡ map some (us ++ (v ∷ ws))
      → (f n ≡ some v) × (map f (xs ++ zs) ≡ map some (us ++ ws))
  map_middle f [] n zs [] v ws e h = (cc, cc)
  map_middle f [] n zs (u ∷ us) v ws e h = absurd (omega arith)
  map_middle f (x ∷ xs) n zs [] v ws e h = absurd (omega arith)
  map_middle f (x ∷ xs) n zs (u ∷ us) v ws e h =
      let rest = map_middle f xs n zs us v ws (omega arith) (cc) in (rest.0, cc rest.1)

  -- Taking out a node in the middle takes its value out of the data.
  pub delete_refines :
      (l : LinkedList D) (h : Heap D) (xs : List ℕ) (n : ℕ) (zs : List ℕ) (us : List D) (v : D)
      (ws : List D)
      → Holds l h (xs ++ (n ∷ zs)) (us ++ (v ∷ ws))
      → length xs ≡ length us
      → (s : LinkedList D × Heap D) × (delete n l h ≡ ok (some v, s.0, s.1))
        × Represents s (us ++ ws)
  unfolding delete
  delete_refines l h xs n zs us v ws r e =
      let tail = l.dummy_tail in
      let (y, ys, behind) = snoc-cons zs tail in
      let a = last l.dummy_head xs in
      let shape : (xs ++ (n ∷ zs)) ++ (tail ∷ []) ≡ xs ++ (n ∷ y ∷ ys) =
        append_assoc xs (n ∷ zs) (tail ∷ []) ∙ ap (λ t. xs ++ (n ∷ t)) behind in
      let shorter : (xs ++ zs) ++ (tail ∷ []) ≡ xs ++ (y ∷ ys) =
        append_assoc xs zs (tail ∷ []) ∙ ap (λ t. xs ++ t) behind in
      let linked = subst (Linked h.next_of h.prev_of l.dummy_head) shape r.linked in
      let distinct = subst (λ ns. Distinct (l.dummy_head ∷ ns)) shape r.distinct in
      let below = subst (λ ns. AllBelow h.fresh (l.dummy_head ∷ ns)) shape r.below in
      let at = Linked-at h.next_of h.prev_of l.dummy_head xs n (y ∷ ys) linked in
      let apart : n ≢ a = λ q. (last-NotIn l.dummy_head xs (n ∷ y ∷ ys) distinct).0 (sym q) in
      let h' = without a y h in
      let keeps : Keeps h.next_of h.prev_of h'.next_of h'.prev_of a n y = record {
        nexts = λ k p q. ground arith;
        prevs = λ k p q. ground arith;
      } in
      let parts = map_middle h.data_of xs n zs us v ws e r.data_held in
      (
        (record l { size = l.size - 1 }, h'),
        ap (λ o. o >>= λ g. ok (g.data_of n, record l { size = l.size - 1 }, g))
              (unlink-without n a y h at.1 at.2.0 apart)
            ∙ ap (λ o. ok (o, record l { size = l.size - 1 }, h')) parts.0,
        (
          xs ++ zs,
          record {
            linked = subst (Linked h'.next_of h'.prev_of l.dummy_head) (sym shorter) (
                Linked-remove keeps l.dummy_head xs ys refl (ground arith, ground arith) distinct
                  linked);
            distinct =
                subst (λ ns. Distinct (l.dummy_head ∷ ns)) (sym shorter)
                  (Distinct-remove n (l.dummy_head ∷ xs) (y ∷ ys) distinct);
            below =
                subst (λ ns. AllBelow h.fresh (l.dummy_head ∷ ns)) (sym shorter)
                  (AllBelow-remove h.fresh n (l.dummy_head ∷ xs) (y ∷ ys) below);
            data_held = parts.1;
            blank = r.blank;
            size = omega (arith, length-append {0} us (v ∷ ws), length-append {0} us ws, r.size);
          },
        ),
      )

  -- The nodes of a sequence with a last element have a last node.
  split_last :
      (f : ℕ → Option D) (nodes : List ℕ) (vs : List D) (v : D)
      → map f nodes ≡ map some (vs ++ (v ∷ []))
      → (xs : List ℕ) × (n : ℕ) × (nodes ≡ xs ++ (n ∷ [])) × (length xs ≡ length vs)
  split_last f [] [] v h = absurd (cc)
  split_last f [] (w ∷ vs) v h = absurd (cc)
  split_last f (x ∷ []) [] v h = ([], x, refl, refl)
  split_last f (x ∷ y ∷ nodes) [] v h = absurd (cc)
  split_last f (x ∷ nodes) (w ∷ vs) v h =
      let (xs, n, e, same) = split_last f nodes vs v (cc) in
      (x ∷ xs, n, ap (λ t. x ∷ t) e, ap suc same)

  -- `pop_head` takes the first.
  pub pop_head_refines :
      (l : LinkedList D) (h : Heap D) (v : D) (vs : List D)
      → Represents (l, h) (v ∷ vs)
      → (s : LinkedList D × Heap D) × (pop_head l h ≡ ok (some v, s.0, s.1)) × Represents s vs
  unfolding pop_head
  pop_head_refines l h v vs ([], r) = absurd (cc r.data_held)
  pop_head_refines l h v vs (n ∷ nodes, r) =
      let (s, e, held) = delete_refines l h [] n nodes [] v vs r refl in
      let more : leb l.size 0 ≡ false = ground (arith, r.size) in
      (
        s,
        ap (λ b. if b then exited 99 else deref (h.next_of l.dummy_head) >>= λ m. delete m l h) more
            ∙ ap (λ o. deref o >>= λ m. delete m l h) r.linked.0
            ∙ e,
        held,
      )

  -- `pop_tail` takes the last.
  pub pop_tail_refines :
      (l : LinkedList D) (h : Heap D) (vs : List D) (v : D)
      → Represents (l, h) (vs ++ (v ∷ []))
      → (s : LinkedList D × Heap D) × (pop_tail l h ≡ ok (some v, s.0, s.1)) × Represents s vs
  unfolding pop_tail
  pop_tail_refines l h vs v (nodes, r) =
      let (xs, n, shape, same) = split_last h.data_of nodes vs v r.data_held in
      let r' = subst (λ ns. Holds l h ns (vs ++ (v ∷ []))) shape r in
      let (s, e, held) = delete_refines l h xs n [] vs v [] r' same in
      let more : leb l.size 0 ≡ false = ground (arith, r.size, length-append {0} vs (v ∷ [])) in
      let linked =
        subst (Linked h.next_of h.prev_of l.dummy_head)
          (append_assoc xs (n ∷ []) (l.dummy_tail ∷ [])) r'.linked in
      let at = Linked-at h.next_of h.prev_of l.dummy_head xs n (l.dummy_tail ∷ []) linked in
      (
        s,
        ap (λ b. if b then exited 99 else deref (h.prev_of l.dummy_tail) >>= λ m. delete m l h) more
            ∙ ap (λ o. deref o >>= λ m. delete m l h) at.2.1
            ∙ e,
        subst (Represents s) (append-nil vs) held,
      )
