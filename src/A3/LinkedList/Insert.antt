-- ===== src/A3/LinkedList/Insert.antt =====
-- a3/linked_list.c: `add_tail` and `add_head`.
use mathlib.Core.Path.{subst}
use mathlib.Core.List.{append_assoc}
use mock_os.Prelude.{
  ℕ, ◌+◌, ◌≡◌, refl, ap, ◌≢◌, sym, none, some, List, [], ◌∷◌, ◌++◌, length-append, arith,
}
use mock_os.A3.LinkedList.{
  ok, deref, ◌>>=◌, update, Heap, LinkedList, set_data, set_next, set_prev, malloc, add_tail,
  add_head,
}
use mock_os.A3.LinkedList.Links.{
  Linked, NotIn, Distinct, last, AllBelow-NotIn, AllBelow-insert, Distinct-insert, last-behind,
  NotIn-front, NotIn-behind, Linked-at, Keeps, Linked-insert,
}
use mock_os.A3.LinkedList.Represents.{map_fresh, map_snoc, snoc-cons, Represents}

module _ {D : Type 0} where
  -- What `add_tail` leaves behind the node `a`.
  abbrev with_tail : D → ℕ → LinkedList D → Heap D → Heap D
  with_tail d a l h = set_prev l.dummy_tail (some h.fresh) (
      set_next h.fresh (some l.dummy_tail) (
        set_prev h.fresh (some a)
          (set_next a (some h.fresh) (set_data h.fresh (some d) (malloc h).1))))

  -- `add_tail` puts its data behind those of the list.
  pub add_tail_refines :
      (d : D) (l : LinkedList D) (h : Heap D) (vs : List D)
      → Represents (l, h) vs
      → (s : LinkedList D × Heap D) × (add_tail d l h ≡ ok s) × Represents s (vs ++ (d ∷ []))
  unfolding add_tail
  add_tail_refines d l h vs (nodes, r) =
      let tail = l.dummy_tail in
      let a = last l.dummy_head nodes in
      let at = Linked-at h.next_of h.prev_of l.dummy_head nodes tail [] r.linked in
      let new = AllBelow-NotIn h.fresh (l.dummy_head ∷ (nodes ++ (tail ∷ []))) r.below in
      let apart : h.fresh ≢ tail = (NotIn-behind h.fresh nodes (tail ∷ []) new.1).0 in
      let h' = with_tail d a l h in
      let behind : h.fresh ≢ a = last-behind h.fresh l.dummy_head nodes (tail ∷ []) new in
      let found : update h.prev_of h.fresh none tail ≡ some a = ground (arith, at.1, apart) in
      let keeps : Keeps h.next_of h.prev_of h'.next_of h'.prev_of a h.fresh tail = record {
        nexts = λ k p q. ground arith;
        prevs = λ k p q. ground arith;
      } in
      (
        (record l { size = l.size + 1 }, h'),
        ap (λ o. deref o >>= λ b. ok (record l { size = l.size + 1 }, with_tail d b l h)) found,
        (
          nodes ++ (h.fresh ∷ []),
          record {
            linked = rw (append_assoc nodes (h.fresh ∷ []) (tail ∷ [])) (
                Linked-insert keeps l.dummy_head nodes [] refl
                  (ground (arith, behind), ground (arith, apart), ground arith, ground arith) new
                  r.distinct r.linked);
            distinct =
                rw (append_assoc nodes (h.fresh ∷ []) (tail ∷ []))
                  (Distinct-insert h.fresh (l.dummy_head ∷ nodes) (tail ∷ []) new r.distinct);
            below =
                rw (append_assoc nodes (h.fresh ∷ []) (tail ∷ []))
                  (AllBelow-insert h.fresh (l.dummy_head ∷ nodes) (tail ∷ []) r.below);
            data_held =
                map_snoc h.data_of h.fresh d nodes vs (NotIn-front h.fresh nodes (tail ∷ []) new.1)
                  r.data_held;
            blank = ground (arith, r.blank, apart);
            size = omega (arith, length-append {0} vs (d ∷ []), r.size);
          },
        ),
      )

  -- What `add_head` leaves before the node `b`.
  abbrev with_head : D → ℕ → LinkedList D → Heap D → Heap D
  with_head d b l h = set_next l.dummy_head (some h.fresh) (
      set_prev h.fresh (some l.dummy_head) (
        set_next h.fresh (some b)
          (set_prev b (some h.fresh) (set_data h.fresh (some d) (malloc h).1))))

  -- The links after `add_head`, whose list of nodes begins with `y`.
  add_head-Linked :
      (d : D) (l : LinkedList D) (h : Heap D) (y : ℕ) (ys : List ℕ)
      → Linked h.next_of h.prev_of l.dummy_head (y ∷ ys)
      → Distinct (l.dummy_head ∷ y ∷ ys)
      → NotIn h.fresh (l.dummy_head ∷ y ∷ ys)
      → (add_head d l h ≡ ok (record l { size = l.size + 1 }, with_head d y l h))
        × Linked
            (with_head d y l h).next_of
            (with_head d y l h).prev_of
            l.dummy_head
            (h.fresh ∷ y ∷ ys)
  unfolding add_head
  add_head-Linked d l h y ys linked distinct new =
      let h' = with_head d y l h in
      let front = new.0 in
      let apart = new.1.0 in
      let found : update h.next_of h.fresh none l.dummy_head ≡ some y =
        ground (arith, linked.0, front) in
      let keeps : Keeps h.next_of h.prev_of h'.next_of h'.prev_of l.dummy_head h.fresh y = record {
        nexts = λ k p q. ground arith;
        prevs = λ k p q. ground arith;
      } in
      (
        ap (λ o. deref o >>= λ b. ok (record l { size = l.size + 1 }, with_head d b l h)) found,
        Linked-insert keeps l.dummy_head [] ys refl
            (ground arith, ground arith, ground (arith, front), ground (arith, apart)) new distinct
            linked,
      )

  -- `add_head` puts its data in front of those of the list.
  pub add_head_refines :
      (d : D) (l : LinkedList D) (h : Heap D) (vs : List D)
      → Represents (l, h) vs
      → (s : LinkedList D × Heap D) × (add_head d l h ≡ ok s) × Represents s (d ∷ vs)
  add_head_refines d l h vs (nodes, r) =
      let tail = l.dummy_tail in
      let (y, ys, e) = snoc-cons nodes tail in
      let new = AllBelow-NotIn h.fresh (l.dummy_head ∷ (nodes ++ (tail ∷ []))) r.below in
      let done =
        add_head-Linked d l h y ys (subst (Linked h.next_of h.prev_of l.dummy_head) e r.linked)
          (subst (λ ns. Distinct (l.dummy_head ∷ ns)) e r.distinct)
          (subst (λ ns. NotIn h.fresh (l.dummy_head ∷ ns)) e new) in
      let h' = with_head d y l h in
      let here : h'.data_of h.fresh ≡ some d = ground arith in
      (
        (record l { size = l.size + 1 }, h'),
        done.0,
        (
          h.fresh ∷ nodes,
          record {
            linked =
                subst (λ ns. Linked h'.next_of h'.prev_of l.dummy_head (h.fresh ∷ ns)) (sym e)
                  done.1;
            distinct =
                Distinct-insert h.fresh (l.dummy_head ∷ []) (nodes ++ (tail ∷ [])) new r.distinct;
            below = AllBelow-insert h.fresh (l.dummy_head ∷ []) (nodes ++ (tail ∷ [])) r.below;
            data_held = cc (
              map_fresh h.data_of h.fresh d nodes (NotIn-front h.fresh nodes (tail ∷ []) new.1),
              r.data_held,
              here,
            );
            blank = ground (arith, r.blank, (NotIn-behind h.fresh nodes (tail ∷ []) new.1).0);
            size = omega (arith, r.size);
          },
        ),
      )
