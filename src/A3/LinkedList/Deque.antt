-- ===== src/A3/LinkedList/Deque.antt =====
-- a3/linked_list.c: runs of `add_tail`, `add_head`, `pop_head` and `pop_tail`, as the ready queue and
-- the list of recently used pages make them, against the same runs on a sequence.
use mathlib.Core.Path.{subst}
use mock_os.Prelude.{
  ◌≡◌, refl, ap, sym, ◌⊎◌, inl, inr, true, Bool, Option, none, some, List, [], ◌∷◌, ◌++◌, map, leb,
  arith,
}
use mock_os.A3.LinkedList.{
  Result, ok, exited, ◌>>=◌, Heap, LinkedList, list_init, add_tail, add_head, pop_head, pop_tail,
}
use mock_os.A3.LinkedList.Represents.{Represents, list_init_refines}
use mock_os.A3.LinkedList.Insert.{add_tail_refines, add_head_refines}
use mock_os.A3.LinkedList.Remove.{pop_head_refines, pop_tail_refines}

pub data Call (D : Type 0) : Type 0 where
  append : D → Call D
  prepend : D → Call D
  first : Call D
  last : Call D

abbrev pub Outcome : Type 0 → Type 0
Outcome D = Result (List (Option D) × LinkedList D × Heap D)

module _ {D : Type 0} where
  -- What a call returns, if it returns data, before what the later calls return.
  abbrev returning : Option D → Outcome D → Outcome D
  returning v r = r >>= λ s. ok (v ∷ s.0, s.1, s.2)

  -- A run on the linked list.
  unfoldable pub run : List (Call D) → LinkedList D → Heap D → Outcome D
  run [] l h = ok ([], l, h)
  run (append d ∷ calls) l h = add_tail d l h >>= λ s. run calls s.0 s.1
  run (prepend d ∷ calls) l h = add_head d l h >>= λ s. run calls s.0 s.1
  run (first ∷ calls) l h = pop_head l h >>= λ s. returning s.0 (run calls s.1 s.2)
  run (last ∷ calls) l h = pop_tail l h >>= λ s. returning s.0 (run calls s.1 s.2)

  abbrev pub take_last : List D → Option (List D × D)
  take_last [] = none
  take_last (v ∷ vs) = elim (take_last vs) [ none ↦ some ([], v) | some (us, w) ↦ some (v ∷ us, w) ]

  abbrev giving : D → Option (List D × List D) → Option (List D × List D)
  giving v none = none
  giving v (some (outs, vs)) = some (v ∷ outs, vs)

  abbrev after_last :
      (List D → Option (List D × List D)) → Option (List D × D) → Option (List D × List D)
  after_last rest none = none
  after_last rest (some (us, w)) = giving w (rest us)

  -- The same run on a sequence: the data taken and the sequence left, or nothing when data are to be
  -- taken from an empty sequence.
  unfoldable pub deque : List (Call D) → List D → Option (List D × List D)
  deque [] vs = some ([], vs)
  deque (append d ∷ calls) vs = deque calls (vs ++ (d ∷ []))
  deque (prepend d ∷ calls) vs = deque calls (d ∷ vs)
  deque (first ∷ calls) [] = none
  deque (first ∷ calls) (v ∷ vs) = giving v (deque calls vs)
  deque (last ∷ calls) vs = after_last (deque calls) (take_last vs)

  -- The run of the code ends as that of the sequence does, by `exit(99)` where that has no data.
  abbrev pub Agrees : Outcome D → Option (List D × List D) → Type 0
  Agrees r none = r ≡ exited 99
  Agrees r (some (outs, vs)) =
      (s : LinkedList D × Heap D) × (r ≡ ok (map some outs, s.0, s.1)) × Represents s vs

  returning-Agrees :
      (v : D) (r : Outcome D) (q : Option (List D × List D))
      → Agrees r q
      → Agrees (returning (some v) r) (giving v q)
  returning-Agrees v r none h = ap (returning (some v)) h
  returning-Agrees v r (some (outs, vs)) (s, e, held) = (s, ap (returning (some v)) e, held)

  take_last_lem :
      (vs : List D)
      → ((take_last vs ≡ none) × (vs ≡ []))
        ⊎ ((us : List D) × (w : D) × (take_last vs ≡ some (us, w)) × (vs ≡ us ++ (w ∷ [])))
  take_last_lem [] = inl (refl, refl)
  take_last_lem (v ∷ vs) = elim (take_last_lem vs) [
    | inl (e, q) ↦ inr ([], v, rw e, ap (λ t. v ∷ t) q)
    | inr (us, w, e, q) ↦ inr (v ∷ us, w, rw e, ap (λ t. v ∷ t) q)
  ]

  pop_empty :
      (l : LinkedList D) (h : Heap D)
      → Represents (l, h) []
      → (pop_head l h ≡ exited 99) × (pop_tail l h ≡ exited 99)
  unfolding pop_head pop_tail
  pop_empty l h (nodes, r) =
      let empty : leb l.size 0 ≡ true = ground (arith, r.size) in (rw empty, rw empty)

  -- A run from a list that holds a sequence agrees with the run on the sequence.
  pub run_refines :
      (calls : List (Call D)) (l : LinkedList D) (h : Heap D) (vs : List D)
      → Represents (l, h) vs
      → Agrees (run calls l h) (deque calls vs)
  unfolding run deque
  run_refines [] l h vs r = ((l, h), refl, r)
  run_refines (append d ∷ calls) l h vs r =
      let (s, e, held) = add_tail_refines d l h vs r in
      subst (λ o. Agrees (o >>= λ t. run calls t.0 t.1) (deque calls (vs ++ (d ∷ [])))) (sym e)
        (run_refines calls s.0 s.1 (vs ++ (d ∷ [])) held)
  run_refines (prepend d ∷ calls) l h vs r =
      let (s, e, held) = add_head_refines d l h vs r in
      subst (λ o. Agrees (o >>= λ t. run calls t.0 t.1) (deque calls (d ∷ vs))) (sym e)
        (run_refines calls s.0 s.1 (d ∷ vs) held)
  run_refines (first ∷ calls) l h [] r =
      ap (λ o. o >>= λ t. returning t.0 (run calls t.1 t.2)) (pop_empty l h r).0
  run_refines (first ∷ calls) l h (v ∷ vs) r =
      let (s, e, held) = pop_head_refines l h v vs r in
      subst (λ o. Agrees (o >>= λ t. returning t.0 (run calls t.1 t.2)) (giving v (deque calls vs)))
        (sym e)
        (returning-Agrees v (run calls s.0 s.1) (deque calls vs)
          (run_refines calls s.0 s.1 vs held))
  run_refines (last ∷ calls) l h vs r =
      let step : Outcome D = pop_tail l h >>= λ t. returning t.0 (run calls t.1 t.2) in
      elim (take_last_lem vs) [
        | inl (e, q) ↦
            subst (λ o. Agrees step (after_last (deque calls) o)) (sym e)
              (ap (λ o. o >>= λ t. returning t.0 (run calls t.1 t.2))
                (pop_empty l h (subst (Represents (l, h)) q r)).1)
        | inr (us, w, e, q) ↦
            let (s, f, held) = pop_tail_refines l h us w (subst (Represents (l, h)) q r) in
            subst (λ o. Agrees step (after_last (deque calls) o)) (sym e)
              (subst
                (λ o.
                  Agrees (o >>= λ t. returning t.0 (run calls t.1 t.2)) (giving w (deque calls us)))
                (sym f)
                (returning-Agrees w (run calls s.0 s.1) (deque calls us)
                  (run_refines calls s.0 s.1 us held)))
      ]

  -- Any run of add_tail, add_head, pop_head and pop_tail on a list made by list_init returns the
  -- data that the same run returns on a sequence, and leaves a linked list, well linked in both
  -- directions, with the same data in order; when the run takes data from an empty sequence, the
  -- code ends with exit(99).
  pub session_refines :
      (calls : List (Call D)) (equal : D → D → Bool) (h : Heap D)
      → Agrees (run calls (list_init equal h).0 (list_init equal h).1) (deque calls [])
  session_refines calls equal h =
      let s = list_init equal h in run_refines calls s.0 s.1 [] (list_init_refines equal h)
