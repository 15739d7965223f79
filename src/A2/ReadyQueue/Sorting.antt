-- ===== src/A2/ReadyQueue/Sorting.antt =====
-- a2/ready_queue.c: `sort_ready_queue` makes one bubble pass and no more.
use mathlib.Core.List.{Perm}
use mathlib.Core.List.Perm
use mock_os.Prelude.{
  ℕ, zero, suc, ◌+◌, ◌≤◌, ◌<◌, ◌≡◌, refl, ◌∙◌, ap, sym, inl, inr, Bool, true, false, not, ◌&&◌,
  none, some, List, [], ◌∷◌, ◌++◌, if◌then◌else◌, length, get_elem?, arith, Bool-cases,
  length-append,
}
use mathlib.Core.List.{append_assoc}
use mock_os.A2.State.{Pcb, ok}
use mock_os.A2.ReadyQueue.{
  ready_queue_swap_with_next, swap_needed, sort_inner, sort_outer, sort_ready_queue,
  ready_queue_pop_shortest_job,
}

-- One pass with the block `p` in hand: at each block the one that comes first is put down.
unfoldable pub bubble : Pcb → List Pcb → List Pcb
bubble p [] = p ∷ []
bubble p (q ∷ qs) =
    (if swap_needed p q then q else p) ∷ bubble (if swap_needed p q then p else q) qs

-- Is a block put down before the one in hand?
unfoldable pub in_order : Pcb → List Pcb → Bool
in_order p [] = true
in_order p (q ∷ qs) = not (swap_needed p q) && in_order (if swap_needed p q then p else q) qs

swap_at :
    (pre : List Pcb) (p q : Pcb) (qs : List Pcb)
    → ready_queue_swap_with_next (length pre) (pre ++ (p ∷ q ∷ qs)) ≡ ok (pre ++ (q ∷ p ∷ qs))
unfolding ready_queue_swap_with_next
swap_at [] p q qs = refl
swap_at (x ∷ pre) p q qs = rw (swap_at pre p q qs)

get_at :
    (pre : List Pcb) (p : Pcb) (qs : List Pcb) → get_elem? (pre ++ (p ∷ qs)) (length pre) ≡ some p
get_at [] p qs = refl
get_at (x ∷ pre) p qs = get_at pre p qs

get_next :
    (pre : List Pcb) (p q : Pcb) (qs : List Pcb)
    → get_elem? (pre ++ (p ∷ q ∷ qs)) (length pre + 1) ≡ some q
get_next pre p q qs =
    rw (← append_assoc pre (p ∷ []) (q ∷ qs), ← length-snoc pre p) (get_at (pre ++ (p ∷ [])) q qs)
  where
    length-snoc : (pre : List Pcb) (p : Pcb) → length (pre ++ (p ∷ [])) ≡ length pre + 1
    length-snoc pre p = length-append pre (p ∷ [])

get_beyond : (qs : List Pcb) (i : ℕ) → length qs ≤ i → get_elem? qs i ≡ none
get_beyond [] i h = refl
get_beyond (q ∷ qs) zero h = absurd (omega arith)
get_beyond (q ∷ qs) (suc i) h = get_beyond qs i (omega arith)

inner_end :
    (fuel : ℕ) (pre : List Pcb) (p : Pcb) (sorted : Bool)
    → sort_inner (suc fuel) (length pre) (pre ++ (p ∷ [])) sorted
      ≡ ok (length pre + 0, pre ++ (p ∷ []), sorted && true)
unfolding sort_inner
inner_end fuel pre p sorted =
    rw
      (
        get_at pre p [],
        get_beyond (pre ++ (p ∷ [])) (length pre + 1)
            (omega (arith, length-append {0} pre (p ∷ []))),
        sort_inner,
      )
      (ground arith)

inner_swap :
    (fuel : ℕ) (pre : List Pcb) (p q : Pcb) (qs : List Pcb) (sorted : Bool)
    → swap_needed p q ≡ true
    → sort_inner (suc fuel) (length pre) (pre ++ (p ∷ q ∷ qs)) sorted
      ≡ sort_inner fuel (length pre + 1) (pre ++ (q ∷ p ∷ qs)) false
unfolding sort_inner
inner_swap fuel pre p q qs sorted out =
    rw (get_at pre p (q ∷ qs), get_next pre p q qs, out, swap_at pre p q qs, sort_inner)

inner_keep :
    (fuel : ℕ) (pre : List Pcb) (p q : Pcb) (qs : List Pcb) (sorted : Bool)
    → swap_needed p q ≡ false
    → sort_inner (suc fuel) (length pre) (pre ++ (p ∷ q ∷ qs)) sorted
      ≡ sort_inner fuel (length pre + 1) (pre ++ (p ∷ q ∷ qs)) sorted
unfolding sort_inner
inner_keep fuel pre p q qs sorted fine =
    rw (get_at pre p (q ∷ qs), get_next pre p q qs, fine, sort_inner)

-- The inner loop from the block behind `pre` bubbles what follows, and goes to the end.
sort_inner-bubble :
    (fuel : ℕ) (pre : List Pcb) (p : Pcb) (qs : List Pcb) (sorted : Bool)
    → length qs < fuel
    → sort_inner fuel (length pre) (pre ++ (p ∷ qs)) sorted
      ≡ ok (length pre + length qs, pre ++ bubble p qs, sorted && in_order p qs)
unfolding bubble in_order
sort_inner-bubble zero pre p qs sorted f = absurd (omega arith)
sort_inner-bubble (suc fuel) pre p [] sorted f = inner_end fuel pre p sorted
sort_inner-bubble (suc fuel) pre p (q ∷ qs) sorted f = elim (Bool-cases (swap_needed p q)) [
  | inl out ↦
      inner_swap fuel pre p q qs sorted out
      ∙ ap (λ t. sort_inner fuel (length pre + 1) t false)
          (sym (append_assoc pre (q ∷ []) (p ∷ qs)))
      ∙ ap (λ n. sort_inner fuel n ((pre ++ (q ∷ [])) ++ (p ∷ qs)) false)
          (sym (length-append pre (q ∷ [])))
      ∙ sort_inner-bubble fuel (pre ++ (q ∷ [])) p qs false (omega arith)
      ∙ ground (arith, length-append {0} pre (q ∷ []), append_assoc pre (q ∷ []) (bubble p qs), out)
  | inr fine ↦
      inner_keep fuel pre p q qs sorted fine
      ∙ ap (λ t. sort_inner fuel (length pre + 1) t sorted)
          (sym (append_assoc pre (p ∷ []) (q ∷ qs)))
      ∙ ap (λ n. sort_inner fuel n ((pre ++ (p ∷ [])) ++ (q ∷ qs)) sorted)
          (sym (length-append pre (p ∷ [])))
      ∙ sort_inner-bubble fuel (pre ++ (p ∷ [])) q qs sorted (omega arith)
      ∙ ground
          (arith, length-append {0} pre (p ∷ []), append_assoc pre (p ∷ []) (bubble q qs), fine)
]

bubble-in_order : (p : Pcb) (qs : List Pcb) → in_order p qs ≡ true → bubble p qs ≡ p ∷ qs
unfolding bubble in_order
bubble-in_order p [] h = refl
bubble-in_order p (q ∷ qs) h = ground (arith, bubble-in_order q qs)

length-bubble : (p : Pcb) (qs : List Pcb) → length (bubble p qs) ≡ length qs + 1
unfolding bubble
length-bubble p [] = refl
length-bubble p (q ∷ qs) = omega (arith, length-bubble (if swap_needed p q then p else q) qs)

-- From the last block on the inner loop does nothing.
get_last : (l : List Pcb) (i : ℕ) → i < length l → (p : Pcb) × (get_elem? l i ≡ some p)
get_last [] i h = absurd (omega arith)
get_last (p ∷ l) zero h = (p, refl)
get_last (p ∷ l) (suc i) h = get_last l i (omega arith)

sort_inner_last :
    (fuel i : ℕ) (l : List Pcb)
    → 0 < fuel
    → length l ≡ i + 1
    → sort_inner fuel i l true ≡ ok (i, l, true)
unfolding sort_inner
sort_inner_last zero i l f h = absurd (omega arith)
sort_inner_last (suc fuel) i l f h =
    let (p, e) = get_last l i (omega arith) in
    rw (e, get_beyond l (i + 1) (omega arith), sort_inner)

module _ (fuel i : ℕ) (l l' : List Pcb) where
  outer_stops :
      {j : ℕ}
      → sort_inner (length l + 1) i l true ≡ ok (j, l', true)
      → sort_outer (suc fuel) i l ≡ ok l'
  unfolding sort_outer
  outer_stops e = rw e

  outer_again :
      {j : ℕ}
      → sort_inner (length l + 1) i l true ≡ ok (j, l', false)
      → sort_outer (suc fuel) i l ≡ sort_outer fuel j l'
  unfolding sort_outer
  outer_again e = rw e

sort_outer-bubble :
    (fuel : ℕ) (p : Pcb) (qs : List Pcb) → sort_outer (suc (suc fuel)) 0 (p ∷ qs) ≡ ok (bubble p qs)
sort_outer-bubble fuel p qs =
    let once = sort_inner-bubble (length (p ∷ qs) + 1) [] p qs true (omega arith) in
    elim (Bool-cases (in_order p qs)) [
      | inl calm ↦
          outer_stops (suc fuel) 0 (p ∷ qs) (bubble p qs) {j = 0 + length qs}
            (once ∙ ground (arith, calm))
      | inr moved ↦
          outer_again (suc fuel) 0 (p ∷ qs) (bubble p qs) {j = 0 + length qs}
            (once ∙ ground (arith, moved))
          ∙ outer_stops fuel (0 + length qs) (bubble p qs) (bubble p qs) (
              sort_inner_last (length (bubble p qs) + 1) (0 + length qs) (bubble p qs) (omega arith)
                (omega (arith, length-bubble p qs)))
    ]

bubble-perm : (p : Pcb) (qs : List Pcb) → Perm (bubble p qs) (p ∷ qs)
unfolding bubble
bubble-perm p [] = Perm.refl (p ∷ [])
bubble-perm p (q ∷ qs) = elim (Bool-cases (swap_needed p q)) [
  | inl out ↦ rw out (Perm.trans (Perm.cons q (bubble-perm p qs)) (Perm.swap p q qs))
  | inr fine ↦ rw fine (Perm.cons p (bubble-perm q qs))
]

bubble_falling :
    (p q r : Pcb)
    → p.priority ≡ q.priority
    → q.priority ≡ r.priority
    → q.job_length_score < p.job_length_score
    → r.job_length_score < q.job_length_score
    → bubble p (q ∷ r ∷ []) ≡ q ∷ r ∷ p ∷ []
unfolding bubble swap_needed
bubble_falling p q r a b pq qr = ground arith

-- `sort_ready_queue` always ends and follows no null pointer. Its result is the queue after one
-- bubble pass, which holds the same blocks.
pub sort_ready_queue-bubble :
    (p : Pcb) (qs : List Pcb)
    → (sort_ready_queue (p ∷ qs) ≡ ok (bubble p qs)) × Perm (bubble p qs) (p ∷ qs)
unfolding sort_ready_queue
sort_ready_queue-bubble p qs = (sort_outer-bubble 0 p qs, bubble-perm p qs)

-- Of three jobs of the same priority in the queue with falling scores, `ready_queue_pop_shortest_job`
-- returns the second, though the third is shorter.
pub pop_shortest_job_misses :
    (p q r : Pcb)
    → p.priority ≡ q.priority
    → q.priority ≡ r.priority
    → q.job_length_score < p.job_length_score
    → r.job_length_score < q.job_length_score
    → ready_queue_pop_shortest_job (p ∷ q ∷ r ∷ []) ≡ ok (some q, r ∷ p ∷ [])
unfolding ready_queue_pop_shortest_job
pop_shortest_job_misses p q r a b pq qr =
    rw ((sort_ready_queue-bubble p (q ∷ r ∷ [])).0, bubble_falling p q r a b pq qr)
