-- ===== src/A2/ReadyQueue.antt =====
-- a2/ready_queue.c: the chain of nodes from `head`, as the list of the blocks that they point to. A
-- node inside the chain is its position.
pub mod Sorting
use mock_os.Prelude.{
  ℕ, zero, suc, ◌+◌, ◌-◌, Bool, true, false, not, ◌&&◌, ◌||◌, Option, none, some, List, [], ◌∷◌,
  ◌++◌, ltb, ◌==◌, if◌then◌else◌, length, get_elem?,
}
use mock_os.A2.State.{Pcb, Run, ok, fault, out_of_fuel, ◌>>=◌, demand}

unfoldable pub ready_queue_add_to_tail : Pcb → List Pcb → List Pcb
ready_queue_add_to_tail p [] = p ∷ []
ready_queue_add_to_tail p (q ∷ qs) = q ∷ ready_queue_add_to_tail p qs

unfoldable pub ready_queue_add_to_head : Pcb → List Pcb → List Pcb
ready_queue_add_to_head p qs = p ∷ qs

unfoldable pub is_ready_empty : List Pcb → Bool
is_ready_empty [] = true
is_ready_empty (q ∷ qs) = false

unfoldable pub ready_queue_pop_head : List Pcb → Option Pcb × List Pcb
ready_queue_pop_head [] = (none, [])
ready_queue_pop_head (q ∷ qs) = (some q, qs)

unfoldable pub ready_queue_decrement_job_length_score : List Pcb → List Pcb
ready_queue_decrement_job_length_score [] = []
ready_queue_decrement_job_length_score (q ∷ qs) =
    (if ltb 0 q.job_length_score then record q { job_length_score = q.job_length_score - 1 } else q)
    ∷ ready_queue_decrement_job_length_score qs

-- `ready_queue_swap_with_next` of the node at a position. At the last node it goes through a null
-- pointer; a node that is not in the chain changes nothing.
unfoldable pub ready_queue_swap_with_next : ℕ → List Pcb → Run (List Pcb)
ready_queue_swap_with_next i [] = ok []
ready_queue_swap_with_next zero (p ∷ []) = fault
ready_queue_swap_with_next zero (p ∷ q ∷ qs) = ok (q ∷ p ∷ qs)
ready_queue_swap_with_next (suc i) (p ∷ qs) =
    ready_queue_swap_with_next i qs >>= λ qs'. ok (p ∷ qs')

-- `swap_needed` of a node and the one behind it.
unfoldable pub swap_needed : Pcb → Pcb → Bool
swap_needed p q =
    if p.priority && q.priority
    then ltb q.job_length_score p.job_length_score
    else if p.priority && not q.priority
    then false
    else if not p.priority && q.priority
    then true
    else ltb q.job_length_score p.job_length_score

-- The inner loop of `sort_ready_queue` from the node at position `cur`: a node that is swapped
-- stands one position further on. The results are the position, the chain, and `sorted`.
unfoldable pub sort_inner : ℕ → ℕ → List Pcb → Bool → Run (ℕ × List Pcb × Bool)
sort_inner zero cur qs sorted = out_of_fuel
sort_inner (suc fuel) cur qs sorted = elim (get_elem? qs cur) [
  | none ↦ fault
  | some p ↦ elim (get_elem? qs (cur + 1)) [
    | none ↦ ok (cur, qs, sorted)
    | some q ↦
        if swap_needed p q
        then (ready_queue_swap_with_next cur qs >>= λ qs'. sort_inner fuel (cur + 1) qs' false)
        else sort_inner fuel (cur + 1) qs sorted
  ]
]

-- The outer loop; `cur` is not set back to the head.
unfoldable pub sort_outer : ℕ → ℕ → List Pcb → Run (List Pcb)
unfolding sort_inner
sort_outer zero cur qs = out_of_fuel
sort_outer (suc fuel) cur qs = sort_inner (length qs + 1) cur qs true >>= λ r. elim (r.2) [
  | true ↦ ok (r.1)
  | false ↦ sort_outer fuel r.0 r.1
]

unfoldable pub sort_ready_queue : List Pcb → Run (List Pcb)
unfolding sort_outer
sort_ready_queue [] = ok []
sort_ready_queue (q ∷ qs) = sort_outer 2 0 (q ∷ qs)

unfoldable pub ready_queue_pop_shortest_job : List Pcb → Run (Option Pcb × List Pcb)
unfolding sort_ready_queue ready_queue_pop_head
ready_queue_pop_shortest_job qs = sort_ready_queue qs >>= λ qs'. ok (ready_queue_pop_head qs')

-- `MAX_INT` of ready_queue.h
abbrev pub max_int : ℕ
max_int = 2147483646

unfoldable pub shortest_from : ℕ → List Pcb → ℕ
shortest_from shortest [] = shortest
shortest_from shortest (q ∷ qs) =
    shortest_from (if ltb q.job_length_score shortest then q.job_length_score else shortest) qs

unfoldable pub ready_queue_get_shortest_job_score : List Pcb → ℕ
unfolding shortest_from
ready_queue_get_shortest_job_score qs = shortest_from max_int qs

-- The loop of `ready_queue_promote` behind the head: the first node with the score, and the others.
unfoldable pub take_score : ℕ → List Pcb → Option (Pcb × List Pcb)
take_score score [] = none
take_score score (q ∷ qs) =
    if q.job_length_score == score
    then some (q, qs)
    else (elim (take_score score qs) [ none ↦ none | some r ↦ some (r.0, q ∷ r.1) ])

unfoldable pub ready_queue_promote : ℕ → List Pcb → Run (List Pcb)
unfolding take_score
ready_queue_promote score [] = fault
ready_queue_promote score (q ∷ qs) =
    if q.job_length_score == score
    then ok (q ∷ qs)
    else (elim (take_score score qs) [ none ↦ ok (q ∷ qs) | some r ↦ ok (r.0 ∷ q ∷ r.1) ])
