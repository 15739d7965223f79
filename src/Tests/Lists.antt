-- ===== src/Tests/Lists.antt =====
-- Runs of the linked list of assignment 3.
use mock_os.Prelude.{ℕ, ◌≡◌, refl, none, some, List, [], ◌∷◌, ◌==◌, if◌then◌else◌, arith}
use mock_os.A3.LinkedList.{ok, fault, Heap, LinkedList, list_init, remove_elem}
use mock_os.A3.LinkedList.Represents.{Represents}
use mock_os.A3.LinkedList.Find.{remove_elem_refines, remove_elem_faults}
use mock_os.A3.LinkedList.Deque.{
  Call, append, prepend, first, last, run, Agrees, deque, session_refines,
}

abbrev no_nodes : Heap ℕ
no_nodes = record { fresh = 0; data_of = λ a. none; next_of = λ a. none; prev_of = λ a. none }

abbrev calls : List (Call ℕ)
calls = append 5 ∷ append 6 ∷ prepend 4 ∷ last ∷ first ∷ first ∷ first ∷ []

session_refines_example :
    Agrees (run calls (list_init ◌==◌ no_nodes).0 (list_init ◌==◌ no_nodes).1) (deque calls [])
session_refines_example = session_refines calls ◌==◌ no_nodes

-- Between the dummies 0 and 1 the nodes 2 and 3, with the data 5 and 6.
abbrev nodes : Heap ℕ
nodes = record {
  fresh = 4;
  data_of = λ a. if a == 2 then some 5 else if a == 3 then some 6 else none;
  next_of =
      λ a. if a == 0 then some 2 else if a == 2 then some 3 else if a == 3 then some 1 else none;
  prev_of =
      λ a. if a == 1 then some 3 else if a == 3 then some 2 else if a == 2 then some 0 else none;
}

abbrev pair : LinkedList ℕ
pair = record { size = 2; dummy_head = 0; dummy_tail = 1; equal = ◌==◌ }

pair-Represents : Represents (pair, nodes) (5 ∷ 6 ∷ [])
pair-Represents = (
  2 ∷ 3 ∷ [],
  record {
    linked = (refl, refl, (refl, refl, (refl, refl, tt)));
    distinct = (
      (λ e. omega arith, (λ e. omega arith, (λ e. omega arith, tt))),
      ((λ e. omega arith, (λ e. omega arith, tt)), ((λ e. omega arith, tt), (tt, tt))),
    );
    below = (omega arith, (omega arith, (omega arith, (omega arith, tt))));
    data_held = refl;
    blank = refl;
    size = refl;
  },
)

remove_elem_refines_example :
    (s : LinkedList ℕ × Heap ℕ) × (remove_elem 6 pair nodes ≡ ok (some 6, s.0, s.1))
    × Represents s (5 ∷ [])
remove_elem_refines_example =
    remove_elem_refines pair nodes 6 (5 ∷ []) 6 [] pair-Represents (refl, tt) refl

remove_elem_faults_example : remove_elem 7 pair nodes ≡ fault
remove_elem_faults_example =
    remove_elem_faults pair nodes 7 (5 ∷ 6 ∷ []) pair-Represents (refl, (refl, tt))
