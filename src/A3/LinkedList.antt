-- ===== src/A3/LinkedList.antt =====
-- a3/linked_list.c: doubly linked lists between two dummy nodes. A node is an address, and its three
-- fields are maps from addresses, where `none` is a null pointer or a field that was never written.
-- `fault` is a dereference of such a pointer; `exited` is a call of `exit`.
pub mod Links
pub mod Represents
pub mod Insert
pub mod Remove
pub mod Find
pub mod Deque
use mock_os.Prelude.{
  ℕ, zero, suc, ◌+◌, ◌-◌, Bool, true, false, Option, none, some, leb, ◌==◌, if◌then◌else◌,
}
use mock_os.Prelude.Int.{ℤ, pos, negsuc}

pub data Result {ℓ} (A : Type ℓ) : Type ℓ where
  ok : A → Result A
  exited : ℕ → Result A
  fault : Result A
  out_of_fuel : Result A

infixl 5 ◌>>=◌
abbrev pub ◌>>=◌ {ℓ κ} : {A : Type ℓ} {B : Type κ} → Result A → (A → Result B) → Result B
ok a >>= f = f a
exited n >>= f = exited n
fault >>= f = fault
out_of_fuel >>= f = out_of_fuel

-- A pointer that is dereferenced, or a field that is read.
abbrev pub deref {ℓ} : {A : Type ℓ} → Option A → Result A
deref none = fault
deref (some a) = ok a

abbrev pub update {ℓ} : {A : Type ℓ} → (ℕ → A) → ℕ → A → ℕ → A
update f k v i = if i == k then v else f i

module _ (Data : Type 0) where
  -- The nodes of all lists. `malloc` gives out the addresses in order.
  pub record Heap : Type 0 where
    pub fresh : ℕ
    pub data_of : ℕ → Option Data
    pub next_of : ℕ → Option ℕ
    pub prev_of : ℕ → Option ℕ

  -- `LINKED_LIST`
  pub record LinkedList : Type 0 where
    pub size : ℕ
    pub dummy_head : ℕ
    pub dummy_tail : ℕ
    pub equal : Data → Data → Bool

module _ {Data : Type 0} where
  abbrev pub set_data : ℕ → Option Data → Heap Data → Heap Data
  set_data a v h = record h { data_of = update h.data_of a v }

  abbrev pub set_next : ℕ → Option ℕ → Heap Data → Heap Data
  set_next a v h = record h { next_of = update h.next_of a v }

  abbrev pub set_prev : ℕ → Option ℕ → Heap Data → Heap Data
  set_prev a v h = record h { prev_of = update h.prev_of a v }

  -- `malloc(sizeof(NODE))`: the fields of the new node are not written.
  abbrev pub malloc : Heap Data → ℕ × Heap Data
  malloc h = (
    h.fresh,
    record {
      fresh = h.fresh + 1;
      data_of = update h.data_of h.fresh none;
      next_of = update h.next_of h.fresh none;
      prev_of = update h.prev_of h.fresh none;
    },
  )

  unfoldable pub has_next : ℕ → Heap Data → Bool
  has_next elem h = elim (h.next_of elem) [ none ↦ false | some n ↦ true ]

  -- The node, and what the pointer is afterwards.
  unfoldable pub next_node : ℕ → Heap Data → ℕ × Option ℕ
  next_node node h = (node, h.next_of node)

  unfoldable pub next : ℕ → Heap Data → Option Data × Option ℕ
  unfolding next_node
  next elem h = let r = next_node elem h in (h.data_of r.0, r.1)

  unfoldable pub list_init : (Data → Data → Bool) → Heap Data → LinkedList Data × Heap Data
  list_init equal h =
      let (dummy_head, h₁) = malloc h in
      let (dummy_tail, h₂) = malloc h₁ in
      (
        record { size = 0; dummy_head = dummy_head; dummy_tail = dummy_tail; equal = equal },
        set_prev dummy_tail (some dummy_head)
            (set_next dummy_head (some dummy_tail) (set_next dummy_tail none h₂)),
      )

  unfoldable pub list_clear : LinkedList Data → Heap Data → LinkedList Data × Heap Data
  list_clear l h = (
    record l { size = 0 },
    set_prev l.dummy_tail (some l.dummy_head) (set_next l.dummy_head (some l.dummy_tail) h),
  )

  unfoldable pub add_tail :
      Data → LinkedList Data → Heap Data → Result (LinkedList Data × Heap Data)
  add_tail d l h =
      let (new_node, h₁) = malloc h in
      deref (h₁.prev_of l.dummy_tail) >>= λ old_tail. ok (
        record l { size = l.size + 1 },
        set_prev l.dummy_tail (some new_node) (
            set_next new_node (some l.dummy_tail) (
              set_prev new_node (some old_tail)
                (set_next old_tail (some new_node) (set_data new_node (some d) h₁)))),
      )

  unfoldable pub add_head :
      Data → LinkedList Data → Heap Data → Result (LinkedList Data × Heap Data)
  add_head d l h =
      let (new_node, h₁) = malloc h in
      deref (h₁.next_of l.dummy_head) >>= λ old_head. ok (
        record l { size = l.size + 1 },
        set_next l.dummy_head (some new_node) (
            set_prev new_node (some l.dummy_head) (
              set_next new_node (some old_head)
                (set_prev old_head (some new_node) (set_data new_node (some d) h₁)))),
      )

  -- `to_be_deleted->prev->next = to_be_deleted->next; to_be_deleted->next->prev = ...->prev`
  unfoldable pub unlink : ℕ → Heap Data → Result (Heap Data)
  unlink node h = deref (h.prev_of node) >>= λ p.
      (let h₁ = set_next p (h.next_of node) h in
        deref (h₁.next_of node) >>= λ n. ok (set_prev n (h₁.prev_of node) h₁))

  -- The removal of a node that has been found: the data, the list and the heap. The size of a list
  -- with a node to remove is not 0.
  unfoldable pub delete :
      ℕ → LinkedList Data → Heap Data → Result (Option Data × LinkedList Data × Heap Data)
  unfolding unlink
  delete node l h = unlink node h >>= λ h'. ok (h'.data_of node, record l { size = l.size - 1 }, h')

  unfoldable pub pop_head :
      LinkedList Data → Heap Data → Result (Option Data × LinkedList Data × Heap Data)
  pop_head l h =
      if leb l.size 0 then exited 99 else deref (h.next_of l.dummy_head) >>= λ node. delete node l h

  unfoldable pub pop_tail :
      LinkedList Data → Heap Data → Result (Option Data × LinkedList Data × Heap Data)
  pop_tail l h =
      if leb l.size 0 then exited 99 else deref (h.prev_of l.dummy_tail) >>= λ node. delete node l h

  -- `curr = curr->next`, as often as told
  unfoldable pub walk : ℕ → Option ℕ → Heap Data → Result (Option ℕ)
  walk zero curr h = ok curr
  walk (suc i) curr h = deref curr >>= λ a. walk i (h.next_of a) h

  -- The result is the pointer returned, which is null for an invalid index.
  unfoldable pub get_node_by_index : LinkedList Data → ℤ → Heap Data → Result (Option ℕ)
  unfolding walk
  get_node_by_index l (negsuc n) h = ok none
  get_node_by_index l (pos index) h =
      if leb l.size index then ok none else walk index (h.next_of l.dummy_head) h

  -- The loop of `get_node_by_value`. `equal` on data that were never written is a fault: the dummy
  -- at the end has such data.
  unfoldable pub find_node :
      ℕ → (Data → Data → Bool) → Data → Option ℕ → Heap Data → Result (Option ℕ)
  find_node zero equal target curr h = out_of_fuel
  find_node (suc fuel) equal target none h = ok none
  find_node (suc fuel) equal target (some a) h =
      let rest = find_node fuel equal target (h.next_of a) h in
      deref (h.data_of a) >>= λ d. if equal target d then ok (some a) else rest

  unfoldable pub get_node_by_value : LinkedList Data → Data → Heap Data → Result (Option ℕ)
  get_node_by_value l target h = find_node (h.fresh + 1) l.equal target (h.next_of l.dummy_head) h

  unfoldable pub get_by_index : LinkedList Data → ℤ → Heap Data → Result (Option Data)
  unfolding get_node_by_index
  get_by_index l index h = get_node_by_index l index h >>= λ r. deref r >>= λ a. ok (h.data_of a)

  unfoldable pub get_by_value : LinkedList Data → Data → Heap Data → Result (Option Data)
  unfolding get_node_by_value
  get_by_value l elem h = get_node_by_value l elem h >>= λ r. deref r >>= λ a. ok (h.data_of a)

  unfoldable pub remove_elem :
      Data → LinkedList Data → Heap Data → Result (Option Data × LinkedList Data × Heap Data)
  remove_elem target l h = get_node_by_value l target h >>= λ r. deref r >>= λ node. delete node l h

  unfoldable pub swap : ℕ → ℕ → Heap Data → Heap Data
  swap node1 node2 h =
      let tmp = h.data_of node1 in
      let h₁ = set_data node1 (h.data_of node2) h in set_data node2 tmp h₁
