-- ===== src/A3/Machine.antt =====
-- The state of assignment 3: the shell memory, the processes with the queues of a3/kernel.c, the rest
-- of the line that `strtok` keeps, and the file system with the screen and the host. A pointer to a
-- process is an address, and one to a page an address and an index; what was freed is not there any
-- more. The three linked lists are the sequences of their data: A3/LinkedList shows that add_tail,
-- add_head, pop_head, pop_tail and remove_elem act on those as they do here.
pub mod Live
pub mod Actions
use mock_os.Prelude.{ℕ, Option, none, some, List, [], ◌∷◌, ◌++◌, Text, ◌==◌, if◌then◌else◌}
use mock_os.A3.LinkedList.{Result, ok, exited, fault, out_of_fuel}
use mock_os.A3.Exec.{Exec, modify}
use mock_os.Store.{Slot}
use mock_os.A3.Pcb.{Pcb}
use mock_os.A3.Fs.FreeMap.{BitmapLib}
use mock_os.A3.Fs.Io.{Io}
use mock_os.A3.Fs.Io as IoState

pub record Machine (lib : BitmapLib) (W : Type 0) : Type 0 where
  pub memory : List Slot
  pub pcbs : ℕ → Option Pcb
  pub fresh : ℕ
  pub queue : List ℕ
  pub lru_cache : List (ℕ × ℕ)
  pub all_pcb : List ℕ
  pub pid_counter : ℕ
  pub new_name_count : ℕ
  pub strtok_rest : Text
  pub io : Io lib W

abbrev pub store_pcb : (ℕ → Option Pcb) → ℕ → Option Pcb → ℕ → Option Pcb
store_pcb f a v k = if k == a then v else f k

-- All but the last element, and the last one.
abbrev pub pop_last {ℓ} : {A : Type ℓ} → List A → Option (List A × A)
pop_last [] = none
pop_last (x ∷ xs) = elim (pop_last xs) [ none ↦ some ([], x) | some (ys, y) ↦ some (x ∷ ys, y) ]

module _ {lib : BitmapLib} {W : Type 0} where
  -- An action of the utilities.
  abbrev pub store_io :
      {A : Type 0} → Machine lib W → Result (A × Io lib W) → Result (A × Machine lib W)
  store_io s (ok (a, io')) = ok (a, record s { io = io' })
  store_io s (exited n) = exited n
  store_io s fault = fault
  store_io s out_of_fuel = out_of_fuel

  -- What works on the shell memory and may end the program.
  abbrev pub store_memory :
      {A : Type 0} → Machine lib W → Result (A × List Slot) → Result (A × Machine lib W)
  store_memory s (ok (a, memory)) = ok (a, record s { memory = memory })
  store_memory s (exited n) = exited n
  store_memory s fault = fault
  store_memory s out_of_fuel = out_of_fuel

  unfoldable pub with_memory :
      {A : Type 0} → (List Slot → Result (A × List Slot)) → Exec (Machine lib W) A
  with_memory f s = store_memory s (f s.memory)

  unfoldable pub with_io : {A : Type 0} → Exec (Io lib W) A → Exec (Machine lib W) A
  with_io m s = store_io s (m s.io)

  unfoldable pub say : Text → Exec (Machine lib W) (Unit {0})
  say t = with_io (IoState.print t)

  unfoldable pub get_pcb : ℕ → Exec (Machine lib W) Pcb
  get_pcb a s = elim (s.pcbs a) [ none ↦ fault | some p ↦ ok (p, s) ]

  unfoldable pub put_pcb : ℕ → Pcb → Exec (Machine lib W) (Unit {0})
  put_pcb a p = modify (λ s. record s { pcbs = store_pcb s.pcbs a (some p) })

  -- `add_tail` to the ready queue, and `add_head` to the LRU list
  unfoldable pub enqueue : ℕ → Exec (Machine lib W) (Unit {0})
  enqueue a = modify (λ s. record s { queue = s.queue ++ (a ∷ []) })

  unfoldable pub touch_page : ℕ × ℕ → Exec (Machine lib W) (Unit {0})
  touch_page page = modify (λ s. record s { lru_cache = page ∷ s.lru_cache })

  -- `pop_head` of the queue, and `pop_tail` of the LRU list; an empty list is `exit(99)`
  unfoldable pub dequeue : Exec (Machine lib W) ℕ
  dequeue s = elim s.queue [ [] ↦ exited 99 | a ∷ rest ↦ ok (a, record s { queue = rest }) ]

  unfoldable pub pop_victim : Exec (Machine lib W) (ℕ × ℕ)
  pop_victim s = elim (pop_last s.lru_cache) [
    | none ↦ exited 99
    | some (rest, page) ↦ ok (page, record s { lru_cache = rest })
  ]
