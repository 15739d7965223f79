-- ===== src/A3/Scheduler.antt =====
-- a3/cpu.c, and the scheduling policies of a3/kernel.c. `parse` is `parseInput`, which a line of a
-- process is given to.
pub mod Live
use mock_os.Prelude.{
  ℕ, zero, suc, ◌+◌, ◌-◌, Bool, true, false, not, Option, none, some, List, [], ◌∷◌, ◌++◌, Text,
  codes, min, length, ltb, ◌==◌, if◌then◌else◌, get_elem?, set,
}
use mock_os.Prelude.Int.{ℤ, pos}
use mock_os.A3.LinkedList.{ok, exited, fault, out_of_fuel}
use mock_os.A3.Exec.{Exec, pure, gets, demand, modify, no_fuel, ◌>>=◌, ◌>>◌}
use mock_os.A3.ShellMemory.{Config, mem_get_value_at}
use mock_os.A3.Pcb.{Page, Pcb, load_page, page_evict, pcb_init, pcb_done, free_pcb}
use mock_os.A3.Fs.FreeMap.{BitmapLib}
use mock_os.A3.Fs.Io.{Host}
use mock_os.A3.Machine.{
  Machine, with_memory, store_pcb, say, get_pcb, put_pcb, enqueue, touch_page, dequeue, pop_victim,
}
use mock_os.A3.Kernel.{page_at, page_fault, page_used, after_line}

-- `proc_done`
unfoldable pub proc_done : ℕ → Bool
proc_done size = not (ltb 0 size)

-- The program counter of a page and the size of the process after a line. A line is run where the
-- size is not 0.
abbrev pub advance : ℕ → Pcb → Pcb
advance i p = record p {
  program_counter = elim (get_elem? p.program_counter i) [
    | none ↦ p.program_counter
    | some n ↦ set p.program_counter i (n + 1)
  ];
  size = p.size - 1;
}

-- The first page whose program counter is not 3, or the number of pages.
unfoldable pub next_page : List ℕ → ℕ
next_page [] = 0
next_page (n ∷ ns) = if n == 3 then suc (next_page ns) else 0

-- The first line, from a page on, whose valid bit is set: its page and its place there.
unfoldable pub first_valid_line : List Bool → Option ℕ
first_valid_line [] = none
first_valid_line (true ∷ bs) = some 0
first_valid_line (false ∷ bs) = elim (first_valid_line bs) [ none ↦ none | some j ↦ some (suc j) ]

unfoldable pub first_valid : List Page → Option (ℕ × ℕ)
first_valid [] = none
first_valid (p ∷ ps) = elim (first_valid_line p.valid_bit) [
  | some j ↦ some (0, j)
  | none ↦ elim (first_valid ps) [ none ↦ none | some (i, j) ↦ some (suc i, j) ]
]

module _ {lib : BitmapLib} {W : Type 0} where
  -- `queue_done`; nothing is a process that was freed.
  unfoldable pub queue_done : Machine lib W → List ℕ → Option Bool
  queue_done s [] = some true
  queue_done s (a ∷ as_) =
      let later = queue_done s as_ in
      elim (s.pcbs a) [ none ↦ none | some p ↦ if pcb_done p then later else some false ]

  -- `free_PCB`
  unfoldable pub free_process : ℕ → Exec (Machine lib W) (Unit {0})
  free_process a = do
    p ← get_pcb a
    memory ← demand (← gets (λ s. free_pcb p s.memory))
    modify (λ s. record s { memory = memory; pcbs = store_pcb s.pcbs a none })

  unfoldable pub free_all : List ℕ → Exec (Machine lib W) (Unit {0})
  free_all [] = pure tt
  free_all (a ∷ as_) = free_process a >> free_all as_

  module _ (cfg : Config) (host : Host W) where
    module _ (parse : Text → Exec (Machine lib W) ℤ) where
      -- `cpu_run` of the line `j` of a page. Its result is 1 for a page fault, and else that of the
      -- command.
      unfoldable pub cpu_run : ℕ → ℕ → ℕ → Exec (Machine lib W) ℤ
      cpu_run a i j = do
        p ← get_pcb a
        page ← demand (get_elem? p.page_table i)
        valid ← demand (get_elem? page.valid_bit j)
        let execute : Exec (Machine lib W) ℤ = do
          slot ← demand (get_elem? page.index j)
          line ← demand (← gets (λ s. mem_get_value_at slot s.memory))
          ret ← parse line
          p' ← get_pcb a
          put_pcb a (advance i p')
          pure ret
        if valid then execute else pure (pos 1)

      -- `run_proc`: true when it returns 1
      unfoldable pub run_proc : ℕ → ℕ → ℕ → Exec (Machine lib W) Bool
      run_proc a i j = do ret ← cpu_run a i j; after_line cfg host a i ret

      -- A line of the process, from the first page that is not done.
      unfoldable pub run_next : ℕ → Exec (Machine lib W) Bool
      run_next a = do
        p ← get_pcb a
        let i = next_page p.program_counter
        j ← demand (get_elem? p.program_counter i)
        run_proc a i j

      -- The body of the loop of `run_proc_RR`, on the process taken from the queue.
      unfoldable pub turn : ℕ → Exec (Machine lib W) (Unit {0})
      turn a = do
        p ← get_pcb a
        let two : Exec (Machine lib W) (Unit {0}) = do
          first ← run_next a
          let rest : Exec (Machine lib W) (Unit {0}) = do
            second ← run_next a
            (if second then pure tt else enqueue a)
          (if first then pure tt else rest)
        let one : Exec (Machine lib W) (Unit {0}) = run_next a >> pure tt
        (if ltb 1 p.size then two else if p.size == 1 then one else pure tt)

      -- The `while` of `run_proc_RR`
      unfoldable pub rounds : ℕ → Exec (Machine lib W) (Unit {0})
      rounds zero = no_fuel
      rounds (suc fuel) = do
        done ← demand (← gets (λ s. queue_done s s.queue))
        let more : Exec (Machine lib W) (Unit {0}) = dequeue >>= λ a. turn a >> rounds fuel
        if done then pure tt else more

      unfoldable pub run_proc_rr : ℕ → Exec (Machine lib W) ℤ
      run_proc_rr fuel = do
        rounds fuel
        all ← gets (λ s. s.all_pcb)
        free_all all
        modify (λ s. record s { queue = []; lru_cache = []; all_pcb = [] })
        pure (pos 0)

      -- The inner `while` of `run_proc_FIFO`: the first line of the process that is valid.
      unfoldable pub run_whole : ℕ → ℕ → Exec (Machine lib W) (Unit {0})
      run_whole zero a = no_fuel
      run_whole (suc fuel) a = do
        p ← get_pcb a
        let more : Exec (Machine lib W) (Unit {0}) =
            demand (first_valid p.page_table) >>= λ q. run_proc a q.0 q.1 >> run_whole fuel a
        if proc_done p.size then pure tt else more

      unfoldable pub run_proc_fifo : ℕ → ℕ → Exec (Machine lib W) ℤ
      run_proc_fifo lines zero = no_fuel
      run_proc_fifo lines (suc fuel) = do
        queue ← gets (λ s. s.queue)
        let more : Exec (Machine lib W) ℤ = do
          a ← dequeue
          run_whole lines a
          free_process a
          run_proc_fifo lines fuel
        if length queue == 0 then pure (pos 0) else more
