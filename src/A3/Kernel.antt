-- ===== src/A3/Kernel.antt =====
-- a3/kernel.c: processes are made, and a page fault gets a page, with the LRU list.
pub mod Live
use mock_os.Prelude.{
  ℕ, zero, suc, ◌+◌, ◌-◌, Bool, true, false, not, Option, none, some, List, [], ◌∷◌, ◌++◌, Text,
  codes, min, length, ltb, ◌==◌, if◌then◌else◌, get_elem?, set,
}
use mock_os.Prelude.Int.{ℤ, pos}
use mock_os.A3.LinkedList.{ok, exited, fault, out_of_fuel}
use mock_os.A3.Exec.{Exec, pure, gets, demand, modify, no_fuel, ◌>>=◌, ◌>>◌}
use mock_os.A3.ShellMemory.{Config, mem_get_value_at}
use mock_os.A3.Pcb.{Page, Pcb, load_page, page_evict, pcb_init, pcb_done, free_pcb}
use mock_os.A3.Fs.FreeMap.{BitmapLib}
use mock_os.A3.Fs.Io.{Host}
use mock_os.A3.Machine.{
  Machine, with_memory, store_pcb, say, get_pcb, put_pcb, enqueue, touch_page, dequeue, pop_victim,
}

abbrev pub keep_page : ℕ × ℕ → Option ((ℕ × ℕ) × List (ℕ × ℕ)) → Option ((ℕ × ℕ) × List (ℕ × ℕ))
keep_page q none = none
keep_page q (some (r, rest)) = some (r, q ∷ rest)

module _ {lib : BitmapLib} {W : Type 0} where
  abbrev pub page_at : ℕ × ℕ → Machine lib W → Option Page
  page_at (a, i) s = elim (s.pcbs a) [ none ↦ none | some p ↦ get_elem? p.page_table i ]

  abbrev pub first_slot : ℕ × ℕ → Machine lib W → Option ℕ
  first_slot q s = elim (page_at q s) [ none ↦ none | some p ↦ get_elem? p.index 0 ]

  -- `remove_elem` of a page from the LRU list, which compares the first slots by `PAGE_equal`: the
  -- page found, and the rest. A page that is freed, or none found, is a fault.
  unfoldable pub remove_page : Machine lib W → ℕ → List (ℕ × ℕ) → Option ((ℕ × ℕ) × List (ℕ × ℕ))
  remove_page s slot [] = none
  remove_page s slot (q ∷ qs) =
      let later = keep_page q (remove_page s slot qs) in
      elim (first_slot q s) [ none ↦ none | some i ↦ if slot == i then some (q, qs) else later ]

  -- The walk over `ALL_PCB` for a process id. It does not find the end of the list, where it reads
  -- data that were never written.
  unfoldable pub find_pid : Machine lib W → ℕ → List ℕ → Option ℕ
  find_pid s pid [] = none
  find_pid s pid (a ∷ as_) =
      let later = find_pid s pid as_ in
      elim (s.pcbs a) [ none ↦ none | some p ↦ if p.pid == pid then some a else later ]

  unfoldable pub kernel_setup : Machine lib W → Machine lib W
  kernel_setup s = record s { queue = []; lru_cache = []; all_pcb = [] }

  -- What `PAGE_evict` prints of the lines.
  unfoldable pub print_all : List Text → Exec (Machine lib W) (Unit {0})
  print_all [] = pure tt
  print_all (t ∷ ts) = say t >> print_all ts

  -- The first pages of a new process, `n` of them from `i` on, go to the head of the LRU list.
  unfoldable pub touch_first : ℕ → ℕ → ℕ → Exec (Machine lib W) (Unit {0})
  touch_first a zero i = pure tt
  touch_first a (suc n) i = touch_page (a, i) >> touch_first a n (i + 1)

  module _ (cfg : Config) (host : Host W) where
    -- `load_PAGE`, with its result
    unfoldable pub load : ℕ → ℕ → Exec (Machine lib W) ℕ
    load a i = do
      p ← get_pcb a
      r ← demand (← gets (λ s. load_page cfg host.decimal p i s.memory))
      modify (λ s. record s { memory = r.2; pcbs = store_pcb s.pcbs a (some r.1) })
      pure r.0

    -- `PAGE_evict`, with what it prints
    unfoldable pub evict : ℕ → ℕ → Exec (Machine lib W) (Unit {0})
    evict a i = do
      p ← get_pcb a
      r ← demand (← gets (λ s. page_evict p i s.memory))
      modify (λ s. record s { memory = r.1; pcbs = store_pcb s.pcbs a (some r.0) })
      say (codes "Page fault! Victim page contents:")
      print_all r.2
      say (codes "End of victim page contents.")

    -- The end of a page fault without a free frame: the page that was used the longest ago goes.
    unfoldable pub replace_page : ℕ → ℕ → Exec (Machine lib W) (Unit {0})
    replace_page a i = do
      victim ← pop_victim
      page ← demand (← gets (page_at victim))
      owner ← demand (← gets (λ s. find_pid s page.page_pid s.all_pcb))
      evict owner page.page_index
      load a i
      pure tt

    -- The rest of `run_proc` after a page fault, and after a line that was run
    unfoldable pub page_fault : ℕ → ℕ → Exec (Machine lib W) Bool
    page_fault a i = do
      failed ← load a i
      (if failed == 1 then replace_page a i else pure tt)
      touch_page (a, i)
      enqueue a
      pure true

    unfoldable pub page_used : ℕ → ℕ → Exec (Machine lib W) Bool
    page_used a i = do
      slot ← demand (← gets (first_slot (a, i)))
      r ← demand (← gets (λ s. remove_page s slot s.lru_cache))
      modify (λ s. record s { lru_cache = r.0 ∷ r.1 })
      pure false

    unfoldable pub after_line : ℕ → ℕ → ℤ → Exec (Machine lib W) Bool
    after_line a i (pos (suc zero)) = page_fault a i
    after_line a i _ = page_used a i

    unfoldable pub new_proc : Text → Exec (Machine lib W) ℕ
    new_proc script = do
      pid ← gets (λ s. s.pid_counter)
      modify (λ s. record s { pid_counter = s.pid_counter + 1 })
      content ← gets (λ s. host.read_file script s.io.world)
      p ← with_memory (pcb_init cfg host.decimal pid content)
      a ← gets (λ s. s.fresh)
      modify (λ s. record s {
        fresh = s.fresh + 1;
        pcbs = store_pcb s.pcbs a (some p);
        all_pcb = s.all_pcb ++ (a ∷ []);
      })
      enqueue a
      touch_first a (min 2 (length p.page_table)) 0
      pure 0
