-- ===== src/Tests/A2.antt =====
-- Runs of the second assignment's code.
use mathlib.Core.List.{Perm}
use mock_os.Prelude.{ℕ, ◌≡◌, refl, true, false, none, some, [], ◌∷◌, codes, arith}
use mock_os.A2.Shell.{parse_line}
use mock_os.A2.Shell.Hang.{parse_line_hangs}
use mock_os.Prelude.Int.{pos}
use mock_os.A2.State.{Pcb, Kernel, ok, out_of_fuel}
use mock_os.A2.ReadyQueue.{swap_needed, sort_ready_queue, ready_queue_pop_shortest_job}
use mock_os.A2.ReadyQueue.Sorting.{bubble, sort_ready_queue-bubble, pop_shortest_job_misses}

abbrev job : ℕ → ℕ → Pcb
job pid score = record {
  priority = false;
  pid = pid;
  filename = codes "prog";
  pagefault = false;
  line_offset = 0;
  pc = pos 0;
  start = pos 0;
  end = pos 2;
  job_length_score = score;
  pagetable = [];
  num_pages = 1;
  current_page = 0;
  next_page = 1;
  pages_needed = 1;
  lru_timer = [];
}

sort_ready_queue-bubble_example :
    (sort_ready_queue (job 1 3 ∷ job 2 1 ∷ job 3 2 ∷ []) ≡ ok (job 2 1 ∷ job 3 2 ∷ job 1 3 ∷ []))
    × Perm (job 2 1 ∷ job 3 2 ∷ job 1 3 ∷ []) (job 1 3 ∷ job 2 1 ∷ job 3 2 ∷ [])
unfolding bubble swap_needed
sort_ready_queue-bubble_example = sort_ready_queue-bubble (job 1 3) (job 2 1 ∷ job 3 2 ∷ [])

pop_shortest_job_misses_example :
    ready_queue_pop_shortest_job (job 1 3 ∷ job 2 2 ∷ job 3 1 ∷ [])
    ≡ ok (some (job 2 2), job 3 1 ∷ job 1 3 ∷ [])
pop_shortest_job_misses_example =
    pop_shortest_job_misses (job 1 3) (job 2 2) (job 3 1) refl refl (omega arith) (omega arith)

abbrev kernel : Kernel
kernel = record {
  memory = [];
  queue = [];
  pid_counter = 1;
  in_background = false;
  active = true;
  out = [];
  files = λ f. none;
}

-- `help ;` is read for ever, whatever the commands do.
parse_line_hangs_example :
    parse_line (λ ws v k. ok (some (pos 0), k)) 1000 (codes "help ;") kernel ≡ out_of_fuel
parse_line_hangs_example =
    parse_line_hangs (λ ws v k. ok (some (pos 0), k)) 1000 104 (codes "elp") [] kernel
      (refl, (refl, (refl, (refl, tt)))) (omega arith)
