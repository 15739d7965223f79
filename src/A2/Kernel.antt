-- ===== src/A2/Kernel.antt =====
-- a2/kernel.c: loading, running and scheduling scripts. `parse` is `parseInput`, which the running of
-- a line calls back with the whole state.
use mock_os.Prelude.{
  ℕ, zero, suc, ◌+◌, ◌*◌, Bool, true, false, not, ◌||◌, Option, none, some, List, [], ◌∷◌, ◌++◌,
  Text, codes, text_eq, ltb, ◌==◌, if◌then◌else◌, get_elem?, set,
}
use mock_os.Prelude.Int.{ℤ, pos, negsuc, ◌+ℤ◌, ◌-ℤ◌, ◌*ℤ◌, ltb_ℤ}
use mock_os.Libc.{File, fgets, open_file}
use mock_os.Store.{none_text}
use mock_os.A2.State.{
  Config, Pcb, text, int, Kernel, say, Run, ok, fault, out_of_fuel, ◌>>=◌, demand, make_pcb,
  file_does_not_exist, scheduling_error,
}
use mock_os.A2.ShellMemory.{load_page, mem_get_value_at_line, count_pages}
use mock_os.A2.ReadyQueue.{
  ready_queue_add_to_tail, ready_queue_add_to_head, ready_queue_pop_head,
  ready_queue_pop_shortest_job, ready_queue_decrement_job_length_score, sort_ready_queue,
  ready_queue_get_shortest_job_score, ready_queue_promote, max_int,
}

-- `pcb->pagetable[pcb->current_page]`
abbrev pub current_frame : Pcb → Run ℤ
current_frame pcb = demand (get_elem? pcb.pagetable pcb.current_page)

-- `== -1`
abbrev pub frame_is_missing : ℤ → Bool
frame_is_missing (negsuc n) = n == 0
frame_is_missing (pos n) = false

module _ (cfg : Config) where
  abbrev pub frame_start : ℤ → ℤ
  frame_start frame = pos cfg.varmemsize +ℤ (frame -ℤ pos 1) *ℤ pos 3

  unfoldable pub find_pc : Pcb → Run ℤ
  unfolding ◌+ℤ◌ ◌-ℤ◌ ◌*ℤ◌
  find_pc pcb = current_frame pcb >>= λ frame. ok (frame_start frame)

  -- The loop that loads the first two pages, for `n` pages more.
  unfoldable pub load_first : ℕ → File → Text → Pcb → Kernel → Run (Pcb × Kernel)
  unfolding load_page
  load_first zero fp filename pcb k = ok (pcb, k)
  load_first (suc n) fp filename pcb k =
      if fp.eof
      then ok (pcb, k)
      else (load_page cfg fp filename pcb k >>= λ r.
          load_first n r.0 filename (record (r.1) { current_page = (r.1).current_page + 1 }) r.2)

  -- `raw` is what `malloc` returns for the new block.
  unfoldable pub process_initialize : Pcb → Text → Kernel → Run (ℕ × Kernel)
  unfolding count_pages make_pcb load_first find_pc ready_queue_add_to_tail
  process_initialize raw filename k = elim (k.files filename) [
    | none ↦ ok (file_does_not_exist, k)
    | some content ↦ count_pages content >>= λ maxpages.
        (let made = make_pcb raw k in
          load_first 2 (open_file content) filename (record (made.0) { current_page = 0 }) made.1
          >>= λ r.
              (let pcb : Pcb = record (r.0) { current_page = 0; filename = filename } in
                find_pc pcb >>= λ pc. ok (
                  0,
                  record (r.1) {
                    queue =
                        ready_queue_add_to_tail (record pcb { pc = pc; pages_needed = maxpages })
                          (r.1).queue;
                  },
                )))
  ]

  -- The loop that skips the lines of the pages before.
  unfoldable pub skip_lines : ℕ → File → File
  skip_lines zero fp = fp
  skip_lines (suc n) fp =
      let got = fgets 100 fp in (elim got.0 [ none ↦ got.1 | some l ↦ skip_lines n got.1 ])

  -- A file that is gone is read through a null pointer.
  unfoldable pub handle_page_fault : Pcb → Kernel → Run Kernel
  unfolding skip_lines load_page find_pc ready_queue_add_to_tail
  handle_page_fault pcb k = elim (k.files pcb.filename) [
    | none ↦ fault
    | some content ↦
        load_page cfg (skip_lines (pcb.current_page * 3) (open_file content)) pcb.filename pcb k
        >>= λ r. find_pc r.1 >>= λ pc. ok (record (r.2) {
          queue = ready_queue_add_to_tail (record (r.1) { pc = pc }) (r.2).queue;
        })
  ]

  module _ (parse : Text → Kernel → Run Kernel) where
    -- A line of the memory is run, unless it is free. NULL goes to `strcmp`.
    unfoldable pub run_line : Option Text → Kernel → Run Kernel
    run_line none k = fault
    run_line (some line) k = if text_eq line none_text then ok k else parse line k

    -- What a process does when its program counter has left the frame: it prints, goes to the next
    -- page and ends, faults or goes on. The result is `true` for the first two.
    unfoldable pub leave_frame : Option Text → Pcb → Kernel → Run (Bool × Pcb × Kernel)
    unfolding run_line handle_page_fault find_pc
    leave_frame line pcb k =
        (let next : Pcb = record pcb { current_page = pcb.current_page + 1 } in
          current_frame next >>= λ frame. find_pc next >>= λ start.
          (let next' : Pcb = record next { end = start +ℤ pos 2 } in
            let k' =
              say
                (text (codes "process: ")
                  ∷ int (pos pcb.pid)
                  ∷ text (codes "page before: ")
                  ∷ int (pos pcb.current_page)
                  ∷ text (codes "page after: ")
                  ∷ int (pos next.current_page)
                  ∷ text (codes "frame at current: ")
                  ∷ int frame
                  ∷ [])
                k in
            if ltb next'.pages_needed (next'.current_page + 1)
            then (run_line line k' >>= λ k''.
                ok (true, next', record k'' { in_background = false }))
            else if frame_is_missing frame
            then (run_line line k' >>= λ k''.
                handle_page_fault next' k'' >>= λ k3. ok (true, next', k3))
            else (run_line line k' >>= λ k''.
                ok (false, next', record k'' { in_background = false }))))

    -- The loop of `execute_process`, for `quanta` instructions more.
    unfoldable pub execute_process : ℕ → Pcb → Kernel → Run (Bool × Pcb × Kernel)
    unfolding leave_frame mem_get_value_at_line run_line ◌+ℤ◌ ◌-ℤ◌ ◌*ℤ◌
    execute_process zero pcb k = ok (false, pcb, k)
    execute_process (suc quanta) pcb k = current_frame pcb >>= λ frame.
        demand (get_elem? pcb.lru_timer pcb.current_page) >>= λ time.
        mem_get_value_at_line cfg pcb.pc k.memory >>= λ line.
        (let pcb' : Pcb = record pcb {
          start = frame_start frame;
          end = frame_start frame +ℤ pos 2;
          lru_timer = set pcb.lru_timer pcb.current_page (time + 1);
          pc = pcb.pc +ℤ pos 1;
          priority = false;
        } in
          let k' : Kernel = record k { in_background = true } in
          (if ltb_ℤ pcb'.end pcb'.pc
            then leave_frame line pcb' k'
            else (run_line line k' >>= λ k''.
                ok (false, pcb', record k'' { in_background = false })))
          >>= λ r. (elim (r.0) [ true ↦ ok r | false ↦ execute_process quanta r.1 r.2 ]))

    -- The schedulers run until the queue is empty; `active` is never set, and would make an empty
    -- queue an endless loop. Each round takes one unit of fuel.
    unfoldable pub scheduler_fcfs : ℕ → Kernel → Run Kernel
    unfolding execute_process ready_queue_pop_head
    scheduler_fcfs zero k = out_of_fuel
    scheduler_fcfs (suc fuel) k =
        let popped = ready_queue_pop_head k.queue in
        (elim (popped.0) [
          | none ↦ if k.active then out_of_fuel else ok k
          | some cur ↦ execute_process max_int cur (record k { queue = popped.1 }) >>= λ r.
              scheduler_fcfs fuel r.2
        ])

    unfoldable pub scheduler_sjf : ℕ → Kernel → Run Kernel
    unfolding execute_process ready_queue_pop_shortest_job
    scheduler_sjf zero k = out_of_fuel
    scheduler_sjf (suc fuel) k = ready_queue_pop_shortest_job k.queue >>= λ popped.
        (elim (popped.0) [
          | none ↦ if k.active then out_of_fuel else ok k
          | some cur ↦ execute_process max_int cur (record k { queue = popped.1 }) >>= λ r.
              scheduler_sjf fuel r.2
        ])

    -- One round of `scheduler_AGING` behind its `ready_queue_pop_head`: the block to run next, and
    -- the queue, with the scores lowered.
    unfoldable pub aging_pick : Pcb → List Pcb → Run (Pcb × List Pcb)
    unfolding ready_queue_get_shortest_job_score ready_queue_promote ready_queue_add_to_tail
        ready_queue_pop_head ready_queue_decrement_job_length_score
    aging_pick cur qs =
        (let shortest = ready_queue_get_shortest_job_score qs in
          if ltb shortest cur.job_length_score
          then (ready_queue_promote shortest qs >>= λ qs'.
              (let popped = ready_queue_pop_head (ready_queue_add_to_tail cur qs') in
                demand popped.0 >>= λ next.
                ok (next, ready_queue_decrement_job_length_score popped.1)))
          else ok (cur, ready_queue_decrement_job_length_score qs))

    unfoldable pub aging_loop : ℕ → Kernel → Run Kernel
    unfolding aging_pick execute_process ready_queue_add_to_head ready_queue_pop_head
    aging_loop zero k = out_of_fuel
    aging_loop (suc fuel) k =
        let popped = ready_queue_pop_head k.queue in
        (elim (popped.0) [
          | none ↦ if k.active then out_of_fuel else ok k
          | some first ↦ aging_pick first popped.1 >>= λ picked.
              execute_process 1 picked.0 (record k { queue = picked.1 }) >>= λ r. aging_loop fuel (
                if r.0
                then r.2
                else record (r.2) { queue = ready_queue_add_to_head r.1 (r.2).queue })
        ])

    unfoldable pub scheduler_aging : ℕ → Kernel → Run Kernel
    unfolding sort_ready_queue aging_loop
    scheduler_aging fuel k =
        sort_ready_queue k.queue >>= λ qs. aging_loop fuel (record k { queue = qs })

    -- What `scheduler_RR` does with a process that has used its quantum.
    unfoldable pub requeue : Pcb → Kernel → Run Kernel
    unfolding ready_queue_add_to_tail
    requeue pcb k = demand (get_elem? pcb.lru_timer pcb.current_page) >>= λ time. ok (record k {
      queue = ready_queue_add_to_tail pcb k.queue;
      out =
          k.out
          ++ (text (codes "current page: ")
              ∷ int (pos pcb.current_page)
              ∷ text (codes "access: ")
              ∷ int (pos time)
              ∷ []);
    })

    unfoldable pub scheduler_rr : ℕ → ℕ → Kernel → Run Kernel
    unfolding execute_process ready_queue_pop_head requeue
    scheduler_rr zero quanta k = out_of_fuel
    scheduler_rr (suc fuel) quanta k =
        let popped = ready_queue_pop_head k.queue in
        (elim (popped.0) [
          | none ↦ if k.active then out_of_fuel else ok k
          | some cur ↦ execute_process quanta cur (record k { queue = popped.1 }) >>= λ r.
              (elim (r.0) [
                | true ↦ scheduler_rr fuel quanta r.2
                | false ↦ requeue r.1 r.2 >>= λ k'. scheduler_rr fuel quanta k'
              ])
        ])

    unfoldable pub schedule_by_policy : ℕ → Text → Kernel → Run (ℕ × Kernel)
    unfolding scheduler_fcfs scheduler_sjf scheduler_rr scheduler_aging
    schedule_by_policy fuel policy k =
        if not (
          text_eq policy (codes "FCFS")
          || (text_eq policy (codes "SJF")
              || (text_eq policy (codes "RR")
                  || (text_eq policy (codes "AGING") || text_eq policy (codes "RR30")))))
        then ok (scheduling_error, k)
        else if k.active || k.in_background
        then ok (0, k)
        else ((if text_eq policy (codes "FCFS")
              then scheduler_fcfs fuel k
              else if text_eq policy (codes "SJF")
              then scheduler_sjf fuel k
              else if text_eq policy (codes "RR")
              then scheduler_rr fuel 2 k
              else if text_eq policy (codes "AGING")
              then scheduler_aging fuel k
              else scheduler_rr fuel 30 k)
            >>= λ k'. ok (0, k'))
