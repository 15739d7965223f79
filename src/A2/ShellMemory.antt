-- ===== src/A2/ShellMemory.antt =====
-- a2/shellmemory.c: variables below `varmemsize`, and frames of three lines from there on.
use mock_os.Prelude.{
  ℕ, zero, suc, ◌+◌, ◌-◌, ◌*◌, ◌/◌, ◌%◌, Option, none, some, List, [], ◌∷◌, ◌++◌, Text, codes,
  text_eq, ltb, ◌==◌, if◌then◌else◌, length, get_elem?, set, take, drop,
}
use mock_os.Prelude.Int.{ℤ, pos, negsuc}
use mock_os.Libc.{File, fgets, open_file}
use mock_os.Store.{Slot, free_slot, none_text, store_set, store_get, reset}
use mock_os.A2.State.{
  Config, shell_mem_length, Pcb, text, int, Kernel, say, Run, ok, fault, out_of_fuel, ◌>>=◌,
}

module _ (cfg : Config) where
  unfoldable pub mem_init : List Slot → List Slot
  unfolding reset
  mem_init mem = reset mem

  unfoldable pub resetvarmem : List Slot → List Slot
  unfolding reset
  resetvarmem mem = reset (take cfg.varmemsize mem) ++ drop cfg.varmemsize mem

  -- Both loops run below `varmemsize`.
  unfoldable pub mem_set_value : Text → Text → List Slot → List Slot
  unfolding store_set
  mem_set_value var value mem =
      store_set var value (take cfg.varmemsize mem) ++ drop cfg.varmemsize mem

  -- The loop runs over the whole memory; NULL is `none`.
  unfoldable pub mem_get_value : Text → List Slot → Option Text
  unfolding store_get
  mem_get_value var mem = store_get var mem

  -- What a read by line gives: a text, NULL, or a read past the end of the array.
  unfoldable pub mem_get_value_at_line : ℤ → List Slot → Run (Option Text)
  mem_get_value_at_line (negsuc i) mem = ok none
  mem_get_value_at_line (pos i) mem =
      if ltb (shell_mem_length cfg) i
      then ok none
      else (elim (get_elem? mem i) [ none ↦ fault | some s ↦ ok (some s.value) ])

  -- The loop of `mem_free_lines_frame`, for `n` lines from `start`.
  unfoldable pub free_lines : ℕ → ℕ → List Slot → Run (List Slot)
  free_lines zero start mem = ok mem
  free_lines (suc n) start mem =
      if ltb start (length mem) then free_lines n (start + 1) (set mem start free_slot) else fault

  -- The loop of `get_victim`: the first index with the least time below `min`.
  unfoldable pub victim_loop : List ℕ → ℕ → ℕ → ℕ → ℕ
  victim_loop [] i min victim = victim
  victim_loop (t ∷ ts) i min victim =
      victim_loop ts (i + 1) (if ltb t min then t else min) (if ltb t min then i else victim)

  unfoldable pub get_victim : Pcb → Run ℕ
  unfolding victim_loop
  get_victim pcb =
      if ltb (length pcb.lru_timer) pcb.num_pages
      then fault
      else ok (victim_loop (take pcb.num_pages pcb.lru_timer) 0 1000 0)

  -- The first loop of `find_free_frame`: `i += 3` below the end of the memory.
  unfoldable pub free_frame_loop : ℕ → ℕ → List Slot → Option ℕ
  free_frame_loop zero i mem = none
  free_frame_loop (suc fuel) i mem =
      let rest = free_frame_loop fuel (i + 3) mem in
      if ltb i (shell_mem_length cfg)
      then (elim (get_elem? mem i) [
        | none ↦ none
        | some s ↦ if text_eq s.var none_text then some i else rest
      ])
      else none

  -- The lines of the victim, as they are printed.
  unfoldable pub print_victim : ℕ → ℕ → Kernel → Run Kernel
  unfolding mem_get_value_at_line
  print_victim zero i k = ok k
  print_victim (suc n) i k = mem_get_value_at_line (pos i) k.memory >>= λ l. (elim l [
    | none ↦ fault
    | some t ↦ print_victim n (i + 1) (
        say (text (codes "i: ") ∷ int (pos i) ∷ (if text_eq t none_text then [] else text t ∷ []))
          k)
  ])

  unfoldable pub find_free_frame : Pcb → Kernel → Run (ℕ × Pcb × Kernel)
  unfolding free_frame_loop get_victim print_victim free_lines
  find_free_frame pcb k = elim (free_frame_loop (cfg.framesize + 1) cfg.varmemsize k.memory) [
    | some index ↦ ok (index, pcb, k)
    | none ↦ get_victim pcb >>= λ victim.
        (let index = cfg.varmemsize + victim * 3 in
          print_victim 3 index (say (text (codes "Page fault! Victim page contents:") ∷ []) k)
          >>= λ k'.
              (let k'' = say (text (codes "End of victim page contents.") ∷ []) k' in
                free_lines 3 index k''.memory >>= λ mem. ok (
                  index,
                  record pcb { lru_timer = set pcb.lru_timer victim 0 },
                  record k'' { memory = mem },
                )))
  ]

  -- The `for` of `load_page`: at most three lines from `index` on. At the end of the file it stops.
  unfoldable pub load_lines : ℕ → ℕ → Text → File → List Slot → Run (File × List Slot)
  load_lines zero index filename fp mem = ok (fp, mem)
  load_lines (suc n) index filename fp mem =
      let got = fgets 100 fp in
      (elim got.0 [
        | none ↦ ok (got.1, mem)
        | some line ↦
            if ltb index (length mem)
            then load_lines n (index + 1) filename got.1
                (set mem index (record { var = filename; value = line }))
            else fault
      ])

  -- `load_page`. The counts of pages and lines that it starts with are not used. A read that gives
  -- nothing has met the end of the file, so that error 21 does not arise.
  unfoldable pub load_page : File → Text → Pcb → Kernel → Run (File × Pcb × Kernel)
  unfolding find_free_frame load_lines
  load_page fp filename pcb k = find_free_frame pcb k >>= λ r.
      load_lines 3 r.0 filename fp (r.2).memory >>= λ l.
      (let frame_number = (r.0 - cfg.varmemsize) / 3 + 1 in
        if ltb (r.1).current_page (length (r.1).pagetable)
        then ok (
          l.0,
          record (r.1) {
            pagetable = set (r.1).pagetable (r.1).current_page (pos frame_number);
            num_pages = (r.1).num_pages + 1;
          },
          record (r.2) { memory = l.1 },
        )
        else fault)

-- `countLines`: the loop reads up to 99 characters a round until the end-of-file flag is set.
unfoldable pub count_lines_loop : ℕ → File → ℕ → Run ℕ
count_lines_loop zero f total = out_of_fuel
count_lines_loop (suc fuel) f total =
    let rest = count_lines_loop fuel (fgets 100 f).1 (total + 1) in if f.eof then ok total else rest

unfoldable pub count_lines : Text → Run ℕ
unfolding count_lines_loop
count_lines t = count_lines_loop (length t + 2) (open_file t) 0

unfoldable pub count_pages : Text → Run ℕ
unfolding count_lines
count_pages t = count_lines t >>= λ total. ok (if total % 3 == 0 then total / 3 else total / 3 + 1)
