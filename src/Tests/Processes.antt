-- ===== src/Tests/Processes.antt =====
-- Runs of the pages of assignment 3.
use mock_os.Prelude.{
  ℕ, ◌+◌, ◌*◌, ◌≤◌, ◌<◌, ◌≡◌, refl, true, some, List, [], ◌∷◌, Text, text_eq, replicate, get_elem?,
  set, ◌==◌, if◌then◌else◌, arith,
}
use mock_os.Libc.{File, fgets, read_line, open_file}
use mock_os.Store.{Slot, free_slot}
use mock_os.A3.ShellMemory.{Config, frame_alloc, find_frame, all_free, mark}
use mock_os.A3.Pcb.{Page, Pcb, page_table_size, load_page, free_pcb}
use mock_os.A3.Pcb.Paging.{Cleared, line_of, page_table_size_lem, free_pcb_clears, load_page_loads}

abbrev config : Config
config = record { frame_store_size = 6; var_store_size = 2 }

abbrev memory : List Slot
memory = replicate 8 free_slot

abbrev decimal : ℕ → Text
decimal n = (48 + n) ∷ []

-- "a", "b" and "c", each with a line end
abbrev script : File
script = open_file (97 ∷ 10 ∷ 98 ∷ 10 ∷ 99 ∷ 10 ∷ [])

abbrev page : Page
page = record {
  index = 0 ∷ 1 ∷ 2 ∷ [];
  valid_bit = true ∷ true ∷ true ∷ [];
  page_index = 0;
  page_pid = 1;
}

abbrev process : Pcb
process = record {
  pid = 1;
  size = 3;
  program_counter = 0 ∷ [];
  page_table = page ∷ [];
  source_file = script;
}

page_table_size_lem_example : (10 ≤ 3 * page_table_size 10) × (3 * page_table_size 10 < 10 + 3)
page_table_size_lem_example = page_table_size_lem 10

free_pcb_clears_example :
    (mem' : List Slot) × (free_pcb process memory ≡ some mem') × Cleared memory 0 5 mem'
free_pcb_clears_example = free_pcb_clears process page 0 memory refl refl (omega arith)

load_page_loads_example :
    (pcb' : Pcb) × (mem' : List Slot) × (load_page config decimal process 0 memory
      ≡ some (0, pcb', mem'))
    × (pcb'.source_file ≡ open_file [])
    × (pcb'.page_table ≡ set (page ∷ []) 0 page)
    × ((j : ℕ)
        → get_elem? mem' j ≡ (
            if 0 == j
            then some (line_of (49 ∷ []) (97 ∷ 10 ∷ []))
            else if 1 == j
            then some (line_of (49 ∷ []) (98 ∷ 10 ∷ []))
            else if 2 == j
            then some (line_of (49 ∷ []) (99 ∷ 10 ∷ []))
            else get_elem? memory j))
unfolding fgets read_line frame_alloc find_frame all_free mark text_eq
load_page_loads_example =
    load_page_loads config decimal process page 0 0 memory _ (97 ∷ 10 ∷ []) (98 ∷ 10 ∷ [])
      (99 ∷ 10 ∷ []) (open_file (98 ∷ 10 ∷ 99 ∷ 10 ∷ [])) (open_file (99 ∷ 10 ∷ [])) (open_file [])
      refl refl (omega arith) refl refl refl
