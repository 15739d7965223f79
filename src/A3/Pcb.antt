-- ===== src/A3/Pcb.antt =====
-- a3/pcb.h and a3/pcb.c: processes and their pages of three lines. A page that is in the frame store
-- knows the slot of each of its lines. The script of a process is read on where the last page ended.
pub mod Paging
pub mod Lines
use mock_os.Prelude.{
  ℕ, zero, suc, ◌+◌, ◌/◌, ◌%◌, Bool, true, false, not, ◌&&◌, Option, none, some, List, [], ◌∷◌,
  ◌++◌, Text, min, length, get_elem?, set, replicate, ◌==◌, if◌then◌else◌,
}
use mock_os.Libc.{File, open_file, fgets, newline}
use mock_os.Store.{Slot}
use mock_os.A3.ShellMemory.{
  Config, frame_alloc, mem_set_value_at, mem_get_value_at, mem_free_at, clear_frame,
}
use mock_os.A3.LinkedList.{Result, ok, exited, fault}

-- `struct PAGE`
pub record Page : Type 0 where
  pub index : List ℕ
  pub valid_bit : List Bool
  pub page_index : ℕ
  pub page_pid : ℕ

-- `struct PCB`
pub record Pcb : Type 0 where
  pub pid : ℕ
  pub size : ℕ
  pub program_counter : List ℕ
  pub page_table : List Page
  pub source_file : File

infixl 5 ◌>>=◌
abbrev pub ◌>>=◌ {ℓ κ} : {A : Type ℓ} {B : Type κ} → Option A → (A → Option B) → Option B
none >>= f = none
some a >>= f = f a

-- The loop of `count_lines`: line ends behind something other than a line end.
unfoldable pub count_ends : ℕ → Text → ℕ
count_ends last [] = 0
count_ends last (c ∷ cs) =
    let rest = count_ends c cs in if (c == newline) && not (last == newline) then suc rest else rest

unfoldable pub count_lines : Text → ℕ
count_lines t = count_ends newline t + 1

unfoldable pub page_table_size : ℕ → ℕ
page_table_size lines = if lines % 3 == 0 then lines / 3 else lines / 3 + 1

unfoldable pub page_init : ℕ → ℕ → Page
page_init page_pid page_table_index = record {
  index = replicate 3 1000;
  valid_bit = replicate 3 false;
  page_index = page_table_index;
  page_pid = page_pid;
}

-- The pages of a new process, `n` of them from an index on.
unfoldable pub init_pages : ℕ → ℕ → ℕ → List Page
init_pages pid zero i = []
init_pages pid (suc n) i = page_init pid i ∷ init_pages pid n (i + 1)

-- The loop of `load_PAGE` over the lines of a page, `n` of them from the line `j` on; `pid` is the
-- number of the process in decimals. Nothing is an access outside an array.
unfoldable pub load_lines :
    ℕ → ℕ → Text → Page → File → List Slot → Option (Page × File × List Slot)
load_lines zero j pid page f mem = some (page, f, mem)
load_lines (suc n) j pid page f mem =
    let (line, f') = fgets 999 f in
    elim line [
      | none ↦ some (page, f', mem)
      | some text ↦ get_elem? page.index j >>= λ slot.
          mem_set_value_at slot pid text mem >>= λ mem'.
          load_lines n (j + 1) pid (record page { valid_bit = set page.valid_bit j true }) f' mem'
    ]

-- What `frame_alloc` stores in a page.
abbrev pub placed : ℕ → Page → Page
placed i page = record page {
  index = i ∷ (i + 1) ∷ (i + 2) ∷ [];
  valid_bit = false ∷ false ∷ false ∷ [];
}

-- `load_PAGE`: its result, the process and the memory. `decimal` is `sprintf` with "%d".
unfoldable pub load_page : Config → (ℕ → Text) → Pcb → ℕ → List Slot → Option (ℕ × Pcb × List Slot)
load_page cfg decimal pcb page_index mem = get_elem? pcb.page_table page_index >>= λ page.
    elim (frame_alloc cfg (decimal pcb.pid) mem) [
      | none ↦ some (1, pcb, mem)
      | some (i, mem₁) ↦
          load_lines 3 0 (decimal pcb.pid) (placed i page) pcb.source_file mem₁ >>= λ r.
          some (
            0,
            record pcb { page_table = set pcb.page_table page_index r.0; source_file = r.1 },
            r.2,
          )
    ]

-- The loop of `PCB_init` that loads the first pages; the code is that of `load_PAGE`, but for the end
-- when no frame is free.
unfoldable pub load_first : Config → (ℕ → Text) → ℕ → ℕ → Pcb → List Slot → Result (Pcb × List Slot)
load_first cfg decimal zero i pcb mem = ok (pcb, mem)
load_first cfg decimal (suc n) i pcb mem = elim (load_page cfg decimal pcb i mem) [
  | none ↦ fault
  | some (zero, pcb', mem') ↦ load_first cfg decimal n (i + 1) pcb' mem'
  | some (suc failed, pcb', mem') ↦ exited 99
]

-- `PCB_init`, with the content of the script, which may be missing.
unfoldable pub pcb_init :
    Config → (ℕ → Text) → ℕ → Option Text → List Slot → Result (Pcb × List Slot)
pcb_init cfg decimal pid none mem = exited 99
pcb_init cfg decimal pid (some script) mem =
    let size = count_lines script in
    let n = page_table_size size in
    let pcb : Pcb = record {
      pid = pid;
      size = size;
      program_counter = replicate n 0;
      page_table = init_pages pid n 0;
      source_file = open_file script;
    } in
    load_first cfg decimal (min 2 n) 0 pcb mem

-- The loop of `PAGE_evict` over the lines of a page, with what it prints.
unfoldable pub evict_lines : ℕ → ℕ → Page → List Slot → Option (Page × List Slot × List Text)
evict_lines zero j page mem = some (page, mem, [])
evict_lines (suc n) j page mem = get_elem? page.index j >>= λ slot.
    mem_get_value_at slot mem >>= λ value. mem_free_at slot mem >>= λ mem'.
    evict_lines n (j + 1)
      (record page { index = set page.index j 0; valid_bit = set page.valid_bit j false }) mem'
    >>= λ r. some (r.0, r.1, value ∷ r.2)

unfoldable pub page_evict : Pcb → ℕ → List Slot → Option (Pcb × List Slot × List Text)
page_evict pcb page_index mem = get_elem? pcb.page_table page_index >>= λ page.
    evict_lines 3 0 page mem >>= λ r.
    some (record pcb { page_table = set pcb.page_table page_index r.0 }, r.1, r.2)

-- The loops of `free_PCB`: a frame is cleared from each slot of each page on.
unfoldable pub clear_frames : List ℕ → List Slot → Option (List Slot)
clear_frames [] mem = some mem
clear_frames (i ∷ is) mem = clear_frame i mem >>= λ mem'. clear_frames is mem'

unfoldable pub clear_pages : List Page → List Slot → Option (List Slot)
clear_pages [] mem = some mem
clear_pages (p ∷ ps) mem = clear_frames p.index mem >>= λ mem'. clear_pages ps mem'

unfoldable pub free_pcb : Pcb → List Slot → Option (List Slot)
free_pcb pcb mem = clear_pages pcb.page_table mem

unfoldable pub all_three : List ℕ → Bool
all_three [] = true
all_three (n ∷ ns) = (n == 3) && all_three ns

-- `PCB_done`
unfoldable pub pcb_done : Pcb → Bool
pcb_done pcb = all_three pcb.program_counter

unfoldable pub pcb_equal : Pcb → Pcb → Bool
pcb_equal p q = p.pid == q.pid

unfoldable pub page_equal : Page → Page → Option Bool
page_equal p q = get_elem? p.index 0 >>= λ i. get_elem? q.index 0 >>= λ j. some (i == j)
