-- ===== src/A2/State.antt =====
-- a2/pcb.h, a2/pcb.c, a2/interpreter.h and the globals of assignment 2: process control blocks, the
-- shell memory, the ready queue, what is printed, and the files of the host, as one state that the
-- functions pass on.
use mock_os.Prelude.{ℕ, ◌+◌, Bool, false, Option, List, ◌++◌, Text, replicate}
use mock_os.Prelude.Int.{ℤ, negsuc}
use mock_os.Store.{Slot}

-- The sizes that the Makefile passes by `-D`.
pub record Config : Type 0 where
  pub varmemsize : ℕ
  pub framesize : ℕ

-- `SHELL_MEM_LENGTH`
abbrev pub shell_mem_length : Config → ℕ
shell_mem_length cfg = cfg.varmemsize + cfg.framesize

-- `enum Error`
abbrev pub file_does_not_exist : ℕ
file_does_not_exist = 1

abbrev pub file_error : ℕ
file_error = 2

abbrev pub scheduling_error : ℕ
scheduling_error = 4

abbrev pub too_many_tokens : ℕ
too_many_tokens = 5

abbrev pub too_few_tokens : ℕ
too_few_tokens = 6

abbrev pub bad_command : ℕ
bad_command = 8

abbrev pub error_cd : ℕ
error_cd = 9

abbrev pub error_mkdir : ℕ
error_mkdir = 10

-- `PCB`; `-1` in the page table marks a page that is not loaded.
pub record Pcb : Type 0 where
  pub priority : Bool
  pub pid : ℕ
  pub pc : ℤ
  pub start : ℤ
  pub end : ℤ
  pub job_length_score : ℕ
  pub pagetable : List ℤ
  pub num_pages : ℕ
  pub current_page : ℕ
  pub next_page : ℕ
  pub pages_needed : ℕ
  pub lru_timer : List ℕ
  pub filename : Text
  pub pagefault : Bool
  pub line_offset : ℕ

-- One piece of what `printf` prints.
pub data Print : Type 0 where
  text : Text → Print
  int : ℤ → Print

pub record Kernel : Type 0 where
  pub memory : List Slot
  pub queue : List Pcb
  pub pid_counter : ℕ
  pub in_background : Bool
  pub active : Bool
  pub out : List Print
  pub files : Text → Option Text

abbrev pub say : List Print → Kernel → Kernel
say ps k = record k { out = k.out ++ ps }

-- A run ends normally, by `exit`, in something that C leaves undefined, or for want of fuel.
pub data Run (A : Type 0) : Type 0 where
  ok : A → Run A
  exited : Kernel → Run A
  fault : Run A
  out_of_fuel : Run A

infixl 5 ◌>>=◌
abbrev pub ◌>>=◌ : {A B : Type 0} → Run A → (A → Run B) → Run B
ok a >>= f = f a
exited k >>= f = exited k
fault >>= f = fault
out_of_fuel >>= f = out_of_fuel

-- A read out of an array.
abbrev pub demand : {A : Type 0} → Option A → Run A
demand (Option.some a) = ok a
demand Option.none = fault

abbrev pub max_pages : ℕ
max_pages = 50

-- `makePCB` with `generatePID`: `raw` is what stands in the memory that `malloc` returns, which
-- keeps the fields that are not set.
unfoldable pub make_pcb : Pcb → Kernel → Pcb × Kernel
make_pcb raw k = (
  record raw {
    pid = k.pid_counter;
    priority = false;
    pagetable = replicate max_pages (negsuc 0);
    num_pages = 0;
    next_page = 0;
    lru_timer = replicate max_pages 0;
    pagefault = false;
  },
  record k { pid_counter = k.pid_counter + 1 },
)
