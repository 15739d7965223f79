-- ===== src/Tests/Machine.antt =====
-- Runs of the shell of assignment 3, on a host whose files all have the same lines.
use mock_os.A3.LinkedList.{Result, ok}
use mock_os.Prelude.{
  true, false, ◌==◌, if◌then◌else◌, Option, List, ◌≡◌, refl, ℕ, ◌+◌, none, some, [], ◌∷◌, ◌++◌,
  Text, codes, replicate, text_eq,
}
use mock_os.Prelude.Int.{ℤ, pos}
use mock_os.Store.{Slot, free_slot}
use mock_os.Libc.{open_file}
use mock_os.A3.Pcb.{Pcb}
use mock_os.A3.Exec.Leads.{Ensures}
use mock_os.A3.ShellMemory.{Config}
use mock_os.A3.Fs.Io.{Host}
use mock_os.A3.Machine.{Machine, dequeue}
use mock_os.A3.Machine.Live.{IsLive}
use mock_os.A3.Kernel.{new_proc}
use mock_os.A3.Scheduler.{queue_done, free_all, turn, rounds, run_proc_rr}
use mock_os.A3.Guards.Answers.{IsCode}
use mock_os.A3.Exec.{Exec, pure}
use mock_os.A3.Interpreter.{interpreter}
use mock_os.A3.Shell.{parse_line, parse_input}
use mock_os.A3.Shell.Strtok.{IsUsedUp, parse_line-IsUsedUp}
use mock_os.A3.Shell.Answers.{parse_input-IsCode}
use mock_os.Tests.Bitmap.{bits_lib}
use mock_os.Tests.Directories.{system}

abbrev config : Config
config = record { frame_store_size = 18; var_store_size = 10 }

-- A world is a count of the commands that the system was given.
abbrev host : Host ℕ
host = record {
  system = λ command w. w + 1;
  read_file = λ name w. some (codes "set b c" ++ (10 ∷ codes "print b"));
  write_file = λ name bytes w. some w;
  decimal = λ n. replicate n 49;
  atoi = λ t. pos 0;
  ratio = λ a b. [];
  hex_dump = λ o bytes. bytes;
  malloced = λ n. replicate n 0;
  contains = λ t p. text_eq t p;
}

abbrev machine : Machine bits_lib ℕ
machine = record {
  memory = replicate 28 free_slot;
  pcbs = λ a. none;
  fresh = 0;
  queue = [];
  lru_cache = [];
  all_pcb = [];
  pid_counter = 1;
  new_name_count = 1;
  strtok_rest = [];
  io = record { fs = system; out = []; world = 0 };
}

machine-IsLive : IsLive [] machine
machine-IsLive = record { queued = tt; cached = tt; listed = tt; rooted = tt }

-- "set x y;run s;print x"
abbrev line : Text
line = codes "set x y;run s;print x"

parse_input-IsCode_example :
    Ensures (λ r _. IsCode r) (parse_input config host (codes "/h") 20 2 line machine)
parse_input-IsCode_example =
    parse_input-IsCode config host (codes "/h") 20 2 line machine machine-IsLive

-- A process with the two lines of the script, on its own page.
abbrev process : Pcb
process = record {
  pid = 1;
  size = 2;
  program_counter = 0 ∷ [];
  page_table =
      (record {
        index = 0 ∷ 1 ∷ 2 ∷ [];
        valid_bit = true ∷ true ∷ false ∷ [];
        page_index = 0;
        page_pid = 1;
      })
      ∷ [];
  source_file = open_file [];
}

abbrev stored_line : Text → Slot
stored_line t = record { var = codes "1"; value = t }

-- The process is in all the lists.
abbrev started : Machine bits_lib ℕ
started = record machine {
  memory =
      stored_line (codes "set b c")
      ∷ stored_line (codes "print b")
      ∷ stored_line []
      ∷ replicate 25 free_slot;
  pcbs = λ a. (if a == 0 then some process else none);
  fresh = 1;
  queue = 0 ∷ [];
  lru_cache = (0, 0) ∷ [];
  all_pcb = 0 ∷ [];
}

abbrev parse : Text → Exec (Machine bits_lib ℕ) ℤ
parse = parse_input config host [] 20 2

parse_line-IsUsedUp_example :
    Ensures IsUsedUp (parse_line (interpreter config host [] (pure (pos 0))) 5 line machine)
parse_line-IsUsedUp_example =
    parse_line-IsUsedUp (interpreter config host [] (pure (pos 0))) 5 line machine

-- What was printed, and the result.
abbrev shown : Result (ℤ × Machine bits_lib ℕ) → Option (ℤ × List Text)
shown (ok (r, s)) = some (r, s.io.out)
shown _ = none

-- The script prints its variable; behind `run s`, the `print x` of the line is not executed.
run_script : shown (parse_input config host [] 20 2 line machine) ≡ some (pos 0, codes "c" ∷ [])
unfolding mock_os.Libc.strip_line mock_os.Libc.is_alnum mock_os.Libc.read_line mock_os.Libc.fgets
    mock_os.A3.Exec.pure mock_os.A3.Exec.gets mock_os.A3.Exec.demand mock_os.A3.Exec.modify
    mock_os.A3.Exec.◌>>=◌ mock_os.A3.Exec.◌>>◌ mock_os.A3.ShellMemory.mem_free_at
    mock_os.A3.ShellMemory.all_free mock_os.A3.ShellMemory.find_frame mock_os.A3.ShellMemory.mark
    mock_os.A3.ShellMemory.frame_alloc mock_os.A3.ShellMemory.mem_set_value_at
    mock_os.A3.ShellMemory.mem_get_value_at mock_os.A3.ShellMemory.mem_set_value
    mock_os.A3.ShellMemory.mem_get_value mock_os.A3.ShellMemory.clear_slots
    mock_os.A3.ShellMemory.clear_frame mock_os.A3.Pcb.count_ends mock_os.A3.Pcb.count_lines
    mock_os.A3.Pcb.page_table_size mock_os.A3.Pcb.init_pages mock_os.A3.Pcb.load_lines
    mock_os.A3.Pcb.load_page mock_os.A3.Pcb.load_first mock_os.A3.Pcb.pcb_init
    mock_os.A3.Pcb.clear_frames mock_os.A3.Pcb.clear_pages mock_os.A3.Pcb.free_pcb
    mock_os.A3.Pcb.all_three mock_os.A3.Pcb.pcb_done mock_os.A3.Machine.with_memory
    mock_os.A3.Machine.with_io mock_os.A3.Machine.say mock_os.A3.Machine.get_pcb
    mock_os.A3.Machine.put_pcb mock_os.A3.Machine.enqueue mock_os.A3.Machine.touch_page
    mock_os.A3.Machine.dequeue mock_os.A3.Scheduler.next_page mock_os.A3.Kernel.remove_page
    mock_os.A3.Scheduler.queue_done mock_os.A3.Scheduler.free_process mock_os.A3.Scheduler.free_all
    mock_os.A3.Kernel.touch_first mock_os.A3.Kernel.page_used mock_os.A3.Kernel.after_line
    mock_os.A3.Kernel.new_proc mock_os.A3.Scheduler.cpu_run mock_os.A3.Scheduler.run_proc
    mock_os.A3.Scheduler.run_next mock_os.A3.Scheduler.turn mock_os.A3.Scheduler.rounds
    mock_os.A3.Scheduler.run_proc_rr mock_os.A3.Guards.with_word mock_os.A3.Guards.with_name
    mock_os.A3.Guards.with_rest mock_os.A3.Commands.all_alnum mock_os.A3.Commands.is_alpha_num_str
    mock_os.A3.Commands.append_values mock_os.A3.Commands.set mock_os.A3.Commands.set_joined
    mock_os.A3.Commands.set_command mock_os.A3.Commands.print mock_os.A3.Commands.store_script
    mock_os.A3.Commands.clear_store mock_os.A3.Commands.run mock_os.A3.Interpreter.command
    mock_os.A3.Interpreter.interpreter mock_os.A3.Shell.skip_separators mock_os.A3.Shell.cut_token
    mock_os.A3.Shell.strtok mock_os.A3.Shell.skip_spaces mock_os.A3.Shell.cut_words
    mock_os.A3.Shell.split_words mock_os.A3.Shell.strtok_from mock_os.A3.Shell.call_words
    mock_os.A3.Shell.parse_tokens mock_os.A3.Shell.parse_line mock_os.A3.Shell.parse_input
    mock_os.Prelude.text_eq
run_script = refl

-- The processes that are left in the lists, and what was printed.
abbrev left {ℓ} :
    {A : Type ℓ} → Result (A × Machine bits_lib ℕ) → Option (List ℕ × List (ℕ × ℕ) × List Text)
left (ok (r, s)) = some (s.queue, s.lru_cache, s.io.out)
left _ = none

-- The process runs both its lines and is put at the end of the queue; its next turn takes it out.
run_turn :
    (left (turn config host parse 0 started) ≡ some (0 ∷ 0 ∷ [], (0, 0) ∷ [], codes "c" ∷ []))
    × (left (rounds config host parse 3 started) ≡ some ([], (0, 0) ∷ [], codes "c" ∷ []))
    × (left (run_proc_rr config host parse 3 started) ≡ some ([], [], codes "c" ∷ []))
    × (left (new_proc config host (codes "s") started)
        ≡ some (0 ∷ 1 ∷ [], (1, 0) ∷ (0, 0) ∷ [], []))
unfolding mock_os.Libc.strip_line mock_os.Libc.is_alnum mock_os.Libc.read_line mock_os.Libc.fgets
    mock_os.A3.Exec.pure mock_os.A3.Exec.gets mock_os.A3.Exec.demand mock_os.A3.Exec.modify
    mock_os.A3.Exec.◌>>=◌ mock_os.A3.Exec.◌>>◌ mock_os.A3.ShellMemory.mem_free_at
    mock_os.A3.ShellMemory.all_free mock_os.A3.ShellMemory.find_frame mock_os.A3.ShellMemory.mark
    mock_os.A3.ShellMemory.frame_alloc mock_os.A3.ShellMemory.mem_set_value_at
    mock_os.A3.ShellMemory.mem_get_value_at mock_os.A3.ShellMemory.mem_set_value
    mock_os.A3.ShellMemory.mem_get_value mock_os.A3.ShellMemory.clear_slots
    mock_os.A3.ShellMemory.clear_frame mock_os.A3.Pcb.count_ends mock_os.A3.Pcb.count_lines
    mock_os.A3.Pcb.page_table_size mock_os.A3.Pcb.init_pages mock_os.A3.Pcb.load_lines
    mock_os.A3.Pcb.load_page mock_os.A3.Pcb.load_first mock_os.A3.Pcb.pcb_init
    mock_os.A3.Pcb.clear_frames mock_os.A3.Pcb.clear_pages mock_os.A3.Pcb.free_pcb
    mock_os.A3.Pcb.all_three mock_os.A3.Pcb.pcb_done mock_os.A3.Machine.with_memory
    mock_os.A3.Machine.with_io mock_os.A3.Machine.say mock_os.A3.Machine.get_pcb
    mock_os.A3.Machine.put_pcb mock_os.A3.Machine.enqueue mock_os.A3.Machine.touch_page
    mock_os.A3.Machine.dequeue mock_os.A3.Scheduler.next_page mock_os.A3.Kernel.remove_page
    mock_os.A3.Scheduler.queue_done mock_os.A3.Scheduler.free_process mock_os.A3.Scheduler.free_all
    mock_os.A3.Kernel.touch_first mock_os.A3.Kernel.page_used mock_os.A3.Kernel.after_line
    mock_os.A3.Kernel.new_proc mock_os.A3.Scheduler.cpu_run mock_os.A3.Scheduler.run_proc
    mock_os.A3.Scheduler.run_next mock_os.A3.Scheduler.turn mock_os.A3.Scheduler.rounds
    mock_os.A3.Scheduler.run_proc_rr mock_os.A3.Guards.with_word mock_os.A3.Guards.with_name
    mock_os.A3.Guards.with_rest mock_os.A3.Commands.all_alnum mock_os.A3.Commands.is_alpha_num_str
    mock_os.A3.Commands.append_values mock_os.A3.Commands.set mock_os.A3.Commands.set_joined
    mock_os.A3.Commands.set_command mock_os.A3.Commands.print mock_os.A3.Commands.store_script
    mock_os.A3.Commands.clear_store mock_os.A3.Commands.run mock_os.A3.Interpreter.command
    mock_os.A3.Interpreter.interpreter mock_os.A3.Shell.skip_separators mock_os.A3.Shell.cut_token
    mock_os.A3.Shell.strtok mock_os.A3.Shell.skip_spaces mock_os.A3.Shell.cut_words
    mock_os.A3.Shell.split_words mock_os.A3.Shell.strtok_from mock_os.A3.Shell.call_words
    mock_os.A3.Shell.parse_tokens mock_os.A3.Shell.parse_line mock_os.A3.Shell.parse_input
    mock_os.Prelude.text_eq
run_turn = (refl, refl, refl, refl)
