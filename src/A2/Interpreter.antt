-- ===== src/A2/Interpreter.antt =====
-- a2/interpreter.c: the commands. `host` is the system underneath, which sees and changes the files.
-- `malloced` is what stands in memory that `malloc` returns. An error code is `none` where the C
-- function returns no value.
use mock_os.Prelude.{
  ℕ, ◌+◌, Bool, false, not, ◌||◌, Option, none, some, List, [], ◌∷◌, ◌++◌, map, Text, codes,
  text_eq, leb, ltb, ◌==◌, if◌then◌else◌, length, get_elem?,
}
use mock_os.Prelude.Int.{ℤ, pos}
use mock_os.Libc.{strip_line, dollar, space}
use mock_os.A1.Interpreter.{help_string}
use mock_os.A2.State.{
  Config, Pcb, text, Kernel, say, Run, ok, exited, fault, ◌>>=◌, demand, too_many_tokens,
  too_few_tokens, bad_command, error_cd, error_mkdir,
}
use mock_os.A2.ShellMemory.{mem_set_value, mem_get_value, resetvarmem}
use mock_os.A2.Kernel.{process_initialize, schedule_by_policy}

abbrev pub Files : Type 0
Files = Text → Option Text

pub record Host : Type 0 where
  pub system : Text → Files → ℤ × Files
  pub is_dir : Text → Files → Bool
  pub change_dir : Text → Files → ℤ × Files

abbrev pub max_args_size : ℕ
max_args_size = 7

abbrev error_msgs : List Text
error_msgs =
    codes "no error"
    ∷ codes "file does not exist"
    ∷ codes "file could not be loaded"
    ∷ codes "no space left in shell memory"
    ∷ codes "ready queue is full"
    ∷ codes "scheduling policy error"
    ∷ codes "too many tokens"
    ∷ codes "too few tokens"
    ∷ codes "non-alphanumeric token"
    ∷ codes "unknown name"
    ∷ codes "cd"
    ∷ codes "mkdir"
    ∷ []

-- An error code and the state behind a command.
abbrev pub Reply : Type 0
Reply = Run (Option ℤ × Kernel)

unfoldable pub handle_error : ℕ → Kernel → Reply
handle_error e k = demand (get_elem? error_msgs e) >>= λ m.
    ok (some (pos e), say (text (codes "Bad command: ") ∷ text m ∷ []) k)

abbrev pub done : Kernel → Reply
done k = ok (some (pos 0), k)

-- `system` and the status that it returns.
abbrev pub call_system : Host → Text → Kernel → Reply
call_system host command k =
    let r = host.system command k.files in ok (some r.0, record k { files = r.1 })

-- The words from the third on, with a space between each two.
unfoldable pub join_value : List Text → Text
join_value [] = []
join_value (t ∷ []) = t
join_value (t ∷ u ∷ us) = t ++ (space ∷ join_value (u ∷ us))

-- `char buffer[1000]` of `set`, which holds the variable, a `=` and the value
abbrev pub buffer_size : ℕ
buffer_size = 1000

unfoldable pub contains_space : Text → Bool
contains_space [] = false
contains_space (c ∷ t) = c == space || contains_space t

-- `char c = fgetc(src)` takes the character 255 for the end of the file.
unfoldable pub until_eof : Text → Text
until_eof [] = []
until_eof (c ∷ t) = if c == 255 then [] else c ∷ until_eof t

abbrev pub store_path : Text → Text
store_path filename = codes "./backing_store/" ++ filename

-- `char path1[50]`
abbrev pub path_size : ℕ
path_size = 50

-- `copy_file_back`: the path of the copy.
unfoldable pub copy_file_back : Text → Kernel → Run (Text × Kernel)
unfolding until_eof
copy_file_back filename k =
    let path = store_path filename in
    if leb path_size (length path) then fault else (elim (k.files filename) [
      | none ↦ fault
      | some t ↦
          ok (
            path,
            record k { files = λ f. if text_eq f path then some (until_eof t) else k.files f },
          )
    ])

module _ (cfg : Config) (host : Host) (malloced : Pcb) where
  unfoldable pub set : Text → Text → Kernel → Reply
  unfolding mem_set_value
  set var value k =
      if ltb (length var + 1 + length value) buffer_size
      then done (record k { memory = mem_set_value cfg var value k.memory })
      else fault

  unfoldable pub print : Text → Kernel → Reply
  unfolding mem_get_value
  print var k =
      done
        (say (text (elim (mem_get_value cfg var k.memory) [ some v ↦ v | none ↦ 10 ∷ [] ]) ∷ []) k)

  -- The argument of a command that does not count its words is null where there is none.
  unfoldable pub echo : Option Text → Kernel → Reply
  unfolding print
  echo none k = fault
  echo (some []) k = done (say (text [] ∷ []) k)
  echo (some (c ∷ var)) k = if c == dollar then print var k else done (say (text (c ∷ var) ∷ []) k)

  unfoldable pub my_mkdir : Option Text → Kernel → Reply
  unfolding handle_error mem_get_value contains_space
  my_mkdir none k = fault
  my_mkdir (some []) k = call_system host (codes "mkdir ") k
  my_mkdir (some (c ∷ name)) k =
      if c == dollar
      then (elim (mem_get_value cfg name k.memory) [
        | none ↦ handle_error error_mkdir k
        | some value ↦
            if contains_space value
            then handle_error error_mkdir k
            else call_system host (codes "mkdir " ++ value) k
      ])
      else call_system host (codes "mkdir " ++ (c ∷ name)) k

  unfoldable pub my_touch : Option Text → Kernel → Reply
  my_touch none k = fault
  my_touch (some filename) k = call_system host (codes "touch " ++ filename) k

  unfoldable pub my_cd : Option Text → Kernel → Reply
  unfolding handle_error
  my_cd none k = fault
  my_cd (some dirname) k =
      if host.is_dir dirname k.files
      then (let r = host.change_dir dirname k.files in ok (some r.0, record k { files = r.1 }))
      else handle_error error_cd k

  unfoldable pub quit : Kernel → Reply
  quit k =
      let k' = say (text (codes "Bye!") ∷ []) k in
      exited (record k' { files = (host.system (codes "rm -rf ./backing_store") k.files).1 })

  unfoldable pub resetmem : Kernel → Reply
  unfolding resetvarmem
  resetmem k = done (record k { memory = resetvarmem cfg k.memory })

  module _ (fuel : ℕ) (parse : Text → Kernel → Run Kernel) where
    -- The error code that `run` looks for is 11, which is not the one of a missing file.
    unfoldable pub run : Text → Kernel → Reply
    unfolding process_initialize handle_error schedule_by_policy
    run script k = process_initialize cfg malloced script k >>= λ r.
        if r.0 == 11
        then handle_error r.0 r.1
        else (schedule_by_policy cfg parse fuel (codes "FCFS") r.1 >>= λ s.
            ok (some (pos (r.0)), s.1))

    -- The scripts of `exec` one after the other: the error code of the first that fails.
    unfoldable pub load_scripts : List Text → Kernel → Run (ℕ × Kernel)
    unfolding copy_file_back process_initialize
    load_scripts [] k = ok (0, k)
    load_scripts (f ∷ fs) k = copy_file_back f k >>= λ c.
        process_initialize cfg malloced c.0 c.1 >>= λ r.
        if r.0 == 0 then load_scripts fs r.1 else ok r

    -- At its end `exec` has no `return`.
    unfoldable pub exec : List Text → Kernel → Reply
    unfolding load_scripts handle_error schedule_by_policy
    exec scripts k = load_scripts scripts k >>= λ r.
        if not (r.0 == 0)
        then handle_error r.0 r.1
        else (schedule_by_policy cfg parse fuel (codes "RR") r.1 >>= λ s.
            if not (s.0 == 0) then handle_error s.0 s.1 else ok (none, s.1))

    -- A command with its words stripped; `beyond` is `command_args[1]` of a command without
    -- arguments.
    unfoldable pub command : Text → List Text → Option Text → Kernel → Reply
    unfolding handle_error quit set join_value print run echo my_mkdir my_touch my_cd exec resetmem
    command name args beyond k =
        if text_eq name (codes "help")
        then (elim args [
          | [] ↦ done (say (text help_string ∷ []) k)
          | _ ∷ _ ↦ handle_error too_many_tokens k
        ])
        else if text_eq name (codes "quit") || text_eq name (codes "exit")
        then (elim args [ [] ↦ quit k | _ ∷ _ ↦ handle_error too_many_tokens k ])
        else if text_eq name (codes "set")
        then (elim args [
          | var ∷ t ∷ ts ↦ set var (join_value (t ∷ ts)) k
          | _ ↦ handle_error too_few_tokens k
        ])
        else if text_eq name (codes "print")
        then (elim args [
          | [] ↦ handle_error too_few_tokens k
          | a ∷ [] ↦ print a k
          | _ ∷ _ ∷ _ ↦ handle_error too_many_tokens k
        ])
        else if text_eq name (codes "run")
        then (elim args [
          | [] ↦ handle_error too_few_tokens k
          | a ∷ [] ↦ run a k
          | _ ∷ _ ∷ _ ↦ handle_error too_many_tokens k
        ])
        else if text_eq name (codes "echo")
        then (elim args [
          | [] ↦ echo beyond k
          | a ∷ [] ↦ echo (some a) k
          | _ ∷ _ ∷ _ ↦ handle_error too_many_tokens k
        ])
        else if text_eq name (codes "my_ls")
        then (elim args [
          | [] ↦ call_system host (codes "ls | sort") k
          | _ ∷ _ ↦ handle_error too_many_tokens k
        ])
        else if text_eq name (codes "my_mkdir")
        then (elim args [
          | [] ↦ my_mkdir beyond k
          | a ∷ [] ↦ my_mkdir (some a) k
          | _ ∷ _ ∷ _ ↦ handle_error too_many_tokens k
        ])
        else if text_eq name (codes "my_touch")
        then (elim args [
          | [] ↦ my_touch beyond k
          | a ∷ [] ↦ my_touch (some a) k
          | _ ∷ _ ∷ _ ↦ handle_error too_many_tokens k
        ])
        else if text_eq name (codes "my_cd")
        then (elim args [
          | [] ↦ my_cd beyond k
          | a ∷ [] ↦ my_cd (some a) k
          | _ ∷ _ ∷ _ ↦ handle_error too_many_tokens k
        ])
        else if text_eq name (codes "exec")
        then (elim args [
          | [] ↦ handle_error too_few_tokens k
          | a ∷ [] ↦ exec (a ∷ []) k
          | a ∷ b ∷ [] ↦ exec (a ∷ b ∷ []) k
          | a ∷ b ∷ c ∷ [] ↦ exec (a ∷ b ∷ c ∷ []) k
          | a ∷ b ∷ c ∷ d ∷ [] ↦ handle_error bad_command k
          | _ ∷ _ ∷ _ ∷ _ ∷ _ ∷ _ ↦ handle_error too_many_tokens k
        ])
        else if text_eq name (codes "resetmem")
        then (elim args [ [] ↦ resetmem k | _ ∷ _ ↦ handle_error too_many_tokens k ])
        else handle_error bad_command k

    unfoldable pub interpreter : List Text → Option Text → Kernel → Reply
    unfolding handle_error command strip_line
    interpreter [] beyond k = handle_error too_few_tokens k
    interpreter (name ∷ args) beyond k =
        if ltb max_args_size (length args + 1)
        then handle_error too_many_tokens k
        else command (strip_line name) (map strip_line args) beyond k
