-- ===== src/A3/Commands.antt =====
-- a3/interpreter.c: the commands of the shell. `schedule` runs the processes, as `run_proc_RR` does.
pub mod Answers
use mock_os.Prelude.{
  ℕ, zero, suc, Option, none, some, zero, suc, ◌+◌, ◌*◌, Bool, true, not, ◌&&◌, List, [], ◌∷◌, ◌++◌,
  Text, codes, leb, ltb, ◌==◌, if◌then◌else◌, length, take, replicate, get_elem?,
}
use mock_os.Prelude.Int.{ℤ, pos, negsuc}
use mock_os.Libc.{is_alnum, dollar, space}
use mock_os.A3.Exec.{Exec, pure, gets, demand, crash, modify, ◌>>=◌, ◌>>◌}
use mock_os.A3.ShellMemory.{Config, mem_set_value, mem_get_value}
use mock_os.A3.Fs.DirEntry.{c_string}
use mock_os.A3.Fs.FreeMap.{BitmapLib}
use mock_os.A3.Fs.Io.{Host}
use mock_os.A3.Fs.Util.{
  fsutil_cat, fsutil_rm, fsutil_create, fsutil_write, fsutil_read, fsutil_size, fsutil_seek,
  fsutil_freespace,
}
use mock_os.A3.Fs.Copy.{
  file_does_not_exist, file_creation_error, file_write_error, file_read_error, overlay,
}
use mock_os.A3.Fs.Mount.{filesys_done}
use mock_os.A3.Guards.{non_alphanumeric_token, handle_error}
use mock_os.A3.Machine.{Machine, with_io, say}
use mock_os.A3.Kernel.{new_proc}

unfoldable pub all_alnum : Text → Bool
all_alnum [] = true
all_alnum (c ∷ cs) = is_alnum c && all_alnum cs

-- `isAlphaNumStr`
unfoldable pub is_alpha_num_str : Text → Bool
is_alpha_num_str t = not (length t == 0) && all_alnum t

-- The words of `set` from the third on, joined in a buffer of 505 bytes.
pub data Joined : Type 0 where
  joined : Text → Joined
  not_alnum : Joined
  overflow : Joined

abbrev pub with_space : Text → List Text → Text
with_space t [] = t
with_space t (_ ∷ _) = t ++ (space ∷ [])

unfoldable pub append_values : Text → List Text → Joined
append_values buffer [] = joined buffer
append_values buffer (t ∷ ts) =
    let buffer' = buffer ++ with_space t ts in
    let rest = append_values buffer' ts in
    if is_alpha_num_str t then if leb 505 (length buffer') then overflow else rest else not_alnum

-- The words of `write` and of `find_file`, with a space between each two.
unfoldable pub join_words : List Text → Text
join_words [] = []
join_words (t ∷ ts) = with_space t ts ++ join_words ts

abbrev pub backing_store : Text
backing_store = codes "./backing_store/"

abbrev row : Text → ℕ → Text → Text
row name tabs description = name ++ (replicate tabs 9 ++ (description ++ (10 ∷ 32 ∷ [])))

abbrev pub help_string : Text
help_string =
    row (codes "COMMAND") 3 (codes "DESCRIPTION")
    ++ (row (codes "help") 3 (codes "      Displays all the commands")
        ++ (row (codes "quit") 3 (
              codes "      Exits / terminates the shell with "
              ++ (226 ∷ 128 ∷ 156 ∷ codes "Bye!" ++ (226 ∷ 128 ∷ 157 ∷ [])))
            ++ (row (codes "set VAR STRING") 2 (codes "      Assigns a value to shell memory")
                ++ (row (codes "print VAR") 2 (codes "      Displays the STRING assigned to VAR")
                    ++ (row (codes "echo VAR                     Displays VAR if VAR doesn't ") 0
                          (codes "begin with '$', otherwise displays the value assigned to VAR")
                        ++ (row (codes "ls                        Displays the folders and files ")
                              0
                              (codes
                                "in the current directory in ascending order according to ASCII values ")
                            ++ (row (codes "run SCRIPT.TXT") 2
                                  (codes "      Executes the file SCRIPT.TXT")
                                ++ (row (codes "exec [SCRIPT.TXT]     Executes up to 3 ") 0
                                      (codes "files using the round-robin scheduling policy")
                                    ++ (codes "resetmem                     Deletes the content of "
                                        ++ (codes "the variable store" ++ (10 ∷ [])))))))))))

module _ {lib : BitmapLib} {W : Type 0} where
  unfoldable pub help : Exec (Machine lib W) ℤ
  help = say help_string >> pure (pos 0)

  module _ (cfg : Config) (host : Host W) (cwd : Text) where
    abbrev pub call_system : Text → Exec (Machine lib W) (Unit {0})
    call_system command = with_io (modify (λ s. record s { world = host.system command s.world }))

    -- `snprintf` into `char command[1069]`, and `system`
    abbrev pub call_in_cwd : Text → Text → Exec (Machine lib W) (Unit {0})
    call_in_cwd front back = call_system (take 1068 (front ++ (cwd ++ back)))

    unfoldable pub quit : Exec (Machine lib W) ℤ
    quit = do
      call_in_cwd (codes "rm -rf ") (codes "/backing_store")
      with_io filesys_done
      say (codes "Bye!")
      pure (negsuc 0)

    unfoldable pub set : Text → Text → Exec (Machine lib W) ℤ
    set var value = do
      (if leb 1000 (length var + 1 + length value)
          then crash
          else modify (λ s. record s { memory = mem_set_value cfg var value s.memory }))
      pure (pos 0)

    unfoldable pub set_joined : Text → Joined → Exec (Machine lib W) ℤ
    set_joined var (joined value) = set var value
    set_joined var not_alnum = handle_error non_alphanumeric_token
    set_joined var overflow = crash

    unfoldable pub set_command : Text → List Text → Exec (Machine lib W) ℤ
    set_command var values =
        if is_alpha_num_str var
        then set_joined var (append_values [] values)
        else handle_error non_alphanumeric_token

    unfoldable pub print : Text → Exec (Machine lib W) ℤ
    print var = do value ← gets (λ s. mem_get_value cfg var b'p' s.memory); say value; pure (pos 0)

    unfoldable pub echo_value : Text → Exec (Machine lib W) ℤ
    echo_value t = do value ← gets (λ s. mem_get_value cfg t b'e' s.memory); say value; pure (pos 0)

    unfoldable pub echo : Text → Exec (Machine lib W) ℤ
    echo [] = handle_error non_alphanumeric_token
    echo (c ∷ t) =
        if c == dollar
        then if all_alnum t then echo_value t else handle_error non_alphanumeric_token
        else if is_alpha_num_str (c ∷ t)
        then say (c ∷ t) >> pure (pos 0)
        else handle_error non_alphanumeric_token

    -- A script is copied to the backing store under a name of its own. The buffers have 100 bytes.
    unfoldable pub store_script : Text → Exec (Machine lib W) Text
    store_script name = do
      count ← gets (λ s. s.new_name_count)
      let new_name = backing_store ++ (name ++ replicate count b'a')
      let command = codes "cp ./" ++ (name ++ (space ∷ new_name))
      (if leb 100 (length command) then crash else call_system command)
      modify (λ s. record s { new_name_count = s.new_name_count + 1 })
      pure new_name

    unfoldable pub clear_store : Exec (Machine lib W) (Unit {0})
    clear_store = do
      call_in_cwd (codes "rm -rf ") (codes "/backing_store")
      call_in_cwd (codes "mkdir ") (codes "/backing_store")

    unfoldable pub store_scripts : List Text → Exec (Machine lib W) (List Text)
    store_scripts [] = pure []
    store_scripts (name ∷ names) =
        store_script name >>= λ n. store_scripts names >>= λ ns. pure (n ∷ ns)

    unfoldable pub new_procs : List Text → Exec (Machine lib W) (Unit {0})
    new_procs [] = pure tt
    new_procs (n ∷ ns) = new_proc cfg host n >> new_procs ns

    module _ (schedule : Exec (Machine lib W) ℤ) where
      -- `run` and the command in front of it
      unfoldable pub run : Text → Exec (Machine lib W) ℤ
      run name = do
        script ← store_script name
        new_proc cfg host script
        ret ← schedule
        clear_store
        pure ret

      -- `exec` with the policy "RR", and the command in front of it
      unfoldable pub exec : List Text → Exec (Machine lib W) ℤ
      exec names = do
        scripts ← store_scripts names
        let started : Exec (Machine lib W) ℤ = new_procs scripts >> schedule
        let refused : Exec (Machine lib W) ℤ =
            say (codes "exec can only take between 1 to 3 scripts") >> pure (pos 1)
        ret ← (if ltb 3 (length names) then refused else started)
        clear_store
        pure ret
