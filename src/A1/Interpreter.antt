-- ===== src/A1/Interpreter.antt =====
-- a1/interpreter.c: the commands. `host` is the system underneath: `system("ls")`, `mkdir`, `chdir`
-- and the files. What a command prints is the end of the list `out`. A command returns its error
-- code, `none` where the C function returns no value, or ends the process, or does what C leaves
-- undefined.
pub mod Variables
use mock_os.Prelude.{
  ℕ, zero, suc, ◌+◌, Bool, true, false, ◌&&◌, not, Option, none, some, List, [], ◌∷◌, ◌++◌, map,
  Text, codes, text_eq, leb, ltb, ◌==◌, if◌then◌else◌, length,
}
use mock_os.Libc.{strip_line, first_char, dollar, space, File, open_file, fgets}
use mock_os.Store.{Slot}
use mock_os.A1.Shell.{Split, split, overflow, parse_words}
use mock_os.A1.ShellMemory.{mem_set_value, mem_get_value, missing_text}

abbrev pub max_args_size : ℕ
max_args_size = 7

pub record Host (W : Type 0) : Type 0 where
  pub list_dir : W → W
  pub make_dir : Text → W → W
  pub create_file : Text → W → Option W
  pub change_dir : Text → W → Option W
  pub read_file : Text → W → Option Text

pub record Shell (W : Type 0) : Type 0 where
  pub memory : List Slot
  pub out : List Text
  pub world : W

pub data Outcome (W : Type 0) : Type 0 where
  returned : Option ℕ → Shell W → Outcome W
  exited : ℕ → Shell W → Outcome W
  undefined : Outcome W
  out_of_fuel : Outcome W

abbrev pub name_too_long : Text
name_too_long = codes "Name of directory or file is longer than 100 characters"

-- The words of a `set` command from the third on, joined in `char input[500]`.
unfoldable pub join_tokens : Text → List Text → Text
join_tokens t [] = t
join_tokens t (u ∷ us) = t ++ (space ∷ join_tokens u us)

abbrev pub input_size : ℕ
input_size = 500

-- The table that `help` prints: a newline and a space between the lines, and tabs in them.
abbrev tab : ℕ
tab = 9

abbrev row : Text → List ℕ → Text → Text
row name tabs description = name ++ (tabs ++ (description ++ (10 ∷ 32 ∷ [])))

abbrev pub help_string : Text
help_string =
    row (codes "COMMAND") (tab ∷ tab ∷ tab ∷ []) (codes "DESCRIPTION")
    ++ (row (codes "help") (tab ∷ tab ∷ tab ∷ []) (codes "Displays all the commands")
        ++ (row (codes "quit") (tab ∷ tab ∷ tab ∷ []) (
              codes "Exits / terminates the shell with "
              ++ (226 ∷ 128 ∷ 156 ∷ codes "Bye!" ++ (226 ∷ 128 ∷ 157 ∷ [])))
            ++ (row (codes "set VAR STRING") (tab ∷ tab ∷ [])
                  (codes "Assigns a value to shell memory")
                ++ (row (codes "print VAR") (tab ∷ tab ∷ [])
                      (codes "Displays the STRING assigned to VAR")
                    ++ row (codes "run SCRIPT.TXT") (tab ∷ tab ∷ [])
                        (codes "Executes the file SCRIPT.TXT")))))

module _ {W : Type 0} where
  -- `printf`
  abbrev pub say : Text → Shell W → Shell W
  say t s = record s { out = s.out ++ (t ∷ []) }

  unfoldable pub badcommand : Shell W → Outcome W
  badcommand s = returned (some 1) (say (codes "Unknown Command") s)

  unfoldable pub bad_command_file_does_not_exist : Shell W → Outcome W
  bad_command_file_does_not_exist s =
      returned (some 3) (say (codes "Bad command: File not found") s)

  unfoldable pub badcommand_set : Shell W → Outcome W
  badcommand_set s = returned (some 3) (say (codes "Bad command: set") s)

  unfoldable pub badcommand_cd : Shell W → Outcome W
  badcommand_cd s = returned (some 3) (say (codes "Bad command: my_cd") s)

  unfoldable pub badcommand_cat : Shell W → Outcome W
  badcommand_cat s = returned (some 3) (say (codes "Bad command: my_cat") s)

  unfoldable pub help : Shell W → Outcome W
  help s = returned (some 0) (say help_string s)

  unfoldable pub quit : Shell W → Outcome W
  quit s = exited 0 (say (codes "Bye!") s)

  unfoldable pub set : Text → Text → Shell W → Outcome W
  unfolding mem_set_value
  set var value s = returned (some 0) (record s { memory = mem_set_value var value s.memory })

  unfoldable pub print : Text → Shell W → Outcome W
  unfolding mem_get_value
  print var s = returned (some 0) (say (mem_get_value var s.memory) s)

  -- `echo` has no `return`. A name behind a dollar sign is looked up.
  unfoldable pub echo : Text → Shell W → Outcome W
  unfolding mem_get_value
  echo [] s = returned none (say [] s)
  echo (c ∷ input) s =
      if leb (length (c ∷ input)) 100
      then if c == dollar
        then (let var = mem_get_value input s.memory in
            returned none (say (if text_eq var missing_text then codes " " else var) s))
        else returned none (say (c ∷ input) s)
      else returned none (say (codes "Input string is too long (>100 characters)") s)

  unfoldable pub set_command : List Text → Shell W → Outcome W
  unfolding badcommand_set set join_tokens
  set_command [] s = badcommand_set s
  set_command (var ∷ []) s = badcommand_set s
  set_command (var ∷ token ∷ tokens) s =
      if ltb max_args_size (length tokens + 3)
      then badcommand_set s
      else (let input = join_tokens token tokens in
          if ltb (length input) input_size then set var input s else undefined)

  module _ (host : Host W) where
    abbrev pub my_ls : Shell W → Outcome W
    my_ls s = returned (some 0) (record s { world = host.list_dir s.world })

    abbrev pub my_mkdir : Text → Shell W → Outcome W
    my_mkdir dirname s = returned (some 0) (
        if leb (length dirname) 100
        then record s { world = host.make_dir dirname s.world }
        else say name_too_long s)

    -- A file that cannot be opened is closed all the same, which is undefined.
    abbrev pub my_touch : Text → Shell W → Outcome W
    my_touch filename s =
        if leb (length filename) 100
        then (elim (host.create_file filename s.world) [
          | some w ↦ returned (some 0) (record s { world = w })
          | none ↦ undefined
        ])
        else returned (some 0) (say name_too_long s)

    abbrev pub my_cd : Text → Shell W → Outcome W
    my_cd dirname s = returned (some 0) (
        if leb (length dirname) 100
        then (elim (host.change_dir dirname s.world) [
          | some w ↦ record s { world = w }
          | none ↦ say (codes "Bad command: my_cd") s
        ])
        else say name_too_long s)

    -- The character that stands for the end of the file is printed too.
    abbrev pub my_cat : Text → Shell W → Outcome W
    my_cat filename s = returned (some 0) (
        if leb (length filename) 100
        then (elim (host.read_file filename s.world) [
          | some t ↦ say (t ++ (255 ∷ [])) s
          | none ↦ say (codes "Bad command: my_cat") s
        ])
        else say name_too_long s)

    module _ (parse_input : Text → Shell W → Outcome W) where
      -- The `while (1)` of `run`. Where `fgets` gives nothing the line is all zeros.
      unfoldable pub run_loop : ℕ → Text → File → Shell W → Outcome W
      run_loop zero line p s = out_of_fuel
      run_loop (suc fuel) line p s = elim (parse_input line s) [
        | returned code s' ↦
            let next = fgets 999 p in
            let rest = run_loop fuel (elim next.0 [ some l ↦ l | none ↦ [] ]) next.1 s' in
            if p.eof then returned code s' else rest
        | exited code s' ↦ exited code s'
        | undefined ↦ undefined
        | out_of_fuel ↦ out_of_fuel
      ]

      -- The buffer is not initialised, so that an empty script runs what happens to stand there.
      unfoldable pub run : Text → Shell W → Outcome W
      unfolding run_loop bad_command_file_does_not_exist
      run script s = elim (host.read_file script s.world) [
        | none ↦ bad_command_file_does_not_exist s
        | some text ↦
            let first = fgets 999 (open_file text) in
            (elim first.0 [
              | none ↦ undefined
              | some line ↦ run_loop (length text + 2) line first.1 s
            ])
      ]

      -- The command after its words are stripped: its name, and the other words.
      unfoldable pub command : Text → List Text → Shell W → Outcome W
      unfolding badcommand badcommand_set badcommand_cd badcommand_cat help quit set_command print
          echo run bad_command_file_does_not_exist
      command name args s =
          if text_eq name (codes "help")
          then (elim args [ [] ↦ help s | _ ∷ _ ↦ badcommand s ])
          else if text_eq name (codes "quit")
          then (elim args [ [] ↦ quit s | _ ∷ _ ↦ badcommand s ])
          else if text_eq name (codes "set")
          then set_command args s
          else if text_eq name (codes "print")
          then (elim args [ a ∷ [] ↦ print a s | _ ↦ badcommand s ])
          else if text_eq name (codes "run")
          then (elim args [ a ∷ [] ↦ run a s | _ ↦ bad_command_file_does_not_exist s ])
          else if text_eq name (codes "echo")
          then (elim args [ a ∷ [] ↦ echo a s | _ ↦ badcommand s ])
          else if text_eq name (codes "my_ls")
          then (elim args [ [] ↦ my_ls s | _ ∷ _ ↦ badcommand s ])
          else if text_eq name (codes "my_mkdir")
          then (elim args [ a ∷ [] ↦ my_mkdir a s | _ ↦ badcommand s ])
          else if text_eq name (codes "my_touch")
          then (elim args [ a ∷ [] ↦ my_touch a s | _ ↦ badcommand s ])
          else if text_eq name (codes "my_cd")
          then (elim args [ a ∷ [] ↦ my_cd a s | _ ↦ badcommand_cd s ])
          else if text_eq name (codes "my_cat")
          then (elim args [ a ∷ [] ↦ my_cat a s | _ ↦ badcommand_cat s ])
          else badcommand s

      -- The guards compare the name before the words are stripped.
      unfoldable pub interpreter : List Text → Shell W → Outcome W
      unfolding badcommand strip_line command
      interpreter [] s = badcommand s
      interpreter (name ∷ args) s =
          if ltb max_args_size (length args + 1) && not (text_eq name (codes "set"))
          then badcommand s
          else command (strip_line name) (map strip_line args) s

    -- `parseInput`, which `run` calls again for each line of a script: `depth` bounds how deep
    -- scripts run one another.
    unfoldable pub parse_input : ℕ → Text → Shell W → Outcome W
    unfolding parse_words interpreter
    parse_input zero ui s = out_of_fuel
    parse_input (suc depth) ui s = elim (parse_words ui) [
      | split words ↦ interpreter (parse_input depth) words s
      | overflow ↦ undefined
      | Split.out_of_fuel ↦ out_of_fuel
    ]
