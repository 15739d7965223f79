-- ===== src/A3/Interpreter.antt =====
-- a3/interpreter.c: `interpreter` picks the command by its name, and checks the number of words.
use mock_os.Prelude.{◌||◌, List, [], ◌∷◌, map, Text, codes, text_eq, ltb, if◌then◌else◌, length}
use mock_os.Prelude.Int.{ℤ, pos}
use mock_os.Libc.{strip_line}
use mock_os.A3.Exec.{Exec, pure, crash, modify, ◌>>◌}
use mock_os.A3.ShellMemory.{Config, reset_var_zone}
use mock_os.A3.Fs.FreeMap.{BitmapLib}
use mock_os.A3.Fs.Io.{Host}
use mock_os.A3.Machine.{Machine}
use mock_os.A3.Guards.{
  too_many_tokens, too_few_tokens, handle_error, without_words, with_word, with_name, with_rest,
}
use mock_os.A3.Commands.{help, quit, set_command, print, echo, run, exec}
use mock_os.A3.FileCommands.{file_command}

module _ {lib : BitmapLib} {W : Type 0} where
  module _ (cfg : Config) (host : Host W) (cwd : Text) (schedule : Exec (Machine lib W) ℤ) where
    -- `echo` does not see that its word is missing, and reads one that was never written.
    unfoldable pub echo_word : List Text → Exec (Machine lib W) ℤ
    echo_word [] = crash
    echo_word (t ∷ ts) = with_word (t ∷ ts) (echo cfg host cwd)

    unfoldable pub exec_scripts : List Text → Exec (Machine lib W) ℤ
    exec_scripts [] = handle_error too_few_tokens
    exec_scripts (t ∷ ts) =
        if ltb 4 (length (t ∷ ts))
        then handle_error too_many_tokens
        else exec cfg host cwd schedule (t ∷ ts)

    abbrev pub reset_memory : Exec (Machine lib W) ℤ
    reset_memory = modify (λ s. record s { memory = reset_var_zone cfg s.memory }) >> pure (pos 0)

    unfoldable pub command : Text → List Text → Exec (Machine lib W) ℤ
    command name args =
        if text_eq name (codes "help")
        then without_words args help
        else if text_eq name (codes "quit") || text_eq name (codes "exit")
        then without_words args (quit cfg host cwd)
        else if text_eq name (codes "set")
        then with_rest args (set_command cfg host cwd)
        else if text_eq name (codes "print")
        then with_name args (print cfg host cwd)
        else if text_eq name (codes "run")
        then with_name args (run cfg host cwd schedule)
        else if text_eq name (codes "echo")
        then echo_word args
        else if text_eq name (codes "exec")
        then exec_scripts args
        else if text_eq name (codes "resetmem")
        then reset_memory
        else file_command host name args

    unfoldable pub interpreter : List Text → Exec (Machine lib W) ℤ
    interpreter [] = handle_error too_few_tokens
    interpreter (t ∷ ts) = command (strip_line t) (map strip_line ts)
