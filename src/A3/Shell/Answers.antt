-- ===== src/A3/Shell/Answers.antt =====
-- About a3/shell.c over a3/interpreter.c, scripts that run scripts included: the results, and which
-- processes exist.
use mock_os.Prelude.{
  ℕ, suc, zero, ◌||◌, Option, none, some, List, [], ◌∷◌, map, Text, codes, text_eq, arith,
}
use mock_os.Prelude.Int.{ℤ, pos}
use mock_os.Libc.{strip_line}
use mock_os.A3.Exec.{Exec}
use mock_os.A3.Exec.Leads.{
  Ensures, Keeps, Leads-crash, Leads-no_fuel, Leads-if, Leads-then, Leads-bind, Leads-modify,
  Leads-post, Keeps-pure,
}
use mock_os.A3.ShellMemory.{Config}
use mock_os.A3.Fs.FreeMap.{BitmapLib}
use mock_os.A3.Fs.Io.{Host}
use mock_os.A3.Machine.{Machine}
use mock_os.A3.Machine.Live.{IsLive, IsLive-memory}
use mock_os.A3.Scheduler.{run_proc_rr}
use mock_os.A3.Scheduler.Live.{run_proc_rr-IsLive}
use mock_os.A3.Guards.{too_few_tokens, too_many_tokens}
use mock_os.A3.Guards.Answers.{
  Answers, IsCode, pure-Answers, handle_error-Answers, with_word-Answers, with_name-Answers,
  without_words-Answers, with_rest-Answers,
}
use mock_os.A3.Commands.Answers.{
  help-Answers, quit-Answers, set_command-Answers, print-Answers, echo-Answers, run-Answers,
  exec-Answers,
}
use mock_os.A3.FileCommands.Answers.{file_command-Answers}
use mock_os.A3.Interpreter.{echo_word, exec_scripts, reset_memory, command, interpreter}
use mock_os.A3.Shell.{
  is_minus_one, strtok_from, strtok_next, call_words, parse_tokens, parse_line, parse_input,
  split_words,
}

module _ {lib : BitmapLib} {W : Type 0} where
  module _ (cfg : Config) (host : Host W) (cwd : Text) (schedule : Exec (Machine lib W) ℤ)
      (schedule-Answers : Answers schedule) where
    echo_word-Answers : (ts : List Text) → Answers (echo_word cfg host cwd schedule ts)
    unfolding echo_word
    echo_word-Answers [] = Leads-crash
    echo_word-Answers (t ∷ ts) = with_word-Answers _ (echo-Answers cfg host cwd) (t ∷ ts)

    exec_scripts-Answers : (ts : List Text) → Answers (exec_scripts cfg host cwd schedule ts)
    unfolding exec_scripts
    exec_scripts-Answers [] = handle_error-Answers too_few_tokens
    exec_scripts-Answers (t ∷ ts) =
        Leads-if _ _ _ (handle_error-Answers too_many_tokens)
          (exec-Answers cfg host cwd schedule schedule-Answers (t ∷ ts))

    reset_memory-Answers : Answers (reset_memory cfg host cwd schedule)
    reset_memory-Answers =
        Leads-then _ _ (Leads-modify _ λ s h. IsLive-memory [] _ s h)
          λ _. pure-Answers (pos 0) (omega arith)

    command-Answers :
        (name : Text) (args : List Text) → Answers (command cfg host cwd schedule name args)
    unfolding command
    command-Answers name args =
        Leads-if (text_eq name (codes "help")) _ _ (without_words-Answers _ help-Answers args) (
          Leads-if (text_eq name (codes "quit") || text_eq name (codes "exit")) _ _
            (without_words-Answers _ (quit-Answers cfg host cwd) args)
            (Leads-if (text_eq name (codes "set")) _ _
              (with_rest-Answers _ (set_command-Answers cfg host cwd) args)
              (Leads-if (text_eq name (codes "print")) _ _
                (with_name-Answers _ (print-Answers cfg host cwd) args)
                (Leads-if (text_eq name (codes "run")) _ _
                  (with_name-Answers _ (run-Answers cfg host cwd schedule schedule-Answers) args)
                  (Leads-if (text_eq name (codes "echo")) _ _ (echo_word-Answers args) (
                    Leads-if (text_eq name (codes "exec")) _ _ (exec_scripts-Answers args) (
                      Leads-if (text_eq name (codes "resetmem")) _ _ reset_memory-Answers
                        (file_command-Answers host name args))))))))

    interpreter-Answers : (words : List Text) → Answers (interpreter cfg host cwd schedule words)
    unfolding interpreter
    interpreter-Answers [] = handle_error-Answers too_few_tokens
    interpreter-Answers (t ∷ ts) = command-Answers (strip_line t) (map strip_line ts)

  strtok_from-IsLive : (t : Text) → Keeps (IsLive []) (strtok_from {lib = lib} {W = W} t)
  unfolding strtok_from
  strtok_from-IsLive t =
      Leads-then _ _
        (Leads-modify _ λ s h. record {
          queued = h.queued;
          cached = h.cached;
          listed = h.listed;
          rooted = h.rooted;
        })
        λ _. Keeps-pure _

  strtok_next-IsLive : Keeps (IsLive []) (strtok_next {lib = lib} {W = W})
  strtok_next-IsLive = record { at = λ s h. (strtok_from-IsLive s.strtok_rest).at s h }

  module _ (call : List Text → Exec (Machine lib W) ℤ)
      (call-Answers : (words : List Text) → Answers (call words)) where
    call_words-Answers : (token : Text) → Answers (call_words call token)
    unfolding call_words
    call_words-Answers token = Leads-if _ _ _ Leads-crash (call-Answers (split_words token))

    parse_tokens-Answers :
        (fuel : ℕ) (ret : ℤ) (token : Option Text)
        → IsCode ret
        → Answers (parse_tokens call fuel ret token)
    unfolding parse_tokens
    parse_tokens-Answers fuel ret none c = pure-Answers ret c
    parse_tokens-Answers zero ret (some token) c = Leads-no_fuel
    parse_tokens-Answers (suc fuel) ret (some token) c =
        Leads-bind _ _ (call_words-Answers token) λ ret'. record {
          at = λ s h.
              (Leads-bind _ _ strtok_next-IsLive λ next.
                  Leads-if (is_minus_one ret') _ _ (pure-Answers ret' h.0)
                    (parse_tokens-Answers fuel ret' next h.0)).at
                s h.1;
        }

    parse_line-Answers : (fuel : ℕ) (ui : Text) → Answers (parse_line call fuel ui)
    unfolding parse_line
    parse_line-Answers fuel ui =
        Leads-bind _ _ (strtok_from-IsLive ui)
          λ token. parse_tokens-Answers fuel (pos 0) token (omega arith)

  schedule-Answers :
      (cfg : Config) (host : Host W) (parse : Text → Exec (Machine lib W) ℤ) (fuel : ℕ)
      → ((line : Text) → Answers (parse line))
      → Answers (run_proc_rr cfg host parse fuel)
  schedule-Answers cfg host parse fuel answers =
      Leads-post _ (λ r s h. ((rw h.0 (omega arith)), h.1))
        (run_proc_rr-IsLive cfg host parse (λ line. Leads-post _ (λ r s h. h.1) (answers line))
          fuel)

  pub parse_input-Answers :
      (cfg : Config) (host : Host W) (cwd : Text) (fuel depth : ℕ) (ui : Text)
      → Answers {lib = lib} (parse_input cfg host cwd fuel depth ui)
  unfolding parse_input
  parse_input-Answers cfg host cwd fuel zero ui = Leads-no_fuel
  parse_input-Answers cfg host cwd fuel (suc depth) ui =
      parse_line-Answers _
        (interpreter-Answers cfg host cwd _ (
          schedule-Answers cfg host (parse_input cfg host cwd fuel depth) fuel
            (parse_input-Answers cfg host cwd fuel depth)))
        fuel ui

  -- A line that is given to parseInput in a state where no freed process is in the ready queue,
  -- the LRU list or the list of processes has, when parseInput returns, the result -1 or one of
  -- the 14 codes of enum Error, whatever the line, its commands and the scripts that they run
  -- are.
  pub parse_input-IsCode :
      (cfg : Config) (host : Host W) (cwd : Text) (fuel depth : ℕ) (ui : Text) (s : Machine lib W)
      → IsLive [] s
      → Ensures (λ r _. IsCode r) (parse_input cfg host cwd fuel depth ui s)
  parse_input-IsCode cfg host cwd fuel depth ui s h =
      (Leads-post _ (λ r s' k. k.0) (parse_input-Answers cfg host cwd fuel depth ui)).at s h
