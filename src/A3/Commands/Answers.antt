-- ===== src/A3/Commands/Answers.antt =====
-- About the commands of the shell in a3/interpreter.c: their results, and which processes exist.
use mock_os.Prelude.{List, [], ◌∷◌, Text, length, ltb, leb, ◌==◌, ◌+◌, arith, refl}
use mock_os.Prelude.Int.{ℤ, pos, negsuc}
use mock_os.Libc.{dollar}
use mock_os.A3.Exec.{Exec, pure, ◌>>=◌, ◌>>◌}
use mock_os.A3.Exec.Leads.{
  Keeps, Leads-crash, Leads-if, Leads-then, Leads-bind, Leads-modify, Keeps-pure, Keeps-gets,
  Keeps-then, Keeps-bind,
}
use mock_os.A3.ShellMemory.{Config}
use mock_os.A3.Fs.FreeMap.{BitmapLib}
use mock_os.A3.Fs.Io.{Host}
use mock_os.A3.Machine.{Machine}
use mock_os.A3.Machine.Live.{IsLive, IsLive-memory}
use mock_os.A3.Machine.Actions.{with_io-IsLive}
use mock_os.A3.Kernel.Live.{new_proc-IsLive}
use mock_os.A3.Guards.{non_alphanumeric_token}
use mock_os.A3.Guards.Answers.{Answers, pure-Answers, say-Answers, handle_error-Answers}
use mock_os.A3.Commands.{
  Joined, joined, not_alnum, overflow, is_alpha_num_str, all_alnum, help, quit, set, set_joined,
  set_command, print, echo_value, echo, store_script, clear_store, store_scripts, new_procs, run,
  exec,
}

module _ {lib : BitmapLib} {W : Type 0} where
  pub help-Answers : Answers (help {lib = lib} {W = W})
  unfolding help
  help-Answers = say-Answers _ (pos 0) (omega arith)

  module _ (cfg : Config) (host : Host W) (cwd : Text) where
    pub quit-Answers : Answers (quit {lib = lib} cfg host cwd)
    unfolding quit
    quit-Answers =
        Leads-then _ _ (with_io-IsLive [] _)
          λ _. Leads-then _ _ (with_io-IsLive [] _) λ _. say-Answers _ (negsuc 0) refl

    set-Answers : (var value : Text) → Answers (set {lib = lib} cfg host cwd var value)
    unfolding set
    set-Answers var value =
        Leads-then _ _
          (Leads-if (leb 1000 (length var + 1 + length value)) _ _ Leads-crash
            (Leads-modify _ (λ s h. IsLive-memory [] _ s h)))
          λ _. pure-Answers (pos 0) (omega arith)

    set_joined-Answers :
        (var : Text) (j : Joined) → Answers (set_joined {lib = lib} cfg host cwd var j)
    unfolding set_joined
    set_joined-Answers var (joined value) = set-Answers var value
    set_joined-Answers var not_alnum = handle_error-Answers non_alphanumeric_token
    set_joined-Answers var overflow = Leads-crash

    pub set_command-Answers :
        (var : Text) (values : List Text)
        → Answers (set_command {lib = lib} cfg host cwd var values)
    unfolding set_command
    set_command-Answers var values =
        Leads-if (is_alpha_num_str var) _ _ (set_joined-Answers var _)
          (handle_error-Answers non_alphanumeric_token)

    pub print-Answers : (var : Text) → Answers (print {lib = lib} cfg host cwd var)
    unfolding print
    print-Answers var =
        Leads-bind _ _ (Keeps-gets _) λ value. say-Answers value (pos 0) (omega arith)

    echo_value-Answers : (t : Text) → Answers (echo_value {lib = lib} cfg host cwd t)
    unfolding echo_value
    echo_value-Answers t =
        Leads-bind _ _ (Keeps-gets _) λ value. say-Answers value (pos 0) (omega arith)

    pub echo-Answers : (t : Text) → Answers (echo {lib = lib} cfg host cwd t)
    unfolding echo
    echo-Answers [] = handle_error-Answers non_alphanumeric_token
    echo-Answers (c ∷ t) =
        Leads-if (c == dollar) _ _
          (Leads-if (all_alnum t) _ _ (echo_value-Answers t)
            (handle_error-Answers non_alphanumeric_token))
          (Leads-if (is_alpha_num_str (c ∷ t)) _ _ (say-Answers (c ∷ t) (pos 0) (omega arith))
            (handle_error-Answers non_alphanumeric_token))

    store_script-IsLive :
        (name : Text) → Keeps (IsLive []) (store_script {lib = lib} cfg host cwd name)
    unfolding store_script
    store_script-IsLive name = Leads-bind _ _ (Keeps-gets _) λ count.
        Leads-then _ _ (Leads-if _ _ _ Leads-crash (with_io-IsLive [] _)) λ _.
          Leads-then _ _
            (Leads-modify _ λ s h. record {
              queued = h.queued;
              cached = h.cached;
              listed = h.listed;
              rooted = h.rooted;
            })
            λ _. Keeps-pure _

    clear_store-IsLive : Keeps (IsLive []) (clear_store {lib = lib} cfg host cwd)
    unfolding clear_store
    clear_store-IsLive = Keeps-then _ _ (with_io-IsLive [] _) (with_io-IsLive [] _)

    store_scripts-IsLive :
        (names : List Text) → Keeps (IsLive []) (store_scripts {lib = lib} cfg host cwd names)
    unfolding store_scripts
    store_scripts-IsLive [] = Keeps-pure []
    store_scripts-IsLive (name ∷ names) =
        Keeps-bind _ _ (store_script-IsLive name)
          λ n. Keeps-bind _ _ (store_scripts-IsLive names) λ ns. Keeps-pure (n ∷ ns)

    new_procs-IsLive :
        (names : List Text) → Keeps (IsLive []) (new_procs {lib = lib} cfg host cwd names)
    unfolding new_procs
    new_procs-IsLive [] = Keeps-pure tt
    new_procs-IsLive (n ∷ ns) = Keeps-then _ _ (new_proc-IsLive cfg host n) (new_procs-IsLive ns)

    module _ (schedule : Exec (Machine lib W) ℤ) (schedule-Answers : Answers schedule) where
      -- The result of the processes goes past the clearing of the store.
      cleared-Answers :
          (m : Exec (Machine lib W) ℤ)
          → Answers m
          → Answers (m >>= λ ret. clear_store cfg host cwd >> pure ret)
      cleared-Answers m answers = Leads-bind _ _ answers λ ret. record {
        at = λ s h. (Leads-then _ _ clear_store-IsLive (λ _. pure-Answers ret h.0)).at s h.1;
      }

      pub run-Answers : (name : Text) → Answers (run cfg host cwd schedule name)
      unfolding run
      run-Answers name = Leads-bind _ _ (store_script-IsLive name) λ script.
          Leads-then _ _ (new_proc-IsLive cfg host script)
            λ _. cleared-Answers schedule schedule-Answers

      pub exec-Answers : (names : List Text) → Answers (exec cfg host cwd schedule names)
      unfolding exec
      exec-Answers names = Leads-bind _ _ (store_scripts-IsLive names) λ scripts.
          cleared-Answers _ (
            Leads-if (ltb 3 (length names)) _ _ (say-Answers _ (pos 1) (omega arith))
              (Leads-then _ _ (new_procs-IsLive scripts) λ _. schedule-Answers))
