-- ===== src/A3/FileCommands/Answers.antt =====
-- About the commands on files in a3/interpreter.c: their results.
use mock_os.Prelude.{
  ℕ, suc, zero, true, false, List, [], ◌∷◌, Text, codes, text_eq, ◌==◌, arith, if◌then◌else◌,
}
use mock_os.Prelude.Int.{ℤ, pos, negsuc}
use mock_os.A3.Exec.{Exec, pure}
use mock_os.A3.Exec.Leads.{Leads-crash, Leads-if, Leads-then, Leads-bind, Keeps-pure, Keeps-demand}
use mock_os.A3.Fs.FreeMap.{BitmapLib}
use mock_os.A3.Fs.Io.{Host, Io}
use mock_os.A3.Machine.{Machine}
use mock_os.A3.Machine.Actions.{with_io-IsLive, say-IsLive}
use mock_os.A3.Guards.{too_few_tokens, bad_command, error_rm, filesystem_error}
use mock_os.A3.Guards.Answers.{
  Answers, pure-Answers, say-Answers, handle_error-Answers, with_word-Answers,
  without_words-Answers, with_two-Answers, with_rest-Answers,
}
use mock_os.A3.Fs.Copy.{file_does_not_exist, file_creation_error, file_write_error, file_read_error}
use mock_os.A3.FileCommands.{
  on_sign, on_one, list_files, copied_or_error, cat, rm, create, write, read, size_command, seek,
  freespace, copy_in_command, copy_out_command, silent, find_words, recover_command, file_command,
}

module _ {lib : BitmapLib} {W : Type 0} where
  on_sign-Answers :
      (r : ℤ) (m : Exec (Machine lib W) ℤ) (f : ℕ → Exec (Machine lib W) ℤ)
      → Answers m
      → ((n : ℕ) → Answers (f n))
      → Answers (on_sign r m f)
  unfolding on_sign
  on_sign-Answers (negsuc n) m f am af = am
  on_sign-Answers (pos n) m f am af = af n

  on_one-Answers :
      (r : ℤ) (m m' : Exec (Machine lib W) ℤ) → Answers m → Answers m' → Answers (on_one r m m')
  unfolding on_one
  on_one-Answers (pos (suc zero)) m m' am am' = am
  on_one-Answers (pos zero) m m' am am' = am'
  on_one-Answers (pos (suc (suc n))) m m' am am' = am'
  on_one-Answers (negsuc n) m m' am am' = am'

  -- Nothing went wrong.
  done-Answers : Answers {lib = lib} {W = W} (pure (pos 0))
  done-Answers = pure-Answers (pos 0) (omega arith)

  list_files-Answers : Answers {lib = lib} {W = W} list_files
  unfolding list_files
  list_files-Answers =
      Leads-bind _ _ (with_io-IsLive [] _)
        λ status. on_one-Answers status _ _ (handle_error-Answers filesystem_error) done-Answers

  module _ (host : Host W) where
    cat-Answers : (name : Text) → Answers (cat {lib = lib} host name)
    unfolding cat
    cat-Answers name =
        Leads-bind _ _ (with_io-IsLive [] _) λ status.
          on_one-Answers status _ _ (handle_error-Answers file_does_not_exist) done-Answers

    rm-Answers : (name : Text) → Answers (rm {lib = lib} host name)
    unfolding rm
    rm-Answers name = Leads-bind _ _ (with_io-IsLive [] _) λ removed.
        Leads-if removed _ _ (pure-Answers (pos 1) (omega arith)) (handle_error-Answers error_rm)

    create-Answers : (name size : Text) → Answers (create {lib = lib} host name size)
    unfolding create
    create-Answers name size = on_sign-Answers (host.atoi size) _ _ Leads-crash λ n.
        Leads-bind _ _ (with_io-IsLive [] _)
          λ made. Leads-if made _ _ done-Answers (handle_error-Answers file_creation_error)

    write-Answers : (name : Text) (words : List Text) → Answers (write {lib = lib} host name words)
    unfolding write
    write-Answers name words = Leads-bind _ _ (with_io-IsLive [] _) λ r.
        on_sign-Answers r _ _ (handle_error-Answers file_write_error)
          λ n. Leads-then _ _ (Leads-if _ _ _ (Keeps-pure tt) (say-IsLive [] _)) λ _. done-Answers

    -- `read` answers 1 where it read all that was asked for.
    read_result-Answers :
        (n wanted : ℕ) → Answers {lib = lib} {W = W} (pure (if n == wanted then pos 1 else pos 0))
    read_result-Answers n wanted =
        elim (n == wanted)
          as (λ b. Answers {lib = lib} {W = W} (pure (if b then pos 1 else pos 0))) [
            | true ↦ pure-Answers (pos 1) (omega arith)
            | false ↦ done-Answers
          ]

    read-Answers : (name arg : Text) → Answers (read {lib = lib} host name arg)
    unfolding read
    read-Answers name arg = Leads-bind _ _ (Keeps-demand _) λ size.
        Leads-bind _ _ (with_io-IsLive [] _) λ r.
          on_sign-Answers r.1 _ _ (handle_error-Answers file_read_error) λ n.
            on_sign-Answers (host.atoi arg) _ _ Leads-crash
              λ wanted. Leads-then _ _ (say-IsLive [] _) λ _. read_result-Answers n wanted

    size_command-Answers : (name : Text) → Answers (size_command {lib = lib} host name)
    unfolding size_command
    size_command-Answers name = Leads-bind _ _ (with_io-IsLive [] _) λ size.
        on_sign-Answers size _ _ (handle_error-Answers file_does_not_exist)
          λ n. say-Answers _ (pos 0) (omega arith)

    seek-Answers : (name offset : Text) → Answers (seek {lib = lib} host name offset)
    unfolding seek
    seek-Answers name offset = Leads-bind _ _ (with_io-IsLive [] _) λ status.
        on_sign-Answers status _ _ (handle_error-Answers file_does_not_exist) λ n. done-Answers

    freespace-Answers : Answers (freespace {lib = lib} host)
    unfolding freespace
    freespace-Answers =
        Leads-bind _ _ (with_io-IsLive [] _) λ free. say-Answers _ (pos 0) (omega arith)

    copied_or_error-Answers : (e : ℕ) → Answers (copied_or_error {lib = lib} host e)
    unfolding copied_or_error
    copied_or_error-Answers zero = done-Answers
    copied_or_error-Answers (suc e) = handle_error-Answers (suc e)

    copy_in_command-Answers : (t : Text) → Answers (copy_in_command {lib = lib} host t)
    unfolding copy_in_command
    copy_in_command-Answers t = Leads-bind _ _ (with_io-IsLive [] _) copied_or_error-Answers

    copy_out_command-Answers : (t : Text) → Answers (copy_out_command {lib = lib} host t)
    unfolding copy_out_command
    copy_out_command-Answers t = Leads-bind _ _ (with_io-IsLive [] _) copied_or_error-Answers

    silent-Answers : {A : Type 0} (m : Exec (Io lib W) A) → Answers (silent host m)
    silent-Answers m = Leads-then _ _ (with_io-IsLive [] m) λ _. done-Answers

    find_words-Answers : (ts : List Text) → Answers (find_words {lib = lib} host ts)
    unfolding find_words
    find_words-Answers [] = handle_error-Answers too_few_tokens
    find_words-Answers (t ∷ ts) = silent-Answers _

    recover_command-Answers : (t : Text) → Answers (recover_command {lib = lib} host t)
    unfolding recover_command
    recover_command-Answers t = silent-Answers _

    pub file_command-Answers :
        (name : Text) (args : List Text) → Answers (file_command {lib = lib} host name args)
    unfolding file_command
    file_command-Answers name args =
        Leads-if (text_eq name (codes "ls")) _ _ (without_words-Answers _ list_files-Answers args) (
          Leads-if (text_eq name (codes "cat")) _ _ (with_word-Answers _ cat-Answers args) (
            Leads-if (text_eq name (codes "rm")) _ _ (with_word-Answers _ rm-Answers args) (
              Leads-if (text_eq name (codes "create")) _ _ (with_two-Answers _ create-Answers args)
                (Leads-if (text_eq name (codes "write")) _ _
                  (with_rest-Answers _ write-Answers args)
                  (Leads-if (text_eq name (codes "find_file")) _ _ (find_words-Answers args) (
                    Leads-if (text_eq name (codes "read")) _ _
                      (with_two-Answers _ read-Answers args)
                      (Leads-if (text_eq name (codes "copy_in")) _ _
                        (with_word-Answers _ copy_in_command-Answers args)
                        (Leads-if (text_eq name (codes "copy_out")) _ _
                          (with_word-Answers _ copy_out_command-Answers args)
                          (Leads-if (text_eq name (codes "size")) _ _
                            (with_word-Answers _ size_command-Answers args)
                            (Leads-if (text_eq name (codes "seek")) _ _
                              (with_two-Answers _ seek-Answers args)
                              (Leads-if (text_eq name (codes "freespace")) _ _
                                (without_words-Answers _ freespace-Answers args)
                                (Leads-if (text_eq name (codes "fragmentation_degree")) _ _
                                  (without_words-Answers _ (silent-Answers _) args)
                                  (Leads-if (text_eq name (codes "defragment")) _ _
                                    (without_words-Answers _ (silent-Answers _) args)
                                    (Leads-if (text_eq name (codes "recover")) _ _
                                      (with_word-Answers _ recover_command-Answers args)
                                      (handle_error-Answers bad_command)))))))))))))))
