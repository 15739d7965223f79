-- ===== src/A3/FileCommands.antt =====
-- a3/interpreter.c: the commands on the files.
pub mod Answers
use mock_os.Prelude.{
  ℕ, zero, suc, ◌+◌, ◌*◌, Option, none, some, List, [], ◌∷◌, ◌++◌, Text, codes, ◌==◌, if◌then◌else◌,
  text_eq, length, replicate,
}
use mock_os.Prelude.Int.{ℤ, pos, negsuc}
use mock_os.A3.Exec.{Exec, pure, demand, crash, ◌>>=◌, ◌>>◌}
use mock_os.A3.Fs.DirEntry.{c_string}
use mock_os.A3.Fs.FreeMap.{BitmapLib}
use mock_os.A3.Fs.Io.{Host, Io}
use mock_os.A3.Fs.Util.{
  fsutil_ls, fsutil_cat, fsutil_rm, fsutil_create, fsutil_write, fsutil_read, fsutil_size,
  fsutil_seek, fsutil_freespace,
}
use mock_os.A3.Fs.Copy.{
  file_does_not_exist, file_creation_error, file_write_error, file_read_error, overlay, copy_in,
  copy_out,
}
use mock_os.A3.Fs.Survey.{find_file, fragmentation_degree, defragment}
use mock_os.A3.Fs.Recover.{recover}
use mock_os.A3.Machine.{Machine, with_io, say}
use mock_os.A3.Commands.{join_words}
use mock_os.A3.Guards.{
  too_few_tokens, bad_command, error_rm, filesystem_error, handle_error, without_words, with_word,
  with_two, with_rest,
}

-- The tests `== -1` and `== 1` of a result. No result is below -1.
unfoldable pub on_sign : {S A : Type 0} → ℤ → Exec S A → (ℕ → Exec S A) → Exec S A
on_sign (negsuc n) m f = m
on_sign (pos n) m f = f n

unfoldable pub on_one : {S A : Type 0} → ℤ → Exec S A → Exec S A → Exec S A
on_one (pos (suc zero)) m m' = m
on_one _ m m' = m'

-- `malloc` gives no buffer for a size below -1. One for the size -1 has no byte, which is printed.
abbrev pub room : ℤ → Option ℕ
room (pos n) = some n
room (negsuc zero) = some 0
room (negsuc (suc n)) = none

module _ {lib : BitmapLib} {W : Type 0} where
  unfoldable pub list_files : Exec (Machine lib W) ℤ
  list_files = do
    status ← with_io fsutil_ls
    on_one status (handle_error filesystem_error) (pure (pos 0))

  module _ (host : Host W) where
    -- The result of `copy_in` or `copy_out`
    unfoldable pub copied_or_error : ℕ → Exec (Machine lib W) ℤ
    copied_or_error zero = pure (pos 0)
    copied_or_error (suc e) = handle_error (suc e)

    unfoldable pub cat : Text → Exec (Machine lib W) ℤ
    cat name = do
      status ← with_io (fsutil_cat host name)
      on_one status (handle_error file_does_not_exist) (pure (pos 0))

    unfoldable pub rm : Text → Exec (Machine lib W) ℤ
    rm name = do
      removed ← with_io (fsutil_rm name)
      if removed then pure (pos 1) else handle_error error_rm

    -- A negative size fails an assertion.
    unfoldable pub create : Text → Text → Exec (Machine lib W) ℤ
    create name size = on_sign (host.atoi size) crash λ n. do
      made ← with_io (fsutil_create host name n)
      if made then pure (pos 0) else handle_error file_creation_error

    unfoldable pub write : Text → List Text → Exec (Machine lib W) ℤ
    write name words = do
      let buf = join_words words ++ (0 ∷ 0 ∷ [])
      let size = length buf
      bytes_written ← with_io (fsutil_write name buf size)
      on_sign bytes_written (handle_error file_write_error) λ n. do
        (if n == size
            then pure tt
            else say (
                codes "Warning: could only write "
                ++ (host.decimal n
                    ++ (codes " out of "
                        ++ (host.decimal size ++ codes " bytes (reached end of file)")))))
        pure (pos 0)

    unfoldable pub read : Text → Text → Exec (Machine lib W) ℤ
    read name arg = do
      size ← demand (room (host.atoi arg))
      r ← with_io (fsutil_read name size)
      on_sign (r.1) (handle_error file_read_error) λ n. on_sign (host.atoi arg) crash λ wanted. do
        say (c_string (overlay r.0 (replicate (size + 1) 0)))
        pure (if n == wanted then pos 1 else pos 0)

    unfoldable pub size_command : Text → Exec (Machine lib W) ℤ
    size_command name = do
      size ← with_io (fsutil_size name)
      on_sign size (handle_error file_does_not_exist)
          λ n. do say (codes "File length: " ++ host.decimal n); pure (pos 0)

    unfoldable pub seek : Text → Text → Exec (Machine lib W) ℤ
    seek name offset = do
      status ← with_io (fsutil_seek name (host.atoi offset))
      on_sign status (handle_error file_does_not_exist) λ n. pure (pos 0)

    unfoldable pub freespace : Exec (Machine lib W) ℤ
    freespace = do
      free ← with_io fsutil_freespace
      say (
          codes "Num free sectors: "
          ++ (host.decimal free
              ++ (codes " (" ++ (host.decimal (free * 512) ++ codes " total bytes)"))))
      pure (pos 0)

    unfoldable pub copy_in_command : Text → Exec (Machine lib W) ℤ
    copy_in_command t = with_io (copy_in host t) >>= copied_or_error

    unfoldable pub copy_out_command : Text → Exec (Machine lib W) ℤ
    copy_out_command t = with_io (copy_out host t) >>= copied_or_error

    -- A utility without a result that is looked at.
    abbrev pub silent : {A : Type 0} → Exec (Io lib W) A → Exec (Machine lib W) ℤ
    silent m = with_io m >> pure (pos 0)

    unfoldable pub find_words : List Text → Exec (Machine lib W) ℤ
    find_words [] = handle_error too_few_tokens
    find_words (t ∷ ts) = silent (find_file host (join_words (t ∷ ts)))

    unfoldable pub recover_command : Text → Exec (Machine lib W) ℤ
    recover_command t = silent (recover host (host.atoi t))

    unfoldable pub file_command : Text → List Text → Exec (Machine lib W) ℤ
    file_command name args =
        if text_eq name (codes "ls")
        then without_words args list_files
        else if text_eq name (codes "cat")
        then with_word args cat
        else if text_eq name (codes "rm")
        then with_word args rm
        else if text_eq name (codes "create")
        then with_two args create
        else if text_eq name (codes "write")
        then with_rest args write
        else if text_eq name (codes "find_file")
        then find_words args
        else if text_eq name (codes "read")
        then with_two args read
        else if text_eq name (codes "copy_in")
        then with_word args copy_in_command
        else if text_eq name (codes "copy_out")
        then with_word args copy_out_command
        else if text_eq name (codes "size")
        then with_word args size_command
        else if text_eq name (codes "seek")
        then with_two args seek
        else if text_eq name (codes "freespace")
        then without_words args freespace
        else if text_eq name (codes "fragmentation_degree")
        then without_words args (silent (fragmentation_degree host))
        else if text_eq name (codes "defragment")
        then without_words args (silent (defragment host))
        else if text_eq name (codes "recover")
        then with_word args recover_command
        else handle_error bad_command
