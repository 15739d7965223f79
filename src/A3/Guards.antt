-- ===== src/A3/Guards.antt =====
-- a3/interpreter.c: the error codes, and the tests on the number of words of a command.
pub mod Answers
use mock_os.Prelude.{ℕ, List, [], ◌∷◌, ◌++◌, Text, codes, get_elem?}
use mock_os.Prelude.Int.{ℤ, pos}
use mock_os.A3.Exec.{Exec, pure, demand, ◌>>=◌, ◌>>◌}
use mock_os.A3.Fs.FreeMap.{BitmapLib}
use mock_os.A3.Machine.{Machine, say}

-- `enum Error`
abbrev pub too_many_tokens : ℕ
too_many_tokens = 5

abbrev pub too_few_tokens : ℕ
too_few_tokens = 6

abbrev pub non_alphanumeric_token : ℕ
non_alphanumeric_token = 7

abbrev pub bad_command : ℕ
bad_command = 8

abbrev pub error_rm : ℕ
error_rm = 9

abbrev pub filesystem_error : ℕ
filesystem_error = 11

abbrev pub error_msgs : List Text
error_msgs =
    codes "no error"
    ∷ codes "file does not exist"
    ∷ codes "no space left in shell memory"
    ∷ codes "ready queue is full"
    ∷ codes "scheduling policy error"
    ∷ codes "too many tokens"
    ∷ codes "too few tokens"
    ∷ codes "non-alphanumeric token"
    ∷ codes "unknown name"
    ∷ codes "rm"
    ∷ codes "file could not be created"
    ∷ codes "bad filesystem"
    ∷ codes "file could not be written (maybe no space?)"
    ∷ codes "file could not be read"
    ∷ []

module _ {lib : BitmapLib} {W : Type 0} where
  unfoldable pub handle_error : ℕ → Exec (Machine lib W) ℤ
  handle_error e = do
    m ← demand (get_elem? error_msgs e)
    say (codes "Bad command: " ++ m)
    pure (pos e)

  -- The guards on the number of words behind the name.
  unfoldable pub without_words : List Text → Exec (Machine lib W) ℤ → Exec (Machine lib W) ℤ
  without_words [] m = m
  without_words (_ ∷ _) m = handle_error too_many_tokens

  unfoldable pub with_word : List Text → (Text → Exec (Machine lib W) ℤ) → Exec (Machine lib W) ℤ
  with_word (t ∷ []) f = f t
  with_word _ f = handle_error too_many_tokens

  unfoldable pub with_two :
      List Text → (Text → Text → Exec (Machine lib W) ℤ) → Exec (Machine lib W) ℤ
  with_two (t ∷ u ∷ []) f = f t u
  with_two _ f = handle_error too_many_tokens

  -- The guards of `print` and `run`, and of `set` and `write`
  unfoldable pub with_name : List Text → (Text → Exec (Machine lib W) ℤ) → Exec (Machine lib W) ℤ
  with_name [] f = handle_error too_few_tokens
  with_name (t ∷ ts) f = with_word (t ∷ ts) f

  unfoldable pub with_rest :
      List Text → (Text → List Text → Exec (Machine lib W) ℤ) → Exec (Machine lib W) ℤ
  with_rest (t ∷ u ∷ us) f = f t (u ∷ us)
  with_rest _ f = handle_error too_few_tokens
