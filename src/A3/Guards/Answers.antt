-- ===== src/A3/Guards/Answers.antt =====
-- About the error codes of a3/interpreter.c and the tests on the number of words: the results, and
-- which processes exist behind a command.
use mock_os.Prelude.{
  ℕ, suc, zero, ◌<◌, some, List, [], ◌∷◌, Text, ◌≡◌, refl, length, get_elem?, arith,
}
use mock_os.Prelude.Int.{ℤ, pos, negsuc}
use mock_os.A3.Exec.{Exec, pure, ◌>>=◌, ◌>>◌}
use mock_os.A3.Exec.Leads.{
  Leads, Leads-pure, Leads-pre, Leads-demand, Leads-given, Leads-then, Leads-bind,
}
use mock_os.A3.Fs.FreeMap.{BitmapLib}
use mock_os.A3.Fs.Io.{Io}
use mock_os.A3.Machine.{Machine, with_io, say}
use mock_os.A3.Machine.Live.{IsLive}
use mock_os.A3.Machine.Actions.{with_io-IsLive, say-IsLive}
use mock_os.A3.Guards.{
  error_msgs, too_many_tokens, too_few_tokens, handle_error, without_words, with_word, with_two,
  with_name, with_rest,
}

-- -1, and the members of `enum Error`
abbrev pub IsCode : ℤ → Type 0
IsCode (pos n) = n < 14
IsCode (negsuc n) = n ≡ 0

get_elem?-bounded :
    {A : Type 0} (xs : List A) (i : ℕ) {a : A} → some a ≡ get_elem? xs i → i < length xs
get_elem?-bounded [] i e = ground arith
get_elem?-bounded (x ∷ xs) zero e = omega arith
get_elem?-bounded (x ∷ xs) (suc i) e = omega (arith, get_elem?-bounded xs i e)

module _ {lib : BitmapLib} {W : Type 0} where
  abbrev pub IsAnswer : ℤ → Machine lib W → Type 0
  IsAnswer r s = IsCode r × IsLive [] s

  -- A command that answers.
  abbrev pub Answers : Exec (Machine lib W) ℤ → Type 0
  Answers m = Leads (IsLive []) m IsAnswer

  pub pure-Answers : (r : ℤ) → IsCode r → Answers (pure r)
  pure-Answers r c = Leads-pure r λ s h. (c, h)

  pub say-Answers : (t : Text) (r : ℤ) → IsCode r → Answers (say t >> pure r)
  say-Answers t r c = Leads-then _ _ (say-IsLive [] t) λ _. pure-Answers r c

  pub io-Answers :
      {A : Type 0} (m : Exec (Io lib W) A) (f : A → Exec (Machine lib W) ℤ)
      → ((a : A) → Answers (f a))
      → Answers (with_io m >>= f)
  io-Answers m f h = Leads-bind _ _ (with_io-IsLive [] m) h

  pub handle_error-Answers : (e : ℕ) → Answers (handle_error e)
  unfolding handle_error
  handle_error-Answers e =
      Leads-bind _ _
        (Leads-pre _ (λ s h. (h, refl))
          (Leads-demand {P = IsLive []} (λ s. get_elem? error_msgs e) _))
        λ m. Leads-given _ λ found. say-Answers _ (pos e) (get_elem?-bounded error_msgs e found)

  module _ (f : Text → Exec (Machine lib W) ℤ) (answers : (t : Text) → Answers (f t)) where
    pub with_word-Answers : (ts : List Text) → Answers (with_word ts f)
    unfolding with_word
    with_word-Answers [] = handle_error-Answers too_many_tokens
    with_word-Answers (t ∷ []) = answers t
    with_word-Answers (t ∷ u ∷ ts) = handle_error-Answers too_many_tokens

    pub with_name-Answers : (ts : List Text) → Answers (with_name ts f)
    unfolding with_name
    with_name-Answers [] = handle_error-Answers too_few_tokens
    with_name-Answers (t ∷ ts) = with_word-Answers (t ∷ ts)

  pub without_words-Answers :
      (m : Exec (Machine lib W) ℤ) → Answers m → (ts : List Text) → Answers (without_words ts m)
  unfolding without_words
  without_words-Answers m answers [] = answers
  without_words-Answers m answers (t ∷ ts) = handle_error-Answers too_many_tokens

  pub with_two-Answers :
      (f : Text → Text → Exec (Machine lib W) ℤ)
      → ((t u : Text) → Answers (f t u))
      → (ts : List Text) → Answers (with_two ts f)
  unfolding with_two
  with_two-Answers f answers [] = handle_error-Answers too_many_tokens
  with_two-Answers f answers (t ∷ []) = handle_error-Answers too_many_tokens
  with_two-Answers f answers (t ∷ u ∷ []) = answers t u
  with_two-Answers f answers (t ∷ u ∷ v ∷ ts) = handle_error-Answers too_many_tokens

  pub with_rest-Answers :
      (f : Text → List Text → Exec (Machine lib W) ℤ)
      → ((t : Text) (us : List Text) → Answers (f t us))
      → (ts : List Text) → Answers (with_rest ts f)
  unfolding with_rest
  with_rest-Answers f answers [] = handle_error-Answers too_few_tokens
  with_rest-Answers f answers (t ∷ []) = handle_error-Answers too_few_tokens
  with_rest-Answers f answers (t ∷ u ∷ us) = answers t (u ∷ us)
