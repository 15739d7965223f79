-- ===== src/A3/Shell/Strtok.antt =====
-- About `strtok` in a3/shell.c, of whose state there is one copy for all lines that are parsed.
use mock_os.Prelude.{
  ℕ, zero, suc, true, false, Option, none, some, List, [], ◌∷◌, Text, ◌≡◌, if◌then◌else◌, refl, sym,
  ◌⊎◌, inl, inr, arith,
}
use mock_os.Prelude.Int.{ℤ, pos, negsuc}
use mock_os.A3.Exec.{Exec, pure}
use mock_os.A3.Exec.Leads.{
  Ensures, Leads, Leads-pure, Leads-no_fuel, Leads-any, Leads-bind, Leads-then, Leads-modify,
}
use mock_os.A3.Fs.FreeMap.{BitmapLib}
use mock_os.A3.Machine.{Machine}
use mock_os.A3.Shell.{
  strtok, first_token, skip_separators, is_minus_one, strtok_from, strtok_next, call_words,
  parse_tokens, parse_line,
}

first_token-none : (t : Text) → (first_token t).0 ≡ none → (first_token t).1 ≡ []
first_token-none [] e = refl
first_token-none (c ∷ t) e = ground arith

is_minus_one_lem : (r : ℤ) → is_minus_one r ≡ true → r ≡ negsuc 0
is_minus_one_lem (negsuc zero) h = refl
is_minus_one_lem (negsuc (suc n)) h = ground (arith, h)
is_minus_one_lem (pos n) h = ground (arith, h)

module _ {lib : BitmapLib} {W : Type 0} where
  -- There is nothing left when there is no token.
  abbrev IsExhausted : Option Text → Machine lib W → Type 0
  IsExhausted token s = token ≡ none → s.strtok_rest ≡ []

  strtok_from-IsExhausted :
      {P : Machine lib W → Type 0} (t : Text) → Leads P (strtok_from t) IsExhausted
  unfolding strtok_from strtok
  strtok_from-IsExhausted t =
      Leads-then _ _
        (Leads-modify {Q = λ _ s. IsExhausted (strtok t).0 s} _
          λ s h. first_token-none (skip_separators t))
        λ _. Leads-pure _ λ s h. h

  strtok_next-IsExhausted : {P : Machine lib W → Type 0} → Leads P strtok_next IsExhausted
  strtok_next-IsExhausted {P} = record {
    at = λ s h. (strtok_from-IsExhausted {P = P} s.strtok_rest).at s h;
  }

  -- The result is -1, or the line has been used up.
  abbrev pub IsUsedUp : ℤ → Machine lib W → Type 0
  IsUsedUp r s = (r ≡ negsuc 0) ⊎ (s.strtok_rest ≡ [])

  module _ (call : List Text → Exec (Machine lib W) ℤ) where
    parse_tokens-IsUsedUp :
        (fuel : ℕ) (ret : ℤ) (token : Option Text)
        → Leads (IsExhausted token) (parse_tokens call fuel ret token) IsUsedUp
    unfolding parse_tokens
    parse_tokens-IsUsedUp fuel ret none = Leads-pure ret λ s h. inr (h refl)
    parse_tokens-IsUsedUp zero ret (some token) = Leads-no_fuel
    parse_tokens-IsUsedUp (suc fuel) ret (some token) =
        Leads-bind _ _ (Leads-any (call_words call token)) λ ret'.
          Leads-bind _ _ strtok_next-IsExhausted λ next.
            elim (is_minus_one ret')
                as (λ b.
                  (b ≡ is_minus_one ret')
                  → Leads (IsExhausted next)
                      (if b then pure ret' else parse_tokens call fuel ret' next) IsUsedUp) [
                        | true ↦ λ e. Leads-pure ret' λ s h. inl (is_minus_one_lem ret' (sym e))
                        | false ↦ λ e. parse_tokens-IsUsedUp fuel ret' next
                      ]
              refl

    -- parseInput, whatever its commands do, comes back with the result -1 or with nothing left in
    -- the state of strtok, so that nothing is left of the rest of a line when one of its commands
    -- has parsed another line to the end.
    pub parse_line-IsUsedUp :
        (fuel : ℕ) (ui : Text) (s : Machine lib W) → Ensures IsUsedUp (parse_line call fuel ui s)
    unfolding parse_line
    parse_line-IsUsedUp fuel ui s =
        (Leads-bind _ _ (strtok_from-IsExhausted {P = λ _. Unit} ui)
            (parse_tokens-IsUsedUp fuel (pos 0))).at
          s tt
