-- ===== src/A3/Fs/Directory/Paths.antt =====
-- a3/fs/directory.c: `split_path_filename` against the tokens of the path.
use mathlib.Core.Path.{subst}
use mathlib.Core.List.{append_assoc, append-nil}
use mock_os.Prelude.{
  ℕ, ◌<◌, ◌≡◌, refl, ◌∙◌, ap, sym, inl, inr, Bool, true, false, not, ◌&&◌, Bool-cases, List, [],
  ◌∷◌, ◌++◌, Text, length, ◌==◌, arith,
}
use mock_os.A3.Fs.Directory.{tokens_from, tokens, is_absolute, split_tokens, split_path_filename}

no_slash : Text → Bool
no_slash [] = true
no_slash (c ∷ cs) = not (c == 47) && no_slash cs

abbrev IsToken : Text → Type 0
IsToken t = (no_slash t ≡ true) × (0 < length t)

abbrev AllTokens : List Text → Type 0
AllTokens [] = Unit
AllTokens (t ∷ ts) = IsToken t × AllTokens ts

no_slash-snoc :
    (t : Text) (c : ℕ) → no_slash t ≡ true → c == 47 ≡ false → no_slash (t ++ (c ∷ [])) ≡ true
unfolding no_slash
no_slash-snoc [] c h e = rw e refl
no_slash-snoc (b ∷ t) c h e = ground (arith, no_slash-snoc t c, h, e)

tokens_from-AllTokens : (begun s : Text) → no_slash begun ≡ true → AllTokens (tokens_from begun s)
unfolding tokens_from no_slash
tokens_from-AllTokens [] [] h = tt
tokens_from-AllTokens (t ∷ ts) [] h = ((h, omega arith), tt)
tokens_from-AllTokens [] (c ∷ cs) h = elim (Bool-cases (c == 47)) [
  | inl slash ↦ rw slash (tokens_from-AllTokens [] cs refl)
  | inr other ↦ rw other (tokens_from-AllTokens (c ∷ []) cs (rw other refl))
]
tokens_from-AllTokens (t ∷ ts) (c ∷ cs) h = elim (Bool-cases (c == 47)) [
  | inl slash ↦ rw slash ((h, omega arith), tokens_from-AllTokens [] cs refl)
  | inr other ↦
      rw other (tokens_from-AllTokens ((t ∷ ts) ++ (c ∷ [])) cs (no_slash-snoc (t ∷ ts) c h other))
]

-- A token that has begun ends at the slash behind it.
token_ends :
    (begun t s : Text)
    → 0 < length begun
    → no_slash t ≡ true
    → tokens_from begun (t ++ (47 ∷ s)) ≡ (begun ++ t) ∷ tokens s
unfolding tokens_from no_slash
token_ends [] t s some_begun h = absurd (omega arith)
token_ends (b ∷ bs) [] s some_begun h = ap (λ l. (b ∷ l) ∷ tokens s) (sym (append-nil bs))
token_ends (b ∷ bs) (c ∷ t) s some_begun h =
    let other : c == 47 ≡ false = ground (arith, h) in
    let rest : no_slash t ≡ true = ground (arith, h) in
    rw (other, token_ends ((b ∷ bs) ++ (c ∷ [])) t s (omega arith) rest)
      (ap (λ l. (b ∷ l) ∷ tokens s) (append_assoc bs (c ∷ []) t))

-- What the directory has got so far gives back the tokens ds, whatever comes behind it.
abbrev Holds : Text → List Text → Type 0
Holds dir ds = (s : Text) → tokens (dir ++ s) ≡ ds ++ tokens s

Holds-next :
    (dir : Text) (ds : List Text) (t : Text)
    → Holds dir ds
    → IsToken t
    → Holds (dir ++ (t ++ (47 ∷ []))) (ds ++ (t ∷ []))
unfolding tokens_from no_slash
Holds-next dir ds [] h (clean, some_left) s = absurd (omega arith)
Holds-next dir ds (c ∷ t) h (clean, some_left) s =
    let other : c == 47 ≡ false = ground (arith, clean) in
    let rest : no_slash t ≡ true = ground (arith, clean) in
    let one : tokens (c ∷ (t ++ (47 ∷ s))) ≡ (c ∷ t) ∷ tokens s =
      rw other (token_ends (c ∷ []) t s (omega arith) rest) in
    ap tokens (append_assoc dir ((c ∷ t) ++ (47 ∷ [])) s)
    ∙ ap (λ l. tokens (dir ++ (c ∷ l))) (append_assoc t (47 ∷ []) s)
    ∙ h (c ∷ (t ++ (47 ∷ s)))
    ∙ ap (λ l. ds ++ l) one
    ∙ sym (append_assoc ds ((c ∷ t) ∷ []) (tokens s))

split_tokens-tokens :
    (dir : Text) (ds : List Text) (t : Text) (ts : List Text)
    → Holds dir ds
    → IsToken t
    → AllTokens ts
    → tokens (split_tokens dir t ts).0 ++ ((split_tokens dir t ts).1 ∷ []) ≡ ds ++ (t ∷ ts)
unfolding split_tokens tokens_from
split_tokens-tokens dir ds t [] h is_token all =
    ap (λ l. l ++ (t ∷ [])) (ap tokens (sym (append-nil dir)) ∙ h [] ∙ append-nil ds)
split_tokens-tokens dir ds [] (u ∷ us) h is_token all = absurd (omega (arith, is_token.1))
split_tokens-tokens dir ds (c ∷ t) (u ∷ us) h is_token all =
    split_tokens-tokens (dir ++ ((c ∷ t) ++ (47 ∷ []))) (ds ++ ((c ∷ t) ∷ [])) u us
      (Holds-next dir ds (c ∷ t) h is_token) all.0 all.1
    ∙ append_assoc ds ((c ∷ t) ∷ []) (u ∷ us)

-- For a path with at least one token between its slashes, the tokens of the directory that
-- split_path_filename gives, followed by its file name, are the tokens of the path.
pub split_path_filename-tokens :
    (path t : Text) (ts : List Text)
    → tokens path ≡ t ∷ ts
    → tokens (split_path_filename path).0 ++ ((split_path_filename path).1 ∷ []) ≡ tokens path
unfolding split_path_filename split_tokens tokens_from no_slash
split_path_filename-tokens path t ts e =
    let (first, others) = subst AllTokens e (tokens_from-AllTokens [] path refl) in
    elim (Bool-cases (is_absolute path)) [
      | inl abs ↦ rw (abs, e) (split_tokens-tokens (47 ∷ []) [] t ts (λ s. refl) first others)
      | inr rel ↦ rw (rel, e) (split_tokens-tokens [] [] t ts (λ s. refl) first others)
    ]
