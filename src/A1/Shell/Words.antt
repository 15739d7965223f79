-- ===== src/A1/Shell/Words.antt =====
-- a1/shell.c: splitting what was joined by spaces gives the words back, and the loop ends.
use mock_os.Prelude.{
  ℕ, zero, suc, ◌+◌, ◌-◌, ◌≤◌, ◌<◌, ◌≡◌, refl, ◌∙◌, ap, sym, ◌≢◌, true, false, List, [], ◌∷◌, ◌++◌,
  Text, arith, ◌==◌, length, length-append,
}
use mock_os.Libc.{newline, space}
use mock_os.A1.Shell.{
  ends_word, skip_spaces, scan_word, Split, split, cons_word, words_loop, parse_words, tmp_size,
  max_words, max_user_input,
}

-- The characters of a word.
abbrev pub AllPlain : Text → Type 0
AllPlain [] = Unit {0}
AllPlain (c ∷ s) = (ends_word c ≡ false) × AllPlain s

-- A word that fits into `tmp`.
abbrev pub IsWord : Text → Type 0
IsWord w = AllPlain w × (w ≢ []) × (length w < tmp_size)

abbrev pub AllWords : List Text → Type 0
AllWords [] = Unit {0}
AllWords (w ∷ ws) = IsWord w × AllWords ws

-- The words with one space between each two.
unfoldable pub join : List Text → Text
join [] = []
join (w ∷ []) = w
join (w ∷ v ∷ ws) = w ++ (space ∷ join (v ∷ ws))

-- A word that stands before a separator or the end is scanned whole.
pub scan_word-append :
    (w : Text) (room : ℕ) (c : ℕ) (rest : Text)
    → AllPlain w
    → ends_word c ≡ true
    → length w < room
    → scan_word room (w ++ (c ∷ rest)) ≡ (w, room - length w, c ∷ rest)
unfolding scan_word
scan_word-append w zero c rest p e lt = absurd (omega arith)
scan_word-append [] (suc room) c rest p e lt = rw e (ground arith)
scan_word-append (d ∷ w) (suc room) c rest p e lt =
    rw (p.0, scan_word-append w room c rest p.1 e (omega arith)) (ground arith)

scan_word-end :
    (w : Text) (room : ℕ)
    → AllPlain w
    → length w < room
    → scan_word room w ≡ (w, room - length w, [])
unfolding scan_word
scan_word-end w zero p lt = absurd (omega arith)
scan_word-end [] (suc room) p lt = ground arith
scan_word-end (d ∷ w) (suc room) p lt =
    rw (p.0, scan_word-end w room p.1 (omega arith)) (ground arith)

-- What follows a word: the end, or one more character and the next round.
abbrev behind : ℕ → ℕ → ℕ → Text → Text → Split
behind fuel room n word [] = split (word ∷ [])
behind fuel room n word (d ∷ rest) = cons_word word (words_loop fuel (room - 1) rest (n + 1))

-- One round of the loop, at a word that fits.
words_loop_round :
    (fuel room c n : ℕ) (t word : Text) (room' : ℕ) (rest : Text)
    → (c == newline) ≡ false
    → scan_word (suc room) (c ∷ t) ≡ (word, room', rest)
    → length word < tmp_size
    → n < max_words
    → words_loop (suc fuel) (suc room) (c ∷ t) n ≡ behind fuel room' n word rest
unfolding words_loop
words_loop_round fuel room c n t word room' [] nl run short few = rw (nl, run) (ground arith)
words_loop_round fuel room c n t word room' (d ∷ rest) nl run short few =
    rw (nl, run) (ground arith)

words_loop-join :
    (ws : List Text) (fuel room n : ℕ)
    → ws ≢ []
    → AllWords ws
    → length (join ws) < room
    → length ws < fuel
    → n + length ws ≤ max_words
    → words_loop fuel room (join ws) n ≡ split ws
unfolding join
words_loop-join [] fuel room n ne ok fits f few = absurd (ne refl)
words_loop-join ([] ∷ ws) fuel room n ne ok fits f few = absurd (ok.0.1 refl)
words_loop-join ((c ∷ w) ∷ ws) zero room n ne ok fits f few = absurd (omega arith)
words_loop-join ((c ∷ w) ∷ ws) (suc fuel) zero n ne ok fits f few = absurd (omega arith)
words_loop-join ((c ∷ w) ∷ []) (suc fuel) (suc room) n ne ok fits f few =
    words_loop_round fuel room c n w (c ∷ w) _ [] (ground (arith, ok.0.0.0))
      (scan_word-end (c ∷ w) (suc room) ok.0.0 fits) ok.0.2 (omega arith)
words_loop-join ((c ∷ w) ∷ v ∷ ws) (suc fuel) (suc room) n ne ok fits f few =
    words_loop_round fuel room c n (w ++ (space ∷ join (v ∷ ws))) (c ∷ w) _ (space ∷ join (v ∷ ws))
      (ground (arith, ok.0.0.0))
      (scan_word-append (c ∷ w) (suc room) space (join (v ∷ ws)) ok.0.0 refl
        (omega (arith, length-append {0} w (space ∷ join (v ∷ ws)))))
      ok.0.2 (omega arith)
    ∙ ap (cons_word (c ∷ w)) (
        words_loop-join (v ∷ ws) fuel (suc room - length (c ∷ w) - 1) (n + 1) (λ e. cc) ok.1
          (omega (arith, length-append {0} w (space ∷ join (v ∷ ws)))) (omega arith) (omega arith))

words_loop_empty :
    (fuel room : ℕ)
    → words_loop (suc fuel) (skip_spaces (suc room) []).0 (skip_spaces (suc room) []).1 0 ≡ split []
unfolding words_loop skip_spaces
words_loop_empty fuel room = refl

pub skip_spaces_none :
    (room c : ℕ) (t : Text) → (c == space) ≡ false → skip_spaces room (c ∷ t) ≡ (room, c ∷ t)
unfolding skip_spaces
skip_spaces_none zero c t h = refl
skip_spaces_none (suc room) c t h = rw h

join_head : (c : ℕ) (w : Text) (ws : List Text) → (t : Text) × (join ((c ∷ w) ∷ ws) ≡ c ∷ t)
unfolding join
join_head c w [] = (w, refl)
join_head c w (v ∷ ws) = (w ++ (space ∷ join (v ∷ ws)), refl)

-- The whole of `parseInput`'s splitting, for any room and fuel.
words-join :
    (fuel room : ℕ) (ws : List Text)
    → AllWords ws
    → length (join ws) < room
    → length ws < fuel
    → length ws ≤ max_words
    → words_loop fuel (skip_spaces room (join ws)).0 (skip_spaces room (join ws)).1 0 ≡ split ws
unfolding join
words-join zero room ws ok fits f few = absurd (omega arith)
words-join (suc fuel) zero ws ok fits f few = absurd (omega arith)
words-join (suc fuel) (suc room) [] ok fits f few = words_loop_empty fuel room
words-join (suc fuel) (suc room) ([] ∷ ws) ok fits f few = absurd (ok.0.1 refl)
words-join (suc fuel) (suc room) ((c ∷ w) ∷ ws) ok fits f few =
    let (t, e) = join_head c w ws in
    let same =
      ap (skip_spaces (suc room)) e
      ∙ skip_spaces_none (suc room) c t (ground (arith, ok.0.0.0))
      ∙ ap (λ u. (suc room, u)) (sym e) in
    ap (λ (p : ℕ × Text). words_loop (suc fuel) p.0 p.1 0) same
    ∙ words_loop-join ((c ∷ w) ∷ ws) (suc fuel) (suc room) 0 (λ q. cc) ok fits f (omega arith)

-- Words of one to 199 plain characters, at most 100 of them and with less than 1000 characters in
-- all, joined by single spaces, are split back into the same words.
pub parse_words-join :
    (ws : List Text)
    → AllWords ws
    → length (join ws) < max_user_input
    → length ws ≤ max_words
    → parse_words (join ws) ≡ split ws
unfolding parse_words
parse_words-join ws ok fits few =
    words-join (max_user_input + 1) max_user_input ws ok fits (omega arith) few
