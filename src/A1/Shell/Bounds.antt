-- ===== src/A1/Shell/Bounds.antt =====
-- a1/shell.c: the splitting loop ends within its 1000 rounds, and what the words are made of.
use mathlib.Core.Path.{subst}
use mock_os.Prelude.{
  ℕ, zero, suc, ◌+◌, ◌-◌, ◌≤◌, ◌<◌, ◌≡◌, refl, inl, inr, ◌||◌, List, [], ◌∷◌, Text, arith, leb,
  ◌==◌, length, length-append, Bool-cases,
}
use mock_os.Libc.{newline, space}
use mock_os.A1.Shell.{
  ends_word, skip_spaces, scan_word, Split, split, overflow, out_of_fuel, cons_word, words_loop,
  parse_words, tmp_size, max_words, max_user_input, store_word,
}
use mock_os.A1.Shell.Words.{AllPlain, join}

-- No word has a separator in it.
abbrev pub ArePlain : List Text → Type 0
ArePlain [] = Unit {0}
ArePlain (w ∷ ws) = AllPlain w × ArePlain ws

-- The words, with one character between each two of them, fit into the room.
abbrev pub IsWithin : ℕ → List Text → Type 0
IsWithin zero ws = ws ≡ []
IsWithin (suc room) ws = length (join ws) ≤ suc room

-- The splitting ended, for `chars` characters and words. It writes past an array only where there are
-- 100 of them.
abbrev pub Ends : ℕ → ℕ → Split → Type 0
Ends chars room (split ws) = ArePlain ws × IsWithin room ws
Ends chars room overflow = max_words ≤ chars
Ends chars room out_of_fuel = ⊥

scan_word-length :
    (room : ℕ) (t : Text) → length (scan_word room t).0 + length (scan_word room t).2 ≡ length t
unfolding scan_word
scan_word-length zero t = omega arith
scan_word-length (suc room) [] = omega arith
scan_word-length (suc room) (c ∷ t) = ground (arith, scan_word-length room t)

scan_word-room : (room : ℕ) (t : Text) → length (scan_word room t).0 + (scan_word room t).1 ≤ room
unfolding scan_word
scan_word-room zero t = omega arith
scan_word-room (suc room) [] = omega arith
scan_word-room (suc room) (c ∷ t) = ground (arith, scan_word-room room t)

scan_word-AllPlain : (room : ℕ) (t : Text) → AllPlain (scan_word room t).0
unfolding scan_word
scan_word-AllPlain zero t = tt
scan_word-AllPlain (suc room) [] = tt
scan_word-AllPlain (suc room) (c ∷ t) = elim (Bool-cases (ends_word c)) [
  | inl stop ↦ rw stop tt
  | inr go ↦ rw go (go, scan_word-AllPlain room t)
]

length-join_one : (w : Text) → length (join (w ∷ [])) ≡ length w
unfolding join
length-join_one w = refl

-- A word in front of those that fit into the room behind it and its separator.
IsWithin-cons :
    (w : Text) (room room' : ℕ) (ws : List Text)
    → length w + room' ≤ suc room
    → IsWithin (room' - 1) ws
    → IsWithin (suc room) (w ∷ ws)
unfolding join
IsWithin-cons w room room' [] fits h = omega (arith, length-join_one w)
IsWithin-cons w room zero (v ∷ ws) fits h = absurd (cc h)
IsWithin-cons w room (suc zero) (v ∷ ws) fits h = absurd (cc h)
IsWithin-cons w room (suc (suc room')) (v ∷ ws) fits h =
    let same : suc (suc room') - 1 ≡ suc room' = omega arith in
    let h' : length (join (v ∷ ws)) ≤ suc room' = subst (λ r. IsWithin r (v ∷ ws)) same h in
    omega (arith, length-append w (space ∷ join (v ∷ ws)), h')

cons_word-Ends :
    (w : Text) (chars chars' room room' : ℕ) (r : Split)
    → AllPlain w
    → chars' ≤ chars
    → length w + room' ≤ suc room
    → Ends chars' (room' - 1) r
    → Ends chars (suc room) (cons_word w r)
cons_word-Ends w chars chars' room room' (split ws) plain le fits h =
    ((plain, h.0), IsWithin-cons w room room' ws fits h.1)
cons_word-Ends w chars chars' room room' overflow plain le fits h = omega (arith, h)
cons_word-Ends w chars chars' room room' out_of_fuel plain le fits h = h

store_word-Ends :
    (next : ℕ → Text → ℕ → Split) (chars n room : ℕ) (word : Text) (room' : ℕ) (rest : Text)
    → AllPlain word
    → length word + room' ≤ suc room
    → length word + length rest + n ≤ chars
    → ((t : Text) → Ends (length t + (n + 1)) (room' - 1) (next (room' - 1) t (n + 1)))
    → Ends chars (suc room) (store_word next n (word, room', rest))
unfolding store_word
store_word-Ends next chars n room word room' [] plain fits le h =
    elim (Bool-cases (leb tmp_size (length word) || leb max_words n)) [
      | inl past ↦ rw past (ground (arith, past))
      | inr inside ↦ rw inside ((plain, tt), omega (arith, length-join_one word))
    ]
store_word-Ends next chars n room word room' (d ∷ rest) plain fits le h =
    elim (Bool-cases (leb tmp_size (length word) || leb max_words n)) [
      | inl past ↦ rw past (ground (arith, past))
      | inr inside ↦ rw inside (
          cons_word-Ends word chars (length rest + (n + 1)) room room' _ plain (omega arith) fits
            (h rest))
    ]

length-join_none : length (join []) ≡ 0
unfolding join
length-join_none = refl

-- With more fuel than room the loop ends.
words_loop-Ends :
    (fuel room : ℕ) (t : Text) (n : ℕ)
    → room < fuel
    → Ends (length t + n) room (words_loop fuel room t n)
unfolding words_loop
words_loop-Ends zero room t n f = absurd (omega arith)
words_loop-Ends (suc fuel) zero t n f = (tt, refl)
words_loop-Ends (suc fuel) (suc room) [] n f = (tt, omega (arith, length-join_none))
words_loop-Ends (suc fuel) (suc room) (c ∷ t) n f = elim (Bool-cases (c == newline)) [
  | inl stop ↦ rw stop (tt, omega (arith, length-join_none))
  | inr go ↦
      let word = scan_word (suc room) (c ∷ t) in
      let within = scan_word-room (suc room) (c ∷ t) in
      let read = scan_word-length (suc room) (c ∷ t) in
      rw go (
        store_word-Ends (words_loop fuel) (length (c ∷ t) + n) n room word.0 word.1 word.2
          (scan_word-AllPlain (suc room) (c ∷ t)) within (omega (arith, read))
          λ rest. words_loop-Ends fuel (word.1 - 1) rest (n + 1) (omega (arith, within)))
]

skip_spaces-room :
    (room : ℕ) (t : Text)
    → ((skip_spaces room t).0 ≤ room) × (length (skip_spaces room t).1 ≤ length t)
unfolding skip_spaces
skip_spaces-room zero t = (omega arith, omega arith)
skip_spaces-room (suc room) [] = (omega arith, omega arith)
skip_spaces-room (suc room) (c ∷ t) = ground (arith, skip_spaces-room room t)

IsWithin-le :
    (room room' : ℕ) (ws : List Text)
    → room ≤ suc room'
    → IsWithin room ws
    → IsWithin (suc room') ws
IsWithin-le zero room' ws le h = rw h (omega (arith, length-join_none))
IsWithin-le (suc room) room' ws le h = omega (arith, h)

Ends-le :
    (chars chars' room room' : ℕ) (r : Split)
    → chars ≤ chars'
    → room ≤ suc room'
    → Ends chars room r
    → Ends chars' (suc room') r
Ends-le chars chars' room room' (split ws) more le h = (h.0, IsWithin-le room room' ws le h.1)
Ends-le chars chars' room room' overflow more le h = omega (arith, h)
Ends-le chars chars' room room' out_of_fuel more le h = h

-- The loop of parseInput ends for every input. It writes past tmp or words only on a line of at
-- least 100 characters. When it does not, no word has a space, a newline or a semicolon in it,
-- and the words, with one character between each two of them, are at most 1000 characters long.
pub parse_words-Ends : (ui : Text) → Ends (length ui) max_user_input (parse_words ui)
unfolding parse_words
parse_words-Ends ui =
    let start = skip_spaces max_user_input ui in
    let le = skip_spaces-room max_user_input ui in
    Ends-le (length start.1 + 0) (length ui) start.0 999 _ (omega (arith, le.1))
      (omega (arith, le.0))
      (words_loop-Ends (max_user_input + 1) start.0 start.1 0 (omega (arith, le.0)))
