-- ===== src/A1/Shell.antt =====
-- a1/shell.c: `parseInput` splits a line into words. An index `a` into the 1000 characters of `ui`
-- is the room that is left, `1000 - a`, and the text from `a` on; the text ends where C has the
-- terminating zero.
pub mod Words
pub mod Bounds
use mock_os.Prelude.{
  ℕ, zero, suc, ◌+◌, ◌-◌, Bool, true, false, ◌||◌, Option, none, some, List, [], ◌∷◌, Text, leb,
  ◌==◌, if◌then◌else◌, length,
}
use mock_os.Libc.{newline, space, semicolon}

abbrev pub max_user_input : ℕ
max_user_input = 1000

-- `char tmp[200]` and `char *words[100]`
abbrev pub tmp_size : ℕ
tmp_size = 200

abbrev pub max_words : ℕ
max_words = 100

abbrev pub ends_word : ℕ → Bool
ends_word c = c == semicolon || (c == newline || c == space)

-- `for (a = 0; ui[a] == ' ' && a < 1000; a++);`
unfoldable pub skip_spaces : ℕ → Text → ℕ × Text
skip_spaces zero t = (zero, t)
skip_spaces (suc room) [] = (suc room, [])
skip_spaces (suc room) (c ∷ t) = if c == space then skip_spaces room t else (suc room, c ∷ t)

-- The inner `for`: the word, and the room and text behind it.
unfoldable pub scan_word : ℕ → Text → Text × ℕ × Text
scan_word zero t = ([], zero, t)
scan_word (suc room) [] = ([], suc room, [])
scan_word (suc room) (c ∷ t) =
    if ends_word c
    then ([], suc room, c ∷ t)
    else (let (w, room', t') = scan_word room t in (c ∷ w, room', t'))

-- What the splitting comes to: the words, or a write past `tmp` or `words`. The code has no test for
-- that: the write is undefined behaviour, for which `overflow` stands.
pub data Split : Type 0 where
  split : List Text → Split
  overflow : Split
  out_of_fuel : Split

abbrev pub cons_word : Text → Split → Split
cons_word w (split ws) = split (w ∷ ws)
cons_word w overflow = overflow
cons_word w out_of_fuel = out_of_fuel

-- The body of the `while` loop behind the inner `for`, with `w` words so far: it stores the word,
-- and stops at the terminating zero or makes the next round. A word of 200 characters or more has
-- been written past `tmp`, and the word 101 is written past `words`; there the model stops.
unfoldable pub store_word : (ℕ → Text → ℕ → Split) → ℕ → Text × ℕ × Text → Split
store_word next w (word, room, []) =
    if leb tmp_size (length word) || leb max_words w then overflow else split (word ∷ [])
store_word next w (word, room, d ∷ rest) =
    if leb tmp_size (length word) || leb max_words w
    then overflow
    else cons_word word (next (room - 1) rest (w + 1))

pub words_loop : ℕ → ℕ → Text → ℕ → Split
unfolding store_word
words_loop zero room t w = out_of_fuel
words_loop (suc fuel) zero t w = split []
words_loop (suc fuel) (suc room) [] w = split []
words_loop (suc fuel) (suc room) (c ∷ t) w =
    let body = store_word (words_loop fuel) w (scan_word (suc room) (c ∷ t)) in
    if c == newline then split [] else body

-- The words that `parseInput` hands to `interpreter`. Each round advances `a`, so that there are
-- at most 1000.
unfoldable pub parse_words : Text → Split
unfolding skip_spaces words_loop scan_word
parse_words ui =
    let (room, t) = skip_spaces max_user_input ui in words_loop (max_user_input + 1) room t 0
