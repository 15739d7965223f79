-- ===== src/Tests/Utilities.antt =====
-- Runs of the utilities of assignment 3.
use mock_os.Prelude.{
  ℕ, ◌+◌, ◌*◌, ◌≡◌, ◌↔◌, refl, true, List, [], ◌∷◌, ◌++◌, if◌then◌else◌, ltb, length, drop,
  replicate, arith,
}
use mock_os.A3.Fs.Copy.{failed, at_end, read_all}
use mock_os.A3.Fs.Copy.Reading.{read_all-Overwritten}
use mock_os.A3.Fs.Survey.{is_fragmented}
use mock_os.A3.Fs.Survey.Fragments.{HasGap, is_fragmented_iff}
use mock_os.A3.Pcb.{count_lines}
use mock_os.A3.Pcb.Lines.{Line, lines_then, text_of, count_lines-lines_then}

-- A file of 140 bytes: 64 times 1, 64 times 2 and 12 times 3.
abbrev front : List ℕ
front = replicate 64 1

abbrev block : List ℕ
block = replicate 64 2

abbrev last : List ℕ
last = replicate 12 3

read_all-Overwritten_example :
    read_all (length (front ++ (block ++ last))) (front ++ (block ++ last)) ≡ (
      if ltb (length last) 8
      then failed
      else at_end (last ++ (drop (length last) block ++ replicate (64 * 1 + length last + 1) 0)))
read_all-Overwritten_example = read_all-Overwritten 1 front block last refl refl (omega arith)

is_fragmented_iff_example : (is_fragmented (7 ∷ 8 ∷ 6 ∷ []) ≡ true) ↔ HasGap (7 ∷ 8 ∷ 6 ∷ [])
is_fragmented_iff_example =
    is_fragmented_iff (7 ∷ 8 ∷ 6 ∷ []) (omega arith, (omega arith, (omega arith, tt)))

-- "a"
abbrev letter : Line
letter = record { first = 97; more = []; first_plain = λ e. ground (arith, e); more_plain = tt }

count_lines-lines_then_example :
    (count_lines (lines_then (letter ∷ letter ∷ []) []) ≡ 2 + 1)
    × (count_lines (lines_then (letter ∷ letter ∷ []) (text_of letter)) ≡ 2 + 1)
count_lines-lines_then_example = count_lines-lines_then (letter ∷ letter ∷ []) letter
