-- ===== src/A3/Pcb/Lines.antt =====
-- About `count_lines` of a3/pcb.c.
use mock_os.Prelude.{ℕ, suc, ◌+◌, ◌≡◌, ◌≢◌, refl, List, [], ◌∷◌, ◌++◌, Text, length, arith}
use mock_os.Libc.{newline}
use mock_os.A3.Pcb.{count_ends, count_lines}

-- A character that is no newline, for each of a line.
abbrev pub IsPlain : Text → Type 0
IsPlain [] = Unit
IsPlain (c ∷ t) = (c ≢ newline) × IsPlain t

-- A line has a first character, and no newline.
pub record Line : Type 0 where
  pub first : ℕ
  pub more : Text
  pub first_plain : first ≢ newline
  pub more_plain : IsPlain more

abbrev pub text_of : Line → Text
text_of l = l.first ∷ l.more

-- Each line with a newline behind it, and then a text.
abbrev pub lines_then : List Line → Text → Text
lines_then [] t = t
lines_then (l ∷ ls) t = text_of l ++ (newline ∷ lines_then ls t)

count_ends-plain :
    (last : ℕ) (t rest : Text)
    → IsPlain t
    → last ≢ newline
    → count_ends last (t ++ (newline ∷ rest)) ≡ suc (count_ends newline rest)
unfolding count_ends
count_ends-plain last [] rest h e = ground arith
count_ends-plain last (c ∷ t) rest (d, h) e = ground (arith, count_ends-plain c t rest h d)

count_ends-unterminated : (last : ℕ) (t : Text) → IsPlain t → count_ends last t ≡ 0
unfolding count_ends
count_ends-unterminated last [] h = refl
count_ends-unterminated last (c ∷ t) (d, h) = ground (arith, count_ends-unterminated c t h)

count_ends-lines_then :
    (ls : List Line) (t : Text)
    → count_ends newline (lines_then ls t) ≡ length ls + count_ends newline t
unfolding count_ends
count_ends-lines_then [] t = omega arith
count_ends-lines_then (l ∷ ls) t =
    let rest = lines_then ls t in
    ground (
      arith,
      count_ends-plain l.first l.more rest l.more_plain l.first_plain,
      count_ends-lines_then ls t,
      l.first_plain,
    )

-- For a file of lines that are not empty, with a newline behind each of them, count_lines is one
-- more than the number of lines; it is the same for the file that has one more line, without a
-- newline.
pub count_lines-lines_then :
    (ls : List Line) (l : Line)
    → (count_lines (lines_then ls []) ≡ length ls + 1)
      × (count_lines (lines_then ls (text_of l)) ≡ length ls + 1)
unfolding count_lines count_ends
count_lines-lines_then ls l = (
  omega (arith, count_ends-lines_then ls []),
  omega (
    arith,
    count_ends-lines_then ls (text_of l),
    count_ends-unterminated newline (text_of l) (l.first_plain, l.more_plain),
  ),
)
