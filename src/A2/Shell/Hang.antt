-- ===== src/A2/Shell/Hang.antt =====
-- a2/shell.c: a semicolon behind a space keeps the loop of `parseInput` at the same place for ever.
use mock_os.Prelude.{
  ℕ, zero, suc, ◌+◌, ◌-◌, ◌<◌, ◌≡◌, refl, ◌∙◌, ap, false, Option, List, [], ◌∷◌, ◌++◌, Text, ◌==◌,
  length, arith,
}
use mock_os.Libc.{newline, semicolon, space}
use mock_os.A1.Shell.{scan_word, skip_spaces}
use mock_os.A1.Shell.Words.{AllPlain, scan_word-append, skip_spaces_none}
use mock_os.A2.State.{Kernel, out_of_fuel}
use mock_os.A2.Interpreter.{Reply}
use mock_os.A2.Shell.{Words, parse_loop, parse_line, round, end_word, push_word, max_user_input}

module _ (call : List Text → Option Text → Kernel → Reply) where
  no_fuel :
      (room c : ℕ) (t : Text) (ws : Words) (k : Kernel)
      → parse_loop call 0 room (c ∷ t) ws k ≡ out_of_fuel
  unfolding parse_loop
  no_fuel room c t ws k = refl

  parse_loop-round :
      (fuel room c : ℕ) (t : Text) (ws : Words) (k : Kernel) (got : Text × ℕ × Text)
      → (c == newline) ≡ false
      → skip_spaces (suc room) (c ∷ t) ≡ (suc room, c ∷ t)
      → scan_word (suc room) (c ∷ t) ≡ got
      → parse_loop call (suc fuel) (suc room) (c ∷ t) ws k
        ≡ round call (parse_loop call fuel) got ws k
  unfolding parse_loop
  parse_loop-round fuel room c t ws k got nl skip scan =
      rw (nl, ap (λ (r : ℕ × Text). r.1) skip, ap (λ (r : ℕ × Text). r.0) skip, scan)

  semicolon_loops :
      (fuel room : ℕ) (t : Text) (ws : Words) (k : Kernel)
      → 0 < room
      → parse_loop call fuel room (semicolon ∷ t) ws k ≡ out_of_fuel
  unfolding parse_loop round scan_word skip_spaces
  semicolon_loops zero room t ws k h = refl
  semicolon_loops (suc fuel) zero t ws k h = absurd (omega arith)
  semicolon_loops (suc fuel) (suc room) t ws k h = semicolon_loops fuel (suc room) t ws k h

  -- A word that fits is stored, and the space behind it skipped.
  round_stores :
      (next : ℕ → Text → Words → Kernel → Reply) (c room : ℕ) (w t : Text) (ws : Words) (k : Kernel)
      → length (c ∷ w) < 200
      → ws.count < 100
      → round call next (c ∷ w, room, space ∷ t) ws k ≡ next (room - 1) t (push_word (c ∷ w) ws) k
  unfolding round end_word
  round_stores next c room w t ws k short few = ground arith

  word_then_semicolon_loops :
      (fuel room c : ℕ) (w t : Text) (ws : Words) (k : Kernel)
      → AllPlain (c ∷ w)
      → ws.count < 100
      → length (c ∷ w) < 200
      → length (c ∷ w) + 1 < room
      → parse_loop call fuel room (c ∷ (w ++ (space ∷ semicolon ∷ t))) ws k ≡ out_of_fuel
  word_then_semicolon_loops zero room c w t ws k p few short fits = no_fuel room c _ ws k
  word_then_semicolon_loops (suc fuel) zero c w t ws k p few short fits = absurd (omega arith)
  word_then_semicolon_loops (suc fuel) (suc room) c w t ws k p few short fits =
      parse_loop-round fuel room c _ ws k _ (ground (arith, p.0))
        (skip_spaces_none (suc room) c _ (ground (arith, p.0)))
        (scan_word-append (c ∷ w) (suc room) space (semicolon ∷ t) p refl (omega arith))
      ∙ round_stores (parse_loop call fuel) c (suc room - length (c ∷ w)) w (semicolon ∷ t) ws k
          short few
      ∙ semicolon_loops fuel (suc room - length (c ∷ w) - 1) t (push_word (c ∷ w) ws) k
          (omega arith)

  line_loops :
      (fuel room c : ℕ) (w t : Text) (k : Kernel)
      → AllPlain (c ∷ w)
      → length (c ∷ w) < 200
      → length (c ∷ w) + 1 < room
      → let r = skip_spaces room (c ∷ (w ++ (space ∷ semicolon ∷ t))) in
        parse_loop call fuel r.0 r.1 (record { array = []; count = 0 }) k ≡ out_of_fuel
  line_loops fuel room c w t k p short fits =
      ap (λ (r : ℕ × Text). parse_loop call fuel r.0 r.1 (record { array = []; count = 0 }) k)
        (skip_spaces_none room c (w ++ (space ∷ semicolon ∷ t)) (ground (arith, p.0)))
      ∙ word_then_semicolon_loops fuel room c w t (record { array = []; count = 0 }) k p
          (omega arith) short fits

  -- A line that begins with a word of less than 200 plain characters, a space and a semicolon never
  -- gets through `parseInput`: whatever the number of rounds, the loop is still going, and no
  -- command of the line has been run.
  pub parse_line_hangs :
      (fuel c : ℕ) (w t : Text) (k : Kernel)
      → AllPlain (c ∷ w)
      → length (c ∷ w) < 200
      → parse_line call fuel (c ∷ (w ++ (space ∷ semicolon ∷ t))) k ≡ out_of_fuel
  unfolding parse_line
  parse_line_hangs fuel c w t k p short =
      line_loops fuel max_user_input c w t k p short (omega arith)
