-- ===== src/A2/Shell.antt =====
-- a2/shell.c: `parseInput` splits a line into commands at semicolons and runs each of them. As in
-- assignment 1, an index into the line is the room left below 1000 and the text from there on.
pub mod Hang
use mock_os.Prelude.{
  ℕ, zero, suc, ◌+◌, ◌-◌, Bool, true, false, ◌||◌, Option, none, some, List, [], ◌∷◌, ◌++◌, map,
  Text, leb, ◌==◌, if◌then◌else◌, length, get_elem?, take, drop,
}
use mock_os.Prelude.Int.{ℤ, pos, negsuc}
use mock_os.Libc.{newline, semicolon, space, strip_line, first_char}
use mock_os.A1.Shell.{scan_word, skip_spaces}
use mock_os.A2.State.{Config, Pcb, Kernel, Run, ok, fault, exited, out_of_fuel, ◌>>=◌}
use mock_os.A2.Interpreter.{Host, Reply, interpreter}

abbrev pub max_user_input : ℕ
max_user_input = 1000

-- The array `words`, as far as it has been written, and the number `w` of words of the command.
pub record Words : Type 0 where
  pub array : List Text
  pub count : ℕ

-- `words[w] = strdup(tmp); w++`
abbrev pub push_word : Text → Words → Words
push_word t ws = record {
  array = take ws.count ws.array ++ (t ∷ drop (ws.count + 1) ws.array);
  count = ws.count + 1;
}

-- The interpreter strips its words in place. The array keeps them for the commands that follow.
abbrev pub stripped : Words → Words
stripped ws = record ws {
  array = map strip_line (take ws.count ws.array) ++ drop ws.count ws.array;
}

abbrev pub is_minus_one : Option ℤ → Bool
is_minus_one (some (negsuc n)) = n == 0
is_minus_one _ = false

module _ (call : List Text → Option Text → Kernel → Reply) where
  abbrev pub call_words : Words → Kernel → Reply
  call_words ws k = call (take ws.count ws.array) (get_elem? ws.array 1) k

  -- What follows a word that is not empty.
  unfoldable pub end_word : (ℕ → Text → Words → Kernel → Reply) → ℕ → Text → Words → Kernel → Reply
  end_word next room [] ws k = next (room - 1) [] ws k
  end_word next room (c ∷ rest) ws k =
      if c == semicolon
      then (call_words ws k >>= λ r.
          if is_minus_one r.0
          then ok r
          else (let (room', rest') = skip_spaces (room - 1) rest in
              next room' rest' (record (stripped ws) { count = 0 }) r.1))
      else next (room - 1) rest ws k

  -- One round of the `while` loop from the first character that is no space. An empty word makes
  -- the next round from the same place.
  unfoldable pub round :
      (ℕ → Text → Words → Kernel → Reply) → Text × ℕ × Text → Words → Kernel → Reply
  round next ([], room, rest) ws k = next room rest ws k
  round next (c ∷ word, room, rest) ws k =
      if leb 200 (length (c ∷ word)) || leb 100 ws.count
      then fault
      else end_word next room rest (push_word (c ∷ word) ws) k

  unfoldable pub parse_loop : ℕ → ℕ → Text → Words → Kernel → Reply
  parse_loop zero room t ws k = out_of_fuel
  parse_loop (suc fuel) zero t ws k = call_words ws k
  parse_loop (suc fuel) (suc room) [] ws k = call_words ws k
  parse_loop (suc fuel) (suc room) (c ∷ t) ws k =
      let (room', t') = skip_spaces (suc room) (c ∷ t) in
      let body : Reply = elim t' [
        | [] ↦ call_words ws k
        | d ∷ rest ↦ round (parse_loop fuel) (scan_word room' (d ∷ rest)) ws k
      ] in
      if c == newline then call_words ws k else body

  unfoldable pub parse_line : ℕ → Text → Kernel → Reply
  parse_line fuel ui k =
      let (room, t) = skip_spaces max_user_input ui in
      parse_loop fuel room t (record { array = []; count = 0 }) k

-- `parseInput`: the scripts that a command runs call it again, `depth` times at most.
unfoldable pub parse_input : Config → Host → Pcb → ℕ → ℕ → Text → Kernel → Reply
unfolding parse_line
parse_input cfg host malloced fuel zero ui k = out_of_fuel
parse_input cfg host malloced fuel (suc depth) ui k =
    parse_line
      (interpreter cfg host malloced fuel
        (λ line k'. parse_input cfg host malloced fuel depth line k' >>= λ r. ok r.1))
      fuel ui k
