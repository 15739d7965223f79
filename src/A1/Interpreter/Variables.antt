-- ===== src/A1/Interpreter/Variables.antt =====
-- a1/interpreter.c with a1/shell.c and a1/shellmemory.c: what `set` stores, `print` and `echo` show.
use mock_os.Prelude.{
  ℕ, suc, ◌+◌, ◌≤◌, ◌<◌, ◌≡◌, refl, ◌∙◌, ap, ◌≢◌, true, false, some, List, [], ◌∷◌, ◌++◌, map,
  arith, Text, codes, text_eq, ◌==◌, length, length-append,
}
use mock_os.Libc.{strip_line, carriage_return, space}
use mock_os.Store.{none_text}
use mock_os.Store.Laws.{has_room}
use mock_os.A1.ShellMemory.{mem_set_value, mem_get_value}
use mock_os.A1.ShellMemory.Laws.{set-get}
use mock_os.A1.Shell.{split, parse_words, max_words, max_user_input}
use mock_os.A1.Shell.Words.{AllPlain, IsWord, AllWords, join, parse_words-join}
use mock_os.A1.Interpreter.{
  Host, Shell, Outcome, returned, say, set, print, set_command, join_tokens, command, interpreter,
  parse_input, input_size, max_args_size,
}

-- A word with no carriage return in it.
abbrev pub IsClean : Text → Type 0
IsClean [] = Unit {0}
IsClean (c ∷ s) = ((c == carriage_return) ≡ false) × IsClean s

abbrev pub IsToken : Text → Type 0
IsToken w = IsWord w × IsClean w

abbrev pub AllTokens : List Text → Type 0
AllTokens [] = Unit {0}
AllTokens (w ∷ ws) = IsToken w × AllTokens ws

strip_line-clean : (w : Text) → AllPlain w → IsClean w → strip_line w ≡ w
unfolding strip_line
strip_line-clean [] p c = refl
strip_line-clean (d ∷ w) p c = ground (arith, strip_line-clean w p.1 c.1, p.0, c.0)

map-strip_line : (ws : List Text) → AllTokens ws → map strip_line ws ≡ ws
map-strip_line [] h = refl
map-strip_line (w ∷ ws) h = cc (strip_line-clean w h.0.0.0 h.0.1, map-strip_line ws h.1)

AllTokens-AllWords : (ws : List Text) → AllTokens ws → AllWords ws
AllTokens-AllWords [] h = tt
AllTokens-AllWords (w ∷ ws) h = (h.0.0, AllTokens-AllWords ws h.1)

join-join_tokens : (t : Text) (ts : List Text) → join_tokens t ts ≡ join (t ∷ ts)
unfolding join_tokens join
join-join_tokens t [] = refl
join-join_tokens t (u ∷ ts) = ap (λ r. t ++ (space ∷ r)) (join-join_tokens u ts)

module _ {W : Type 0} (host : Host W) where
  parse_input_words :
      (depth : ℕ) (ui : Text) (ws : List Text) (s : Shell W)
      → parse_words ui ≡ split ws
      → parse_input host (suc depth) ui s ≡ interpreter host (parse_input host depth) ws s
  unfolding parse_input
  parse_input_words depth ui ws s e = rw (e, parse_input)

  set_dispatch :
      (parse : Text → Shell W → Outcome W) (args : List Text) (s : Shell W)
      → interpreter host parse (codes "set" ∷ args) s ≡ set_command (map strip_line args) s
  unfolding interpreter command strip_line text_eq
  set_dispatch parse args s = ground arith

  print_dispatch :
      (parse : Text → Shell W → Outcome W) (var : Text) (s : Shell W)
      → interpreter host parse (codes "print" ∷ var ∷ []) s ≡ print (strip_line var) s
  unfolding interpreter command text_eq
  print_dispatch parse var s = refl

  set_command_stores :
      (var t : Text) (ts : List Text) (s : Shell W)
      → length ts + 3 ≤ max_args_size
      → length (join_tokens t ts) < input_size
      → set_command (var ∷ t ∷ ts) s
        ≡ returned (some 0) (record s { memory = mem_set_value var (join_tokens t ts) s.memory })
  unfolding set_command set
  set_command_stores var t ts s few short = ground arith

  length-join_one : (w : Text) → length (join (w ∷ [])) ≡ length w
  unfolding join
  length-join_one w = refl

  length-join_cons :
      (w v : Text) (ws : List Text)
      → length (join (w ∷ v ∷ ws)) ≡ length w + suc (length (join (v ∷ ws)))
  unfolding join
  length-join_cons w v ws = length-append w (space ∷ join (v ∷ ws))

  -- A line of at most 100 clean words reaches the interpreter as these words.
  line_lem :
      (depth : ℕ) (ws : List Text) (s : Shell W)
      → AllTokens ws
      → length ws ≤ max_words
      → length (join ws) < max_user_input
      → parse_input host (suc depth) (join ws) s ≡ interpreter host (parse_input host depth) ws s
  line_lem depth ws s ok few fits =
      parse_input_words depth (join ws) ws s
        (parse_words-join ws (AllTokens-AllWords ws ok) fits few)

  set-IsToken : IsToken (codes "set")
  set-IsToken = (((refl, (refl, (refl, tt))), (λ e. cc), omega arith), (refl, (refl, (refl, tt))))

  print-IsToken : IsToken (codes "print")
  print-IsToken = (
    ((refl, (refl, (refl, (refl, (refl, tt))))), (λ e. cc), omega arith),
    (refl, (refl, (refl, (refl, (refl, tt))))),
  )

  -- What a `set` command leaves.
  abbrev after_set : Text → Text → List Text → Shell W → Shell W
  after_set var t ts s = record s { memory = mem_set_value var (join (t ∷ ts)) s.memory }

  set_line :
      (depth : ℕ) (var t : Text) (ts : List Text) (s : Shell W)
      → IsToken var
      → AllTokens (t ∷ ts)
      → length ts + 3 ≤ max_args_size
      → length (join (t ∷ ts)) < input_size
      → parse_input host (suc depth) (join (codes "set" ∷ var ∷ t ∷ ts)) s
        ≡ returned (some 0) (after_set var t ts s)
  set_line depth var t ts s v ok few short =
      line_lem depth (codes "set" ∷ var ∷ t ∷ ts) s (set-IsToken, (v, ok)) (omega arith)
        (omega
          (arith, length-join_cons (codes "set") var (t ∷ ts), length-join_cons var t ts, v.0.2))
      ∙ set_dispatch (parse_input host depth) (var ∷ t ∷ ts) s
      ∙ ap (λ ws. set_command ws s) (map-strip_line (var ∷ t ∷ ts) (v, ok))
      ∙ set_command_stores var t ts s few (rw (join-join_tokens t ts) short)
      ∙ ap (λ r. returned (some 0) (record s { memory = mem_set_value var r s.memory }))
          (join-join_tokens t ts)

  print_shows :
      (var : Text) (s : Shell W)
      → print var s ≡ returned (some 0) (say (mem_get_value var s.memory) s)
  unfolding print
  print_shows var s = refl

  print_line :
      (depth : ℕ) (var : Text) (s : Shell W)
      → IsToken var
      → parse_input host (suc depth) (join (codes "print" ∷ var ∷ [])) s
        ≡ returned (some 0) (say (mem_get_value var s.memory) s)
  print_line depth var s v =
      line_lem depth (codes "print" ∷ var ∷ []) s (print-IsToken, (v, tt)) (omega arith)
        (omega (arith, length-join_cons (codes "print") var [], v.0.2, length-join_one var))
      ∙ print_dispatch (parse_input host depth) var s
      ∙ ap (λ w. print w s) (strip_line-clean var v.0.0 v.1)
      ∙ print_shows var s

  -- In a shell whose memory has the variable or a free slot, the line `set var t1 ... tn`, with
  -- one to five clean words that make less than 500 characters, stores the words joined by
  -- spaces, and the line `print var` then shows exactly that text; both return 0, and the first
  -- changes neither the output, nor the host, nor what is read for any other name but that of a
  -- free slot.
  pub set_then_print :
      (depth : ℕ) (var t : Text) (ts : List Text) (s : Shell W)
      → IsToken var
      → AllTokens (t ∷ ts)
      → length ts + 3 ≤ max_args_size
      → length (join (t ∷ ts)) < input_size
      → has_room var s.memory ≡ true
      → (s' : Shell W) × (parse_input host (suc depth) (join (codes "set" ∷ var ∷ t ∷ ts)) s
          ≡ returned (some 0) s')
        × (s'.out ≡ s.out)
        × (s'.world ≡ s.world)
        × ((k : Text)
            → k ≢ var
            → k ≢ none_text
            → mem_get_value k s'.memory ≡ mem_get_value k s.memory)
        × (parse_input host (suc depth) (join (codes "print" ∷ var ∷ [])) s'
            ≡ returned (some 0) (say (join (t ∷ ts)) s'))
  set_then_print depth var t ts s v ok few short room =
      let s' = after_set var t ts s in
      (
        s',
        set_line depth var t ts s v ok few short,
        refl,
        refl,
        (set-get var (join (t ∷ ts)) s.memory).1,
        print_line depth var s' v
            ∙ ap (λ r. returned (some 0) (say r s'))
                ((set-get var (join (t ∷ ts)) s.memory).0 room),
      )
