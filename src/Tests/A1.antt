-- ===== src/Tests/A1.antt =====
-- Runs of the first assignment's code.
use mock_os.Prelude.{
  ℕ, ◌≡◌, ◌≢◌, refl, true, false, none, some, List, [], ◌∷◌, Text, text_eq, codes, length,
  replicate, arith,
}
use mock_os.Store.{Slot, free_slot, none_text}
use mock_os.Store.Laws.{has, has_room}
use mock_os.A1.ShellMemory.{mem_init, mem_set_value, mem_get_value, missing_text}
use mock_os.A1.ShellMemory.Laws.{set-get, init-get}
use mock_os.A1.Shell.{parse_words, split}
use mock_os.A1.Shell.Words.{join, parse_words-join}
use mock_os.A1.Shell.Bounds.{Ends, parse_words-Ends}
use mock_os.A1.Interpreter.{Host, Shell, returned, parse_input, say}
use mock_os.A1.Interpreter.Variables.{set_then_print}

abbrev memory : List Slot
memory = record { var = codes "x"; value = codes "1" } ∷ replicate 3 free_slot

set-get_example :
    (has_room (codes "y") memory ≡ true
      → mem_get_value (codes "y") (mem_set_value (codes "y") (codes "2") memory) ≡ codes "2")
    × ((k : Text)
        → k ≢ codes "y"
        → k ≢ none_text
        → mem_get_value k (mem_set_value (codes "y") (codes "2") memory) ≡ mem_get_value k memory)
    × (has_room (codes "y") memory ≡ false → mem_set_value (codes "y") (codes "2") memory ≡ memory)
set-get_example = set-get (codes "y") (codes "2") memory

init-get_example :
    (length (mem_init memory) ≡ 4)
    × ((k : Text) → k ≢ none_text → mem_get_value k (mem_init memory) ≡ missing_text)
init-get_example = init-get memory

parse_words-join_example :
    parse_words (codes "set x 1") ≡ split (codes "set" ∷ codes "x" ∷ codes "1" ∷ [])
unfolding join
parse_words-join_example =
    parse_words-join (codes "set" ∷ codes "x" ∷ codes "1" ∷ [])
      (
        ((refl, (refl, (refl, tt))), (λ e. cc), omega arith),
        (((refl, tt), (λ e. cc), omega arith), (((refl, tt), (λ e. cc), omega arith), tt)),
      )
      (omega arith) (omega arith)

parse_words-Ends_example : Ends 8 1000 (parse_words (codes "run  a;b"))
parse_words-Ends_example = parse_words-Ends (codes "run  a;b")

-- A host without files.
abbrev host : Host ℕ
host = record {
  list_dir = λ w. w;
  make_dir = λ t w. w;
  create_file = λ t w. some w;
  change_dir = λ t w. none;
  read_file = λ t w. none;
}

abbrev shell : Shell ℕ
shell = record { memory = memory; out = []; world = 0 }

set_then_print_example :
    (s' : Shell ℕ) × (parse_input host 1 (codes "set y 2 3") shell ≡ returned (some 0) s')
    × (s'.out ≡ [])
    × (s'.world ≡ 0)
    × ((k : Text)
        → k ≢ codes "y"
        → k ≢ none_text
        → mem_get_value k s'.memory ≡ mem_get_value k memory)
    × (parse_input host 1 (codes "print y") s' ≡ returned (some 0) (say (codes "2 3") s'))
unfolding join has text_eq
set_then_print_example =
    set_then_print host 0 (codes "y") (codes "2") (codes "3" ∷ []) shell
      (((refl, tt), (λ e. cc), omega arith), (refl, tt))
      (
        (((refl, tt), (λ e. cc), omega arith), (refl, tt)),
        ((((refl, tt), (λ e. cc), omega arith), (refl, tt)), tt),
      )
      (omega arith) (omega arith) refl
