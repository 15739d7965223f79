-- ===== src/A3/Shell.antt =====
-- a3/shell.c: `parseInput` cuts a line at semicolons with `strtok`, and each part into words at
-- spaces, for the interpreter. `strtok` keeps the rest of the line in the state, where a script's line
-- that is parsed in between replaces it.
pub mod Answers
pub mod Strtok
use mock_os.Prelude.{
  ℕ, zero, suc, Bool, true, false, ◌||◌, Option, none, some, List, [], ◌∷◌, ◌++◌, Text, codes, leb,
  ltb, ◌==◌, if◌then◌else◌, length,
}
use mock_os.Prelude.Int.{ℤ, pos, negsuc}
use mock_os.Libc.{space, semicolon}
use mock_os.A3.Exec.{Exec, pure, exit, crash, no_fuel, modify, ◌>>=◌, ◌>>◌}
use mock_os.A3.ShellMemory.{Config, mem_init}
use mock_os.A3.Fs.FreeMap.{BitmapLib}
use mock_os.A3.Fs.Io.{Host}
use mock_os.A3.Fs.Mount.{filesys_init}
use mock_os.A3.Machine.{Machine, with_io, say}
use mock_os.A3.Kernel.{kernel_setup}
use mock_os.A3.Scheduler.{run_proc_rr}
use mock_os.A3.Interpreter.{interpreter}

-- `strtok(s, ";")`: semicolons in front are skipped. The token, and the rest behind its semicolon.
unfoldable pub skip_separators : Text → Text
skip_separators [] = []
skip_separators (c ∷ t) = if c == semicolon then skip_separators t else c ∷ t

unfoldable pub cut_token : Text → Text × Text
cut_token [] = ([], [])
cut_token (c ∷ t) =
    let (token, rest) = cut_token t in if c == semicolon then ([], t) else (c ∷ token, rest)

abbrev pub first_token : Text → Option Text × Text
first_token [] = (none, [])
first_token (c ∷ t) = let (token, rest) = cut_token (c ∷ t) in (some token, rest)

unfoldable pub strtok : Text → Option Text × Text
strtok t = first_token (skip_separators t)

-- The words of a part. A space begins a word even where it follows one, but not at the end.
unfoldable pub skip_spaces : Text → Text
skip_spaces [] = []
skip_spaces (c ∷ t) = if c == space then skip_spaces t else c ∷ t

unfoldable pub cut_words : Text → Text → List Text
cut_words word [] = word ∷ []
cut_words word (c ∷ []) = if c == space then word ∷ [] else (word ++ (c ∷ [])) ∷ []
cut_words word (c ∷ d ∷ t) =
    let next = cut_words [] (d ∷ t) in
    let longer = cut_words (word ++ (c ∷ [])) (d ∷ t) in if c == space then word ∷ next else longer

unfoldable pub split_words : Text → List Text
split_words token = elim (skip_spaces token) [ [] ↦ [] | c ∷ t ↦ cut_words [] (c ∷ t) ]

abbrev pub is_minus_one : ℤ → Bool
is_minus_one (negsuc zero) = true
is_minus_one other = false

module _ {lib : BitmapLib} {W : Type 0} where
  unfoldable pub strtok_from : Text → Exec (Machine lib W) (Option Text)
  strtok_from t = do let r = strtok t; modify (λ s. record s { strtok_rest = r.1 }); pure r.0

  abbrev pub strtok_next : Exec (Machine lib W) (Option Text)
  strtok_next s = strtok_from s.strtok_rest s

  module _ (call : List Text → Exec (Machine lib W) ℤ) where
    -- `char token[1000]` and `char *words[100]`
    unfoldable pub call_words : Text → Exec (Machine lib W) ℤ
    call_words token =
        let words = split_words token in
        if leb 1000 (length token) || ltb 100 (length words) then crash else call words

    -- The `while` loop on the tokens
    unfoldable pub parse_tokens : ℕ → ℤ → Option Text → Exec (Machine lib W) ℤ
    parse_tokens fuel ret none = pure ret
    parse_tokens zero ret (some token) = no_fuel
    parse_tokens (suc fuel) ret (some token) = do
      ret' ← call_words token
      next ← strtok_next
      let more : Exec (Machine lib W) ℤ = parse_tokens fuel ret' next
      if is_minus_one ret' then pure ret' else more

    unfoldable pub parse_line : ℕ → Text → Exec (Machine lib W) ℤ
    parse_line fuel ui = strtok_from ui >>= parse_tokens fuel (pos 0)

  module _ (cfg : Config) (host : Host W) (cwd : Text) (fuel : ℕ) where
    -- `parseInput`: the scripts that a command runs call it again, `depth` times at most.
    unfoldable pub parse_input : ℕ → Text → Exec (Machine lib W) ℤ
    parse_input zero ui = no_fuel
    parse_input (suc depth) ui =
        parse_line (interpreter cfg host cwd (run_proc_rr cfg host (parse_input depth) fuel)) fuel
          ui

    -- The loop of `main` on the lines that `fgets` reads, until a command ends it.
    unfoldable pub command_loop : ℕ → List Text → Exec (Machine lib W) (Unit {0})
    command_loop depth [] = pure tt
    command_loop depth (line ∷ lines) = do
      error_code ← parse_input depth line
      let more : Exec (Machine lib W) (Unit {0}) = command_loop depth lines
      if is_minus_one error_code then exit 99 else more

    -- `main` with a disk, behind `getcwd` and `ide_init`
    unfoldable pub main : ℕ → Bool → List Text → Exec (Machine lib W) (Unit {0})
    main depth format lines = do
      with_io (
          modify (λ s. record s {
            world =
                host.system (codes "mkdir backing_store")
                  (host.system (codes "rm -rf backing_store") s.world);
          }))
      say (codes "Shell v2.1")
      say (
          codes "Frame Store Size = "
          ++ (host.decimal cfg.frame_store_size
              ++ (codes "; Variable Store Size = " ++ host.decimal cfg.var_store_size)))
      modify (λ s. record s { memory = mem_init s.memory })
      modify kernel_setup
      with_io (filesys_init host format)
      command_loop depth lines
