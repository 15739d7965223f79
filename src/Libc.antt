-- ===== src/Libc.antt =====
-- What the program uses of the C library: characters, strings without their terminating zero, and
-- reading a text file by `fgets`.
use mock_os.Prelude.{
  ℕ, zero, suc, ◌-◌, Bool, true, false, ◌||◌, ◌&&◌, Option, none, some, [], ◌∷◌, Text, leb, ◌==◌,
  if◌then◌else◌,
}

abbrev pub newline : ℕ
newline = 10

abbrev pub carriage_return : ℕ
carriage_return = 13

abbrev pub space : ℕ
space = 32

abbrev pub semicolon : ℕ
semicolon = 59

abbrev pub dollar : ℕ
dollar = 36

-- `s[strcspn(s, "\r\n")] = 0`: the text up to the first line end.
unfoldable pub strip_line : Text → Text
strip_line [] = []
strip_line (c ∷ s) = if c == carriage_return || c == newline then [] else c ∷ strip_line s

-- `isalnum`, in the C locale
unfoldable pub is_alnum : ℕ → Bool
is_alnum c = leb 48 c && leb c 57 || (leb 65 c && leb c 90 || leb 97 c && leb c 122)

-- The first character, or the terminating zero.
abbrev pub first_char : Text → ℕ
first_char [] = 0
first_char (c ∷ s) = c

-- An open text file: what is left to read, and the end-of-file flag.
pub record File : Type 0 where
  pub rest : Text
  pub eof : Bool

abbrev pub open_file : Text → File
open_file t = record { rest = t; eof = false }

-- At most `k` characters, up to and with a newline; the flag tells that the end was met.
unfoldable pub read_line : ℕ → Text → Text × Text × Bool
read_line zero t = ([], t, false)
read_line (suc k) [] = ([], [], true)
read_line (suc k) (c ∷ t) =
    if c == newline
    then (c ∷ [], t, false)
    else (let (line, rest, eof) = read_line k t in (c ∷ line, rest, eof))

-- `fgets(line, n, f)`: the line, or nothing at the end of the file.
unfoldable pub fgets : ℕ → File → Option Text × File
fgets n f =
    let (line, rest, eof) = read_line (n - 1) f.rest in
    let f' : File = record { rest = rest; eof = f.eof || eof } in
    ((elim line [ [] ↦ none | c ∷ cs ↦ some (c ∷ cs) ]), f')
