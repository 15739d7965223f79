-- ===== src/A3/Fs/Io.antt =====
-- What the utilities of a3/fs work on: the file system, what was printed, and the host's files. `Host`
-- is the C library and the system underneath: the calls of it that the program makes.
use mock_os.Prelude.{ℕ, Bool, Option, none, some, List, [], ◌∷◌, ◌++◌, Text}
use mock_os.Prelude.Int.{ℤ}
use mock_os.A3.LinkedList.{ok, fault}
use mock_os.A3.Exec.{Exec}
use mock_os.A3.Fs.FreeMap.{BitmapLib}
use mock_os.A3.Fs.State.{FileSys}

pub record Host (W : Type 0) : Type 0 where
  -- `system`
  pub system : Text → W → W
  -- `fopen` for reading, with all of the file, and for writing, with all that is written
  pub read_file : Text → W → Option Text
  pub write_file : Text → List ℕ → W → Option W
  -- "%d" of `printf`, `atoi`, and "%.6f" of a quotient
  pub decimal : ℕ → Text
  pub atoi : Text → ℤ
  pub ratio : ℕ → ℕ → Text
  -- what `hex_dump` prints of bytes from an offset on
  pub hex_dump : ℤ → List ℕ → Text
  -- what stands in memory of that size that `malloc` returns
  pub malloced : ℕ → List ℕ
  -- `strstr(text, pattern) != NULL`
  pub contains : Text → Text → Bool

pub record Io (lib : BitmapLib) (W : Type 0) : Type 0 where
  pub fs : FileSys lib
  pub out : List Text
  pub world : W

module _ {lib : BitmapLib} {W : Type 0} where
  abbrev pub print : Text → Exec (Io lib W) (Unit {0})
  print t s = ok (tt, record s { out = s.out ++ (t ∷ []) })

  -- An operation of the file system; `none`, a panic or a fault, ends the run.
  abbrev pub fs_call : {A : Type 0} → (FileSys lib → Option (A × FileSys lib)) → Exec (Io lib W) A
  fs_call f s = elim (f s.fs) [ none ↦ fault | some (a, fs') ↦ ok (a, record s { fs = fs' }) ]

  abbrev pub fs_do : (FileSys lib → Option (FileSys lib)) → Exec (Io lib W) (Unit {0})
  fs_do f s = elim (f s.fs) [ none ↦ fault | some fs' ↦ ok (tt, record s { fs = fs' }) ]
