-- ===== src/A3/Fs/Copy.antt =====
-- a3/fs/fsutil2.c: `copy_in` and `copy_out`, between the host's files and the file system.
pub mod Reading
use mock_os.Prelude.{
  ℕ, zero, suc, ◌+◌, ◌-◌, ◌*◌, ◌/◌, ◌%◌, Bool, Option, none, some, List, [], ◌++◌, Text, codes, leb,
  ltb, ◌==◌, if◌then◌else◌, length, take, drop, replicate,
}
use mock_os.Prelude.Int.{ℤ, pos, negsuc}
use mock_os.A3.Exec.{Exec, pure, gets, demand, crash, ◌>>=◌, ◌>>◌}
use mock_os.A3.Fs.DirEntry.{c_string}
use mock_os.A3.Fs.FreeMap.{BitmapLib, num_free_sectors}
use mock_os.A3.Fs.Io.{Host, Io, print}
use mock_os.A3.Fs.Util.{fsutil_create, fsutil_write, fsutil_read, fsutil_seek, fsutil_size}

-- `enum Error`, the members that copying returns
abbrev pub file_does_not_exist : ℕ
file_does_not_exist = 1

abbrev pub file_creation_error : ℕ
file_creation_error = 10

abbrev pub file_write_error : ℕ
file_write_error = 12

abbrev pub file_read_error : ℕ
file_read_error = 13

-- What the loop over `fread` comes to: the buffer at the end of the file, or the error, or a write
-- past the end of the buffer.
pub data Outcome : Type 0 where
  at_end : List ℕ → Outcome
  failed : Outcome
  overflow : Outcome
  endless : Outcome

-- Bytes put at the start of a buffer.
abbrev pub overlay : List ℕ → List ℕ → List ℕ
overlay bytes buffer = bytes ++ drop (length bytes) buffer

-- `while (!feof(file)) if (fread(buffer, 8, 8, file)) continue; else return`: `sizeof(buffer)` is that
-- of a pointer, and each round puts up to 64 bytes at the start of the buffer. `fread` counts whole
-- items of 8 bytes, and sets the end-of-file flag when it gets less than it asked for.
unfoldable pub fread_loop : ℕ → List ℕ → List ℕ → Outcome
fread_loop zero buffer file = endless
fread_loop (suc fuel) buffer file =
    let got = take 64 file in
    let buffer' = overlay got buffer in
    let next = fread_loop fuel buffer' (drop 64 file) in
    if ltb (length buffer) (length got)
    then overflow
    else if ltb (length got) 8
    then failed
    else if ltb (length got) 64
    then at_end buffer'
    else next

-- Rounds enough for the whole file, and one behind its end.
unfoldable pub read_all : ℕ → List ℕ → Outcome
unfolding fread_loop
read_all size file = fread_loop (length file / 64 + 2) (replicate (size + 1) 0) file

-- The bytes that are written of a file that does not fit, by the free sectors.
unfoldable pub large_write : ℕ → ℕ
large_write free_sectors =
    if leb free_sectors 123
    then free_sectors * 512
    else if leb free_sectors 251
    then (free_sectors - 2) * 512
    else (free_sectors - ((free_sectors - 3 - 1 - 128) / 128 + 3)) * 512

module _ {lib : BitmapLib} {W : Type 0} where
  -- The file is made, its content read, and `count` bytes are written.
  unfoldable pub copy_bytes :
      Host W → Text → ℕ → ℕ → ℕ → List ℕ → Exec (Io lib W) ℕ → Exec (Io lib W) ℕ
  copy_bytes host fname initial size count file rest = do
    made ← fsutil_create host fname initial
    let written = λ (buffer : List ℕ). fsutil_write fname buffer count >>= λ n. elim n [
      | pos zero ↦ pure file_write_error
      | other ↦ rest
    ]
    let filled : Exec (Io lib W) ℕ = elim (read_all size file) [
      | at_end buffer ↦ written buffer
      | failed ↦ pure file_read_error
      | overflow ↦ crash
      | endless ↦ crash
    ]
    if made then filled else pure file_creation_error

  -- `copy_in`: its error code, 0 on success
  unfoldable pub copy_in : Host W → Text → Exec (Io lib W) ℕ
  copy_in host fname = do
    content ← gets (λ s. host.read_file fname s.world)
    free_sectors ← gets (λ s. num_free_sectors s.fs.disk)
    elim content [
      | none ↦ pure file_does_not_exist
      | some file ↦
          let size = length file in
          let file_sectors = if size % 512 == 0 then size / 512 else size / 512 + 1 in
          let done : Exec (Io lib W) ℕ = fsutil_seek fname (pos 0) >> pure 0 in
          let write = large_write free_sectors in
          let warn : Exec (Io lib W) ℕ =
            print (
              codes "Warning: could only write "
              ++ (host.decimal write
                  ++ (codes " out of "
                      ++ (host.decimal size ++ codes " bytes (reached end of file)"))))
            >> done in
          let large = copy_bytes host fname 1 write write file warn in
          let normal = copy_bytes host fname size size (size + 1) file done in
          if ltb free_sectors file_sectors then large else normal
    ]

  -- `copy_out`. A file that does not exist has the size -1, and what is put into the new file is read
  -- from memory that was never written.
  unfoldable pub copy_out : Host W → Text → Exec (Io lib W) ℕ
  copy_out host fname = do
    size ← fsutil_size fname
    fsutil_seek fname (pos 0)
    elim size [
      | negsuc n ↦ do
        fsutil_read fname 0
        opened ← gets (λ s. host.write_file fname [] s.world)
        elim opened [ none ↦ pure file_does_not_exist | some w ↦ crash ]
      | pos size ↦ do
        r ← fsutil_read fname size
        let put : Exec (Io lib W) ℕ = λ s.
            (let text = c_string (overlay r.0 (replicate (size + 1) 0)) in
              elim (host.write_file fname text s.world) [
                | none ↦ pure file_does_not_exist s
                | some w ↦ pure 0 (record s { world = w })
              ])
        elim (r.1) [ pos zero ↦ pure file_read_error | other ↦ put ]
    ]
