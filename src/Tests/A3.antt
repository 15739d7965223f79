-- ===== src/Tests/A3.antt =====
-- Runs of the third assignment's code.
use mock_os.Prelude.{
  ℕ, ◌≡◌, ◌<◌, refl, ◌⊎◌, true, none, some, List, [], ◌∷◌, codes, replicate, arith,
}
use mock_os.Store.{Slot, free_slot}
use mock_os.A3.Fs.Block.{Block, update}
use mock_os.A3.Fs.Cache.{
  Cache, buffer_cache_init, buffer_cache_read, buffer_cache_write, buffer_cache_close,
  buffer_cache_evict,
}
use mock_os.A3.Fs.Cache.Evict.{contents, Emptied, evict-Emptied}
use mock_os.A3.Fs.Cache.Refine.{Refines, read_refines, write_refines}
use mock_os.A3.Fs.Cache.Session.{
  Request, get, put, run, disk_replies, disk_after, init-Refines, close_persists, session_persists,
}
use mock_os.A3.ShellMemory.{Config, frame_alloc}
use mock_os.A3.ShellMemory.Frames.{AreFree, FirstFit, Allocated, frame_alloc-FirstFit}

-- A device of four sectors, all of which hold a 5, under an array with a stale entry in every slot.
abbrev disk : Block
disk = record { size = 4; store = λ s. 5 ∷ []; read_cnt = 0; write_cnt = 0 }

abbrev stale : Cache
stale = record {
  entries =
      replicate 64
        (record { occupied = true; disk_sector = 3; buffer = []; dirty = true; access = true });
  clock = 63;
  device = disk;
}

abbrev start : Cache
start = buffer_cache_init stale

abbrev start_ok : Refines stale stale.device.store start
start_ok = init-Refines stale refl (omega arith)

-- The cache after a write of sector 1: a dirty entry under the hand.
abbrev written :
    (c : Cache) × (buffer_cache_write start 1 (7 ∷ []) ≡ some c)
    × Refines start (update (contents start) 1 (7 ∷ [])) c
written = write_refines start 1 (7 ∷ []) start_ok.valid (omega (arith, start_ok.size))

abbrev requests : List Request
requests = get 1 ∷ put 1 (7 ∷ []) ∷ put 3 (8 ∷ []) ∷ get 1 ∷ get 3 ∷ []

session_persists_example :
    (c' c'' : Cache) × (run (buffer_cache_init stale) requests
      ≡ some ((5 ∷ []) ∷ (7 ∷ []) ∷ (8 ∷ []) ∷ [], c'))
    × (buffer_cache_close c' ≡ some c'')
    × ((s : ℕ) → c''.device.store s ≡ disk_after stale.device.store requests s)
unfolding disk_replies
session_persists_example =
    session_persists stale requests refl (omega arith)
      (omega arith, (omega arith, (omega arith, (omega arith, (omega arith, tt)))))

read_refines_example :
    (c' : Cache) × (buffer_cache_read written.0 1 ≡ some (contents written.0 1, c'))
    × Refines written.0 (contents written.0) c'
read_refines_example =
    read_refines written.0 1 written.2.valid (omega (arith, start_ok.size, written.2.size))

write_refines_example :
    (c' : Cache) × (buffer_cache_write start 1 (7 ∷ []) ≡ some c')
    × Refines start (update (contents start) 1 (7 ∷ [])) c'
write_refines_example = write_refines start 1 (7 ∷ []) start_ok.valid (omega (arith, start_ok.size))

close_persists_example :
    (c' : Cache) × (buffer_cache_close written.0 ≡ some c')
    × ((s : ℕ) → c'.device.store s ≡ contents written.0 s)
close_persists_example = close_persists written.0 written.2.valid

evict-Emptied_example : Emptied written.0 (buffer_cache_evict written.0)
evict-Emptied_example = evict-Emptied written.0 written.2.valid

-- Two frames, of which a process holds the first.
abbrev memory : List Slot
memory = record { var = codes "1"; value = codes "a" } ∷ replicate 8 free_slot

abbrev config : Config
config = record { frame_store_size = 9; var_store_size = 2 }

frame_alloc-FirstFit_example :
    ((h : ℕ) → h < 9 → ¬ AreFree 9 memory h) × (frame_alloc config (codes "2") memory ≡ none)
    ⊎ ((i : ℕ) × (mem' : List Slot) × (frame_alloc config (codes "2") memory ≡ some (i, mem'))
        × FirstFit 9 0 9 memory i
        × Allocated (codes "2") memory i mem')
frame_alloc-FirstFit_example = frame_alloc-FirstFit config (codes "2") memory
