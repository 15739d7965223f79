-- ===== src/A1/ShellMemory/Laws.antt =====
-- a1/shellmemory.c: a variable reads back as it was set, and no other one changes.
use mock_os.Prelude.{◌≡◌, ◌≢◌, true, false, List, Text, length}
use mock_os.Store.{Slot, none_text}
use mock_os.Store.Laws.{has_room, store_set-Stored, store_get-reset, length-reset}
use mock_os.A1.ShellMemory.{mem_init, mem_set_value, mem_get_value, missing_text}

-- `mem_set_value` to an array that has the variable or a free slot makes `mem_get_value` return the
-- value for it, and the same as before for every other name but the free one; to an array without
-- room it changes nothing.
pub set-get :
    (var value : Text) (mem : List Slot)
    → (has_room var mem ≡ true → mem_get_value var (mem_set_value var value mem) ≡ value)
      × ((k : Text)
          → k ≢ var
          → k ≢ none_text
          → mem_get_value k (mem_set_value var value mem) ≡ mem_get_value k mem)
      × (has_room var mem ≡ false → mem_set_value var value mem ≡ mem)
unfolding mem_set_value mem_get_value
set-get var value mem =
    let stored = store_set-Stored var value mem in
    (
      λ room. rw (stored.self room, mem_get_value),
      λ k ne ne'. rw (stored.other k ne ne', mem_get_value),
      stored.full,
    )

-- After `mem_init` every name but the free one is reported as missing, and the array keeps its size.
pub init-get :
    (mem : List Slot)
    → (length (mem_init mem) ≡ length mem)
      × ((k : Text) → k ≢ none_text → mem_get_value k (mem_init mem) ≡ missing_text)
unfolding mem_init mem_get_value
init-get mem = (length-reset mem, λ k ne. rw (store_get-reset k mem ne, mem_get_value))
