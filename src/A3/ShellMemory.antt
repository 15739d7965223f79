-- ===== src/A3/ShellMemory.antt =====
-- a3/shellmemory.c: frames of three lines in front, below `FRAME_STORE_SIZE`, and variables behind.
-- An access outside the array is undefined, here `none`.
use mock_os.Prelude.{
  ℕ, zero, suc, ◌+◌, Bool, true, false, ◌&&◌, Option, none, some, List, [], ◌∷◌, ◌++◌, Text, codes,
  text_eq, ltb, ◌==◌, if◌then◌else◌, length, get_elem?, set, take, drop,
}
use mock_os.Store.{Slot, free_slot, none_text, store_set, store_get, reset, count_empty}
pub mod Frames

-- `FRAME_STORE_SIZE` and `VAR_STORE_SIZE` of the Makefile
pub record Config : Type 0 where
  pub frame_store_size : ℕ
  pub var_store_size : ℕ

unfoldable pub mem_init : List Slot → List Slot
unfolding reset
mem_init mem = reset mem

-- `mem_free_at`
unfoldable pub mem_free_at : ℕ → List Slot → Option (List Slot)
mem_free_at pos mem = if ltb pos (length mem) then some (set mem pos free_slot) else none

-- The inner loop of `frame_alloc`: are the `n` slots from `j` on below the border, and free?
unfoldable pub all_free : ℕ → ℕ → ℕ → List Slot → Bool
all_free border zero j mem = true
all_free border (suc n) j mem =
    let rest = all_free border n (j + 1) mem in
    if ltb j border
    then (elim (get_elem? mem j) [
      | none ↦ false
      | some s ↦ if text_eq s.var none_text then rest else false
    ])
    else false

-- The outer loop, for `n` positions from `i` on.
unfoldable pub find_frame : ℕ → ℕ → ℕ → List Slot → Option ℕ
find_frame border zero i mem = none
find_frame border (suc n) i mem =
    let rest = find_frame border n (i + 1) mem in if all_free border 3 i mem then some i else rest

-- A slot gets the process for its key, and keeps its value.
abbrev pub claim_slot : Text → Slot → Slot
claim_slot pid s = record s { var = pid }

-- `shellmemory[k].var = strdup(pid)`
unfoldable pub mark : Text → ℕ → List Slot → List Slot
mark pid k mem = elim (get_elem? mem k) [ none ↦ mem | some s ↦ set mem k (claim_slot pid s) ]

-- `frame_alloc`: the first of the three slots in a row that it takes, which are `index[0..2]`, and
-- the memory; `none` is the result 1.
unfoldable pub frame_alloc : Config → Text → List Slot → Option (ℕ × List Slot)
frame_alloc cfg pid mem = elim (find_frame cfg.frame_store_size cfg.frame_store_size 0 mem) [
  | none ↦ none
  | some i ↦ some (i, mark pid (i + 2) (mark pid (i + 1) (mark pid i mem)))
]

-- `mem_set_value_at`, which sets the valid bit too
unfoldable pub mem_set_value_at : ℕ → Text → Text → List Slot → Option (List Slot)
mem_set_value_at pos pid value mem =
    if ltb pos (length mem) then some (set mem pos (record { var = pid; value = value })) else none

unfoldable pub mem_get_value_at : ℕ → List Slot → Option Text
mem_get_value_at pos mem = elim (get_elem? mem pos) [ none ↦ none | some s ↦ some s.value ]

-- Both loops run from the border on.
unfoldable pub mem_set_value : Config → Text → Text → List Slot → List Slot
unfolding store_set
mem_set_value cfg var value mem =
    take cfg.frame_store_size mem ++ store_set var value (drop cfg.frame_store_size mem)

abbrev pub missing_text : Text
missing_text = codes "Variable does not exist"

-- `caller` is 'p' for `print`; for `echo` a missing variable is an empty text.
unfoldable pub mem_get_value : Config → Text → ℕ → List Slot → Text
unfolding store_get
mem_get_value cfg var caller mem = elim (store_get var (drop cfg.frame_store_size mem)) [
  | some v ↦ v
  | none ↦ if caller == b'p' then missing_text else []
]

unfoldable pub reset_var_zone : Config → List Slot → List Slot
unfolding reset
reset_var_zone cfg mem = take cfg.frame_store_size mem ++ reset (drop cfg.frame_store_size mem)

-- The loop of `clear_frame`, for `n` slots from `i` on.
unfoldable pub clear_slots : ℕ → ℕ → List Slot → Option (List Slot)
clear_slots zero i mem = some mem
clear_slots (suc n) i mem = elim (mem_free_at i mem) [
  | none ↦ none
  | some mem' ↦ clear_slots n (i + 1) mem'
]

unfoldable pub clear_frame : ℕ → List Slot → Option (List Slot)
clear_frame start_pos mem = clear_slots 3 start_pos mem
