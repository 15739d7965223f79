-- ===== src/Store.antt =====
-- The key-value array `struct memory_struct shellmemory[]` that each of the three assignments
-- declares (a1/shellmemory.c, a2/shellmemory.c, a3/shellmemory.c), and the loops that their
-- `mem_init`, `mem_set_value`, `mem_get_value` and `printShellMemory` make over a range of it.
pub mod Laws
use mock_os.Prelude.{ℕ, ◌+◌, Option, none, some, List, [], ◌∷◌, Text, codes, text_eq, if◌then◌else◌}

-- `struct memory_struct`
pub record Slot : Type 0 where
  pub var : Text
  pub value : Text

abbrev pub none_text : Text
none_text = codes "none"

abbrev pub free_slot : Slot
free_slot = record { var = none_text; value = none_text }

-- The first loop of `mem_set_value`: a slot that has the variable gets the value.
unfoldable pub assign : Text → Text → List Slot → Option (List Slot)
assign var value [] = none
assign var value (s ∷ ss) =
    if text_eq s.var var
    then some (record s { value = value } ∷ ss)
    else (elim (assign var value ss) [ none ↦ none | some r ↦ some (s ∷ r) ])

-- The second loop: the first free slot gets the variable and the value.
unfoldable pub claim : Text → Text → List Slot → Option (List Slot)
claim var value [] = none
claim var value (s ∷ ss) =
    if text_eq s.var none_text
    then some (record { var = var; value = value } ∷ ss)
    else (elim (claim var value ss) [ none ↦ none | some r ↦ some (s ∷ r) ])

-- Both loops; a full store stays as it is.
unfoldable pub store_set : Text → Text → List Slot → List Slot
unfolding assign claim
store_set var value ss = elim (assign var value ss) [
  | some r ↦ r
  | none ↦ elim (claim var value ss) [ some r ↦ r | none ↦ ss ]
]

-- The loop of `mem_get_value`.
unfoldable pub store_get : Text → List Slot → Option Text
store_get var [] = none
store_get var (s ∷ ss) = if text_eq s.var var then some s.value else store_get var ss

-- `count_empty` of `printShellMemory`.
unfoldable pub count_empty : List Slot → ℕ
count_empty [] = 0
count_empty (s ∷ ss) = (if text_eq s.var none_text then 1 else 0) + count_empty ss

-- The loop of `mem_init`, `resetvarmem`, `reset_var_zone`: every slot of the range is freed.
unfoldable pub reset : List Slot → List Slot
reset [] = []
reset (s ∷ ss) = free_slot ∷ reset ss
