-- ===== src/A1/ShellMemory.antt =====
-- a1/shellmemory.c: 1000 variables. The array is the list of its slots.
pub mod Laws
use mock_os.Prelude.{ℕ, none, some, List, Text, codes}
use mock_os.Store.{Slot, store_set, store_get, reset}

abbrev pub shell_mem_length : ℕ
shell_mem_length = 1000

abbrev pub missing_text : Text
missing_text = codes "Variable does not exist"

-- Both loops of `mem_init` and of the functions below run over the whole array.
unfoldable pub mem_init : List Slot → List Slot
unfolding reset
mem_init = reset

unfoldable pub mem_set_value : Text → Text → List Slot → List Slot
unfolding store_set
mem_set_value var value mem = store_set var value mem

unfoldable pub mem_get_value : Text → List Slot → Text
unfolding store_get
mem_get_value var mem = elim (store_get var mem) [ some v ↦ v | none ↦ missing_text ]
