-- ===== src/A3/Pcb/Paging.antt =====
-- a3/pcb.c: what loading and freeing pages does to the memory.
use mock_os.Prelude.{
  ℕ, zero, suc, ◌+◌, ◌*◌, ◌≤◌, ◌<◌, ◌≡◌, ◌≢◌, refl, ◌∙◌, ap, inl, inr, true, false, ◌&&◌,
  Bool-cases, Option, some, List, [], ◌∷◌, Text, length, length-set, get_elem?, set,
  get_elem?-set_self, get_elem?-set_ne, leb, ltb, dec_lt, ◌==◌, if◌then◌else◌, arith,
}
use mock_os.Libc.{File, fgets}
use mock_os.Store.{Slot, free_slot}
use mock_os.A3.ShellMemory.{
  Config, frame_alloc, mem_set_value_at, mem_free_at, clear_slots, clear_frame,
}
use mock_os.A3.ShellMemory.Frames.{Allocated, frame_alloc-Allocated}
use mock_os.A3.Pcb.{
  Page, Pcb, placed, ◌>>=◌, page_table_size, load_lines, load_page, clear_frames, clear_pages,
  free_pcb,
}

get_elem?-put {ℓ} :
    {A : Type ℓ} (xs : List A) (i j : ℕ) (v : A)
    → i < length xs
    → get_elem? (set xs i v) j ≡ (if i == j then some v else get_elem? xs j)
get_elem?-put xs i j v h = elim (Bool-cases (i == j)) [
  | inl same ↦ let e : i ≡ j = ground (arith, same) in rw (same, ← e) (get_elem?-set_self xs i v h)
  | inr other ↦ let e : i ≢ j = λ q. ground (arith, other, q) in rw other (get_elem?-set_ne xs v e)
]

-- The pages that PAGE_table_size computes hold all the lines, with less than a page to spare.
pub page_table_size_lem :
    (lines : ℕ) → (lines ≤ 3 * page_table_size lines) × (3 * page_table_size lines < lines + 3)
unfolding page_table_size
page_table_size_lem lines = (ground arith, ground arith)

-- A run of slots cleared.
pub record Cleared (mem : List Slot) (i n : ℕ) (mem' : List Slot) : Type 0 where
  pub size : length mem' ≡ length mem
  pub slots :
      (j : ℕ)
      → get_elem? mem' j ≡ (if leb i j && ltb j (i + n) then some free_slot else get_elem? mem j)

clear_one :
    (n i : ℕ) (mem : List Slot)
    → i < length mem
    → clear_slots (suc n) i mem ≡ clear_slots n (i + 1) (set mem i free_slot)
unfolding clear_slots mem_free_at
clear_one n i mem h =
    let inside : ltb i (length mem) ≡ true = ground (arith, h) in rw (clear_slots, inside) refl

clear_slots-Cleared :
    (n i : ℕ) (mem : List Slot)
    → i + n ≤ length mem
    → (mem' : List Slot) × (clear_slots n i mem ≡ some mem') × Cleared mem i n mem'
unfolding clear_slots mem_free_at
clear_slots-Cleared zero i mem h = (mem, refl, record { size = refl; slots = λ j. ground arith })
clear_slots-Cleared (suc n) i mem h =
    let room : i + 1 + n ≤ length (set mem i free_slot) =
      omega (arith, length-set mem i free_slot) in
    let (mem', run, rest) = clear_slots-Cleared n (i + 1) (set mem i free_slot) room in
    (
      mem',
      clear_one n i mem (omega arith) ∙ run,
      record {
        size = rest.size ∙ length-set mem i free_slot;
        slots = λ j. rest.slots j ∙ ground (arith, get_elem?-put mem i j free_slot (omega arith));
      },
    )

-- For a process of one page in the slots i, i + 1 and i + 2, free_pcb, for free_PCB, empties
-- these slots and the two behind them, i + 3 and i + 4, whomever they belong to, and no other
-- slot, where the memory has them.
pub free_pcb_clears :
    (pcb : Pcb) (page : Page) (i : ℕ) (mem : List Slot)
    → pcb.page_table ≡ page ∷ []
    → page.index ≡ i ∷ (i + 1) ∷ (i + 2) ∷ []
    → i + 5 ≤ length mem
    → (mem' : List Slot) × (free_pcb pcb mem ≡ some mem') × Cleared mem i 5 mem'
unfolding free_pcb clear_pages clear_frames clear_frame
free_pcb_clears pcb page i mem one here room =
    let (m₁, run₁, done₁) = clear_slots-Cleared 3 i mem (omega arith) in
    let (m₂, run₂, done₂) = clear_slots-Cleared 3 (i + 1) m₁ (omega (arith, done₁.size)) in
    let (m₃, run₃, done₃) =
      clear_slots-Cleared 3 (i + 2) m₂ (omega (arith, done₁.size, done₂.size)) in
    (
      m₃,
      ap (λ ps. clear_pages ps mem) one
          ∙ ap (λ is. clear_frames is mem >>= λ mem'. clear_pages [] mem') here
          ∙ rw (run₁, run₂, run₃) refl,
      record {
        size = done₃.size ∙ done₂.size ∙ done₁.size;
        slots = λ j. ground (arith, done₃.slots j, done₂.slots j, done₁.slots j);
      },
    )

-- A line in a slot.
abbrev pub line_of : Text → Text → Slot
line_of pid text = record { var = pid; value = text }

-- The memory after an allocation whose three slots are then set.
three_lines :
    (pid : Text) (mem mem₁ : List Slot) (i : ℕ)
    → Allocated pid mem i mem₁
    → i + 3 ≤ length mem
    → (s₀ s₁ s₂ : Slot) (j : ℕ)
    → get_elem? (set (set (set mem₁ i s₀) (i + 1) s₁) (i + 2) s₂) j ≡ (
        if i == j
        then some s₀
        else if i + 1 == j
        then some s₁
        else if i + 2 == j
        then some s₂
        else get_elem? mem j)
three_lines pid mem mem₁ i done room s₀ s₁ s₂ j =
    let m₁ = set mem₁ i s₀ in
    let m₂ = set m₁ (i + 1) s₁ in
    let size₁ : length m₁ ≡ length mem = length-set mem₁ i s₀ ∙ done.size in
    let size₂ : length m₂ ≡ length mem = length-set m₁ (i + 1) s₁ ∙ size₁ in
    let put₀ = get_elem?-put mem₁ i j s₀ (omega (arith, done.size)) in
    let put₁ = get_elem?-put m₁ (i + 1) j s₁ (omega (arith, size₁)) in
    let put₂ = get_elem?-put m₂ (i + 2) j s₂ (omega (arith, size₂)) in
    elim (dec_lt j i) [
      | yes lt ↦ ground (arith, put₀, put₁, put₂, done.others j (inl lt))
      | no ge ↦ elim (dec_lt j (i + 3)) [
        | yes lt ↦ ground (arith, put₀, put₁, put₂)
        | no behind ↦ ground (arith, put₀, put₁, put₂, done.others j (inr (omega arith)))
      ]
    ]

-- What load_page does with the page loaded.
abbrev finish : Pcb → ℕ → Page × File × List Slot → Option (ℕ × Pcb × List Slot)
finish pcb k r =
    some (0, record pcb { page_table = set pcb.page_table k r.0; source_file = r.1 }, r.2)

load_one :
    (n j slot : ℕ) (pid text : Text) (page : Page) (f f' : File) (mem : List Slot)
    → fgets 999 f ≡ (some text, f')
    → get_elem? page.index j ≡ some slot
    → slot < length mem
    → load_lines (suc n) j pid page f mem
      ≡ load_lines n
          (j + 1)
          pid
          (record page { valid_bit = set page.valid_bit j true })
          f'
          (set mem slot (line_of pid text))
unfolding load_lines mem_set_value_at
load_one n j slot pid text page f f' mem e at h =
    let inside : ltb slot (length mem) ≡ true = ground (arith, h) in
    let page' : Page = record page { valid_bit = set page.valid_bit j true } in
    rw (load_lines, ap (λ r. r.0) e, at, inside)
      (ap (λ g. load_lines n (j + 1) pid page' g (set mem slot (line_of pid text)))
        (ap (λ r. r.1) e))

-- When frame_alloc finds a frame inside the memory and the file of the process has three more
-- lines, load_page of any page of the process, for load_PAGE, succeeds: the next three lines of
-- the file, whichever page they belong to, are in the three slots of the frame under the number
-- of the process, the page has these slots with their valid bits set, and no other slot has
-- changed.
pub load_page_loads :
    (cfg : Config) (decimal : ℕ → Text) (pcb : Pcb) (page : Page) (k i : ℕ) (mem mem₁ : List Slot)
    (l₀ l₁ l₂ : Text) (f₁ f₂ f₃ : File)
    → get_elem? pcb.page_table k ≡ some page
    → frame_alloc cfg (decimal pcb.pid) mem ≡ some (i, mem₁)
    → i + 3 ≤ length mem
    → fgets 999 pcb.source_file ≡ (some l₀, f₁)
    → fgets 999 f₁ ≡ (some l₁, f₂)
    → fgets 999 f₂ ≡ (some l₂, f₃)
    → (pcb' : Pcb) × (mem' : List Slot) × (load_page cfg decimal pcb k mem ≡ some (0, pcb', mem'))
      × (pcb'.source_file ≡ f₃)
      × (pcb'.page_table
          ≡ set pcb.page_table k (record page {
            index = i ∷ (i + 1) ∷ (i + 2) ∷ [];
            valid_bit = true ∷ true ∷ true ∷ [];
          }))
      × ((j : ℕ)
          → get_elem? mem' j ≡ (
              if i == j
              then some (line_of (decimal pcb.pid) l₀)
              else if i + 1 == j
              then some (line_of (decimal pcb.pid) l₁)
              else if i + 2 == j
              then some (line_of (decimal pcb.pid) l₂)
              else get_elem? mem j))
unfolding load_page load_lines mem_set_value_at
load_page_loads cfg decimal pcb page k i mem mem₁ l₀ l₁ l₂ f₁ f₂ f₃ at_k frame room e₀ e₁ e₂ =
    let done = frame_alloc-Allocated cfg (decimal pcb.pid) mem i mem₁ frame in
    let s₀ = line_of (decimal pcb.pid) l₀ in
    let s₁ = line_of (decimal pcb.pid) l₁ in
    let s₂ = line_of (decimal pcb.pid) l₂ in
    let m₁ = set mem₁ i s₀ in
    let m₂ = set m₁ (i + 1) s₁ in
    let size₁ : length m₁ ≡ length mem = length-set mem₁ i s₀ ∙ done.size in
    let size₂ : length m₂ ≡ length mem = length-set m₁ (i + 1) s₁ ∙ size₁ in
    let pid = decimal pcb.pid in
    let p₀ = placed i page in
    let p₁ : Page = record p₀ { valid_bit = true ∷ false ∷ false ∷ [] } in
    let p₂ : Page = record p₀ { valid_bit = true ∷ true ∷ false ∷ [] } in
    let full : Page = record page {
      index = i ∷ (i + 1) ∷ (i + 2) ∷ [];
      valid_bit = true ∷ true ∷ true ∷ [];
    } in
    let pcb' : Pcb = record pcb { page_table = set pcb.page_table k full; source_file = f₃ } in
    (
      pcb',
      set m₂ (i + 2) s₂,
      rw (at_k, frame)
          (ap (λ o. o >>= finish pcb k)
            (load_one 2 0 i pid l₀ p₀ pcb.source_file f₁ mem₁ e₀ refl (omega (arith, done.size))
              ∙ load_one 1 1 (i + 1) pid l₁ p₁ f₁ f₂ m₁ e₁ refl (omega (arith, size₁))
              ∙ load_one 0 2 (i + 2) pid l₂ p₂ f₂ f₃ m₂ e₂ refl (omega (arith, size₂)))),
      refl,
      refl,
      three_lines pid mem mem₁ i done room s₀ s₁ s₂,
    )
