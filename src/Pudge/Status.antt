-- ===== src/Pudge/Status.antt =====
-- What PudgeWithMoML/lib/runtime/runtime.c reports of its heap: `_print_gc_stats`,
-- `print_gc_status`, `get_heap_start` and `get_heap_fin`. Addresses are shown relative to the heap.
pub mod Layout
use pudge_with_mo_ml.Memory.{Memory}
use pudge_with_mo_ml.Base.{
  ℕ, zero, suc, ◌+◌, ◌-◌, ◌*◌, ◌/◌, ◌%◌, ◌^◌, true, false, ◌&&◌, List, [], ◌∷◌, ltb, leb, ◌==◌,
  if◌then◌else◌, Option, none, some,
}
use pudge_with_mo_ml.Pudge.{Runtime, space_size}

-- `GC_HEAP_OFFSET`
abbrev pub gc_heap_offset : ℕ
gc_heap_offset = 0x100000000

-- What `_print_gc_stats` prints, in order.
pub record Stats : Type 0 where
  pub heap_base : ℕ
  pub new_space : ℕ
  pub capacity : ℕ
  pub used : ℕ
  pub live : ℕ
  pub allocations : ℕ
  pub allocated_words : ℕ
  pub collections : ℕ

-- `p - gc.heap_start + (void **)GC_HEAP_OFFSET`
unfoldable pub shown_address : (p : ℕ) → Runtime → ℕ
shown_address p w = gc_heap_offset + 8 * ((p - w.heap_start) / 8)

unfoldable pub gc_stats : Runtime → Stats
gc_stats w = record {
  heap_base = gc_heap_offset;
  new_space = shown_address w.new_space w;
  capacity = w.space_capacity;
  used = w.alloc_offset;
  live = w.obj_count;
  allocations = w.alloc_count;
  allocated_words = w.alloc_bytes_count / 8;
  collections = w.collect_count;
}

-- An object as `print_gc_status` lists it: its address, its offset, its size, and its words.
pub record Row : Type 0 where
  pub address : ℕ
  pub offset : ℕ
  pub size : ℕ
  pub words : List (ℕ × ℕ × ℕ)

unfoldable pub row_address : (offset : ℕ) → Runtime → ℕ
row_address offset w =
    if w.new_space == w.heap_start
    then gc_heap_offset + 8 * offset
    else gc_heap_offset + 8 * space_size + 8 * offset

-- A word that points into the part in use is shown relative to the heap.
unfoldable pub shown_word : ℕ → Runtime → ℕ
shown_word v w =
    if leb w.new_space v && ltb v (w.new_space + 8 * w.alloc_offset) then shown_address v w else v

-- The words of a row: the address, the offset and the word, `n` of them.
unfoldable pub row_words : (n address offset : ℕ) → Runtime → List (ℕ × ℕ × ℕ)
row_words zero address offset w = []
row_words (suc n) address offset w =
    (address, offset, shown_word (w.mem (w.new_space + 8 * offset)) w)
    ∷ row_words n (address + 8) (offset + 1) w

-- The loop over the objects from word `offset` on; `none` when the fuel runs out.
unfoldable pub status_rows : ℕ → (offset : ℕ) → Runtime → Option (List Row)
status_rows zero offset w = none
status_rows (suc fuel) offset w =
    let size = w.mem (w.new_space + 8 * offset) in
    let address = row_address offset w in
    let row : Row = record {
      address = address;
      offset = offset;
      size = size;
      words = row_words size (address + 8) (offset + 1) w;
    } in
    elim (ltb offset w.alloc_offset) [
      | false ↦ some []
      | true ↦ elim (status_rows fuel (offset + 1 + size) w) [
        | none ↦ none
        | some rows ↦ some (row ∷ rows)
      ]
    ]

-- Both are returned as tagged words.
unfoldable pub get_heap_start : Runtime → ℕ
get_heap_start w = (2 * shown_address w.new_space w + 1) % 2 ^ 64

unfoldable pub get_heap_fin : Runtime → ℕ
get_heap_fin w = (2 * (shown_address w.new_space w + 8 * w.space_capacity) + 1) % 2 ^ 64

-- The lines of `print_stack`, `n` of them from the cell at `address` down; `cells` is the memory of the
-- machine stack.
unfoldable pub stack_rows : Memory → (n address : ℕ) → List (ℕ × ℕ)
stack_rows cells zero address = []
stack_rows cells (suc n) address = (address, cells address) ∷ stack_rows cells n (address - 8)

-- `print_stack`, which is compiled with DEBUG: the size of the stack, and its cells from the one at
-- `base_sp` on. The stack pointer is not above `base_sp`.
unfoldable pub print_stack : Memory → (program_sp : ℕ) → Runtime → ℕ × List (ℕ × ℕ)
print_stack cells program_sp w =
    let stack_size = (w.base_sp - program_sp) / 8 in
    (stack_size, stack_rows cells stack_size w.base_sp)
