-- ===== src/Omlet.antt =====
-- OMLet/lib/gc.c: the collector's state and the two heaps.
pub mod Header
pub mod Collect
pub mod Malloc
pub mod Closure
pub mod Status
mod Tests
mod ClosureTests
use pudge_with_mo_ml.Base.{
  ℕ, ◌+◌, ◌-◌, ◌*◌, Bool, true, not, ◌&&◌, List, leb, ltb, if◌then◌else◌, Bool-cases, inl, inr, ◌≡◌,
  refl,
}
use pudge_with_mo_ml.Base.Words.{add_word, sub_word}
use pudge_with_mo_ml.Memory.{Memory}

-- `omletHeap_t`
pub record Heap : Type 0 where
  pub start : ℕ
  pub size : ℕ
  pub offset : ℕ

-- The global variables, with the test whether `cur_heap_ptr` is `&heap_from`, the words of the
-- heaps, and the stack words from `stack_bottom` down to the stack pointer, in that order.
pub record Runtime : Type 0 where
  pub heap_from : Heap
  pub heap_to : Heap
  pub is_from : Bool
  pub total_amount_of_allocated_memory : ℕ
  pub number_of_gc_sessions : ℕ
  pub mem : Memory
  pub stack : List ℕ

-- `HEAP_SIZE`, in bytes
abbrev pub heap_size : ℕ
heap_size = 1000

-- `alloc_heap`; `start` is what `malloc` returns.
unfoldable pub alloc_heap : (start size : ℕ) → Heap
alloc_heap start size = record { start = start; size = size; offset = 0 }

-- `init_heap`; `from` and `to` are what the two calls of `malloc` return.
unfoldable pub init_heap : (from to size : ℕ) → Runtime → Runtime
init_heap from to size w = record w {
  heap_from = record { start = from; size = size; offset = 0 };
  heap_to = record { start = to; size = size; offset = 0 };
  is_from = true;
}

-- `init_start_heap`
unfoldable pub init_start_heap : (from to : ℕ) → Runtime → Runtime
init_start_heap from to w = init_heap from to heap_size w

-- `*cur_heap_ptr`, and the other heap, from which a collection copies
unfoldable pub cur_heap : Runtime → Heap
cur_heap w = if w.is_from then w.heap_from else w.heap_to

unfoldable pub old_heap : Runtime → Heap
old_heap w = if w.is_from then w.heap_to else w.heap_from

-- the block that `free_heap` gives back
unfoldable pub free_heap : Runtime → ℕ
free_heap w = (cur_heap w).start

unfoldable pub set_offset : ℕ → Runtime → Runtime
set_offset n w =
    if w.is_from
    then record w { heap_from = record w.heap_from { offset = n } }
    else record w { heap_to = record w.heap_to { offset = n } }

unfoldable pub on_heap : ℕ → Heap → Bool
on_heap p h = leb h.start p && ltb p (h.start + h.size)

-- `get_heap_start`, `get_heap_fin` and `get_heap_free_size` return tagged numbers.
unfoldable pub get_heap_start : Runtime → ℕ
get_heap_start w = add_word (2 * (cur_heap w).start) 1

unfoldable pub get_heap_fin : Runtime → ℕ
get_heap_fin w = add_word (2 * ((cur_heap w).start + (cur_heap w).size)) 1

unfoldable pub get_heap_free_size : Runtime → ℕ
get_heap_free_size w = add_word (2 * sub_word (cur_heap w).size (cur_heap w).offset) 1

-- A store and a new offset leave the other heap alone.
pub old_heap-set_offset :
    (n : ℕ) (m : Memory) (w : Runtime) → old_heap (record (set_offset n w) { mem = m }) ≡ old_heap w
unfolding old_heap set_offset
old_heap-set_offset n m w = elim (Bool-cases w.is_from) [ inl e ↦ rw e | inr e ↦ rw e ]

pub cur_heap-set_offset :
    (n : ℕ) (m : Memory) (w : Runtime)
    → cur_heap (record (set_offset n w) { mem = m }) ≡ record (cur_heap w) { offset = n }
unfolding cur_heap set_offset
cur_heap-set_offset n m w = elim (Bool-cases w.is_from) [ inl e ↦ rw e | inr e ↦ rw e ]
