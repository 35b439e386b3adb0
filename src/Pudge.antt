-- ===== src/Pudge.antt =====
-- PudgeWithMoML/lib/runtime/runtime.c: the state that its functions share.
pub mod Print
pub mod Heap
pub mod Collect
pub mod Malloc
pub mod Closure
pub mod Status
pub mod Run
mod Tests
mod ClosureTests
mod RunTests
mod ChainTests
use pudge_with_mo_ml.Base.{ℕ, ◌+◌, ◌*◌, List}
use pudge_with_mo_ml.Memory.{Memory}

-- `GC_state`, the heap's words, and the words that the collector takes for roots: the stack cells
-- from `base_sp` down to the stack pointer, and the global variables' section.
pub record Runtime : Type 0 where
  pub base_sp : ℕ
  pub space_capacity : ℕ
  pub heap_start : ℕ
  pub new_space : ℕ
  pub alloc_offset : ℕ
  pub old_space : ℕ
  pub alloc_count : ℕ
  pub alloc_bytes_count : ℕ
  pub collect_count : ℕ
  pub obj_count : ℕ
  pub mem : Memory
  pub stack : List ℕ
  pub globals : List ℕ

-- `SPACE_SIZE`, in words.
abbrev pub space_size : ℕ
space_size = 65536

-- `init_GC`; `heap` is what `malloc` returns. The counters are static and keep their values.
unfoldable pub init_gc : (base_sp heap : ℕ) → Runtime → Runtime
init_gc base_sp heap w = record w {
  base_sp = base_sp;
  space_capacity = space_size;
  new_space = heap;
  heap_start = heap;
  alloc_offset = 0;
  old_space = heap + 8 * space_size;
}
