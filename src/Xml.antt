-- ===== src/Xml.antt =====
-- XML/bin/runtime.c: the runtime's state and the two halves of the heap.
pub mod Value
pub mod Heap
pub mod Collect
pub mod Alloc
pub mod Apply
pub mod Call
pub mod Init
pub mod Status
pub mod Run
mod Tests
mod HeapTests
mod RunTests
use pudge_with_mo_ml.Base.{
  ℕ, ◌+◌, ◌*◌, ◌/◌, ◌%◌, ◌^◌, Bool, ◌&&◌, List, leb, ltb, ◌==◌, if◌then◌else◌, Outcome, ok, abort,
}
use pudge_with_mo_ml.Base.Words.{add_word}
use pudge_with_mo_ml.Memory.{Memory}

-- The static variables with `GC_STATS`, the addresses of the tables `VT_Block` and `VT_Closure`, the
-- words of the heap, and the stack words below `stack_top`.
pub record Runtime : Type 0 where
  pub from_start : ℕ
  pub from_end : ℕ
  pub to_start : ℕ
  pub to_end : ℕ
  pub alloc_ptr : ℕ
  pub to_alloc : ℕ
  pub runs : ℕ
  pub allocations : ℕ
  pub bytes_allocated_total : ℕ
  pub current_bank : ℕ
  pub vt_block : ℕ
  pub vt_closure : ℕ
  pub mem : Memory
  pub stack : List ℕ

unfoldable pub in_from : ℕ → Runtime → Bool
in_from p w = leb w.from_start p && ltb p w.from_end

unfoldable pub in_to : ℕ → Runtime → Bool
in_to p w = leb w.to_start p && ltb p w.to_end

-- the size of the heap in bytes: at least 2 ^ 20, and even
unfoldable pub heap_size : ℕ → ℕ
heap_size n =
    let n' = if ltb n (2 ^ 20) then 2 ^ 20 else n in if n' % 2 == 1 then add_word n' 1 else n'

-- `rt_init`; `heap` is what `malloc` returns. A panic aborts.
unfoldable pub rt_init : (heap heap_bytes : ℕ) → Runtime → Outcome Runtime
rt_init heap heap_bytes w =
    let n = heap_size heap_bytes in
    let half = n / 2 in
    if heap == 0
    then abort
    else ok (record w {
      from_start = heap;
      from_end = heap + half;
      to_start = heap + half;
      to_end = heap + n;
      alloc_ptr = heap;
      to_alloc = heap + half;
      current_bank = 0;
    })
