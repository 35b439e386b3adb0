-- ===== src/AkaMl/Status.antt =====
-- What akaML/lib/runtime/runtime.c reports of its banks: `get_heap_start`, `get_heap_final` and
-- `print_gc_status`, as built with TEST, which leaves out the addresses.
use pudge_with_mo_ml.Base.{ℕ, ◌/◌, leb, if◌then◌else◌, ◌-◌}
use pudge_with_mo_ml.Base.Int.{ℤ, pos, negsuc}
use pudge_with_mo_ml.AkaMl.{Runtime, bank_start, bank_final, size_heap}

unfoldable pub get_heap_start : Runtime → ℕ
get_heap_start w = bank_start w

unfoldable pub get_heap_final : Runtime → ℕ
get_heap_final w = bank_final w

-- the difference of two pointers to words, in words
unfoldable pub words_between : (p q : ℕ) → ℤ
words_between p q = if leb q p then pos ((p - q) / 8) else negsuc ((q - p) / 8 - 1)

pub record Status : Type 0 where
  pub current_allocated : ℤ
  pub free_space : ℤ
  pub heap_size : ℕ
  pub current_bank : ℕ
  pub total_allocated : ℕ
  pub gc_collections : ℕ
  pub gc_allocations : ℕ

unfoldable pub gc_status : Runtime → Status
gc_status w = record {
  current_allocated = words_between w.ptr_base (bank_start w);
  free_space = words_between (bank_final w) w.ptr_base;
  heap_size = size_heap;
  current_bank = w.bank_current;
  total_allocated = w.words_allocated_total;
  gc_collections = w.collections_count;
  gc_allocations = w.allocations_count;
}
