-- ===== src/Xml/Status.antt =====
-- What `print_gc_status` of XML/bin/runtime.c prints, in order.
use pudge_with_mo_ml.Base.{ℕ}
use pudge_with_mo_ml.Base.Words.{sub_word}
use pudge_with_mo_ml.Xml.{Runtime}

pub record Status : Type 0 where
  pub current_allocated : ℕ
  pub free_space : ℕ
  pub heap_size : ℕ
  pub current_bank : ℕ
  pub total_allocated : ℕ
  pub gc_collections : ℕ
  pub gc_allocations : ℕ

unfoldable pub gc_status : Runtime → Status
gc_status w = record {
  current_allocated = sub_word w.alloc_ptr w.from_start;
  free_space = sub_word w.from_end w.alloc_ptr;
  heap_size = sub_word w.from_end w.from_start;
  current_bank = w.current_bank;
  total_allocated = w.bytes_allocated_total;
  gc_collections = w.runs;
  gc_allocations = w.allocations;
}
