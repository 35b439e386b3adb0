-- ===== src/Omlet/Status.antt =====
-- What `print_gc_status` of OMLet/lib/gc.c prints, in order.
use pudge_with_mo_ml.Base.{ℕ, ◌+◌}
use pudge_with_mo_ml.Base.Words.{sub_word}
use pudge_with_mo_ml.Omlet.{Runtime, cur_heap}

pub record Status : Type 0 where
  pub total_memory : ℕ
  pub gc_sessions : ℕ
  pub border_from : ℕ
  pub border_to : ℕ
  pub free_space : ℕ

unfoldable pub gc_status : Runtime → Status
gc_status w = record {
  total_memory = w.total_amount_of_allocated_memory;
  gc_sessions = w.number_of_gc_sessions;
  border_from = (cur_heap w).start;
  border_to = (cur_heap w).start + (cur_heap w).size;
  free_space = sub_word (cur_heap w).size (cur_heap w).offset;
}
