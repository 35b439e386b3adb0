-- ===== src/Omlet/ClosureTests.antt =====
-- The theorems about OMLet/lib/runtime.c at a heap with one closure of two arguments, which has
-- received none.
use pudge_with_mo_ml.Base.{
  ℕ, ◌<◌, ◌≡◌, refl, true, [], ◌∷◌, ◌++◌, arith, ◌==◌, if◌then◌else◌, ok, ◌>>=◌,
}
use pudge_with_mo_ml.Memory.{Memory, read_words}
use pudge_with_mo_ml.Omlet.{Runtime, cur_heap}
use pudge_with_mo_ml.Omlet.Closure.{Call, apply}
use pudge_with_mo_ml.Omlet.Closure.Apply.{IsClosure, in_use}
use pudge_with_mo_ml.Omlet.Closure.Curry.{apply-apply}

abbrev words : Memory
words a = if a == 4104 then 65537 else if a == 4112 then 2 else 0

abbrev sample : Runtime
sample = record {
  heap_from = record { start = 4096; size = 1000; offset = 48 };
  heap_to = record { start = 8192; size = 1000; offset = 0 };
  is_from = true;
  total_amount_of_allocated_memory = 0;
  number_of_gc_sessions = 0;
  mem = words;
  stack = 4104 ∷ [];
}

closure : IsClosure sample 4104 65537 2 0
unfolding cur_heap
closure = record {
  code_at = refl;
  arity_at = refl;
  received_at = refl;
  below = omega arith;
  small = omega arith;
}

abbrev first_argument : Call
first_argument code [] w = ok (0, w)
first_argument code (x ∷ xs) w = ok (x, w)

apply-apply_example :
    (w' : Runtime) × ((apply first_argument 0 4104 (11 ∷ []) sample >>= λ r.
    apply first_argument 0 r.0 (13 ∷ []) r.1)
      ≡ first_argument 65537 ((read_words words 4128 0 ++ 11 ∷ []) ++ 13 ∷ []) w')
    × ((b : ℕ) → b < in_use sample → w'.mem b ≡ words b)
unfolding cur_heap
apply-apply_example =
    apply-apply first_argument 0 4104 65537 2 0 sample closure (11 ∷ []) (13 ∷ []) (omega arith)
      refl (omega arith)
