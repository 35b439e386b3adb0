-- ===== src/AkaMl/ClosureTests.antt =====
-- `applyN` of akaML/lib/runtime/runtime.c at a closure of three arguments that has received one.
use pudge_with_mo_ml.Base.{
  ◌+◌, ◌<◌, ◌≡◌, refl, ◌⊎◌, [], ◌∷◌, arith, ◌==◌, if◌then◌else◌, Returns, ok, abort,
}
use pudge_with_mo_ml.Memory.{Memory}
use pudge_with_mo_ml.AkaMl.{Runtime, bank_final}
use pudge_with_mo_ml.AkaMl.Closure.{Call, apply_n}
use pudge_with_mo_ml.AkaMl.Closure.Apply.{IsClosure, Called, Extended, apply_n_lem}

abbrev words : Memory
words a =
    if a == 4104
    then 3
    else if a == 4112
    then 1
    else if a == 4120
    then 65537
    else if a == 4128
    then 11
    else 0

abbrev sample : Runtime
sample = record {
  start_bank_main = 4096;
  final_bank_main = 4608;
  start_bank_sub = 4608;
  final_bank_sub = 5120;
  ptr_base = 4152;
  words_allocated_total = 7;
  bank_current = 0;
  collections_count = 0;
  allocations_count = 1;
  mem = words;
  stack = 4104 ∷ [];
}

closure : IsClosure sample 4104 65537 3 1
closure = record {
  arity_at = refl;
  received_at = refl;
  code_at = refl;
  below = omega arith;
  le = omega arith;
  small = omega arith;
}

abbrev first_argument : Call
first_argument code [] w = ok (0, w)
first_argument code (x ∷ xs) w = ok (x, w)

apply_n_lem_example :
    ((3 < 1 + 1) × (apply_n first_argument 0 4104 (13 ∷ []) sample ≡ abort))
    ⊎ (((1 + 1 ≡ 3)
          × ((w' : Runtime) × Called first_argument 0 4104 65537 3 1 sample closure (13 ∷ []) w'))
        ⊎ ((1 + 1 < 3)
            × Returns
                (Extended first_argument 0 4104 65537 3 1 sample closure (13 ∷ []))
                (apply_n first_argument 0 4104 (13 ∷ []) sample)))
unfolding bank_final
apply_n_lem_example =
    apply_n_lem first_argument 0 4104 65537 3 1 sample closure (13 ∷ []) (omega arith)
