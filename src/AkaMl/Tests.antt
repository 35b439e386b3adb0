-- ===== src/AkaMl/Tests.antt =====
-- The theorems about akaML/lib/runtime/runtime.c at a small heap: a closure of one argument in the
-- main bank, which a root points to, and a current bank that is the other one.
use pudge_with_mo_ml.AkaMl.{bank_start, Runtime, is_in_bank_old, is_in_bank_cur, bank_final}
use pudge_with_mo_ml.AkaMl.Alloc.{gc_alloc}
use pudge_with_mo_ml.AkaMl.Alloc.Ends.{Placed, gc_alloc-Ends}
use pudge_with_mo_ml.AkaMl.Collect.{collect, cell, mark_and_copy}
use pudge_with_mo_ml.AkaMl.Collect.Ends.{IsBanks, Bounded, collect-Bounded}
use pudge_with_mo_ml.Base.{
  ◌⊎◌, ◌≢◌, ◌≤◌, length, get_or, EndsOrFaults, ◌^◌, ℕ, ◌+◌, ◌*◌, ◌<◌, ◌≡◌, refl, inl, true, [], ◌∷◌,
  arith, ◌==◌, if◌then◌else◌, Returns,
}
use pudge_with_mo_ml.Base.Int.{pos, negsuc}
use pudge_with_mo_ml.Base.Words.{tagged}
use pudge_with_mo_ml.Memory.{Memory}
use pudge_with_mo_ml.AkaMl.Print.{print_int, print_int-printed}
use pudge_with_mo_ml.AkaMl.Header.{set_header, get_size, get_tag, is_header, set_header_lem}
use pudge_with_mo_ml.AkaMl.Collect.Trace.{IsRoot, mark_and_copy-shallow}
use pudge_with_mo_ml.AkaMl.Closure.{copy_closure}
use pudge_with_mo_ml.AkaMl.Closure.Copy.{copy_closure_lem}

-- header (4 words, closure), arity 1, 1 argument, code, and a pointer to an object elsewhere
abbrev words : Memory
words a =
    if a == 4096
    then 4 * 2 ^ 49 + 247 * 2 ^ 41
    else if a == 4104
    then 1
    else if a == 4112
    then 1
    else if a == 4120
    then 65537
    else if a == 4128
    then 4168
    else 0

abbrev sample : Runtime
sample = record {
  start_bank_main = 4096;
  final_bank_main = 4608;
  start_bank_sub = 4608;
  final_bank_sub = 5120;
  ptr_base = 4608;
  words_allocated_total = 5;
  bank_current = 1;
  collections_count = 0;
  allocations_count = 1;
  mem = words;
  stack = 4104 ∷ 3 ∷ 4104 ∷ [];
}

sample-IsRoot : IsRoot 0 sample
unfolding is_in_bank_old is_in_bank_cur bank_final is_header get_size
sample-IsRoot = record {
  aligned = refl;
  above = omega arith;
  old = refl;
  old_front = refl;
  front = refl;
  first_word = refl;
  first_plain = refl;
  has_words = omega arith;
  room = omega arith;
  base = omega arith;
  current = refl;
  current_next = refl;
  separate = inl (omega arith);
}

mark_and_copy-shallow_example :
    Returns
      (λ w'.
        (w'.ptr_base ≡ 4608 + 8 * (get_size (words 4096) + 1))
        × (length w'.stack ≡ 3)
        × ((j : ℕ)
            → ((j < 0) × (get_or w'.stack j 0 ≡ get_or sample.stack j 0))
              ⊎ ((0 ≤ j)
                  × (((get_or sample.stack j 0 ≡ 4104) × (get_or w'.stack j 0 ≡ 4616))
                      ⊎ ((get_or sample.stack j 0 ≢ 4104)
                          × (get_or w'.stack j 0 ≡ get_or sample.stack j 0)))))
        × (get_tag (w'.mem 4608) ≡ get_tag (words 4096))
        × (get_size (w'.mem 4608) ≡ get_size (words 4096))
        × ((k : ℕ) → k < get_size (words 4096) → w'.mem (4616 + 8 * k) ≡ words (4104 + 8 * k)))
      (mark_and_copy 2 (cell 0) sample)
mark_and_copy-shallow_example = mark_and_copy-shallow 0 sample sample-IsRoot 0

set_header_lem_example :
    (get_size (set_header 5 247) ≡ 5)
    × (get_tag (set_header 5 247) ≡ 247)
    × (is_header (set_header 5 247) ≡ true)
set_header_lem_example = set_header_lem 5 247 (omega arith)

copy_closure_lem_example :
    Returns
      (λ r.
        (r.0 ≡ 4616)
        × (r.1.ptr_base ≡ 4608 + 8 * (25 + 8 * 1))
        × ((k : ℕ) → k < 3 + 1 → r.1.mem (r.0 + 8 * k) ≡ words (4104 + 8 * k)))
      (copy_closure 0 4104 sample)
unfolding bank_final
copy_closure_lem_example = copy_closure_lem 0 4104 sample (omega arith) (omega arith)

print_int-printed_example : print_int (tagged (negsuc 0)) ≡ pos 9_223_372_036_854_775_807
print_int-printed_example = print_int-printed (negsuc 0) (omega arith)

sample-IsBanks : IsBanks sample
unfolding bank_start bank_final
sample-IsBanks = record {
  main = omega arith;
  sub = omega arith;
  in_use = (omega arith, omega arith);
}

collect-Bounded_example : EndsOrFaults (Bounded sample) (collect 2 sample)
collect-Bounded_example = collect-Bounded 0 sample sample-IsBanks

gc_alloc-Ends_example : EndsOrFaults (Placed sample 70 247) (gc_alloc 2 70 247 sample)
gc_alloc-Ends_example =
    gc_alloc-Ends sample 70 247 (omega arith) (omega arith) 0 sample-IsBanks (omega arith)
