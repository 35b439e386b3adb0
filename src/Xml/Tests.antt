-- ===== src/Xml/Tests.antt =====
-- The theorems about XML/bin/runtime.c at small heaps.
use pudge_with_mo_ml.Base.{
  ◌⊎◌, ◌≢◌, ◌≤◌, ℕ, ◌+◌, ◌*◌, ◌/◌, ◌<◌, ◌≡◌, refl, inl, List, [], ◌∷◌, arith, ◌==◌, if◌then◌else◌,
  Outcome, ok, Returns, ◌>>=◌,
}
use pudge_with_mo_ml.Xml.Call.{received, rv_call, rv_call-received}
use pudge_with_mo_ml.Base.Int.{pos, negsuc}
use pudge_with_mo_ml.Base.Words.{to_word}
use pudge_with_mo_ml.Memory.{Memory, read_words}
use pudge_with_mo_ml.Xml.{Runtime, in_from, in_to}
use pudge_with_mo_ml.Xml.Value.{mk_int, un_int, print_int, un_int-mk_int}
use pudge_with_mo_ml.Xml.Collect.{forward_obj, size_bytes, clos_bytes}
use pudge_with_mo_ml.Xml.Collect.Forward.{IsFresh, forward_obj-twice}
use pudge_with_mo_ml.Xml.Apply.New.{alloc_closure-apply_all}
use pudge_with_mo_ml.Xml.Alloc.{alloc_closure}
use pudge_with_mo_ml.Xml.Apply.Curry.{IsPartial, apply_all, apply_all-calls}

-- a closure of three arguments, of which it has one, at the start of the from-space
abbrev words : Memory
words a =
    if a == 4096
    then 1024
    else if a == 4104
    then 3
    else if a == 4112
    then 1
    else if a == 4120
    then 65537
    else if a == 4128
    then 11
    else 0

abbrev sample : Runtime
sample = record {
  from_start = 4096;
  from_end = 4608;
  to_start = 4608;
  to_end = 5120;
  alloc_ptr = 4152;
  to_alloc = 4608;
  runs = 0;
  allocations = 1;
  bytes_allocated_total = 56;
  current_bank = 0;
  vt_block = 1008;
  vt_closure = 1024;
  mem = words;
  stack = 4096 ∷ 3 ∷ [];
}

sample-IsFresh : IsFresh 4096 56 sample
unfolding in_from in_to size_bytes clos_bytes
sample-IsFresh = record {
  inside = refl;
  not_moved = refl;
  sized = refl;
  whole = refl;
  bounded = omega arith;
  two_words = omega arith;
  from_below = omega arith;
  room = omega arith;
  apart = inl (omega arith);
}

forward_obj-twice_example :
    Returns
      (λ r.
        (r.0 ≡ 4608)
        × (r.1.to_alloc ≡ 4664)
        × (r.1.mem 4096 ≡ r.0)
        × ((b : ℕ) → b ≢ 4096 → (b < 4608) ⊎ (4664 ≤ b) → r.1.mem b ≡ words b)
        × ((k : ℕ) → k < 56 / 8 → r.1.mem (r.0 + 8 * k) ≡ words (4096 + 8 * k))
        × (forward_obj 4096 r.1 ≡ ok r))
      (forward_obj 4096 sample)
forward_obj-twice_example = forward_obj-twice 4096 56 sample sample-IsFresh

sample-IsPartial : IsPartial 4096 65537 3 (11 ∷ []) sample
unfolding read_words
sample-IsPartial = record {
  not_null = omega arith;
  below = omega arith;
  bounded = omega arith;
  has_arity = refl;
  has_received = refl;
  has_code = refl;
  has_args = refl;
  missing = omega arith;
}

-- compiled code that returns its first argument
abbrev first_argument : ℕ → List ℕ → Runtime → Outcome (ℕ × Runtime)
first_argument code [] w = ok (0, w)
first_argument code (x ∷ xs) w = ok (x, w)

apply_all-calls_example :
    (w' : Runtime) × (apply_all first_argument 4096 (13 ∷ 15 ∷ []) sample ≡ ok (11, w'))
    × ((a : ℕ) → a < 4152 → w'.mem a ≡ words a)
apply_all-calls_example =
    apply_all-calls first_argument 4096 65537 3 (11 ∷ []) (13 ∷ 15 ∷ []) sample sample-IsPartial
      refl (omega arith)

un_int-mk_int_example :
    (un_int (mk_int (to_word (negsuc 1))) ≡ pos 9_223_372_036_854_775_806)
    × (print_int (mk_int (to_word (negsuc 1))) ≡ pos 9_223_372_036_854_775_806)
un_int-mk_int_example = un_int-mk_int (negsuc 1) (omega arith)

alloc_closure-apply_all_example :
    (w' : Runtime) × ((alloc_closure 65537 2 sample >>= λ r.
    apply_all first_argument r.0 (13 ∷ 15 ∷ []) r.1)
      ≡ ok (13, w'))
alloc_closure-apply_all_example =
    alloc_closure-apply_all first_argument 65537 (13 ∷ 15 ∷ []) sample (omega arith) (omega arith)
      (omega arith) (omega arith)

-- ten arguments, of which two are spilled
rv_call-received_example :
    (received 10 (rv_call 4096 10 4000 words) ≡ read_words words 4096 10)
    × ((b : ℕ) → 4000 ≤ b → (rv_call 4096 10 4000 words).mem b ≡ words b)
rv_call-received_example =
    rv_call-received 4096 10 4000 words (omega arith) (omega arith) (omega arith) (omega arith)
