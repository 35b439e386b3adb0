-- ===== src/Pudge/ClosureTests.antt =====
-- The theorems about closures of PudgeWithMoML/lib/runtime/runtime.c at a small heap: a closure of
-- three arguments that has received one, which points to the other object.
use pudge_with_mo_ml.Base.{
  ℕ, zero, suc, ◌+◌, ◌*◌, ◌%◌, ◌≤◌, ◌<◌, ◌≡◌, refl, ◌⊎◌, inl, inr, true, List, [], ◌∷◌, arith, ◌==◌,
  if◌then◌else◌, Returns, ok, exit, get_or,
}
use pudge_with_mo_ml.Memory.{Memory}
use pudge_with_mo_ml.Pudge.{Runtime}
use pudge_with_mo_ml.Pudge.Heap.{IsObject, IsHeap, IsClean}
use pudge_with_mo_ml.Pudge.Collect.{is_reference, collect}
use pudge_with_mo_ml.Pudge.Collect.Preserve.{reference_bounds}
use pudge_with_mo_ml.Pudge.Closure.Values.{IsValue}
use pudge_with_mo_ml.Pudge.Closure.{Call, apply_closure}
use pudge_with_mo_ml.Pudge.Closure.Alloc.{IsClosure}
use pudge_with_mo_ml.Pudge.Closure.Extend.{TooFull}
use pudge_with_mo_ml.Pudge.Closure.Moved.{stack-IsHeap, stack-IsClean}
use pudge_with_mo_ml.Pudge.Closure.Kept.{ClosuresKept, collect-ClosuresKept}
use pudge_with_mo_ml.Pudge.Closure.Apply.{Partial, apply_closure-Partial}

abbrev words : Memory
words a =
    if a == 4096
    then 6
    else if a == 4104
    then 65537
    else if a == 4112
    then 3
    else if a == 4120
    then 1
    else if a == 4128
    then 4160
    else if a == 4152
    then 1
    else if a == 4160
    then 9
    else 0

abbrev sample : Runtime
sample = record {
  base_sp = 1_000_000;
  space_capacity = 64;
  heap_start = 4096;
  new_space = 4096;
  alloc_offset = 9;
  old_space = 4608;
  alloc_count = 2;
  alloc_bytes_count = 56;
  collect_count = 0;
  obj_count = 2;
  mem = words;
  stack = 5 ∷ 4160 ∷ [];
  globals = [];
}

abbrev sizes : List ℕ
sizes = 6 ∷ 1 ∷ []

small_word :
    (p s k : ℕ)
    → IsObject p s 4096 sizes
    → k < s
    → words (p + 8 * k) % 8 ≡ 0
    → (words (p + 8 * k) < 4096) ⊎ (words (p + 8 * k) ≡ 4160)
small_word p s k o lt al = ground arith

references :
    (p s k : ℕ)
    → IsObject p s 4096 sizes
    → k < s
    → is_reference (words (p + 8 * k)) sample ≡ true
    → (t : ℕ) × IsObject (words (p + 8 * k)) t 4096 sizes
references p s k o lt h =
    let b = reference_bounds (words (p + 8 * k)) sample h in
    elim (small_word p s k o lt b.0) [
      | inl e ↦ absurd (omega (arith, b))
      | inr e ↦ (1, inr (inl (e, refl)))
    ]

sample-IsHeap : IsHeap sample sizes
sample-IsHeap = record {
  filled = refl;
  within = omega arith;
  small = omega arith;
  aligned = refl;
  aligned_old = refl;
  disjoint = omega arith;
  header = λ p s o. ground arith;
  positive = λ p s o. omega arith;
  references = references;
}

sample-IsClean : IsClean sample sizes
sample-IsClean = record {
  not_old = λ p s k o lt al. inl (omega (arith, small_word p s k o lt al));
  not_free = λ p s k o lt al. inl (omega (arith, small_word p s k o lt al));
}

zero_word : (k : ℕ) → 1 ≤ k → k < 3 → words (4128 + 8 * k) ≡ 0
zero_word k ge lt = ground arith

closure : IsClosure words 4104 65537 3 1
closure = record { code_at = refl; argc_at = refl; recived_at = refl; zeros = zero_word }

-- a function that returns its last argument
abbrev last_argument : Call
last_argument code args w = ok (get_or args 2 0, w)

argument : (j : ℕ) → j < 1 → IsValue (get_or sample.stack (1 + j) 0) sample sizes
argument zero lt = inr (1, inr (inl (refl, refl)))
argument (suc j) lt = absurd (omega arith)

apply_closure-Partial_example :
    ((apply_closure last_argument 4104 1 1 sample ≡ exit 122)
      × TooFull sample sizes sample-IsHeap sample-IsClean 4104 3)
    ⊎ Returns
        (Partial sample sizes sample-IsHeap sample-IsClean 4104 65537 3 1 1 1 last_argument)
        (apply_closure last_argument 4104 1 1 sample)
apply_closure-Partial_example =
    apply_closure-Partial sample sizes sample-IsHeap sample-IsClean 4104 65537 3 1 1 1 last_argument
      (inl (refl, refl)) closure (omega arith) (inl (omega arith)) (omega arith, omega arith)
      (omega arith) (omega arith) argument

-- The closure is in use.
abbrev rooted : Runtime
rooted = record sample { stack = 4104 ∷ [] }

collect-ClosuresKept_example : Returns (ClosuresKept rooted sizes) (collect rooted)
collect-ClosuresKept_example =
    collect-ClosuresKept rooted sizes (stack-IsHeap sample sizes (4104 ∷ []) sample-IsHeap)
      (stack-IsClean sample sizes (4104 ∷ []) sample-IsClean) (omega arith)
