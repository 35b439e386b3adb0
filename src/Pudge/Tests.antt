-- ===== src/Pudge/Tests.antt =====
-- The theorems about PudgeWithMoML/lib/runtime/runtime.c at a small heap of three objects, of which
-- the stack reaches two.
use pudge_with_mo_ml.Base.{
  Bool, not, ◌≢◌, ℕ, zero, suc, ◌+◌, ◌*◌, ◌/◌, ◌<◌, ◌≡◌, refl, ◌⊎◌, inl, inr, true, List, [], ◌∷◌,
  arith, ◌==◌, if◌then◌else◌, Returns, exit, some,
}
use pudge_with_mo_ml.Memory.{holds, Memory}
use pudge_with_mo_ml.Pudge.Heap.{
  Reachable, from_stack, from_globals, from_object, IsObject, IsHeap, IsClean,
}
use pudge_with_mo_ml.Pudge.Malloc.Live.{my_malloc-Live}
use pudge_with_mo_ml.Pudge.Status.{status_rows}
use pudge_with_mo_ml.Pudge.Status.Layout.{layout, status_rows-IsHeap}
use pudge_with_mo_ml.Base.Int.{negsuc}
use pudge_with_mo_ml.Base.Words.{tagged}
use pudge_with_mo_ml.Pudge.{Runtime}
use pudge_with_mo_ml.Pudge.Collect.{is_reference, collect}
use pudge_with_mo_ml.Pudge.Collect.Graph.{Collected, collect-Collected}
use pudge_with_mo_ml.Pudge.Collect.Preserve.{Kept, collect-Kept}
use pudge_with_mo_ml.Pudge.Malloc.{my_malloc, round_up}
use pudge_with_mo_ml.Pudge.Collect.Twice.{NoGarbage, collect-Stable}
use pudge_with_mo_ml.Pudge.Malloc.Room.{Allocated, Exhausted, my_malloc-Allocated}
use pudge_with_mo_ml.Pudge.Closure.{alloc_closure_inner}
use pudge_with_mo_ml.Pudge.Closure.Alloc.{NewClosure, alloc_closure_inner-NewClosure}
use pudge_with_mo_ml.Pudge.Print.{print_int, print_int-tagged}

-- an object with a pointer and an integer, the object that it points to, and one that is garbage
abbrev words : Memory
words a =
    if a == 4096
    then 2
    else if a == 4104
    then 4128
    else if a == 4112
    then 7
    else if a == 4120
    then 1
    else if a == 4128
    then 9
    else if a == 4136
    then 1
    else if a == 4144
    then 11
    else 0

abbrev sample : Runtime
sample = record {
  base_sp = 1_000_000;
  space_capacity = 64;
  heap_start = 4096;
  new_space = 4096;
  alloc_offset = 7;
  old_space = 4608;
  alloc_count = 3;
  alloc_bytes_count = 56;
  collect_count = 0;
  obj_count = 3;
  mem = words;
  stack = 5 ∷ 4104 ∷ [];
  globals = 12 ∷ [];
}

abbrev sizes : List ℕ
sizes = 2 ∷ 1 ∷ 1 ∷ []

references :
    (p s k : ℕ)
    → IsObject p s 4096 sizes
    → k < s
    → is_reference (words (p + 8 * k)) sample ≡ true
    → (t : ℕ) × IsObject (words (p + 8 * k)) t 4096 sizes
unfolding is_reference
references p s zero (inl (a, b)) lt h = rw a (1, inr (inl (refl, refl)))
references p s (suc zero) (inl (a, b)) lt h = let h' = rw a at h in absurd (cc)
references p s (suc (suc k)) (inl (a, b)) lt h = absurd (omega arith)
references p s zero (inr (inl (a, b))) lt h = let h' = rw a at h in absurd (cc)
references p s (suc k) (inr (inl (a, b))) lt h = absurd (omega arith)
references p s zero (inr (inr (inl (a, b)))) lt h = let h' = rw a at h in absurd (cc)
references p s (suc k) (inr (inr (inl (a, b)))) lt h = absurd (omega arith)
references p s k (inr (inr (inr a))) lt h = absurd a

sample-IsHeap : IsHeap sample sizes
sample-IsHeap = record {
  filled = refl;
  within = omega arith;
  small = omega arith;
  aligned = refl;
  aligned_old = refl;
  disjoint = omega arith;
  header = λ p s o. ground arith;
  positive = λ p s o. omega arith;
  references = references;
}

small_word : (p s k : ℕ) → IsObject p s 4096 sizes → k < s → words (p + 8 * k) < 4152
small_word p s zero o lt = ground arith
small_word p s (suc zero) o lt = ground arith
small_word p s (suc (suc k)) o lt = absurd (omega arith)

sample-IsClean : IsClean sample sizes
sample-IsClean = record {
  not_old = λ p s k o lt al. inl (omega (arith, small_word p s k o lt));
  not_free = λ p s k o lt al. inl (omega (arith, small_word p s k o lt));
}

collect-Collected_example : Returns (Collected sample sizes) (collect sample)
collect-Collected_example = collect-Collected sample sizes sample-IsHeap (omega arith)

collect-Kept_example : Returns (Kept sample) (collect sample)
collect-Kept_example = collect-Kept sample sizes sample-IsHeap sample-IsClean

my_malloc-Allocated_example :
    ((my_malloc 20 sample ≡ exit 122)
      × Exhausted sample sizes sample-IsHeap sample-IsClean (round_up 20 / 8))
    ⊎ Returns (Allocated sample sizes sample-IsHeap sample-IsClean 20) (my_malloc 20 sample)
my_malloc-Allocated_example =
    my_malloc-Allocated sample sizes sample-IsHeap sample-IsClean 20 (omega arith) (omega arith)

alloc_closure_inner-NewClosure_example :
    ((alloc_closure_inner 65537 2 sample ≡ exit 122)
      × Exhausted sample sizes sample-IsHeap sample-IsClean (round_up (24 + 8 * 2) / 8))
    ⊎ Returns
        (NewClosure sample sizes sample-IsHeap sample-IsClean 65537 2)
        (alloc_closure_inner 65537 2 sample)
alloc_closure_inner-NewClosure_example =
    alloc_closure_inner-NewClosure sample sizes sample-IsHeap sample-IsClean 65537 2 (omega arith)
      (inl (omega arith)) (omega arith, omega arith)

print_int-tagged_example : print_int (tagged (negsuc 4)) ≡ negsuc 4
print_int-tagged_example = print_int-tagged (negsuc 4) (omega arith)

status_rows-IsHeap_example : status_rows (7 + 1) 0 sample ≡ some (layout 0 sizes sample)
status_rows-IsHeap_example = status_rows-IsHeap sample sizes sample-IsHeap

-- the object at 4144 is garbage
abbrev is_live : ℕ → Bool
is_live p = not (p == 4144)

word_not : (a : ℕ) → words a ≡ 4144 → ⊥
word_not a e = ground arith

not-Reachable : (p : ℕ) → Reachable sample sizes p → p ≡ 4144 → ⊥
unfolding holds
not-Reachable p (from_stack _ h) e = ground arith
not-Reachable p (from_globals _ h) e = ground arith
not-Reachable _ (from_object p s k r o lt h) e = word_not (p + 8 * k) e

live : (p s : ℕ) → IsObject p s 4096 sizes → Reachable sample sizes p → is_live p ≡ true
live p s o r = let n : p ≢ 4144 = not-Reachable p r in ground arith

-- 57 words, for which there is room only when the garbage is gone
my_malloc-Live_example :
    Returns (Allocated sample sizes sample-IsHeap sample-IsClean 456) (my_malloc 456 sample)
my_malloc-Live_example =
    my_malloc-Live sample sizes sample-IsHeap sample-IsClean is_live live 456 (omega arith)
      (omega arith) (unfold round_up in omega arith)

collect-Stable_example : Returns NoGarbage (collect sample)
collect-Stable_example = collect-Stable sample sizes sample-IsHeap sample-IsClean
