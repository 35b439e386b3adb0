-- ===== src/Xml/HeapTests.antt =====
-- The theorems about the collector of XML/bin/runtime.c at a small heap: a block and a closure that
-- point to each other, and a block that is garbage.
use pudge_with_mo_ml.Base.{
  Bool, not, ◌≢◌, ◌/◌, ◌%◌, ◌^◌, ℕ, zero, suc, ◌+◌, ◌*◌, ◌≤◌, ◌<◌, ◌≡◌, refl, ◌⊎◌, inl, inr, true,
  false, List, [], ◌∷◌, arith, ◌==◌, if◌then◌else◌, abort, Returns,
}
use pudge_with_mo_ml.Xml.Heap.{
  Reachable, from_stack, from_object, total, IsObject, IsHeap, IsClean, IsTyped, points, is_field,
  is_live,
}
use pudge_with_mo_ml.Xml.Alloc.Live.{alloc_closure-Live}
use pudge_with_mo_ml.Xml.{rt_init, heap_size, Runtime, in_from, in_to}
use pudge_with_mo_ml.Xml.Init.{rt_init-IsHeap, rt_init-odd_half}
use pudge_with_mo_ml.Memory.{Memory, holds}
use pudge_with_mo_ml.Xml.Value.{is_int, is_ptr}
use pudge_with_mo_ml.Xml.Collect.{gc_collect}
use pudge_with_mo_ml.Xml.Collect.Graph.{Collected, gc_collect-Collected}
use pudge_with_mo_ml.Xml.Collect.Preserve.{gc_collect-Kept}
use pudge_with_mo_ml.Xml.Alloc.{alloc_closure}
use pudge_with_mo_ml.Xml.Alloc.Room.{Exhausted}
use pudge_with_mo_ml.Xml.Alloc.Fresh.{NewClosure, alloc_closure-NewClosure}

abbrev words : Memory
words a =
    if a == 4096
    then 1008
    else if a == 4104
    then 2
    else if a == 4112
    then 4128
    else if a == 4120
    then 7
    else if a == 4128
    then 1024
    else if a == 4136
    then 1
    else if a == 4144
    then 1
    else if a == 4152
    then 65537
    else if a == 4160
    then 4096
    else if a == 4168
    then 1008
    else 0

abbrev sample : Runtime
sample = record {
  from_start = 4096;
  from_end = 4608;
  to_start = 4608;
  to_end = 5120;
  alloc_ptr = 4184;
  to_alloc = 4608;
  runs = 0;
  allocations = 3;
  bytes_allocated_total = 88;
  current_bank = 0;
  vt_block = 1008;
  vt_closure = 1024;
  mem = words;
  stack = 4096 ∷ 3 ∷ [];
}

abbrev sizes : List ℕ
sizes = 4 ∷ 5 ∷ 2 ∷ []

fields :
    (p s k : ℕ)
    → IsObject p s 4096 sizes
    → k < s
    → is_live p k sample ≡ true
    → (t : ℕ) × IsObject (words (p + 8 * k)) t 4096 sizes
unfolding is_live is_field points is_ptr is_int in_from
fields p s zero (inl (a, b)) lt h = let h' = rw a at h in absurd (cc)
fields p s (suc zero) (inl (a, b)) lt h = let h' = rw a at h in absurd (cc)
fields p s (suc (suc zero)) (inl (a, b)) lt h = rw a (5, inr (inl (refl, refl)))
fields p s (suc (suc (suc zero))) (inl (a, b)) lt h = let h' = rw a at h in absurd (cc)
fields p s (suc (suc (suc (suc k)))) (inl (a, b)) lt h = absurd (omega arith)
fields p s zero (inr (inl (a, b))) lt h = let h' = rw a at h in absurd (cc)
fields p s (suc zero) (inr (inl (a, b))) lt h = let h' = rw a at h in absurd (cc)
fields p s (suc (suc zero)) (inr (inl (a, b))) lt h = let h' = rw a at h in absurd (cc)
fields p s (suc (suc (suc zero))) (inr (inl (a, b))) lt h = let h' = rw a at h in absurd (cc)
fields p s (suc (suc (suc (suc zero)))) (inr (inl (a, b))) lt h = rw a (4, inl (refl, refl))
fields p s (suc (suc (suc (suc (suc k))))) (inr (inl (a, b))) lt h = absurd (omega arith)
fields p s zero (inr (inr (inl (a, b)))) lt h = let h' = rw a at h in absurd (cc)
fields p s (suc zero) (inr (inr (inl (a, b)))) lt h = let h' = rw a at h in absurd (cc)
fields p s (suc (suc k)) (inr (inr (inl (a, b)))) lt h = absurd (omega arith)
fields p s k (inr (inr (inr a))) lt h = absurd a

typed : (p s : ℕ) → IsObject p s 4096 sizes → IsTyped p s sample
typed p s (inl (a, b)) = rw (a, b) (inl (refl, refl))
typed p s (inr (inl (a, b))) = rw (a, b) (inr (refl, refl, omega arith))
typed p s (inr (inr (inl (a, b)))) = rw (a, b) (inl (refl, refl))
typed p s (inr (inr (inr a))) = absurd a

root_cases : (v : ℕ) → holds v (4096 ∷ 3 ∷ []) ≡ true → (v ≡ 4096) ⊎ (v ≡ 3)
unfolding holds
root_cases v h = ground arith

roots :
    (v : ℕ)
    → holds v (4096 ∷ 3 ∷ []) ≡ true
    → points v sample ≡ true
    → (t : ℕ) × IsObject v t 4096 sizes
unfolding points is_ptr is_int in_from
roots v h k = elim (root_cases v h) [
  | inl e ↦ (4, inl (e, refl))
  | inr e ↦ let k' = rw e at k in absurd (cc)
]

sample-IsHeap : IsHeap sample sizes
sample-IsHeap = record {
  filled = refl;
  within = omega arith;
  halves = refl;
  disjoint = omega arith;
  nonzero = omega arith;
  small = omega arith;
  aligned = (refl, refl);
  tables = omega arith;
  tables_elsewhere = omega arith;
  typed = typed;
  rounds_up = λ p s o. omega arith;
  fields = fields;
  roots = roots;
}

small_word : (a : ℕ) → words a < 4608 ⊎ (words a ≡ 65537)
small_word a = ground arith

not_in_to : (v : ℕ) → (v < 4608) ⊎ (v ≡ 65537) → in_to v sample ≡ false
unfolding in_to
not_in_to v h = ground arith

sample-IsClean : IsClean sample sizes
sample-IsClean = record {
  fields = λ p s k o lt fd ptr. not_in_to (words (p + 8 * k)) (small_word (p + 8 * k));
  roots = λ v h ptr. not_in_to v (omega (arith, root_cases v h));
}

gc_collect-Collected_example : Returns (Collected sample sizes) (gc_collect sample)
gc_collect-Collected_example = gc_collect-Collected sample sizes sample-IsHeap

gc_collect-Kept_example :
    Returns
      (λ w'. (us : List ℕ) × IsHeap w' us × IsClean w' us × (total us ≤ total sizes))
      (gc_collect sample)
gc_collect-Kept_example = gc_collect-Kept sample sizes sample-IsHeap sample-IsClean

alloc_closure-NewClosure_example :
    ((alloc_closure 65537 2 sample ≡ abort)
      × Exhausted sample sizes sample-IsHeap sample-IsClean (32 + 8 * 2))
    ⊎ Returns (NewClosure sample sizes 65537 2) (alloc_closure 65537 2 sample)
alloc_closure-NewClosure_example =
    alloc_closure-NewClosure 65537 2 (omega arith) sample sizes sample-IsHeap sample-IsClean

-- before `rt_init`
abbrev loaded : Runtime
loaded = record sample { stack = []; vt_block = 64; vt_closure = 96 }

rt_init-IsHeap_example :
    Returns
      (λ r.
        IsHeap r []
        × IsClean r []
        × (r.from_end ≡ r.from_start + heap_size 4096 / 2)
        × (2 ^ 19 ≤ heap_size 4096 / 2))
      (rt_init 8192 4096 loaded)
rt_init-IsHeap_example =
    rt_init-IsHeap 8192 4096 loaded (omega arith) refl refl (omega arith) refl (omega arith)
      (inl (omega arith)) (inl (omega arith))

rt_init-odd_half_example :
    Returns
      (λ r. (r.to_start % 2 ≡ 1) × ((k : ℕ) → is_ptr (r.to_start + 8 * k) ≡ false))
      (rt_init 8192 1_048_578 loaded)
rt_init-odd_half_example =
    rt_init-odd_half 8192 1_048_578 loaded (omega arith) refl (omega arith) (omega arith) refl

-- the block at 4168 is garbage
abbrev is_kept : ℕ → Bool
is_kept p = not (p == 4168)

word_not : (a : ℕ) → words a ≡ 4168 → ⊥
word_not a e = ground arith

not-Reachable : (p : ℕ) → Reachable sample sizes p → p ≡ 4168 → ⊥
not-Reachable p (from_stack _ h k) e = omega (arith, root_cases p h)
not-Reachable _ (from_object p s k r o lt h) e = word_not (p + 8 * k) e

live : (p s : ℕ) → IsObject p s 4096 sizes → Reachable sample sizes p → is_kept p ≡ true
live p s o r = let n : p ≢ 4168 = not-Reachable p r in ground arith

-- a closure for which there is room only when the garbage is gone
alloc_closure-Live_example :
    Returns (NewClosure sample sizes 65537 51) (alloc_closure 65537 51 sample)
alloc_closure-Live_example =
    alloc_closure-Live sample sizes sample-IsHeap sample-IsClean is_kept live 65537 51 (omega arith)
      (omega arith)
