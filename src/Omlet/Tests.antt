-- ===== src/Omlet/Tests.antt =====
-- The theorems about OMLet/lib/gc.c at a small heap: an array of two words in the heap at 4096,
-- before a collection has the heap at 8192 as the current one.
use pudge_with_mo_ml.Base.{
  EndsOrFaults, inr, ℕ, ◌+◌, ◌-◌, ◌*◌, ◌≤◌, ◌<◌, ◌≡◌, ◌≢◌, refl, inl, true, false, [], ◌∷◌, ◌^◌,
  arith, ◌==◌, if◌then◌else◌, Returns,
}
use pudge_with_mo_ml.Omlet.Collect.{collect, mark_and_copy}
use pudge_with_mo_ml.Omlet.Collect.Forest.{Forest, nil, word, object, bytes}
use pudge_with_mo_ml.Omlet.Collect.Exact.{IsForest, Exact, collect-Exact}
use pudge_with_mo_ml.Omlet.Collect.Ends.{Swapped, collect-Swapped}
use pudge_with_mo_ml.Omlet.Malloc.Live.{Rescued, omlet_malloc-Rescued}
use pudge_with_mo_ml.Omlet.Malloc.Ends.{Placed, omlet_malloc-Ends}
use pudge_with_mo_ml.Memory.{Memory}
use pudge_with_mo_ml.Omlet.{Runtime, cur_heap, old_heap, on_heap}
use pudge_with_mo_ml.Omlet.Header.{get_tag, get_color, get_size, t_closure, color_unmarked}
use pudge_with_mo_ml.Omlet.Collect.Shared.{IsLeaf, mark_and_copy-shared}
use pudge_with_mo_ml.Omlet.Malloc.{omlet_malloc}
use pudge_with_mo_ml.Omlet.Malloc.Room.{omlet_malloc-Allocated}

abbrev words : Memory
words a = if a == 4096 then 2 * 2 ^ 16 else if a == 4104 then 7 else if a == 4112 then 9 else 0

abbrev sample : Runtime
sample = record {
  heap_from = record { start = 4096; size = 1000; offset = 24 };
  heap_to = record { start = 8192; size = 1000; offset = 0 };
  is_from = false;
  total_amount_of_allocated_memory = 0;
  number_of_gc_sessions = 0;
  mem = words;
  stack = 4104 ∷ 4104 ∷ [];
}

sample-IsLeaf : IsLeaf 4104 sample
unfolding on_heap old_heap cur_heap get_tag get_color get_size
sample-IsLeaf = record {
  inside = refl;
  unmarked = refl;
  unboxed = refl;
  above = omega arith;
  whole = omega arith;
  room = omega arith;
  apart = inl (omega arith);
}

mark_and_copy-shared_example :
    Returns
      (λ r.
        (r.0 ≡ 8200 ∷ 4104 ∷ [])
        × ((k : ℕ) → k < 2 → r.1.mem (8200 + 8 * k) ≡ words (4104 + 8 * k))
        × (on_heap 4104 (old_heap r.1) ≡ true))
      (mark_and_copy 1 (4104 ∷ 4104 ∷ []) sample)
unfolding cur_heap get_size
mark_and_copy-shared_example = mark_and_copy-shared 4104 sample sample-IsLeaf 0

omlet_malloc-Allocated_example :
    Returns
      (λ r.
        (r.0 ≡ 8200)
        × (get_tag (r.1.mem (r.0 - 8)) ≡ t_closure)
        × (get_color (r.1.mem (r.0 - 8)) ≡ color_unmarked)
        × (30 ≤ 8 * get_size (r.1.mem (r.0 - 8)))
        × (8 * get_size (r.1.mem (r.0 - 8)) < 30 + 8)
        × ((cur_heap r.1).offset ≡ 0 + 8 + 8 * get_size (r.1.mem (r.0 - 8)))
        × ((cur_heap r.1).offset ≤ 1000)
        × ((a : ℕ) → a ≢ r.0 - 8 → r.1.mem a ≡ words a))
      (omlet_malloc 0 30 t_closure sample)
unfolding cur_heap
omlet_malloc-Allocated_example =
    omlet_malloc-Allocated 0 30 t_closure sample (omega arith) (omega arith) (omega arith)

collect-Swapped_example : EndsOrFaults (Swapped sample) (collect 126 sample)
unfolding old_heap
collect-Swapped_example = collect-Swapped 126 sample (omega arith) (omega arith)

omlet_malloc-Ends_example : EndsOrFaults (Placed sample 990) (omlet_malloc 126 990 t_closure sample)
unfolding old_heap cur_heap
omlet_malloc-Ends_example =
    omlet_malloc-Ends sample 990 t_closure (omega arith) 126 (omega arith) (omega arith)
      (omega arith) (omega arith)

-- A closure of two words, the second of which points to the array of `words`, and a stack that also
-- holds an integer; the rest of the heap, which is almost full, is garbage.
abbrev linked_words : Memory
linked_words a =
    if a == 4120
    then 1 + 2 * 2 ^ 16
    else if a == 4128
    then 5
    else if a == 4136
    then 4104
    else words a

abbrev linked : Runtime
linked = record sample {
  heap_from = record { start = 4096; size = 1000; offset = 960 };
  is_from = true;
  mem = linked_words;
  stack = 3 ∷ 4128 ∷ [];
}

abbrev forest : Forest
forest =
    word 3 (
      object 4128 (1 + 2 * 2 ^ 16) (word 5 (object 4104 (2 * 2 ^ 16) (word 7 (word 9 nil)) nil))
        nil)

bytes-forest : bytes forest ≡ 48
unfolding get_size
bytes-forest = refl

linked-IsForest : IsForest linked forest
unfolding cur_heap old_heap get_tag get_color get_size
linked-IsForest = record {
  roots = (
    refl,
    inl (omega arith),
    (
      refl,
      record {
        header = refl;
        unmarked = refl;
        low = omega arith;
        high = omega arith;
        inside = omega arith;
        full = refl;
      },
      inl (
        refl,
        (
          refl,
          inl (omega arith),
          (
            refl,
            record {
              header = refl;
              unmarked = refl;
              low = omega arith;
              high = omega arith;
              inside = omega arith;
              full = refl;
            },
            inr (omega arith, (refl, (refl, tt))),
            tt,
          ),
        ),
      ),
      tt,
    ),
  );
  distinct = (((λ b ge lt e. omega arith), tt, tt), tt, (tt, tt, tt, tt), tt);
  apart = inr (omega arith);
  fits = omega arith;
}

collect-Exact_example : Returns (Exact linked forest) (collect 6 linked)
collect-Exact_example = collect-Exact linked forest linked-IsForest 6 (omega (arith, bytes-forest))

omlet_malloc-Rescued_example :
    Returns (Rescued 100 t_closure linked forest) (omlet_malloc 6 100 t_closure linked)
unfolding old_heap
omlet_malloc-Rescued_example =
    omlet_malloc-Rescued 100 t_closure (omega arith) (omega arith) linked forest linked-IsForest
      (omega (arith, bytes-forest)) 6 (omega (arith, bytes-forest))
