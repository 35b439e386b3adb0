-- ===== src/Pudge/Collect/Preserve.antt =====
-- A collection leaves a heap again, with no stale address in it.
use pudge_with_mo_ml.Base.{
  ℕ, ◌+◌, ◌*◌, ◌%◌, ◌≤◌, ◌<◌, ◌≡◌, refl, ◌⊎◌, inl, inr, true, false, List, arith, Returns,
  Bool-cases, ◌==◌,
}
use pudge_with_mo_ml.Pudge.{Runtime}
use pudge_with_mo_ml.Pudge.Collect.{is_reference, collect}
use pudge_with_mo_ml.Pudge.Heap.{IsObject, object_bounds, IsHeap, IsClean}
use pudge_with_mo_ml.Pudge.Collect.Graph.{Collected, collect-Collected}

-- what `is_reference` tests
pub reference_bounds :
    (v : ℕ) (w : Runtime)
    → is_reference v w ≡ true
    → (v % 8 ≡ 0) × (w.new_space ≤ v) × (v < w.new_space + 8 * w.alloc_offset)
unfolding is_reference
reference_bounds v w h = ground arith

pub not_reference :
    (v : ℕ) (w : Runtime)
    → is_reference v w ≡ false
    → v % 8 ≡ 0
    → (v < w.new_space) ⊎ (w.new_space + 8 * w.alloc_offset ≤ v)
unfolding is_reference
not_reference v w h e = ground arith

module _ (w : Runtime) (ts : List ℕ) (heap : IsHeap w ts) (clean : IsClean w ts) (w' : Runtime)
    (c : Collected w ts w') where
  -- An aligned word of a copy is the address of a copy, or lies outside the two spaces.
  copied_word :
      (q s k : ℕ)
      → IsObject q s w'.new_space c.sizes
      → k < s
      → w'.mem (q + 8 * k) % 8 ≡ 0
      → ((t : ℕ) × IsObject (w'.mem (q + 8 * k)) t w'.new_space c.sizes)
        ⊎ (((w'.mem (q + 8 * k) < w.new_space)
              ⊎ (w.new_space + 8 * w.space_capacity ≤ w'.mem (q + 8 * k)))
            × ((w'.mem (q + 8 * k) < w.old_space)
                ⊎ (w.old_space + 8 * w.space_capacity ≤ w'.mem (q + 8 * k))))
  copied_word q s k o lt al =
      let (p, op, e) = c.no_others q s o in
      let fw = c.words p s q k op e lt in
      elim (Bool-cases (is_reference (w.mem (p + 8 * k)) w)) [
        | inl h ↦
            let (t, ot) = heap.references p s k op lt h in
            inl (t, c.copies (w.mem (p + 8 * k)) t (w'.mem (q + 8 * k)) ot (fw.0 h))
        | inr h ↦
            let same = fw.1 h in
            let al' : w.mem (p + 8 * k) % 8 ≡ 0 = rw same at al in
            inr (
              rw same (
                omega (
                  arith,
                  not_reference (w.mem (p + 8 * k)) w h al',
                  clean.not_free p s k op lt al',
                ),
                clean.not_old p s k op lt al',
              ))
      ]

  object_in :
      (q s : ℕ)
      → IsObject q s w'.new_space c.sizes
      → (w'.new_space + 8 ≤ q) × (q + 8 * s ≤ w'.new_space + 8 * w'.alloc_offset)
  object_in q s o =
      let b = object_bounds q s w'.new_space c.sizes o in (b.0, omega (arith, b.1, c.filled))

  positive : (q s : ℕ) → IsObject q s w'.new_space c.sizes → 0 < s
  positive q s o = let (p, op, e) = c.no_others q s o in heap.positive p s op

  references :
      (q s k : ℕ)
      → IsObject q s w'.new_space c.sizes
      → k < s
      → is_reference (w'.mem (q + 8 * k)) w' ≡ true
      → (t : ℕ) × IsObject (w'.mem (q + 8 * k)) t w'.new_space c.sizes
  references q s k o lt h =
      let b = reference_bounds (w'.mem (q + 8 * k)) w' h in
      elim (copied_word q s k o lt b.0) [
        | inl r ↦ r
        | inr r ↦ absurd (omega (arith, r.1, b.1, b.2, c.swapped, c.smaller, heap.within))
      ]

  pub Collected-IsHeap : IsHeap w' c.sizes
  Collected-IsHeap = record {
    filled = c.filled;
    within = omega (arith, c.smaller, c.capacity, heap.within);
    small = omega (arith, c.capacity, heap.small);
    aligned = rw c.swapped.0 heap.aligned_old;
    aligned_old = rw c.swapped.1 heap.aligned;
    disjoint = omega (arith, c.swapped, c.capacity, heap.disjoint);
    header = λ q s o. let (p, op, e) = c.no_others q s o in c.header p s q op e;
    positive = positive;
    references = references;
  }

  pub Collected-IsClean : IsClean w' c.sizes
  Collected-IsClean = record {
    not_old = λ q s k o lt al. elim (copied_word q s k o lt al) [
      | inl (t, r) ↦ omega (
        arith,
        object_in (w'.mem (q + 8 * k)) t r,
        positive (w'.mem (q + 8 * k)) t r,
        c.swapped,
        c.capacity,
        c.smaller,
        heap.within,
        heap.disjoint,
      )
      | inr r ↦ omega (arith, r.0, c.swapped, c.capacity)
    ];
    not_free = λ q s k o lt al. elim (copied_word q s k o lt al) [
      | inl (t, r) ↦
          omega (arith, object_in (w'.mem (q + 8 * k)) t r, positive (w'.mem (q + 8 * k)) t r)
      | inr r ↦ omega (arith, r.1, c.swapped, c.capacity)
    ];
  }

-- What the program may rely on after a collection: a heap, in the same room, that is not larger.
abbrev pub Kept : Runtime → Runtime → Type 0
Kept w w' =
    (us : List ℕ) × IsHeap w' us
    × IsClean w' us
    × (w'.alloc_offset ≤ w.alloc_offset)
    × (w'.space_capacity ≡ w.space_capacity)

-- A collection ends, on an empty heap too, and leaves a heap that is not larger.
pub collect-Kept :
    (w : Runtime) (ts : List ℕ) → IsHeap w ts → IsClean w ts → Returns (Kept w) (collect w)
unfolding collect
collect-Kept w ts heap clean = elim (Bool-cases (w.alloc_offset == 0)) [
  | inl e ↦ (w, rw e, (ts, heap, clean, omega arith, refl))
  | inr e ↦
      let (w', ran, c) = collect-Collected w ts heap (ground arith) in
      (
        w',
        ran,
        (
          c.sizes,
          Collected-IsHeap w ts heap clean w' c,
          Collected-IsClean w ts heap clean w' c,
          c.smaller,
          c.capacity,
        ),
      )
]
