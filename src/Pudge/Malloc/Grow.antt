-- ===== src/Pudge/Malloc/Grow.antt =====
-- A heap to which an object has been added, once the object's words have been set.
use pudge_with_mo_ml.Base.{
  ℕ, ◌+◌, ◌-◌, ◌*◌, ◌%◌, ◌≤◌, ◌<◌, ◌≡◌, ◌≢◌, ◌⊎◌, inl, inr, ◌∙◌, ap, true, List, [], ◌∷◌, ◌++◌,
  arith,
}
use pudge_with_mo_ml.Pudge.{Runtime}
use pudge_with_mo_ml.Pudge.Heap.{
  IsObject, object_bounds, IsHeap, IsClean, IsObject-snoc, IsObject-append, total-snoc,
}
use pudge_with_mo_ml.Pudge.Collect.{is_reference}
use pudge_with_mo_ml.Pudge.Collect.Preserve.{reference_bounds}

-- A word that the collector leaves alone: it is not aligned, or it lies outside the two spaces.
abbrev pub IsPlain : ℕ → Runtime → Type 0
IsPlain v w =
    (v % 8 ≢ 0)
    ⊎ (((v < w.new_space) ⊎ (w.new_space + 8 * w.space_capacity ≤ v))
        × ((v < w.old_space) ⊎ (w.old_space + 8 * w.space_capacity ≤ v)))

-- the first word of the next object
abbrev pub next_object : Runtime → ℕ
next_object w = w.new_space + 8 * (w.alloc_offset + 1)

-- `w'` is `w` with one more object, of `t` words.
pub record Grown (w : Runtime) (t : ℕ) (w' : Runtime) : Type 0 where
  pub room : w.alloc_offset + t + 1 < w.space_capacity
  pub positive : 0 < t
  pub spaces : (w'.new_space ≡ w.new_space) × (w'.old_space ≡ w.old_space)
  pub capacity : w'.space_capacity ≡ w.space_capacity
  pub used : w'.alloc_offset ≡ w.alloc_offset + t + 1
  pub header : w'.mem (next_object w - 8) ≡ t
  pub same : (b : ℕ) → w.new_space ≤ b → b < w.new_space + 8 * w.alloc_offset → w'.mem b ≡ w.mem b
  pub plain : (k : ℕ) → k < t → IsPlain (w'.mem (next_object w + 8 * k)) w

pub reference_of_bounds :
    (v : ℕ) (w : Runtime)
    → v % 8 ≡ 0
    → w.new_space ≤ v
    → v < w.new_space + 8 * w.alloc_offset
    → is_reference v w ≡ true
unfolding is_reference
reference_of_bounds v w al lo hi = ground arith

module _ (w : Runtime) (ts : List ℕ) (heap : IsHeap w ts) (clean : IsClean w ts) (t : ℕ)
    (w' : Runtime) (g : Grown w t w') where
  -- an object of the new heap is one of the old heap, with the same words, or the added one
  cases :
      (p s : ℕ)
      → IsObject p s w'.new_space (ts ++ t ∷ [])
      → IsObject p s w.new_space ts ⊎ ((p ≡ next_object w) × (s ≡ t))
  cases p s o = elim (IsObject-snoc p s w.new_space t ts (rw g.spaces.0 at o)) [
    | inl h ↦ inl h
    | inr h ↦ inr (omega (arith, h.0, heap.filled), h.1)
  ]

  old_word :
      (p s k : ℕ) → IsObject p s w.new_space ts → k < s → w'.mem (p + 8 * k) ≡ w.mem (p + 8 * k)
  old_word p s k o lt =
      let b = object_bounds p s w.new_space ts o in
      g.same (p + 8 * k) (omega arith) (omega (arith, heap.filled))

  old-IsObject : (p s : ℕ) → IsObject p s w.new_space ts → IsObject p s w'.new_space (ts ++ t ∷ [])
  old-IsObject p s o = rw g.spaces.0 (IsObject-append p s w.new_space t ts o)

  renamed :
      (v v' : ℕ)
      → v' ≡ v
      → (u : ℕ) × IsObject v u w.new_space ts
      → (u : ℕ) × IsObject v' u w'.new_space (ts ++ t ∷ [])
  renamed v v' e (u, o) = (u, rw e (old-IsObject v u o))

  references :
      (p s k : ℕ)
      → IsObject p s w'.new_space (ts ++ t ∷ [])
      → k < s
      → is_reference (w'.mem (p + 8 * k)) w' ≡ true
      → (u : ℕ) × IsObject (w'.mem (p + 8 * k)) u w'.new_space (ts ++ t ∷ [])
  references p s k o lt h =
      let b = reference_bounds (w'.mem (p + 8 * k)) w' h in
      elim (cases p s o) [
        | inl o' ↦
            let e = old_word p s k o' lt in
            let al : w.mem (p + 8 * k) % 8 ≡ 0 = rw e at (b.0) in
            let free = clean.not_free p s k o' lt al in
            renamed (w.mem (p + 8 * k)) (w'.mem (p + 8 * k)) e (
              heap.references p s k o' lt (
                reference_of_bounds (w.mem (p + 8 * k)) w al (omega (arith, e, b.1, g.spaces.0))
                  (omega (arith, free, e, b.2, g.spaces.0, g.used, g.room))))
        | inr (hp, hs) ↦
            let e : w'.mem (p + 8 * k) ≡ w'.mem (next_object w + 8 * k) =
              ap (λ x. w'.mem (x + 8 * k)) hp in
            absurd
              (omega (arith, e, g.plain k (omega arith), b.0, b.1, b.2, g.spaces, g.used, g.room))
      ]

  pub Grown-IsHeap : IsHeap w' (ts ++ t ∷ [])
  Grown-IsHeap = record {
    filled = omega (arith, total-snoc t ts, heap.filled, g.used);
    within = omega (arith, g.used, g.room, g.capacity);
    small = omega (arith, heap.small, g.capacity);
    aligned = rw g.spaces.0 heap.aligned;
    aligned_old = rw g.spaces.1 heap.aligned_old;
    disjoint = omega (arith, heap.disjoint, g.spaces, g.capacity);
    header = λ p s o. elim (cases p s o) [
      | inl o' ↦
          let b = object_bounds p s w.new_space ts o' in
          g.same (p - 8) (omega arith) (omega (arith, heap.filled, heap.positive p s o'))
          ∙ heap.header p s o'
      | inr (hp, hs) ↦ rw (hp, hs) g.header
    ];
    positive = λ p s o. elim (cases p s o) [
      | inl o' ↦ heap.positive p s o'
      | inr (hp, hs) ↦ omega (arith, g.positive)
    ];
    references = references;
  }

  pub Grown-IsClean : IsClean w' (ts ++ t ∷ [])
  Grown-IsClean = record {
    not_old = λ p s k o lt al. elim (cases p s o) [
      | inl o' ↦
          let e = old_word p s k o' lt in
          omega (arith, e, clean.not_old p s k o' lt (rw e at al), g.spaces, g.capacity)
      | inr (hp, hs) ↦
          let e : w'.mem (p + 8 * k) ≡ w'.mem (next_object w + 8 * k) =
            ap (λ x. w'.mem (x + 8 * k)) hp in
          omega (arith, e, g.plain k (omega arith), g.spaces, g.capacity)
    ];
    not_free = λ p s k o lt al. elim (cases p s o) [
      | inl o' ↦
          let e = old_word p s k o' lt in
          omega (arith, e, clean.not_free p s k o' lt (rw e at al), g.spaces, g.capacity, g.used)
      | inr (hp, hs) ↦
          let e : w'.mem (p + 8 * k) ≡ w'.mem (next_object w + 8 * k) =
            ap (λ x. w'.mem (x + 8 * k)) hp in
          omega (arith, e, g.plain k (omega arith), g.spaces, g.capacity, g.used)
    ];
  }
