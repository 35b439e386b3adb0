-- ===== src/Pudge/Closure/Values.antt =====
-- Words that compiled code may store into an object of PudgeWithMoML/lib/runtime/runtime.c: plain
-- words, and pointers to objects.
use pudge_with_mo_ml.Base.{
  ℕ, ◌+◌, ◌-◌, ◌*◌, ◌%◌, ◌≤◌, ◌<◌, ◌≡◌, ◌∙◌, sym, ◌⊎◌, inl, inr, true, List, [], ◌∷◌, ◌++◌, some,
  arith, ◌==◌, Bool-cases, Option-cases,
}
use pudge_with_mo_ml.Memory.{Memory}
use pudge_with_mo_ml.Memory.Copy.{Outside}
use pudge_with_mo_ml.Forwarding.{forwarded}
use pudge_with_mo_ml.Pudge.{Runtime}
use pudge_with_mo_ml.Pudge.Collect.{is_reference}
use pudge_with_mo_ml.Pudge.Heap.{
  IsObject, object_bounds, object_aligned, IsObject-Apart, IsHeap, IsClean, Reachable,
  IsObject-append,
}
use pudge_with_mo_ml.Pudge.Collect.Preserve.{reference_bounds, not_reference}
use pudge_with_mo_ml.Pudge.Collect.Graph.{Collected}
use pudge_with_mo_ml.Pudge.Malloc.Grow.{IsPlain, Grown, reference_of_bounds}

abbrev pub IsValue : ℕ → Runtime → List ℕ → Type 0
IsValue v w ts = IsPlain v w ⊎ ((t : ℕ) × IsObject v t w.new_space ts)

-- One more object leaves the words that may be stored.
module _ (w : Runtime) (ts : List ℕ) (t : ℕ) (w' : Runtime) (g : Grown w t w') (us : List ℕ)
    (e : us ≡ ts ++ t ∷ []) where
  pub grown-IsPlain : (v : ℕ) → IsPlain v w → IsPlain v w'
  grown-IsPlain v h = omega (arith, h, g.spaces, g.capacity)

  pub grown-IsObject : (p s : ℕ) → IsObject p s w.new_space ts → IsObject p s w'.new_space us
  grown-IsObject p s o = rw (g.spaces.0, e) (IsObject-append p s w.new_space t ts o)

  pub grown-IsValue : (v : ℕ) → IsValue v w ts → IsValue v w' us
  grown-IsValue v (inl h) = inl (grown-IsPlain v h)
  grown-IsValue v (inr (t', x)) = inr (t', grown-IsObject v t' x)

module _ (w : Runtime) (ts : List ℕ) (heap : IsHeap w ts) (clean : IsClean w ts) where
  -- The words of objects are such.
  pub word-IsValue :
      (p s k : ℕ) → IsObject p s w.new_space ts → k < s → IsValue (w.mem (p + 8 * k)) w ts
  word-IsValue p s k o lt =
      let v : ℕ = w.mem (p + 8 * k) in
      elim (Bool-cases (is_reference v w)) [
        | inl h ↦ inr (heap.references p s k o lt h)
        | inr h ↦ elim (Bool-cases (v % 8 == 0)) [
          | inr n ↦ inl (inl (ground arith))
          | inl e ↦
              let al : v % 8 ≡ 0 = ground arith in
              inl (
                inr (
                  omega (arith, not_reference v w h al, clean.not_free p s k o lt al),
                  clean.not_old p s k o lt al,
                ))
        ]
      ]

  -- Other such words in the object at `p` leave a heap.
  module _ (p s : ℕ) (o : IsObject p s w.new_space ts) (m' : Memory)
      (same : (b : ℕ)
        → w.new_space ≤ b
        → b < w.new_space + 8 * w.alloc_offset
        → Outside b p s
        → m' b ≡ w.mem b)
      (values : (k : ℕ) → k < s → IsValue (m' (p + 8 * k)) w ts) where
    abbrev pub refilled : Runtime
    refilled = record w { mem = m' }

    other_word :
        (p' s' k : ℕ)
        → IsObject p' s' w.new_space ts
        → k < s'
        → (p ≡ p') ⊎ (m' (p' + 8 * k) ≡ w.mem (p' + 8 * k))
    other_word p' s' k o' lt =
        let b = object_bounds p' s' w.new_space ts o' in
        elim (IsObject-Apart p s p' s' w.new_space ts o o') [
          | inl e ↦ inl e.0
          | inr e ↦ inr (same (p' + 8 * k) (omega arith) (omega (arith, heap.filled)) (omega arith))
        ]

    same_size : (p' s' : ℕ) → IsObject p' s' w.new_space ts → p ≡ p' → s' ≡ s
    same_size p' s' o' e = omega (
      arith,
      IsObject-Apart p s p' s' w.new_space ts o o',
      heap.positive p s o,
      heap.positive p' s' o',
    )

    every-IsValue :
        (p' s' k : ℕ) → IsObject p' s' w.new_space ts → k < s' → IsValue (m' (p' + 8 * k)) w ts
    every-IsValue p' s' k o' lt = elim (other_word p' s' k o' lt) [
      | inl e ↦ rw (← e) (values k (omega (arith, same_size p' s' o' e)))
      | inr e ↦ rw e (word-IsValue p' s' k o' lt)
    ]

    reference_value :
        (v : ℕ) → IsValue v w ts → is_reference v w ≡ true → (t : ℕ) × IsObject v t w.new_space ts
    reference_value v (inl h) e = absurd (omega (arith, reference_bounds v w e, heap.within))
    reference_value v (inr h) e = h

    pub refilled-IsHeap : IsHeap refilled ts
    unfolding is_reference
    refilled-IsHeap = record {
      filled = heap.filled;
      within = heap.within;
      small = heap.small;
      aligned = heap.aligned;
      aligned_old = heap.aligned_old;
      disjoint = heap.disjoint;
      header = λ p' s' o'.
          let b = object_bounds p' s' w.new_space ts o' in
          let z = heap.positive p' s' o' in
          let z' = heap.positive p s o in
          same (p' - 8) (omega arith) (omega (arith, heap.filled))
            (omega (arith, IsObject-Apart p s p' s' w.new_space ts o o'))
          ∙ heap.header p' s' o';
      positive = heap.positive;
      references =
          λ p' s' k o' lt h. reference_value (m' (p' + 8 * k)) (every-IsValue p' s' k o' lt) h;
    }

    clean_value :
        (v : ℕ)
        → IsValue v w ts
        → v % 8 ≡ 0
        → ((v < w.old_space) ⊎ (w.old_space + 8 * w.space_capacity ≤ v))
          × ((v < w.new_space + 8 * w.alloc_offset) ⊎ (w.new_space + 8 * w.space_capacity ≤ v))
    clean_value v (inl h) e = (omega (arith, h), omega (arith, h))
    clean_value v (inr (t, x)) e =
        let b = object_bounds v t w.new_space ts x in
        let z = heap.positive v t x in
        (
          omega (arith, heap.filled, heap.within, heap.disjoint),
          omega (arith, heap.filled, heap.within),
        )

    pub refilled-IsClean : IsClean refilled ts
    refilled-IsClean = record {
      not_old =
          λ p' s' k o' lt e. (clean_value (m' (p' + 8 * k)) (every-IsValue p' s' k o' lt) e).0;
      not_free =
          λ p' s' k o' lt e. (clean_value (m' (p' + 8 * k)) (every-IsValue p' s' k o' lt) e).1;
    }

  -- An address that is an object is no plain word.
  object_not_plain : (v t : ℕ) → IsObject v t w.new_space ts → IsPlain v w → ⊥
  object_not_plain v t o h =
      let b = object_bounds v t w.new_space ts o in
      let z = heap.positive v t o in
      omega (arith, h, object_aligned v t w.new_space ts o heap.aligned, heap.filled, heap.within)

  pub object_reference : (v t : ℕ) → IsObject v t w.new_space ts → is_reference v w ≡ true
  object_reference v t x =
      let b = object_bounds v t w.new_space ts x in
      let z = heap.positive v t x in
      reference_of_bounds v w (object_aligned v t w.new_space ts x heap.aligned) (omega arith)
        (omega (arith, heap.filled))

  module _ (w' : Runtime) (c : Collected w ts w') where
    -- A plain word stays as it is through a collection.
    pub plain_forwarded : (v : ℕ) → IsPlain v w → forwarded c.forwarding v ≡ v
    plain_forwarded v h = elim (Option-cases (c.forwarding v)) [
      | inl e ↦ rw (e, forwarded)
      | inr (q, e) ↦ let (t, o) = c.origin v q e in absurd (object_not_plain v t o h)
    ]

    -- A word that may be stored may be stored after a collection, as it is then.
    pub forwarded-IsValue :
        (v : ℕ)
        → IsValue v w ts
        → ((t : ℕ) → IsObject v t w.new_space ts → Reachable w ts v)
        → IsValue (forwarded c.forwarding v) w' c.sizes
    forwarded-IsValue v (inl h) r =
        rw (plain_forwarded v h) (inl (omega (arith, h, c.swapped, c.capacity)))
    forwarded-IsValue v (inr (t, o)) r =
        let (q, e) = (c.exact v t o).0 (r t o) in
        let e' : forwarded c.forwarding v ≡ q = rw (e, forwarded) in
        rw e' (inr (t, c.copies v t q o e))

    -- A word of a copy is the word of the object as it is after the collection.
    pub word_forwarded :
        (p s q k : ℕ)
        → IsObject p s w.new_space ts
        → c.forwarding p ≡ some q
        → k < s
        → w'.mem (q + 8 * k) ≡ forwarded c.forwarding (w.mem (p + 8 * k))
    word_forwarded p s q k o e lt =
        let v : ℕ = w.mem (p + 8 * k) in
        let f = c.words p s q k o e lt in
        elim (Bool-cases (is_reference v w)) [
          | inl h ↦
              let g = f.0 h in
              let g' : forwarded c.forwarding v ≡ w'.mem (q + 8 * k) = rw (g, forwarded) in sym g'
          | inr h ↦ elim (word-IsValue p s k o lt) [
            | inl x ↦ f.1 h ∙ sym (plain_forwarded v x)
            | inr (t, x) ↦ absurd (let y = object_reference v t x in cc)
          ]
        ]
