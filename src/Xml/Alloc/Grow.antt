-- ===== src/Xml/Alloc/Grow.antt =====
-- A heap of XML/bin/runtime.c to which a closure without arguments has been added.
use pudge_with_mo_ml.Base.{
  ℕ, ◌+◌, ◌*◌, ◌^◌, ◌≤◌, ◌<◌, ◌≡◌, ◌⊎◌, inl, inr, ◌∙◌, sym, true, false, List, [], ◌∷◌, ◌++◌, arith,
  ◌==◌,
}
use pudge_with_mo_ml.Xml.{Runtime, in_from, in_to}
use pudge_with_mo_ml.Xml.Heap.{
  IsObject, object_bounds, IsHeap, IsClean, IsTyped, points, is_field, is_live, total-snoc,
  IsObject-snoc, IsObject-append,
}
use pudge_with_mo_ml.Xml.Collect.Invariant.{object_place}

-- `w'` is `w` with one more closure, of `arity` arguments.
pub record Grown (w : Runtime) (arity : ℕ) (w' : Runtime) : Type 0 where
  pub room : w.alloc_ptr + 8 * (4 + arity) ≤ w.from_end
  pub from : (w'.from_start ≡ w.from_start) × (w'.from_end ≡ w.from_end)
  pub to : (w'.to_start ≡ w.to_start) × (w'.to_end ≡ w.to_end)
  pub tables : (w'.vt_block ≡ w.vt_block) × (w'.vt_closure ≡ w.vt_closure)
  pub stack : w'.stack ≡ w.stack
  pub rounds_up : arity + 4 < 2 ^ 29
  pub used : w'.alloc_ptr ≡ w.alloc_ptr + 8 * (4 + arity)
  pub type_at : w'.mem w.alloc_ptr ≡ w.vt_closure
  pub arity_at : w'.mem (w.alloc_ptr + 8) ≡ arity
  pub received_at : w'.mem (w.alloc_ptr + 16) ≡ 0
  pub same : (b : ℕ) → w.from_start ≤ b → b < w.alloc_ptr → w'.mem b ≡ w.mem b

module _ (w : Runtime) (ts : List ℕ) (heap : IsHeap w ts) (clean : IsClean w ts) (arity : ℕ)
    (w' : Runtime) (g : Grown w arity w') where
  abbrev ts' : List ℕ
  ts' = ts ++ (4 + arity) ∷ []

  -- an object of the new heap is one of the old heap or the added one
  cases :
      (p s : ℕ)
      → IsObject p s w'.from_start ts'
      → IsObject p s w.from_start ts ⊎ ((p ≡ w.alloc_ptr) × (s ≡ 4 + arity))
  cases p s o = elim (IsObject-snoc p s w.from_start (4 + arity) ts (rw g.from.0 at o)) [
    | inl h ↦ inl h
    | inr h ↦ inr (omega (arith, h.0, heap.filled), h.1)
  ]

  old_word :
      (p s k : ℕ) → IsObject p s w.from_start ts → k < s → w'.mem (p + 8 * k) ≡ w.mem (p + 8 * k)
  old_word p s k o lt =
      let b = object_bounds p s w.from_start ts o in
      g.same (p + 8 * k) (omega arith) (omega (arith, heap.filled))

  old_type : (p s : ℕ) → IsObject p s w.from_start ts → w'.mem p ≡ w.mem p
  old_type p s o =
      let b = object_bounds p s w.from_start ts o in
      let c = object_place w ts heap p s o in g.same p (omega arith) (omega (arith, heap.filled))

  old_length : (p s : ℕ) → IsObject p s w.from_start ts → w'.mem (p + 8) ≡ w.mem (p + 8)
  old_length p s o = let c = object_place w ts heap p s o in old_word p s 1 o (omega arith)

  old_received :
      (p s : ℕ)
      → IsObject p s w.from_start ts
      → w.mem p ≡ w.vt_closure
      → w'.mem (p + 16) ≡ w.mem (p + 16)
  old_received p s o t = old_word p s 2 o (ground (arith, heap.typed p s o, heap.tables))

  old-IsObject : (p s : ℕ) → IsObject p s w.from_start ts → IsObject p s w'.from_start ts'
  old-IsObject p s o = rw g.from.0 (IsObject-append p s w.from_start (4 + arity) ts o)

  new-IsTyped : (p s : ℕ) → IsObject p s w'.from_start ts' → IsTyped p s w'
  new-IsTyped p s o' = elim (cases p s o') [
    | inl o ↦ elim (heap.typed p s o) [
      | inl (t, z) ↦ inl (old_type p s o ∙ t ∙ sym g.tables.0, z ∙ (rw (old_length p s o)))
      | inr (t, z, u) ↦ inr (
        old_type p s o ∙ t ∙ sym g.tables.1,
        z ∙ (rw (old_length p s o)),
        rw (old_length p s o, old_received p s o t) u,
      )
    ]
    | inr (a, b) ↦ inr (
      rw a (g.type_at ∙ sym g.tables.1),
      rw (a, g.arity_at) b,
      rw (a, g.arity_at, g.received_at) (omega arith),
    )
  ]

  old_field : (p s k : ℕ) → IsObject p s w.from_start ts → is_field p k w' ≡ is_field p k w
  unfolding is_field
  old_field p s k o = elim (heap.typed p s o) [
    | inl (t, z) ↦
        let y : (w.vt_block == w.vt_block) ≡ true = ground arith in
        rw (old_type p s o, g.tables.0, t, y)
    | inr (t, z, u) ↦
        let n : (w.vt_closure == w.vt_block) ≡ false = ground (arith, heap.tables) in
        rw (old_type p s o, g.tables.0, t, n, old_received p s o t)
  ]

  -- The added closure has no fields.
  no_field : (k : ℕ) → is_field w.alloc_ptr k w' ≡ false
  unfolding is_field
  no_field k =
      let n : (w.vt_closure == w.vt_block) ≡ false = ground (arith, heap.tables) in
      rw (g.type_at, g.tables.0, n, g.received_at) (ground arith)

  same_points : (v : ℕ) → points v w' ≡ points v w
  unfolding points in_from
  same_points v = rw (g.from.0, g.from.1)

  same_to : (v : ℕ) → in_to v w' ≡ in_to v w
  unfolding in_to
  same_to v = rw (g.to.0, g.to.1)

  old_live : (p s k : ℕ) → IsObject p s w.from_start ts → k < s → is_live p k w' ≡ is_live p k w
  unfolding is_live
  old_live p s k o lt = rw (old_field p s k o, old_word p s k o lt, same_points (w.mem (p + 8 * k)))

  not_live : (k : ℕ) → is_live w.alloc_ptr k w' ≡ false
  unfolding is_live
  not_live k = rw (no_field k)

  new_fields :
      (p s k : ℕ)
      → IsObject p s w'.from_start ts'
      → k < s
      → is_live p k w' ≡ true
      → (t : ℕ) × IsObject (w'.mem (p + 8 * k)) t w'.from_start ts'
  new_fields p s k o' lt h = elim (cases p s o') [
    | inl o ↦
        let (t, x) = heap.fields p s k o lt (sym (old_live p s k o lt) ∙ h) in
        (t, rw (old_word p s k o lt) (old-IsObject (w.mem (p + 8 * k)) t x))
    | inr (a, b) ↦ absurd (let h' = rw a at h in let n = not_live k in cc)
  ]

  pub Grown-IsHeap : IsHeap w' ts'
  Grown-IsHeap = record {
    filled = omega (arith, total-snoc (4 + arity) ts, heap.filled, g.used, g.from);
    within = omega (arith, g.used, g.room, g.from);
    halves = omega (arith, g.from, g.to, heap.halves);
    disjoint = omega (arith, g.from, g.to, heap.disjoint);
    nonzero = omega (arith, g.from, g.to, heap.nonzero);
    small = omega (arith, g.from, g.to, heap.small);
    aligned = omega (arith, g.from, g.to, heap.aligned);
    tables = λ h. heap.tables (sym g.tables.0 ∙ h ∙ g.tables.1);
    tables_elsewhere = omega (arith, g.from, g.to, g.tables, heap.tables_elsewhere);
    typed = new-IsTyped;
    rounds_up = λ p s o. elim (cases p s o) [
      | inl h ↦ heap.rounds_up p s h
      | inr h ↦ omega (arith, g.rounds_up, h.1)
    ];
    fields = new_fields;
    roots = λ v h k.
        let (t, o) = heap.roots v (rw g.stack at h) (sym (same_points v) ∙ k) in
        (t, old-IsObject v t o);
  }

  pub Grown-IsClean : IsClean w' ts'
  Grown-IsClean = record {
    fields = λ p s k o' lt fd ptr. elim (cases p s o') [
      | inl o ↦
          rw (old_word p s k o lt, same_to (w.mem (p + 8 * k)))
            (clean.fields p s k o lt (sym (old_field p s k o) ∙ fd)
              (rw (old_word p s k o lt) at ptr))
      | inr (a, b) ↦ absurd (let fd' = rw a at fd in let n = no_field k in cc)
    ];
    roots = λ v h ptr. same_to v ∙ clean.roots v (rw g.stack at h) ptr;
  }
