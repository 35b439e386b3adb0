-- ===== src/Xml/Collect/Preserve.antt =====
-- A collection of XML/bin/runtime.c leaves a heap without stale addresses, so that it can be repeated.
use pudge_with_mo_ml.Base.{
  ℕ, ◌+◌, ◌*◌, ◌≤◌, ◌<◌, ◌≡◌, ◌∙◌, sym, inl, inr, true, false, List, [], ◌∷◌, none, some, arith,
  ◌==◌, Bool-cases, Option-cases, Returns,
}
use pudge_with_mo_ml.Memory.{holds}
use pudge_with_mo_ml.Forwarding.{Forwarding, forwarded, forwarded_all}
use pudge_with_mo_ml.Xml.{Runtime, in_from, in_to}
use pudge_with_mo_ml.Xml.Value.{is_ptr}
use pudge_with_mo_ml.Xml.Heap.{
  total, IsObject, object_bounds, IsHeap, IsClean, IsTyped, from_stack, points, is_field, is_live,
}
use pudge_with_mo_ml.Xml.Collect.{gc_collect}
use pudge_with_mo_ml.Xml.Collect.Invariant.{object_place}
use pudge_with_mo_ml.Xml.Collect.Objects.{header_plain}
use pudge_with_mo_ml.Xml.Collect.Graph.{Collected, gc_collect-Collected}

-- A word of a forwarded list is the forwarded form of one of the list.
holds-forwarded_all :
    (f : Forwarding) (v : ℕ) (xs : List ℕ)
    → holds v (forwarded_all f xs) ≡ true
    → (x : ℕ) × (holds x xs ≡ true) × (v ≡ forwarded f x)
unfolding holds
holds-forwarded_all f v [] h = absurd (cc)
holds-forwarded_all f v (x ∷ xs) h = elim (Bool-cases (forwarded f x == v)) [
  | inl e ↦ (x, ground arith, ground arith)
  | inr e ↦ let (y, k, z) = holds-forwarded_all f v xs (rw e at h) in (y, ground (arith, k), z)
]

module _ (w : Runtime) (ts : List ℕ) (heap : IsHeap w ts) (clean : IsClean w ts) (w' : Runtime)
    (c : Collected w ts w') where
  same_from : (v : ℕ) → in_from v w' ≡ in_to v w
  unfolding in_from in_to
  same_from v = rw (c.swapped.0, c.swapped.1)

  same_to : (v : ℕ) → in_to v w' ≡ in_from v w
  unfolding in_from in_to
  same_to v = rw (c.swapped.2, c.swapped.3)

  -- the first words of a copy are those of the object
  header_word :
      (p s q k : ℕ)
      → IsObject p s w.from_start ts
      → c.forwarding p ≡ some q
      → k < 2
      → w'.mem (q + 8 * k) ≡ w.mem (p + 8 * k)
  header_word p s q k o e lt =
      let b = object_place w ts heap p s o in
      (c.words p s q k o e (omega arith)).1 (header_plain w ts heap p s k o lt)

  type_word :
      (p s q : ℕ) → IsObject p s w.from_start ts → c.forwarding p ≡ some q → w'.mem q ≡ w.mem p
  type_word p s q o e =
      let e₀ : q + 8 * 0 ≡ q = omega arith in
      let e₁ : p + 8 * 0 ≡ p = omega arith in rw (e₀, e₁) at (header_word p s q 0 o e (omega arith))

  -- the third word of a closure
  received_word :
      (p s q : ℕ)
      → IsObject p s w.from_start ts
      → c.forwarding p ≡ some q
      → w.mem p ≡ w.vt_closure
      → w'.mem (q + 16) ≡ w.mem (p + 16)
  received_word p s q o e t =
      let plain : is_live p 2 w ≡ false = unfold is_live is_field in ground (arith, heap.tables) in
      let b : 2 < s = ground (arith, heap.typed p s o, heap.tables) in
      (c.words p s q 2 o e b).1 plain

  same_field :
      (p s q k : ℕ)
      → IsObject p s w.from_start ts
      → c.forwarding p ≡ some q
      → is_field q k w' ≡ is_field p k w
  unfolding is_field
  same_field p s q k o e = elim (heap.typed p s o) [
    | inl (t, z) ↦
        let y : (w.vt_block == w.vt_block) ≡ true = ground arith in
        rw (type_word p s q o e, c.tables.0, t, y)
    | inr (t, z, u) ↦
        let n : (w.vt_closure == w.vt_block) ≡ false = ground (arith, heap.tables) in
        rw (type_word p s q o e, c.tables.0, t, n, received_word p s q o e t)
  ]

  new-IsTyped : (q s : ℕ) → IsObject q s w'.from_start c.sizes → IsTyped q s w'
  new-IsTyped q s o' =
      let (p, o, e) = c.no_others q s o' in
      let a = type_word p s q o e in
      let b = header_word p s q 1 o e (omega arith) in
      elim (heap.typed p s o) [
        | inl (t, z) ↦ inl (a ∙ t ∙ sym c.tables.0, z ∙ (rw b))
        | inr (t, z, u) ↦
            inr (a ∙ t ∙ sym c.tables.1, z ∙ (rw b), rw (b, received_word p s q o e t) u)
      ]

  -- a pointer of the new heap is the forwarded form of an old one
  old_points : (v : ℕ) → is_ptr v ≡ true → in_to v w ≡ false → points v w ≡ in_from v w
  unfolding points
  old_points v h k = rw h

  points_new : (v : ℕ) → points v w' ≡ true → (is_ptr v ≡ true) × (in_to v w ≡ true)
  unfolding points
  points_new v h = ground (arith, same_from v)

  live_new :
      (q k : ℕ)
      → is_live q k w' ≡ true
      → (is_field q k w' ≡ true) × (points (w'.mem (q + 8 * k)) w' ≡ true)
  unfolding is_live
  live_new q k h = ground arith

  new_fields :
      (q s k : ℕ)
      → IsObject q s w'.from_start c.sizes
      → k < s
      → is_live q k w' ≡ true
      → (t : ℕ) × IsObject (w'.mem (q + 8 * k)) t w'.from_start c.sizes
  new_fields q s k o' lt h =
      let (p, o, e) = c.no_others q s o' in
      let (fd, pt) = live_new q k h in
      let (ptr, to) = points_new (w'.mem (q + 8 * k)) pt in
      let word = c.words p s q k o e lt in
      elim (Bool-cases (is_live p k w)) [
        | inl l ↦ let (t, ov) = heap.fields p s k o lt l in (t, c.copies _ t _ ov (word.0 l))
        | inr l ↦
            let same = word.1 l in
            let stale =
              clean.fields p s k o lt (sym (same_field p s q k o e) ∙ fd) (rw same at ptr) in
            absurd (let to' = rw same at to in cc)
      ]

  new_roots :
      (v : ℕ)
      → holds v w'.stack ≡ true
      → points v w' ≡ true
      → (t : ℕ) × IsObject v t w'.from_start c.sizes
  new_roots v h pt =
      let (ptr, to) = points_new v pt in
      let (x, hx, e) = holds-forwarded_all c.forwarding v w.stack (rw c.stack at h) in
      elim (Option-cases (c.forwarding x)) [
        | inr (q, fx) ↦
            let (t, o) = c.origin x q fx in
            let z : v ≡ q = e ∙ (rw (fx, forwarded)) in (t, rw z (c.copies x t q o fx))
        | inl fx ↦
            let z : v ≡ x = e ∙ (rw (fx, forwarded)) in
            let stale = clean.roots x hx (rw z at ptr) in absurd (let to' = rw z at to in cc)
      ]

  pub Collected-IsHeap : IsHeap w' c.sizes
  Collected-IsHeap = record {
    filled = c.filled;
    within = omega (arith, c.filled, c.smaller, c.swapped, heap.filled, heap.within, heap.halves);
    halves = omega (arith, c.swapped, heap.halves);
    disjoint = omega (arith, c.swapped, heap.disjoint);
    nonzero = omega (arith, c.swapped, heap.nonzero);
    small = omega (arith, c.swapped, heap.small);
    aligned = omega (arith, c.swapped, heap.aligned);
    tables = λ h. heap.tables (sym c.tables.0 ∙ h ∙ c.tables.1);
    tables_elsewhere = omega (arith, c.swapped, c.tables, heap.tables_elsewhere);
    typed = new-IsTyped;
    rounds_up = λ q s o. let (p, op, e) = c.no_others q s o in heap.rounds_up p s op;
    fields = new_fields;
    roots = new_roots;
  }

  -- A copy does not lie in the old space.
  copy_not_old :
      (p s q : ℕ) → IsObject p s w.from_start ts → c.forwarding p ≡ some q → in_from q w ≡ false
  unfolding in_from
  copy_not_old p s q o e =
      let b = object_bounds q s w'.from_start c.sizes (c.copies p s q o e) in
      let b' = object_place w ts heap p s o in
      ground (
        arith, c.filled, c.smaller, c.swapped, heap.filled, heap.within, heap.halves, heap.disjoint,
      )

  not_points : (v : ℕ) → is_ptr v ≡ true → points v w ≡ false → in_from v w ≡ false
  unfolding points
  not_points v h k = ground arith

  live_false :
      (p k : ℕ)
      → is_field p k w ≡ true
      → is_live p k w ≡ false
      → points (w.mem (p + 8 * k)) w ≡ false
  unfolding is_live
  live_false p k h l = ground arith

  root_plain : (x : ℕ) → holds x w.stack ≡ true → c.forwarding x ≡ none → points x w ≡ false
  root_plain x hx fx = elim (Bool-cases (points x w)) [
    | inr h ↦ h
    | inl h ↦
        let (t, o) = heap.roots x hx h in
        let (q, e) = (c.exact x t o).0 (from_stack x hx h) in absurd (cc)
  ]

  pub Collected-IsClean : IsClean w' c.sizes
  Collected-IsClean = record {
    fields = λ q s k o' lt fd ptr.
        let (p, o, e) = c.no_others q s o' in
        let word = c.words p s q k o e lt in
        same_to (w'.mem (q + 8 * k)) ∙ elim (Bool-cases (is_live p k w)) [
          | inl l ↦ let (t, ov) = heap.fields p s k o lt l in copy_not_old _ t _ ov (word.0 l)
          | inr l ↦
              let same = word.1 l in
              rw same (
                not_points (w.mem (p + 8 * k)) (rw same at ptr)
                  (live_false p k (sym (same_field p s q k o e) ∙ fd) l))
        ];
    roots = λ v h ptr.
        let (x, hx, e) = holds-forwarded_all c.forwarding v w.stack (rw c.stack at h) in
        same_to v ∙ elim (Option-cases (c.forwarding x)) [
          | inr (q, fx) ↦
              let (t, o) = c.origin x q fx in
              let z : v ≡ q = e ∙ (rw (fx, forwarded)) in rw z (copy_not_old x t q o fx)
          | inl fx ↦
              let z : v ≡ x = e ∙ (rw (fx, forwarded)) in
              rw z (not_points x (rw z at ptr) (root_plain x hx fx))
        ];
  }

-- On a heap without stale addresses, `gc_collect` ends within its fuel and leaves such a heap, which
-- takes no more words.
pub gc_collect-Kept :
    (w : Runtime) (ts : List ℕ)
    → IsHeap w ts
    → IsClean w ts
    → Returns
        (λ w'. (us : List ℕ) × IsHeap w' us × IsClean w' us × (total us ≤ total ts))
        (gc_collect w)
gc_collect-Kept w ts heap clean =
    let (w', ran, c) = gc_collect-Collected w ts heap in
    (
      w',
      ran,
      (
        c.sizes,
        Collected-IsHeap w ts heap clean w' c,
        Collected-IsClean w ts heap clean w' c,
        c.smaller,
      ),
    )
