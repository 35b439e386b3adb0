-- ===== src/Xml/Collect/Step.antt =====
-- The collector of XML/bin/runtime.c between two of its steps, and the step that forwards an object.
use pudge_with_mo_ml.Base.{
  ℕ, ◌+◌, ◌*◌, ◌/◌, ◌%◌, ◌^◌, ◌≤◌, ◌≡◌, inl, inr, sym, true, false, List, [], ◌∷◌, ◌++◌, none, some,
  arith, ltb-true, ltb-false, leb-true, ◌==◌, Option-cases, Outcome, ok,
}
use pudge_with_mo_ml.Memory.{Memory}
use pudge_with_mo_ml.Forwarding.{Forwarding, forward, forward_self, forward-extends}
use pudge_with_mo_ml.Xml.{Runtime, in_from, in_to}
use pudge_with_mo_ml.Xml.Heap.{IsObject, IsHeap, Reachable}
use pudge_with_mo_ml.Xml.Collect.{
  forward_obj, move_obj, size_bytes, block_bytes, clos_bytes, round_up,
}
use pudge_with_mo_ml.Xml.Collect.Invariant.{
  Inv, end_of, end_of-le, end_of-forward, object_place, copied, copied-Inv, room,
}

module _ (w : Runtime) (ts : List ℕ) where
  -- The collector changes the heap's words, the end of the copies and, between its passes, the roots.
  abbrev pub during : List ℕ → Forwarding → Memory → Runtime
  during ss f m = record w { mem = m; to_alloc = end_of w ts f; stack = ss }

  -- The copies from address `cur` to address `end`, in a row.
  abbrev pub Row : Forwarding → (cur end : ℕ) → List (ℕ × ℕ) → Type 0
  Row f cur end [] = cur ≡ end
  Row f cur end ((p, s) ∷ cs) =
      IsObject p s w.from_start ts × (f p ≡ some cur) × Row f (cur + 8 * s) end cs

  pub Row-extends :
      (f g : Forwarding) (cur end : ℕ) (cs : List (ℕ × ℕ))
      → ((p q : ℕ) → f p ≡ some q → g p ≡ some q)
      → Row f cur end cs
      → Row g cur end cs
  Row-extends f g cur end [] h r = r
  Row-extends f g cur end ((p, s) ∷ cs) h r =
      (r.0, h p _ r.1, Row-extends f g (cur + 8 * s) end cs h r.2)

  pub Row-snoc :
      (f : Forwarding) (p s cur mid : ℕ) (cs : List (ℕ × ℕ))
      → Row f cur mid cs
      → IsObject p s w.from_start ts
      → f p ≡ some mid
      → Row f cur (mid + 8 * s) (cs ++ (p, s) ∷ [])
  Row-snoc f p s cur mid [] r o e = (o, rw (sym r) at e, omega arith)
  Row-snoc f p s cur mid ((p', s') ∷ cs) r o e =
      (r.0, r.1, Row-snoc f p s (cur + 8 * s') mid cs r.2 o e)

  pub Row-le : (f : Forwarding) (cur end : ℕ) (cs : List (ℕ × ℕ)) → Row f cur end cs → cur ≤ end
  Row-le f cur end [] h = omega arith
  Row-le f cur end ((p, s) ∷ cs) h = omega (arith, Row-le f (cur + 8 * s) end cs h.2)

  -- What is left by a step that started with the forwarding `f`: the copies are done below `d`, and
  -- those from `tail` on are in a row.
  pub record Stage (ss : List ℕ) (f : Forwarding) (d tail : ℕ) (out : Outcome Runtime)
      : Type 0 where
    pub forwarding : Forwarding
    pub memory : Memory
    pub copies : List (ℕ × ℕ)
    pub result : out ≡ ok (during ss forwarding memory)
    pub inv : Inv w ts forwarding d memory
    pub row : Row forwarding tail (end_of w ts forwarding) copies
    pub extends : (p q : ℕ) → f p ≡ some q → forwarding p ≡ some q

  -- The same of a step that returns where the object `p` is.
  pub record Forwards (ss : List ℕ) (f : Forwarding) (d tail p : ℕ) (out : Outcome (ℕ × Runtime))
      : Type 0 where
    pub forwarding : Forwarding
    pub memory : Memory
    pub copies : List (ℕ × ℕ)
    pub address : ℕ
    pub result : out ≡ ok (address, during ss forwarding memory)
    pub target : forwarding p ≡ some address
    pub inv : Inv w ts forwarding d memory
    pub row : Row forwarding tail (end_of w ts forwarding) copies
    pub extends : (p' q : ℕ) → f p' ≡ some q → forwarding p' ≡ some q

module _ (w : Runtime) (ts : List ℕ) (heap : IsHeap w ts) (ss : List ℕ) (f : Forwarding) (d : ℕ)
    (m : Memory) (inv : Inv w ts f d m) where
  abbrev now : Runtime
  now = during w ts ss f m

  -- The size of an object, read where its type and its length are those of `w`.
  pub size_bytes-object :
      (p s a : ℕ)
      → IsObject p s w.from_start ts
      → m a ≡ w.mem p
      → m (a + 8) ≡ w.mem (p + 8)
      → size_bytes a now ≡ ok (8 * s)
  unfolding size_bytes block_bytes clos_bytes
  size_bytes-object p s a o e e' =
      let b = object_place w ts heap p s o in
      elim (heap.typed p s o) [
        | inl (t, z) ↦
            let y : (w.vt_block == w.vt_block) ≡ true = ground arith in
            let n : (16 + 8 * w.mem (p + 8)) % 2 ^ 64 ≡ 8 * s = omega (arith, heap.small) in
            rw (e, e', t, y, n)
        | inr (t, z, u) ↦
            let y : (w.vt_closure == w.vt_block) ≡ false = ground (arith, heap.tables) in
            let y' : (w.vt_closure == w.vt_closure) ≡ true = ground arith in
            let n : (32 + 8 * w.mem (p + 8)) % 2 ^ 64 ≡ 8 * s = omega (arith, heap.small) in
            rw (e, e', t, y, y', n)
      ]

  module _ (p s : ℕ) (o : IsObject p s w.from_start ts) (r : Reachable w ts p)
      (le : d ≤ end_of w ts f) (tail : ℕ) (cs : List (ℕ × ℕ))
      (row : Row w ts f tail (end_of w ts f) cs) where
    from_here : in_from p now ≡ true
    unfolding in_from
    from_here =
        let b = object_place w ts heap p s o in
        rw (leb-true w.from_start p b.0, ltb-true p w.from_end (omega arith))

    -- The object has a copy already.
    moved_already : (q : ℕ) → f p ≡ some q → Forwards w ts ss f d tail p (forward_obj p now)
    unfolding forward_obj
    moved_already q e =
        let c = inv.place p s q o e in
        let b = object_place w ts heap p s o in
        let there : in_to q now ≡ true =
          unfold in_to in
          rw (
            leb-true w.to_start q c.0,
            ltb-true q w.to_end (omega (arith, end_of-le w ts heap f)),
          ) in
        record {
          forwarding = f;
          memory = m;
          copies = cs;
          address = q;
          result = rw (from_here, inv.gone p q e, there);
          target = e;
          inv = inv;
          row = row;
          extends = λ p' q' h. h;
        }

    module _ (e : f p ≡ none) where
      abbrev fresh : ℕ
      fresh = end_of w ts f

      abbrev f' : Forwarding
      f' = forward f p fresh

      type_here : m p ≡ w.mem p
      type_here =
          let e₀ : p + 8 * 0 ≡ p = omega arith in
          let b = object_place w ts heap p s o in rw e₀ at (inv.unchanged p s 0 o e (omega arith))

      length_here : m (p + 8) ≡ w.mem (p + 8)
      length_here = let b = object_place w ts heap p s o in inv.unchanged p s 1 o e (omega arith)

      not_moved : in_to (m p) now ≡ false
      unfolding in_to
      not_moved = ground (arith, type_here, heap.typed p s o, heap.tables_elsewhere)

      move_eq : move_obj p (8 * s) now ≡ ok (fresh, during w ts ss f' (copied p s fresh m))
      unfolding move_obj round_up
      move_eq =
          let b = object_place w ts heap p s o in
          let n : (8 * s + 7) % 2 ^ 64 % 2 ^ 32 / 8 * 8 ≡ 8 * s =
            omega (arith, heap.rounds_up p s o) in
          let n' : 8 * s / 8 ≡ s = omega arith in
          rw (
            n,
            n',
            ltb-false w.to_end (fresh + 8 * s) (room w ts heap f d p s m inv o e r le),
            end_of-forward w ts heap f p s fresh o e,
          )

      newly_moved : Forwards w ts ss f d tail p (forward_obj p now)
      unfolding forward_obj
      newly_moved = record {
        forwarding = f';
        memory = copied p s fresh m;
        copies = cs ++ (p, s) ∷ [];
        address = fresh;
        result =
            rw (from_here, not_moved, size_bytes-object p s p o type_here length_here, move_eq);
        target = forward_self f p fresh;
        inv = copied-Inv w ts heap f d p s m inv o e r le;
        row = rw (end_of-forward w ts heap f p s fresh o e) (
            Row-snoc w ts f' p s tail fresh cs
              (Row-extends w ts f f' tail fresh cs (forward-extends f p fresh e) row) o
              (forward_self f p fresh));
        extends = forward-extends f p fresh e;
      }

    pub forward_obj-Forwards : Forwards w ts ss f d tail p (forward_obj p now)
    forward_obj-Forwards = elim (Option-cases (f p)) [
      | inl e ↦ newly_moved e
      | inr (q, e) ↦ moved_already q e
    ]
