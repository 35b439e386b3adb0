-- ===== src/Pudge/Collect/Graph.antt =====
-- What a collection promises the program: the objects that it can reach are all in the new space,
-- each once, and every pointer to one of them, in a root or in an object, leads to its copy.
use pudge_with_mo_ml.Forwarding.{Forwarding, forwarded_all}
use pudge_with_mo_ml.Base.{
  ℕ, ◌+◌, ◌-◌, ◌*◌, ◌≤◌, ◌<◌, ◌≡◌, ◌≢◌, refl, inl, inr, ◌∙◌, sym, ap, List, [], ◌∷◌, some, arith,
  Returns,
}
use mathlib.Core.Logic.{◌↔◌}
use pudge_with_mo_ml.Memory.{Memory}
use pudge_with_mo_ml.Pudge.{Runtime}
use pudge_with_mo_ml.Pudge.Collect.{swap_spaces, collect}
use pudge_with_mo_ml.Pudge.Heap.{total, IsObject, IsHeap, Reachable, moved_words, moved_count}
use pudge_with_mo_ml.Pudge.Collect.Invariant.{Inv, Forwarded}
use pudge_with_mo_ml.Pudge.Collect.Advance.{off-le, one_copy, object_size}
use pudge_with_mo_ml.Pudge.Collect.Stage.{words_of, Row}
use pudge_with_mo_ml.Pudge.Collect.Correct.{Ended, collect-Ended}

-- The state `w'` after a collection of the heap of `w`.
pub record Collected (w : Runtime) (ts : List ℕ) (w' : Runtime) : Type 0 where
  pub forwarding : Forwarding
  -- the objects of the new heap, and how many words they take
  pub sizes : List ℕ
  pub filled : total sizes ≡ w'.alloc_offset
  pub moved : w'.alloc_offset ≡ moved_words forwarding w.new_space ts
  pub smaller : w'.alloc_offset ≤ w.alloc_offset
  pub swapped : (w'.new_space ≡ w.old_space) × (w'.old_space ≡ w.new_space)
  pub capacity : w'.space_capacity ≡ w.space_capacity
  pub counted : w'.obj_count ≡ moved_count forwarding w.new_space ts
  -- each root follows its object
  pub stack : w'.stack ≡ forwarded_all forwarding w.stack
  pub globals : w'.globals ≡ forwarded_all forwarding w.globals
  -- exactly the reachable objects are kept
  pub origin : (p q : ℕ) → forwarding p ≡ some q → (s : ℕ) × IsObject p s w.new_space ts
  pub exact :
      (p s : ℕ)
      → IsObject p s w.new_space ts
      → Reachable w ts p ↔ ((q : ℕ) × (forwarding p ≡ some q))
  pub distinct : (p p' q : ℕ) → forwarding p ≡ some q → forwarding p' ≡ some q → p ≡ p'
  -- the new heap holds their copies, in which each pointer follows its object
  pub copies :
      (p s q : ℕ)
      → IsObject p s w.new_space ts
      → forwarding p ≡ some q
      → IsObject q s w'.new_space sizes
  pub no_others :
      (q s : ℕ)
      → IsObject q s w'.new_space sizes
      → (p : ℕ) × IsObject p s w.new_space ts × (forwarding p ≡ some q)
  pub header :
      (p s q : ℕ) → IsObject p s w.new_space ts → forwarding p ≡ some q → w'.mem (q - 8) ≡ s
  pub words :
      (p s q k : ℕ)
      → IsObject p s w.new_space ts
      → forwarding p ≡ some q
      → k < s
      → Forwarded w forwarding (w.mem (p + 8 * k)) (w'.mem (q + 8 * k))

abbrev pub sizes_of : List (ℕ × ℕ) → List ℕ
sizes_of [] = []
sizes_of ((p, s) ∷ cs) = s ∷ sizes_of cs

module _ (w : Runtime) (ts : List ℕ) (f : Forwarding) where
  total-row :
      (cur end : ℕ) (cs : List (ℕ × ℕ)) → Row w ts f cur end cs → cur + total (sizes_of cs) ≡ end
  total-row cur end [] r = omega arith
  total-row cur end ((p, s) ∷ cs) r = omega (arith, total-row (cur + 1 + s) end cs r.2)

  -- The row's objects are copies.
  row-origin :
      (cur end : ℕ) (cs : List (ℕ × ℕ))
      → Row w ts f cur end cs
      → (q s : ℕ) → IsObject q s (w.old_space + 8 * cur) (sizes_of cs)
      → (p : ℕ) × IsObject p s w.new_space ts × (f p ≡ some q)
  row-origin cur end [] r q s h = absurd h
  row-origin cur end ((p, t) ∷ cs) r q s (inl h) = (p, rw h.1 r.0, r.1 ∙ ap some (omega arith))
  row-origin cur end ((p, t) ∷ cs) r q s (inr h) =
      let e : w.old_space + 8 * cur + 8 + 8 * t ≡ w.old_space + 8 * (cur + 1 + t) = omega arith in
      row-origin (cur + 1 + t) end cs r.2 q s (rw e at h)

  module _ (heap : IsHeap w ts) (d off : ℕ) (m : Memory) (inv : Inv w ts f d off m) (p s q : ℕ)
      (o : IsObject p s w.new_space ts) (e : f p ≡ some q) where
    -- Every copy stands in the row, since the row leaves no gap.
    row-copy :
        (cur end : ℕ) (cs : List (ℕ × ℕ))
        → Row w ts f cur end cs
        → w.old_space + 8 * (cur + 1) ≤ q
        → q + 8 * s ≤ w.old_space + 8 * end
        → IsObject q s (w.old_space + 8 * cur) (sizes_of cs)
    row-copy cur end [] r lo hi = absurd (omega (arith, heap.positive p s o))
    row-copy cur end ((p', t) ∷ cs) r lo hi =
        let q' : ℕ = w.old_space + 8 * (cur + 1) in
        elim (inv.separate p s q p' t q' o r.0 e r.1) [
          | inl h ↦ inl (
            omega (arith, one_copy w ts heap f d off m inv p q q' e (rw (sym h) at (r.1))),
            object_size w ts heap f d off m inv p s t o (rw (sym h) at (r.0)),
          )
          | inr h ↦
              let e₀ : w.old_space + 8 * (cur + 1 + t) ≡ w.old_space + 8 * cur + 8 + 8 * t =
                omega arith in
              inr (
                rw e₀ at
                  (row-copy (cur + 1 + t) end cs r.2 (omega (arith, heap.positive p s o)) hi))
        ]

module _ (w : Runtime) (ts : List ℕ) (heap : IsHeap w ts) (w' : Runtime) (e : Ended w ts w') where
  Collected-swap : Collected w ts (
      swap_spaces (words_of w ts e.forwarding) (record w {
        mem = e.memory;
        obj_count = moved_count e.forwarding w.new_space ts;
        stack = forwarded_all e.forwarding w.stack;
        globals = forwarded_all e.forwarding w.globals;
      }))
  unfolding swap_spaces
  Collected-swap = record {
    forwarding = e.forwarding;
    sizes = sizes_of e.copies;
    filled =
        omega (arith, total-row w ts e.forwarding 0 (words_of w ts e.forwarding) e.copies e.row);
    moved = refl;
    smaller = off-le w ts heap e.forwarding off off e.memory e.inv;
    swapped = (refl, refl);
    capacity = refl;
    counted = refl;
    stack = refl;
    globals = refl;
    origin = e.inv.origin;
    exact = λ p s o. ((λ r. e.complete p s o r), (λ x. e.inv.reached p x.0 x.1));
    distinct = λ p p' q h h'.
        let (s, o) = e.inv.origin p q h in
        let (s', o') = e.inv.origin p' q h' in
        omega (arith, e.inv.separate p s q p' s' q o o' h h');
    copies = λ p s q o h.
        let c = e.inv.place p s q o h in
        rw base at (
          row-copy w ts e.forwarding heap off off e.memory e.inv p s q o h 0 off e.copies e.row
            (omega (arith, c.1)) (omega (arith, c.1, c.2)));
    no_others = λ q s o. row-origin w ts e.forwarding 0 off e.copies e.row q s (rw base o);
    header = e.inv.header;
    words = λ p s q k o h lt.
        let c = e.inv.place p s q o h in e.inv.done p s q k o h lt (omega (arith, c.1, c.2));
  }
    where
      off : ℕ
      off = words_of w ts e.forwarding

      base : w.old_space + 8 * 0 ≡ w.old_space
      base = omega arith

-- A collection of a heap that is not empty ends, and keeps exactly the graph of the reachable
-- objects.
pub collect-Collected :
    (w : Runtime) (ts : List ℕ)
    → IsHeap w ts
    → w.alloc_offset ≢ 0
    → Returns (Collected w ts) (collect w)
collect-Collected w ts heap ne =
    let (w', ran, e) = collect-Ended w ts heap ne in
    (w', ran, rw e.state (Collected-swap w ts heap w' e))
