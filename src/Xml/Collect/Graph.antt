-- ===== src/Xml/Collect/Graph.antt =====
-- What `gc_collect` of XML/bin/runtime.c promises the program: the objects that it can reach are all
-- in the new space, each once, and every pointer to one of them leads to its copy.
use mathlib.Core.Logic.{◌↔◌}
use pudge_with_mo_ml.Base.{
  ℕ, ◌+◌, ◌-◌, ◌*◌, ◌/◌, ◌≤◌, ◌<◌, ◌≡◌, ◌∙◌, sym, refl, ap, inl, inr, List, [], ◌∷◌, none, some,
  arith, ok, Returns,
}
use pudge_with_mo_ml.Base.Words.{add_word}
use pudge_with_mo_ml.Memory.{Memory}
use pudge_with_mo_ml.Forwarding.{Forwarding, forwarded_all, forwarded_all_congr, one_copy}
use pudge_with_mo_ml.Xml.{Runtime}
use pudge_with_mo_ml.Xml.Heap.{
  total, IsObject, IsHeap, Reachable, from_stack, from_object, moved_words-none,
  moved_words-le-total, moved_words,
}
use pudge_with_mo_ml.Xml.Collect.{gc_collect, swap_spaces, scan_to, scan_stack}
use pudge_with_mo_ml.Xml.Collect.Invariant.{Inv, Follows, end_of, object_place, object_size}
use pudge_with_mo_ml.Xml.Collect.Step.{Row}
use pudge_with_mo_ml.Xml.Collect.Objects.{Finished, scan_to-Finished}
use pudge_with_mo_ml.Xml.Collect.Roots.{Rooted, scan_stack-Rooted, forwarded-extends}

-- The state `w'` after a collection of the heap of `w`.
pub record Collected (w : Runtime) (ts : List ℕ) (w' : Runtime) : Type 0 where
  pub forwarding : Forwarding
  -- the objects of the new heap, and how many words they take
  pub sizes : List ℕ
  pub filled : w'.from_start + 8 * total sizes ≡ w'.alloc_ptr
  pub moved : total sizes ≡ moved_words forwarding w.from_start ts
  pub smaller : total sizes ≤ total ts
  pub swapped :
      (w'.from_start ≡ w.to_start)
      × (w'.from_end ≡ w.to_end)
      × (w'.to_start ≡ w.from_start)
      × (w'.to_end ≡ w.from_end)
  pub tables : (w'.vt_block ≡ w.vt_block) × (w'.vt_closure ≡ w.vt_closure)
  pub counted : w'.runs ≡ add_word w.runs 1
  -- each root follows its object
  pub stack : w'.stack ≡ forwarded_all forwarding w.stack
  -- exactly the reachable objects are kept
  pub origin : (p q : ℕ) → forwarding p ≡ some q → (s : ℕ) × IsObject p s w.from_start ts
  pub exact :
      (p s : ℕ)
      → IsObject p s w.from_start ts
      → Reachable w ts p ↔ ((q : ℕ) × (forwarding p ≡ some q))
  pub distinct : (p p' q : ℕ) → forwarding p ≡ some q → forwarding p' ≡ some q → p ≡ p'
  -- the new heap holds their copies, in which each pointer follows its object
  pub copies :
      (p s q : ℕ)
      → IsObject p s w.from_start ts
      → forwarding p ≡ some q
      → IsObject q s w'.from_start sizes
  pub no_others :
      (q s : ℕ)
      → IsObject q s w'.from_start sizes
      → (p : ℕ) × IsObject p s w.from_start ts × (forwarding p ≡ some q)
  pub words :
      (p s q k : ℕ)
      → IsObject p s w.from_start ts
      → forwarding p ≡ some q
      → k < s
      → Follows w forwarding p k (w'.mem (q + 8 * k))

abbrev sizes_of : List (ℕ × ℕ) → List ℕ
sizes_of [] = []
sizes_of ((p, s) ∷ cs) = s ∷ sizes_of cs

module _ (w : Runtime) (ts : List ℕ) (f : Forwarding) where
  total-row :
      (cur end : ℕ) (cs : List (ℕ × ℕ))
      → Row w ts f cur end cs
      → cur + 8 * total (sizes_of cs) ≡ end
  total-row cur end [] r = omega arith
  total-row cur end ((p, s) ∷ cs) r = omega (arith, total-row (cur + 8 * s) end cs r.2)

  -- The row's objects are copies.
  row-origin :
      (cur end : ℕ) (cs : List (ℕ × ℕ))
      → Row w ts f cur end cs
      → (q s : ℕ) → IsObject q s cur (sizes_of cs)
      → (p : ℕ) × IsObject p s w.from_start ts × (f p ≡ some q)
  row-origin cur end [] r q s h = absurd h
  row-origin cur end ((p, t) ∷ cs) r q s (inl h) = (p, rw h.1 r.0, rw h.0 r.1)
  row-origin cur end ((p, t) ∷ cs) r q s (inr h) = row-origin (cur + 8 * t) end cs r.2 q s h

  -- Every copy stands in the row, since the row leaves no gap.
  row-copy :
      IsHeap w ts
      → (d : ℕ) (m : Memory) → Inv w ts f d m
      → (p s q : ℕ) → IsObject p s w.from_start ts
      → f p ≡ some q
      → (cur end : ℕ) (cs : List (ℕ × ℕ)) → Row w ts f cur end cs
      → cur ≤ q
      → q + 8 * s ≤ end
      → IsObject q s cur (sizes_of cs)
  row-copy heap d m inv p s q o e cur end [] r lo hi =
      let b = object_place w ts heap p s o in absurd (omega arith)
  row-copy heap d m inv p s q o e cur end ((p', t) ∷ cs) r lo hi =
      let b = object_place w ts heap p s o in
      elim (inv.separate p s q p' t cur o r.0 e r.1) [
        | inl h ↦ inl (
          one_copy f p q cur e (rw (sym h) at (r.1)),
          object_size w ts heap p s t o (rw (sym h) at (r.0)),
        )
        | inr h ↦ inr (row-copy heap d m inv p s q o e (cur + 8 * t) end cs r.2 (omega arith) hi)
      ]

module _ (w : Runtime) (ts : List ℕ) (heap : IsHeap w ts) where
  abbrev no_forwarding : Forwarding
  no_forwarding x = none

  -- Nothing is copied yet.
  start-Inv : Inv w ts no_forwarding w.to_start w.mem
  start-Inv = record {
    origin = λ p q h. absurd (cc);
    reached = λ p q h. absurd (cc);
    unchanged = λ p s k o h lt. refl;
    gone = λ p q h. absurd (cc);
    place = λ p s q o h. absurd (cc);
    rest = λ p s q k o h lt ge. absurd (cc);
    done = λ p s q k o h lt b. absurd (cc);
    separate = λ p s q p' s' q' o o' h h'. absurd (cc);
  }

  start_end : end_of w ts no_forwarding ≡ w.to_start
  start_end = omega (arith, moved_words-none w.from_start ts)

  module _ (first : List ℕ × Runtime) (a : Rooted w ts heap no_forwarding w.stack first)
      (out : Runtime)
      (b : Finished w ts heap (forwarded_all a.forwarding w.stack) a.forwarding out) where
    Reachable-moved : (p : ℕ) → Reachable w ts p → (q : ℕ) × (b.forwarding p ≡ some q)
    Reachable-moved p (from_stack _ h k) = let (q, e) = a.followed p h k in (q, b.extends p q e)
    Reachable-moved _ (from_object p s k r o lt h) =
        let (q, e) = Reachable-moved p r in
        let c = b.inv.place p s q o e in
        let v = b.inv.done p s q k o e lt (omega arith) in (_, v.0 h)

    same_roots : forwarded_all a.forwarding w.stack ≡ forwarded_all b.forwarding w.stack
    same_roots = forwarded_all_congr a.forwarding b.forwarding w.stack (λ v h.
        forwarded-extends w ts heap a.forwarding b.forwarding w.to_start (end_of w ts b.forwarding)
          a.memory b.memory a.inv b.inv b.extends v (a.followed v h))

    swapped-Collected : Collected w ts (swap_spaces out)
    unfolding swap_spaces
    swapped-Collected = rw b.result (record {
      forwarding = b.forwarding;
      sizes = sizes_of b.copies;
      filled = total-row w ts b.forwarding w.to_start (end_of w ts b.forwarding) b.copies b.row;
      moved =
          omega (
            arith,
            total-row w ts b.forwarding w.to_start (end_of w ts b.forwarding) b.copies b.row,
          );
      smaller = omega (
        arith,
        total-row w ts b.forwarding w.to_start (end_of w ts b.forwarding) b.copies b.row,
        moved_words-le-total b.forwarding w.from_start ts,
      );
      swapped = (refl, refl, refl, refl);
      tables = (refl, refl);
      counted = refl;
      stack = same_roots;
      origin = b.inv.origin;
      exact = λ p s o. ((λ r. Reachable-moved p r), (λ x. b.inv.reached p x.0 x.1));
      distinct = λ p p' q h h'.
          let (s, o) = b.inv.origin p q h in
          let (s', o') = b.inv.origin p' q h' in
          let c = object_place w ts heap p s o in
          let c' = object_place w ts heap p' s' o' in
          omega (arith, b.inv.separate p s q p' s' q o o' h h');
      copies = λ p s q o h.
          let c = b.inv.place p s q o h in
          row-copy w ts b.forwarding heap (end_of w ts b.forwarding) b.memory b.inv p s q o h
            w.to_start (end_of w ts b.forwarding) b.copies b.row c.0 c.1;
      no_others = λ q s o.
          row-origin w ts b.forwarding w.to_start (end_of w ts b.forwarding) b.copies b.row q s o;
      words = λ p s q k o h lt.
          let c = b.inv.place p s q o h in b.inv.done p s q k o h lt (omega arith);
    })

  -- On a heap, `gc_collect` ends within its fuel without a panic, and keeps exactly the graph of the
  -- reachable objects: each of them is copied once, every root and every pointer in a copy leads to
  -- the copy of its object, and the new space in use consists of the copies alone.
  pub gc_collect-Collected : Returns (Collected w ts) (gc_collect w)
  unfolding gc_collect
  gc_collect-Collected =
      let fuel : ℕ = (w.to_end - w.to_start) / 16 + 1 in
      let (first, ran, a) =
        scan_stack-Rooted w ts heap w.stack no_forwarding w.mem [] start-Inv (sym start_end)
          (λ v h. h) in
      let (out, ran', b) =
        scan_to-Finished w ts heap fuel (forwarded_all a.forwarding w.stack) a.forwarding a.memory
          w.to_start [] a.copies (omega arith) a.inv refl a.row in
      let run : scan_stack w.stack (record w { to_alloc = w.to_start }) ≡ ok first =
        rw start_end at ran in
      let run' : scan_to fuel w.to_start (record first.1 { stack = first.0 }) ≡ ok out =
        ap (λ (x : List ℕ × Runtime). scan_to fuel w.to_start (record x.1 { stack = x.0 })) a.result
        ∙ ran' in
      (swap_spaces out, rw (run, run'), swapped-Collected first a out b)
