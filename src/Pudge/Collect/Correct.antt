-- ===== src/Pudge/Collect/Correct.antt =====
-- `_gc_collect` as a whole: the graph of the reachable objects is copied, and nothing else.
use pudge_with_mo_ml.Forwarding.{
  Forwarding, forwarded, forwarded_all, forwarded_all-none, forwarded_all_congr,
}
use pudge_with_mo_ml.Pudge.Collect.{scan_copied, scan_roots, collect, swap_spaces}
use pudge_with_mo_ml.Pudge.Collect.Second.{scan_copied-Finished, Finished}
use pudge_with_mo_ml.Pudge.Collect.First.{scan_roots-Rooted, Rooted}
use pudge_with_mo_ml.Base.{
  ℕ, ◌+◌, ◌*◌, ◌≡◌, ◌≢◌, refl, ◌⊎◌, inl, inr, ◌∙◌, sym, ap, true, false, List, [], none, some,
  arith, ◌==◌, Option-cases, ok, Returns,
}
use pudge_with_mo_ml.Memory.{Memory, holds}
use pudge_with_mo_ml.Pudge.{Runtime}
use pudge_with_mo_ml.Pudge.Heap.{
  IsObject, IsHeap, Reachable, from_stack, from_globals, from_object, moved_words-none,
}
use pudge_with_mo_ml.Pudge.Collect.Invariant.{Inv}
use pudge_with_mo_ml.Pudge.Collect.Stage.{during, words_of, count_of, Row}

module _ (w : Runtime) (ts : List ℕ) where
  abbrev no_forwarding : Forwarding
  no_forwarding x = none

  -- Nothing is copied yet.
  start-Inv : IsHeap w ts → Inv w ts no_forwarding 0 0 w.mem
  start-Inv heap = record {
    offset = sym (moved_words-none w.new_space ts);
    origin = λ p q h. absurd (cc);
    reached = λ p q h. absurd (cc);
    waiting = λ p s o h. heap.header p s o;
    unchanged = λ p s k o h lt. refl;
    gone = λ p s q o h. absurd (cc);
    place = λ p s q o h. absurd (cc);
    header = λ p s q o h. absurd (cc);
    rest = λ p s q k o h lt ge. absurd (cc);
    done = λ p s q k o h lt b. absurd (cc);
    separate = λ p s q p' s' q' o o' h h'. absurd (cc);
  }

  -- The end of a collection that started in `w`.
  pub record Ended (w' : Runtime) : Type 0 where
    pub forwarding : Forwarding
    pub memory : Memory
    pub state :
        w'
        ≡ swap_spaces (words_of w ts forwarding) (
            during w memory
              (count_of w ts forwarding)
              (forwarded_all forwarding w.stack)
              (forwarded_all forwarding w.globals))
    pub inv : Inv w ts forwarding (words_of w ts forwarding) (words_of w ts forwarding) memory
    pub copies : List (ℕ × ℕ)
    pub row : Row w ts forwarding 0 (words_of w ts forwarding) copies
    pub complete :
        (p s : ℕ)
        → IsObject p s w.new_space ts
        → Reachable w ts p
        → (q : ℕ) × (forwarding p ≡ some q)

  module _ (heap : IsHeap w ts) (first : ℕ × Runtime) (a : Rooted w ts heap first)
      (second : ℕ × Runtime)
      (b : Finished w ts heap
        (forwarded_all a.forwarding w.stack)
        (forwarded_all a.forwarding w.globals)
        a.forwarding
        second) where
    -- A root that points to an object is forwarded by the first pass already.
    root_moved :
        (p s : ℕ)
        → IsObject p s w.new_space ts
        → (holds p w.stack ≡ true) ⊎ (holds p w.globals ≡ true)
        → (q : ℕ) × (a.forwarding p ≡ some q)
    root_moved p s o h = elim (Option-cases (a.forwarding p)) [
      | inl e ↦ let n = a.roots p s o e in absurd (ground arith)
      | inr r ↦ r
    ]

    -- so the second pass forwards no root
    same_word :
        (x : ℕ) (xs : List ℕ)
        → holds x xs ≡ true
        → ((s : ℕ) → IsObject x s w.new_space ts → (q : ℕ) × (a.forwarding x ≡ some q))
        → forwarded a.forwarding x ≡ forwarded b.forwarding x
    same_word x xs h moved = elim (Option-cases (a.forwarding x)) [
      | inr (q, e) ↦ rw (e, b.extends x q e, forwarded)
      | inl e ↦ elim (Option-cases (b.forwarding x)) [
        | inl e' ↦ rw (e, e', forwarded)
        | inr (q, e') ↦ let (s, o) = b.inv.origin x q e' in let (q', g) = moved s o in absurd (cc)
      ]
    ]

    Reachable-moved :
        (p : ℕ)
        → Reachable w ts p
        → (s : ℕ) → IsObject p s w.new_space ts
        → (q : ℕ) × (b.forwarding p ≡ some q)
    Reachable-moved p (from_stack _ h) s o =
        let (q, e) = root_moved p s o (inl h) in (q, b.extends p q e)
    Reachable-moved p (from_globals _ h) s o =
        let (q, e) = root_moved p s o (inr h) in (q, b.extends p q e)
    Reachable-moved _ (from_object p s k r o lt h) s' o' =
        let (q, e) = Reachable-moved p r s o in
        let c = b.inv.place p s q o e in
        let v = b.inv.done p s q k o e lt (omega (arith, c.1, c.2)) in (_, v.0 h)

    same_roots :
        (forwarded_all a.forwarding w.stack ≡ forwarded_all b.forwarding w.stack)
        × (forwarded_all a.forwarding w.globals ≡ forwarded_all b.forwarding w.globals)
    same_roots = (
      forwarded_all_congr a.forwarding b.forwarding w.stack
          (λ x h. same_word x w.stack h (λ s o. root_moved x s o (inl h))),
      forwarded_all_congr a.forwarding b.forwarding w.globals
          (λ x h. same_word x w.globals h (λ s o. root_moved x s o (inr h))),
    )

    ended : Ended (swap_spaces second.0 second.1)
    ended = record {
      forwarding = b.forwarding;
      memory = b.memory;
      state = rw (b.result, same_roots.0, same_roots.1);
      inv = b.inv;
      copies = b.copies;
      row = b.row;
      complete = λ p s o r. Reachable-moved p r s o;
    }

  -- A collection of a heap that is not empty ends within its fuel.
  pub collect-Ended : IsHeap w ts → w.alloc_offset ≢ 0 → Returns Ended (collect w)
  unfolding collect
  collect-Ended heap ne =
      let no_words = moved_words-none w.new_space ts in
      let base : w.new_space + 8 * 0 ≡ w.new_space = omega arith in
      let (first, ran, a) =
        scan_roots-Rooted w ts heap (w.alloc_offset + 1) no_forwarding w.mem 0 ts []
          (omega (arith, heap.filled)) (rw no_words (start-Inv heap)) (sym no_words)
          (record {
            left = omega (arith, heap.filled);
            objects = λ p s h. rw base at h;
            fresh = λ p s h. refl;
            seen = λ p s o h. inr (rw base o);
          }) in
      let (second, ran', b) =
        scan_copied-Finished w ts heap (forwarded_all a.forwarding w.stack)
          (forwarded_all a.forwarding w.globals) (w.alloc_offset + 1) a.forwarding a.memory 0 []
          a.copies (omega arith) a.inv refl a.row in
      let not_empty : (w.alloc_offset == 0) ≡ false = ground arith in
      let run : scan_roots (w.alloc_offset + 1) 0 0 (record w { obj_count = 0 }) ≡ ok first =
        rw (no_words, forwarded_all-none w.stack, forwarded_all-none w.globals) at ran in
      let run' : scan_copied (w.alloc_offset + 1) 0 first.0 first.1 ≡ ok second =
        ap (λ (out : ℕ × Runtime). scan_copied (w.alloc_offset + 1) 0 out.0 out.1) a.result
        ∙ ran' in
      (swap_spaces second.0 second.1, rw (not_empty, run, run'), ended heap first a second b)
