-- ===== src/Omlet/Collect/Shared.antt =====
-- What the collector of OMLet/lib/gc.c does with two roots that point to one object.
use pudge_with_mo_ml.Base.{
  ℕ, suc, ◌+◌, ◌-◌, ◌*◌, ◌≤◌, ◌<◌, ◌≡◌, refl, ◌⊎◌, inl, ap, ◌∙◌, true, false, arith, ltb-false, [],
  ◌∷◌, ok, Returns,
}
use pudge_with_mo_ml.Memory.{Memory, store, copy_words}
use pudge_with_mo_ml.Memory.Copy.{store_self, store_ne, copy_words_self, copy_words-Outside}
use pudge_with_mo_ml.Omlet.{
  Runtime, Heap, cur_heap, old_heap, set_offset, on_heap, old_heap-set_offset,
}
use pudge_with_mo_ml.Omlet.Header.{
  get_tag, get_color, get_size, mark, mark_lem, t_unboxed, color_unmarked, color_marked,
}
use pudge_with_mo_ml.Omlet.Collect.{
  header_at, move_object, copy_object, is_fresh, find_fresh, update_pointers, mark_and_copy,
}

module _ (v : ℕ) (w : Runtime) where
  abbrev h : ℕ
  h = header_at v w

  abbrev heap : Heap
  heap = cur_heap w

  abbrev front : ℕ
  front = heap.start + heap.offset

  -- An object of the old heap, header and words, that is not marked and holds no pointers, for which the current heap
  -- has room.
  pub record IsLeaf : Type 0 where
    pub inside : on_heap v (old_heap w) ≡ true
    pub unmarked : get_color h ≡ color_unmarked
    pub unboxed : get_tag h ≡ t_unboxed
    pub above : (old_heap w).start + 8 ≤ v
    pub whole : v + 8 * get_size h ≤ (old_heap w).start + (old_heap w).size
    pub room : heap.offset + (8 + 8 * get_size h) ≤ heap.size
    pub apart : (v + 8 * get_size h ≤ front) ⊎ (front + 8 + 8 * get_size h ≤ v - 8)

  abbrev copied : Memory
  copied = copy_words (store w.mem front h) (front + 8) v (get_size h)

  abbrev moved : Runtime
  moved = record (set_offset (heap.offset + (8 + 8 * get_size h)) w) {
    mem = store copied (v - 8) (mark h);
  }

  module _ (l : IsLeaf) where
    fresh : find_fresh v w ≡ ok true
    unfolding find_fresh is_fresh
    fresh = rw (l.inside, l.unmarked, ltb-false v ((old_heap w).start + 8) l.above)

    copy_eq : copy_object v w ≡ ok (front + 8, moved)
    unfolding copy_object move_object
    copy_eq = rw (
      l.unmarked,
      ltb-false heap.size (heap.offset + (8 + 8 * get_size h)) l.room,
      ltb-false ((old_heap w).start + (old_heap w).size) (v + 8 * get_size h) l.whole,
    )

    copy_header : moved.mem (front + 8 - 8) ≡ h
    copy_header =
        ap moved.mem (omega arith)
        ∙ store_ne copied (v - 8) (mark h) front (omega (arith, l.apart, l.above))
        ∙ copy_words-Outside (store w.mem front h) (front + 8) v (get_size h) front
            (inl (omega arith))
        ∙ store_self w.mem front h

    no_pointers : (fuel : ℕ) → update_pointers (suc fuel) (front + 8) moved ≡ ok moved
    unfolding update_pointers
    no_pointers fuel = rw (copy_header, l.unboxed, update_pointers)

    old_header : get_color (moved.mem (v - 8)) ≡ color_marked
    old_header = ap get_color (store_self copied (v - 8) (mark h)) ∙ (mark_lem h).0

    stale : find_fresh v moved ≡ ok false
    unfolding find_fresh is_fresh
    stale =
        let same =
          old_heap-set_offset (heap.offset + (8 + 8 * get_size h)) (store copied (v - 8) (mark h))
            w in
        rw (same, l.inside, old_header, ltb-false v ((old_heap w).start + 8) l.above)

    word : (k : ℕ) → k < get_size h → moved.mem (front + 8 + 8 * k) ≡ w.mem (v + 8 * k)
    word k lt =
        store_ne copied (v - 8) (mark h) (front + 8 + 8 * k) (omega (arith, l.apart, l.above))
        ∙ copy_words_self (store w.mem front h) (front + 8) v (get_size h) k
            (omega (arith, l.apart, l.above)) lt
        ∙ store_ne w.mem front h (v + 8 * k) (omega (arith, l.apart, l.above))

    -- Of two roots that point to one object without pointers, the first is made to point to the
    -- copy, which has the object's words; the second one still points to the old heap.
    pub mark_and_copy-shared :
        (fuel : ℕ)
        → Returns
            (λ r.
              (r.0 ≡ (front + 8) ∷ v ∷ [])
              × ((k : ℕ) → k < get_size h → r.1.mem (front + 8 + 8 * k) ≡ w.mem (v + 8 * k))
              × (on_heap v (old_heap r.1) ≡ true))
            (mark_and_copy (suc fuel) (v ∷ v ∷ []) w)
    unfolding mark_and_copy
    mark_and_copy-shared fuel =
        let same =
          old_heap-set_offset (heap.offset + (8 + 8 * get_size h)) (store copied (v - 8) (mark h))
            w in
        (
          ((front + 8) ∷ v ∷ [], moved),
          rw (fresh, copy_eq, no_pointers fuel, stale, mark_and_copy),
          (refl, word, rw same l.inside),
        )
