-- ===== src/Xml/Alloc/Room.antt =====
-- `gc_alloc_bytes` of XML/bin/runtime.c: room for an object, or a panic.
use pudge_with_mo_ml.Base.{
  ℕ, ◌+◌, ◌%◌, ◌^◌, ◌≤◌, ◌<◌, ◌≡◌, refl, ◌⊎◌, inl, inr, true, false, List, arith, ltb, Bool-cases,
  ok, abort, ◌>>=◌,
}
use pudge_with_mo_ml.Xml.{Runtime}
use pudge_with_mo_ml.Xml.Heap.{IsHeap, IsClean}
use pudge_with_mo_ml.Xml.Collect.{gc_collect, round_up}
use pudge_with_mo_ml.Xml.Collect.Graph.{Collected, gc_collect-Collected}
use pudge_with_mo_ml.Xml.Collect.Preserve.{Collected-IsHeap, Collected-IsClean}
use pudge_with_mo_ml.Xml.Alloc.{bump, bump_or_panic, gc_alloc_bytes}

-- The state that an allocation starts from: the old one, or that after one collection.
abbrev pub Ready : Runtime → List ℕ → Runtime → Type 0
Ready w ts w' = (w' ≡ w) ⊎ Collected w ts w'

ltb_room : (a b : ℕ) → ltb a b ≡ false → b ≤ a
ltb_room a b h = ground arith

module _ (w : Runtime) (ts : List ℕ) (heap : IsHeap w ts) (clean : IsClean w ts) where
  -- A heap with room for `n` bytes.
  pub record Made (n : ℕ) (w' : Runtime) : Type 0 where
    pub ready : Ready w ts w'
    pub sizes : List ℕ
    pub heap' : IsHeap w' sizes
    pub clean' : IsClean w' sizes
    pub room : w'.alloc_ptr + n ≤ w'.from_end

  -- the collection did not free enough
  abbrev pub Exhausted : ℕ → Type 0
  Exhausted n =
      (w' : Runtime) × (gc_collect w ≡ ok w') × (ltb w'.from_end (w'.alloc_ptr + n) ≡ true)

  module _ (n vt : ℕ) where
    collected_room :
        (((gc_collect w >>= bump_or_panic n vt) ≡ abort) × Exhausted n)
        ⊎ ((b : Runtime) × Made n b × ((gc_collect w >>= bump_or_panic n vt) ≡ ok (bump n vt b)))
    unfolding bump_or_panic
    collected_room =
        let (w', ran, c) = gc_collect-Collected w ts heap in
        elim (Bool-cases (ltb w'.from_end (w'.alloc_ptr + n))) [
          | inl e ↦ inl (rw (ran, e), (w', ran, e))
          | inr e ↦ inr (
            w',
            record {
              ready = inr c;
              sizes = c.sizes;
              heap' = Collected-IsHeap w ts heap clean w' c;
              clean' = Collected-IsClean w ts heap clean w' c;
              room = ltb_room w'.from_end (w'.alloc_ptr + n) e;
            },
            rw (ran, e),
          )
        ]

    -- Whole words are taken from the heap as it is, or as one collection leaves it; if that frees
    -- too little, the runtime panics.
    pub gc_alloc_bytes-Made :
        n % 8 ≡ 0
        → n < 2 ^ 32
        → ((gc_alloc_bytes n vt w ≡ abort) × Exhausted n)
          ⊎ ((b : Runtime) × Made n b × (gc_alloc_bytes n vt w ≡ ok (bump n vt b)))
    unfolding gc_alloc_bytes
    gc_alloc_bytes-Made al lt =
        let r : round_up n ≡ n = unfold round_up in omega arith in
        elim (Bool-cases (ltb w.from_end (w.alloc_ptr + n))) [
          | inl e ↦ rw (r, e) collected_room
          | inr e ↦ inr (
            w,
            record {
              ready = inl refl;
              sizes = ts;
              heap' = heap;
              clean' = clean;
              room = ltb_room w.from_end (w.alloc_ptr + n) e;
            },
            rw (r, e),
          )
        ]
