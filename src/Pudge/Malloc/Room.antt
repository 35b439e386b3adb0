-- ===== src/Pudge/Malloc/Room.antt =====
-- `my_malloc`: rounding, room, and the object that it returns.
use pudge_with_mo_ml.Base.{
  ℕ, ◌+◌, ◌*◌, ◌/◌, ◌%◌, ◌^◌, ◌≤◌, ◌<◌, ◌≡◌, ◌≢◌, refl, ◌⊎◌, inl, inr, true, false, List, arith,
  Returns, Bool-cases, ok, exit, ◌==◌, ◌>>=◌,
}
use pudge_with_mo_ml.Base.Words.{add_word}
use pudge_with_mo_ml.Memory.{store}
use pudge_with_mo_ml.Pudge.{Runtime}
use pudge_with_mo_ml.Pudge.Heap.{IsHeap, IsClean}
use pudge_with_mo_ml.Pudge.Collect.{collect}
use pudge_with_mo_ml.Pudge.Collect.Graph.{Collected, collect-Collected}
use pudge_with_mo_ml.Pudge.Collect.Preserve.{Collected-IsHeap, Collected-IsClean}
use pudge_with_mo_ml.Pudge.Malloc.{round_up, is_full, check_room, make_room, bump, my_malloc}

-- The rounded size is the least multiple of 8 that is not smaller.
pub round_up_lem :
    (size : ℕ)
    → size < 2 ^ 63
    → (round_up size % 8 ≡ 0) × (size ≤ round_up size) × (round_up size < size + 8)
unfolding round_up
round_up_lem size h = ground arith

-- The state that an allocation starts from, with the sizes of its objects: the old one, or that after
-- one collection.
abbrev pub Ready : Runtime → List ℕ → Runtime → List ℕ → Type 0
Ready w ts w' us = ((w' ≡ w) × (us ≡ ts)) ⊎ ((c : Collected w ts w') × (us ≡ c.sizes))

-- There is room for an object of so many words, with a word to spare.
abbrev pub HasRoom : ℕ → Runtime → Type 0
HasRoom words w = w.alloc_offset + words + 1 < w.space_capacity

full_lem :
    (words : ℕ) (w : Runtime)
    → words < 2 ^ 32
    → w.alloc_offset ≤ w.space_capacity
    → w.space_capacity < 2 ^ 32
    → is_full words w ≡ false
    → HasRoom words w
unfolding is_full
full_lem words w h a b e = ground arith

module _ (w : Runtime) (ts : List ℕ) (heap : IsHeap w ts) (clean : IsClean w ts) where
  -- What is left after `make_room`.
  pub record Made (words : ℕ) (w' : Runtime) : Type 0 where
    pub sizes : List ℕ
    pub ready : Ready w ts w' sizes
    pub heap' : IsHeap w' sizes
    pub clean' : IsClean w' sizes
    pub room : HasRoom words w'

  -- the collection did not free enough
  abbrev pub Exhausted : ℕ → Type 0
  Exhausted words = (w' : Runtime) × (collect w ≡ ok w') × (is_full words w' ≡ true)

  collected_room :
      (words : ℕ)
      → words < 2 ^ 32
      → w.alloc_offset ≢ 0
      → ((collect w >>= check_room words) ≡ exit 122) × Exhausted words
        ⊎ Returns (Made words) (collect w >>= check_room words)
  unfolding check_room
  collected_room words lt ne =
      let (w', ran, c) = collect-Collected w ts heap ne in
      let h = Collected-IsHeap w ts heap clean w' c in
      elim (Bool-cases (is_full words w')) [
        | inl e ↦ inl (rw (ran, e), (w', ran, e))
        | inr e ↦ inr (
          w',
          rw (ran, e),
          record {
            ready = inr (c, refl);
            sizes = c.sizes;
            heap' = h;
            clean' = Collected-IsClean w ts heap clean w' c;
            room = full_lem words w' lt h.within h.small e;
          },
        )
      ]

  -- An empty heap is not collected; where it is too small for the object, that fails.
  empty_room :
      (words : ℕ)
      → w.alloc_offset ≡ 0
      → is_full words w ≡ true
      → ((collect w >>= check_room words) ≡ exit 122) × Exhausted words
  unfolding collect check_room
  empty_room words e full = (ground arith, (w, rw e, full))

  pub make_room-Made :
      (words : ℕ)
      → words < 2 ^ 32
      → ((make_room words w ≡ exit 122) × Exhausted words)
        ⊎ Returns (Made words) (make_room words w)
  unfolding make_room
  make_room-Made words lt = elim (Bool-cases (is_full words w)) [
    | inr e ↦ inr (
      w,
      rw e,
      record {
        ready = inl (refl, refl);
        sizes = ts;
        heap' = heap;
        clean' = clean;
        room = full_lem words w lt heap.within heap.small e;
      },
    )
    | inl e ↦ elim (Bool-cases (w.alloc_offset == 0)) [
      | inl z ↦ rw e (inl (empty_room words (ground arith) e))
      | inr z ↦ rw e (collected_room words lt (ground arith))
    ]
  ]

  -- What `my_malloc` returns: the object stands behind those of the heap `before`, and the rest of
  -- the state is that of `before`.
  pub record Allocated (size : ℕ) (out : ℕ × Runtime) : Type 0 where
    pub words : ℕ
    pub before : Runtime
    pub made : Made words before
    pub enough : (size ≤ 8 * words) × (8 * words < size + 8)
    pub pointer : out.0 ≡ before.new_space + 8 * (before.alloc_offset + 1)
    pub state : out.1 ≡ record before {
      obj_count = add_word before.obj_count 1;
      mem = store before.mem (before.new_space + 8 * before.alloc_offset) words;
      alloc_offset = before.alloc_offset + 1 + words;
      alloc_count = add_word before.alloc_count 1;
      alloc_bytes_count = add_word before.alloc_bytes_count (8 * words + 8);
    }

  -- `my_malloc` of a size that is not 0 returns an object with room for it, or exits with 122,
  -- which happens only if a collection does not make enough room.
  pub my_malloc-Allocated :
      (size : ℕ)
      → 0 < size
      → size < 2 ^ 34
      → ((my_malloc size w ≡ exit 122) × Exhausted (round_up size / 8))
        ⊎ Returns (Allocated size) (my_malloc size w)
  unfolding my_malloc bump
  my_malloc-Allocated size pos lt =
      let r = round_up_lem size (omega arith) in
      let words : ℕ = round_up size / 8 in
      let n : (size == 0) ≡ false = ground arith in
      let bytes : add_word (round_up size) 8 ≡ 8 * words + 8 = omega arith in
      elim (make_room-Made words (omega arith)) [
        | inl (e, x) ↦ inl (rw (n, e), x)
        | inr (w', e, m) ↦ inr (
          bump (round_up size) w',
          rw (n, e),
          record {
            words = words;
            before = w';
            made = m;
            enough = (omega arith, omega arith);
            pointer = refl;
            state = rw bytes;
          },
        )
      ]
