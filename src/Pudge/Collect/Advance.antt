-- ===== src/Pudge/Collect/Advance.antt =====
-- The second pass moves on by one word of the old space.
use pudge_with_mo_ml.Forwarding.{Forwarding}
use pudge_with_mo_ml.Base.{
  ℕ, ◌+◌, ◌-◌, ◌*◌, ◌≤◌, ◌<◌, ◌≡◌, ◌≢◌, ◌⊎◌, inl, inr, ◌∙◌, sym, List, some, arith,
}
use pudge_with_mo_ml.Memory.{Memory, store}
use pudge_with_mo_ml.Pudge.{Runtime}
use pudge_with_mo_ml.Pudge.Collect.{moved}
use pudge_with_mo_ml.Pudge.Heap.{
  IsObject, object_bounds, IsObject-Apart, IsHeap, moved_words-le-total,
}
use pudge_with_mo_ml.Pudge.Collect.Invariant.{Inv, Forwarded}

module _ (w : Runtime) (ts : List ℕ) (heap : IsHeap w ts) (f : Forwarding) (d off : ℕ) (m : Memory)
    (inv : Inv w ts f d off m) where
  pub off-le : off ≤ w.alloc_offset
  off-le = omega (arith, inv.offset, heap.filled, moved_words-le-total f w.new_space ts)

  -- Two sizes of one object are the same.
  pub object_size :
      (p s s' : ℕ) → IsObject p s w.new_space ts → IsObject p s' w.new_space ts → s ≡ s'
  object_size p s s' o o' = omega (
    arith,
    IsObject-Apart p s p s' w.new_space ts o o',
    heap.positive p s o,
    heap.positive p s' o',
  )

  pub one_copy : (p q q' : ℕ) → f p ≡ some q → f p ≡ some q' → q ≡ q'
  one_copy p q q' h h' = ground arith

  -- The words of two copies that are in one place belong to one object, and a header is no word of
  -- a copy.
  module _ (p s q : ℕ) (o : IsObject p s w.new_space ts) (e : f p ≡ some q) where
    pub not_header :
        (p' s' q' k : ℕ)
        → IsObject p' s' w.new_space ts
        → f p' ≡ some q'
        → k < s'
        → q' + 8 * k ≢ q - 8
    not_header p' s' q' k o' e' lt h =
        let c = inv.place p s q o e in
        elim (inv.separate p s q p' s' q' o o' e e') [
          | inl a ↦ absurd (omega (arith, one_copy p q q' e (rw (sym a) at e'), c.1))
          | inr b ↦ absurd (omega (arith, c.1))
        ]

    pub same_word :
        (k p' s' q' k' : ℕ)
        → k < s
        → IsObject p' s' w.new_space ts
        → f p' ≡ some q'
        → k' < s'
        → q' + 8 * k' ≡ q + 8 * k
        → (p' ≡ p) × (k' ≡ k)
    same_word k p' s' q' k' lt o' e' lt' h = elim (inv.separate p s q p' s' q' o o' e e') [
      | inl a ↦ (omega arith, omega (arith, one_copy p q q' e (rw (sym a) at e')))
      | inr b ↦ absurd (omega arith)
    ]

  -- A word of the old space that lies before word `d + 1` and not before `d` is word `d`.
  at_word :
      (p s q k : ℕ)
      → IsObject p s w.new_space ts
      → f p ≡ some q
      → q + 8 * k < w.old_space + 8 * (d + 1)
      → (q + 8 * k < w.old_space + 8 * d) ⊎ (q + 8 * k ≡ w.old_space + 8 * d)
  at_word p s q k o e lt = let c = inv.place p s q o e in omega (arith, c.1)

  -- over a header
  pub header-Inv :
      (p s : ℕ)
      → IsObject p s w.new_space ts
      → f p ≡ some (w.old_space + 8 * (d + 1))
      → Inv w ts f (d + 1) off m
  header-Inv p s o e = record {
    offset = inv.offset;
    origin = inv.origin;
    reached = inv.reached;
    waiting = inv.waiting;
    unchanged = inv.unchanged;
    gone = inv.gone;
    place = inv.place;
    header = inv.header;
    rest = λ p' s' q' k o' e' lt ge. inv.rest p' s' q' k o' e' lt (omega arith);
    done = λ p' s' q' k o' e' lt below. elim (at_word p' s' q' k o' e' below) [
      | inl b ↦ inv.done p' s' q' k o' e' lt b
      | inr b ↦
          absurd (not_header p s (w.old_space + 8 * (d + 1)) o e p' s' q' k o' e' lt (omega arith))
    ];
    separate = inv.separate;
  }

  -- over a word of a copy, which is given its forwarded value
  module _ (p s q k : ℕ) (o : IsObject p s w.new_space ts) (e : f p ≡ some q) (lt : k < s)
      (here : q + 8 * k ≡ w.old_space + 8 * d) where
    pub word_here : m (w.old_space + 8 * d) ≡ w.mem (p + 8 * k)
    word_here = rw here at (inv.rest p s q k o e lt (omega arith))

    module _ (v' : ℕ) (fw : Forwarded w f (w.mem (p + 8 * k)) v') where
      abbrev m' : Memory
      m' = store m (w.old_space + 8 * d) v'

      store_ne : (b : ℕ) → b ≢ w.old_space + 8 * d → m' b ≡ m b
      store_ne b ne = ground arith

      store_here : m' (w.old_space + 8 * d) ≡ v'
      store_here = ground arith

      outside_new :
          (p' s' b : ℕ) → IsObject p' s' w.new_space ts → p' ≤ b + 8 → b < p' + 8 * s' → m' b ≡ m b
      outside_new p' s' b o' lo hi =
          let c = inv.place p s q o e in
          let bs = object_bounds p' s' w.new_space ts o' in
          store_ne b (omega (arith, off-le, c.1, c.2, heap.within, heap.filled, heap.disjoint))

      store_gone :
          (p' s' q' : ℕ)
          → IsObject p' s' w.new_space ts
          → f p' ≡ some q'
          → (m' (p' - 8) ≡ moved) × (m' p' ≡ q')
      store_gone p' s' q' o' e' =
          let g = inv.gone p' s' q' o' e' in
          let b = object_bounds p' s' w.new_space ts o' in
          let pos = heap.positive p' s' o' in
          (
            outside_new p' s' (p' - 8) o' (omega arith) (omega arith) ∙ g.0,
            outside_new p' s' p' o' (omega arith) (omega arith) ∙ g.1,
          )

      store_header :
          (p' s' q' : ℕ) → IsObject p' s' w.new_space ts → f p' ≡ some q' → m' (q' - 8) ≡ s'
      store_header p' s' q' o' e' =
          store_ne (q' - 8) (λ h. not_header p' s' q' o' e' p s q k o e lt (here ∙ sym h))
          ∙ inv.header p' s' q' o' e'

      store_done :
          (p' s' q' k' : ℕ)
          → IsObject p' s' w.new_space ts
          → f p' ≡ some q'
          → k' < s'
          → q' + 8 * k' < w.old_space + 8 * (d + 1)
          → Forwarded w f (w.mem (p' + 8 * k')) (m' (q' + 8 * k'))
      store_done p' s' q' k' o' e' lt' below = elim (at_word p' s' q' k' o' e' below) [
        | inl b ↦ rw (store_ne (q' + 8 * k') (omega arith)) (inv.done p' s' q' k' o' e' lt' b)
        | inr b ↦
            let a = same_word p s q o e k p' s' q' k' lt o' e' lt' (b ∙ sym here) in
            rw (b, store_here, a.0, a.1) fw
      ]

      pub store-Inv : Inv w ts f (d + 1) off m'
      store-Inv = record {
        offset = inv.offset;
        origin = inv.origin;
        reached = inv.reached;
        waiting = λ p' s' o' h.
            outside_new p' s' (p' - 8) o' (omega arith) (omega (arith, heap.positive p' s' o'))
            ∙ inv.waiting p' s' o' h;
        unchanged = λ p' s' k' o' h l.
            outside_new p' s' (p' + 8 * k') o' (omega arith) (omega arith)
            ∙ inv.unchanged p' s' k' o' h l;
        gone = store_gone;
        place = inv.place;
        header = store_header;
        rest = λ p' s' q' k' o' h l ge.
            store_ne (q' + 8 * k') (omega arith) ∙ inv.rest p' s' q' k' o' h l (omega arith);
        done = store_done;
        separate = inv.separate;
      }
