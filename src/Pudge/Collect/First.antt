-- ===== src/Pudge/Collect/First.antt =====
-- The first pass: every object that a root points to is copied, and the roots follow it.
use pudge_with_mo_ml.Forwarding.{Forwarding, forward, forwarded_all}
use pudge_with_mo_ml.Base.{
  ℕ, zero, suc, ◌+◌, ◌-◌, ◌*◌, ◌<◌, ◌≡◌, ◌≢◌, refl, ◌⊎◌, inl, inr, true, false, ◌||◌, List, [], ◌∷◌,
  ◌++◌, none, some, arith, Bool-cases, ltb-true, ltb-false, ◌==◌, Returns,
}
use pudge_with_mo_ml.Memory.{Memory, holds}
use pudge_with_mo_ml.Pudge.{Runtime}
use pudge_with_mo_ml.Pudge.Collect.{
  update_stack_data_ptrs, found, copy_root, visit_object, scan_roots,
}
use pudge_with_mo_ml.Pudge.Heap.{
  total, IsObject, object_bounds, IsHeap, Reachable, from_stack, from_globals,
}
use pudge_with_mo_ml.Pudge.Collect.Copied.{copied}
use pudge_with_mo_ml.Pudge.Collect.Invariant.{Inv, copied-Inv}
use pudge_with_mo_ml.Pudge.Collect.Advance.{off-le}
use pudge_with_mo_ml.Pudge.Collect.Stage.{
  during, words_of, count_of, Row, Row-forward, words_of-forward, count_of-forward,
}
use pudge_with_mo_ml.Pudge.Collect.Roots.{holds-forwarded, replace-forwarded}

module _ (w : Runtime) (ts : List ℕ) (heap : IsHeap w ts) where
  abbrev pub NotRoot : ℕ → Type 0
  NotRoot p = (holds p w.stack ≡ false) × (holds p w.globals ≡ false)

  abbrev pub at : Forwarding → Memory → Runtime
  at f m = during w m (count_of w ts f) (forwarded_all f w.stack) (forwarded_all f w.globals)

  -- What the first pass leaves, or one round of it.
  pub record Rooted (out : ℕ × Runtime) : Type 0 where
    pub forwarding : Forwarding
    pub memory : Memory
    pub copies : List (ℕ × ℕ)
    pub result : out ≡ (words_of w ts forwarding, at forwarding memory)
    pub inv : Inv w ts forwarding 0 (words_of w ts forwarding) memory
    pub row : Row w ts forwarding 0 (words_of w ts forwarding) copies
    pub roots : (p s : ℕ) → IsObject p s w.new_space ts → forwarding p ≡ none → NotRoot p

  module _ (f : Forwarding) (m : Memory) (inv : Inv w ts f 0 (words_of w ts f) m) (p t : ℕ)
      (o : IsObject p t w.new_space ts) (e : f p ≡ none) where
    abbrev fresh : ℕ
    fresh = w.old_space + 8 * (words_of w ts f + 1)

    far : (x q : ℕ) → f x ≡ some q → q ≢ p
    far x q h =
        let (s, ox) = inv.origin x q h in
        let c = inv.place x s q ox h in
        let b = object_bounds p t w.new_space ts o in
        let b' = object_bounds x s w.new_space ts ox in
        omega (
          arith,
          c.1,
          c.2,
          off-le w ts heap f 0 (words_of w ts f) m inv,
          heap.positive p t o,
          heap.filled,
          heap.within,
          heap.disjoint,
        )

    found_lem : found p (at f m) ≡ (holds p w.globals || holds p w.stack)
    unfolding found
    found_lem = rw (holds-forwarded f p e far w.globals, holds-forwarded f p e far w.stack)

    found-Reachable : found p (at f m) ≡ true → Reachable w ts p
    found-Reachable h = elim (Bool-cases (holds p w.stack)) [
      | inl a ↦ from_stack p a
      | inr a ↦ from_globals p (ground (arith, found_lem))
    ]

    not_found-NotRoot : found p (at f m) ≡ false → NotRoot p
    not_found-NotRoot h = ground (arith, found_lem)

    copy_root-at :
        copy_root p t (words_of w ts f) (at f m) ≡ at (forward f p fresh) (copied p t fresh m)
    unfolding copy_root update_stack_data_ptrs
    copy_root-at =
        let e₀ : w.old_space + 8 * words_of w ts f ≡ fresh - 8 = omega arith in
        rw (
          e₀,
          replace-forwarded f p e far fresh w.stack,
          replace-forwarded f p e far fresh w.globals,
          count_of-forward w ts heap f p t fresh o e,
        )

    -- the object is a root
    copied_root :
        (cs : List (ℕ × ℕ))
        → Row w ts f 0 (words_of w ts f) cs
        → Reachable w ts p
        → Inv w ts (forward f p fresh) 0 (words_of w ts (forward f p fresh)) (copied p t fresh m)
          × Row w ts (forward f p fresh) 0 (words_of w ts (forward f p fresh)) (cs ++ (p, t) ∷ [])
    copied_root cs row r = rw (words_of-forward w ts f p t fresh o e) (
      copied-Inv w ts heap f 0 (words_of w ts f) p t m inv o e r (omega arith),
      Row-forward w ts f p t 0 (words_of w ts f) cs o e row,
    )

  -- The objects from header word `cur` of the new space on have sizes `us`.
  pub record Ahead (f : Forwarding) (cur : ℕ) (us : List ℕ) : Type 0 where
    pub left : cur + total us ≡ w.alloc_offset
    pub objects : (p s : ℕ) → IsObject p s (w.new_space + 8 * cur) us → IsObject p s w.new_space ts
    pub fresh : (p s : ℕ) → IsObject p s (w.new_space + 8 * cur) us → f p ≡ none
    pub seen :
        (p s : ℕ)
        → IsObject p s w.new_space ts
        → f p ≡ none
        → NotRoot p ⊎ IsObject p s (w.new_space + 8 * cur) us

  -- over an object that stays, and over one that moves
  next_objects :
      (cur t : ℕ) (us : List ℕ) (p s : ℕ)
      → IsObject p s (w.new_space + 8 * (cur + (t + 1))) us
      → IsObject p s (w.new_space + 8 * cur) (t ∷ us)
  next_objects cur t us p s h =
      let e : w.new_space + 8 * (cur + (t + 1)) ≡ w.new_space + 8 * cur + 8 + 8 * t = omega arith in
      inr (rw e at h)

  split-IsObject :
      (cur t : ℕ) (us : List ℕ) (p s : ℕ)
      → IsObject p s (w.new_space + 8 * cur) (t ∷ us)
      → (p ≡ w.new_space + 8 * (cur + 1)) ⊎ IsObject p s (w.new_space + 8 * (cur + (t + 1))) us
  split-IsObject cur t us p s (inl h) = inl (omega arith)
  split-IsObject cur t us p s (inr h) =
      let e : w.new_space + 8 * cur + 8 + 8 * t ≡ w.new_space + 8 * (cur + (t + 1)) = omega arith in
      inr (rw e at h)

  Ahead-skip :
      (f : Forwarding) (cur t : ℕ) (us : List ℕ)
      → Ahead f cur (t ∷ us)
      → NotRoot (w.new_space + 8 * (cur + 1))
      → Ahead f (cur + (t + 1)) us
  Ahead-skip f cur t us a n = record {
    left = omega (arith, a.left);
    objects = λ p s h. a.objects p s (next_objects cur t us p s h);
    fresh = λ p s h. a.fresh p s (next_objects cur t us p s h);
    seen = λ p s o h. elim (a.seen p s o h) [
      | inl r ↦ inl r
      | inr r ↦ elim (split-IsObject cur t us p s r) [ inl e ↦ inl (rw e n) | inr h' ↦ inr h' ]
    ];
  }

  Ahead-copy :
      (f : Forwarding) (cur t q : ℕ) (us : List ℕ)
      → Ahead f cur (t ∷ us)
      → Ahead (forward f (w.new_space + 8 * (cur + 1)) q) (cur + (t + 1)) us
  Ahead-copy f cur t q us a = record {
    left = omega (arith, a.left);
    objects = λ p s h. a.objects p s (next_objects cur t us p s h);
    fresh = λ p s h.
        let b = object_bounds p s (w.new_space + 8 * (cur + (t + 1))) us h in
        ground (arith, a.fresh p s (next_objects cur t us p s h));
    seen = λ p s o h.
        let n : (p ≢ w.new_space + 8 * (cur + 1)) × (f p ≡ none) = ground arith in
        elim (a.seen p s o n.1) [
          | inl r ↦ inl r
          | inr r ↦ elim (split-IsObject cur t us p s r) [
            | inl e ↦ absurd (n.0 e)
            | inr h' ↦ inr h'
          ]
        ];
  }

  -- With enough fuel the first pass ends, with every root's object copied.
  pub scan_roots-Rooted :
      (fuel : ℕ) (f : Forwarding) (m : Memory) (cur : ℕ) (us : List ℕ) (cs : List (ℕ × ℕ))
      → total us < fuel
      → Inv w ts f 0 (words_of w ts f) m
      → Row w ts f 0 (words_of w ts f) cs
      → Ahead f cur us
      → Returns Rooted (scan_roots fuel cur (words_of w ts f) (at f m))
  unfolding scan_roots visit_object
  scan_roots-Rooted zero f m cur us cs enough inv row a = absurd (omega arith)
  scan_roots-Rooted (suc fuel) f m cur [] cs enough inv row a = (
    (words_of w ts f, at f m),
    rw (ltb-false cur w.alloc_offset (omega (arith, a.left)), scan_roots),
    record {
      forwarding = f;
      memory = m;
      copies = cs;
      result = refl;
      inv = inv;
      row = row;
      roots = λ p s o h. elim (a.seen p s o h) [ inl r ↦ r | inr r ↦ absurd r ];
    },
  )
  scan_roots-Rooted (suc fuel) f m cur (t ∷ us) cs enough inv row a =
      let p : ℕ = w.new_space + 8 * (cur + 1) in
      let here : IsObject p t (w.new_space + 8 * cur) (t ∷ us) = inl (omega arith, refl) in
      let o = a.objects p t here in
      let e = a.fresh p t here in
      let e₀ : p - 8 ≡ w.new_space + 8 * cur = omega arith in
      let size : m (w.new_space + 8 * cur) ≡ t = rw e₀ at (inv.waiting p t o e) in
      let pos : (t == 0) ≡ false = ground (arith, heap.positive p t o) in
      let lt = ltb-true cur w.alloc_offset (omega (arith, a.left)) in
      elim (Bool-cases (found p (at f m))) [
        | inl h ↦
            let q : ℕ = w.old_space + 8 * (words_of w ts f + 1) in
            let c = copied_root f m inv p t o e cs row (found-Reachable f m inv p t o e h) in
            rw
              (
                lt,
                size,
                pos,
                h,
                size,
                copy_root-at f m inv p t o e,
                ← words_of-forward w ts f p t q o e,
                scan_roots,
              )
              (scan_roots-Rooted fuel (forward f p q) (copied p t q m) (cur + (t + 1)) us
                (cs ++ (p, t) ∷ []) (omega arith) c.0 c.1 (Ahead-copy f cur t q us a))
        | inr h ↦
            rw (lt, size, pos, h, size, scan_roots)
              (scan_roots-Rooted fuel f m (cur + (t + 1)) us cs (omega arith) inv row
                (Ahead-skip f cur t us a (not_found-NotRoot f m inv p t o e h)))
      ]
