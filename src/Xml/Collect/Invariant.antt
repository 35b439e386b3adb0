-- ===== src/Xml/Collect/Invariant.antt =====
-- What holds of the memory while `gc_collect` of XML/bin/runtime.c runs: which objects have been
-- copied, where to, and what their copies hold.
use pudge_with_mo_ml.Base.{
  ℕ, ◌+◌, ◌*◌, ◌%◌, ◌≤◌, ◌<◌, ◌≡◌, ◌≢◌, ◌⊎◌, inl, inr, ◌∙◌, true, false, List, none, some, arith,
}
use pudge_with_mo_ml.Memory.{Memory, store, copy_words}
use pudge_with_mo_ml.Memory.Copy.{copy_words-Outside, copy_words_self, store_self, store_ne}
use pudge_with_mo_ml.Forwarding.{Forwarding, forward}
use pudge_with_mo_ml.Xml.{Runtime}
use pudge_with_mo_ml.Xml.Heap.{
  IsObject, object_bounds, object_aligned, IsObject-Apart, IsHeap, Reachable, is_live, moved_words,
  moved_words-le-total, moved_words-forward, size_bounds,
}

-- where the copies end
abbrev pub end_of : Runtime → List ℕ → Forwarding → ℕ
end_of w ts f = w.to_start + 8 * moved_words f w.from_start ts

-- Word `k` of the object at `p` becomes `v'` in its copy.
abbrev pub Follows : Runtime → Forwarding → (p k v' : ℕ) → Type 0
Follows w f p k v' =
    (is_live p k w ≡ true → f (w.mem (p + 8 * k)) ≡ some v')
    × (is_live p k w ≡ false → v' ≡ w.mem (p + 8 * k))

-- The words of the copies below address `d` are done.
pub record Inv (w : Runtime) (ts : List ℕ) (f : Forwarding) (d : ℕ) (m : Memory) : Type 0 where
  pub origin : (p q : ℕ) → f p ≡ some q → (s : ℕ) × IsObject p s w.from_start ts
  pub reached : (p q : ℕ) → f p ≡ some q → Reachable w ts p
  pub unchanged :
      (p s k : ℕ)
      → IsObject p s w.from_start ts
      → f p ≡ none
      → k < s
      → m (p + 8 * k) ≡ w.mem (p + 8 * k)
  pub gone : (p q : ℕ) → f p ≡ some q → m p ≡ q
  pub place :
      (p s q : ℕ)
      → IsObject p s w.from_start ts
      → f p ≡ some q
      → (w.to_start ≤ q) × (q + 8 * s ≤ end_of w ts f) × (q % 8 ≡ 0)
  pub rest :
      (p s q k : ℕ)
      → IsObject p s w.from_start ts
      → f p ≡ some q
      → k < s
      → d ≤ q + 8 * k
      → m (q + 8 * k) ≡ w.mem (p + 8 * k)
  pub done :
      (p s q k : ℕ)
      → IsObject p s w.from_start ts
      → f p ≡ some q
      → k < s
      → q + 8 * k < d
      → Follows w f p k (m (q + 8 * k))
  pub separate :
      (p s q p' s' q' : ℕ)
      → IsObject p s w.from_start ts
      → IsObject p' s' w.from_start ts
      → f p ≡ some q
      → f p' ≡ some q'
      → (p ≡ p') ⊎ ((q + 8 * s ≤ q') ⊎ (q' + 8 * s' ≤ q))

-- `s` words at `p` copied to `q`, and the address of the copy left behind
abbrev pub copied : (p s q : ℕ) → Memory → Memory
copied p s q m = store (copy_words m q p s) p q

module _ (w : Runtime) (ts : List ℕ) (heap : IsHeap w ts) where
  pub object_place :
      (p s : ℕ)
      → IsObject p s w.from_start ts
      → (w.from_start ≤ p) × (p + 8 * s ≤ w.from_end) × (2 ≤ s) × (p % 8 ≡ 0)
  object_place p s o =
      let b = object_bounds p s w.from_start ts o in
      (
        b.0,
        omega (arith, b.1, heap.filled, heap.within),
        (size_bounds heap p s o).0,
        object_aligned p s w.from_start ts o heap.aligned.0,
      )

  -- Two sizes of one object are the same.
  pub object_size :
      (p s s' : ℕ) → IsObject p s w.from_start ts → IsObject p s' w.from_start ts → s ≡ s'
  object_size p s s' o o' = omega (
    arith,
    IsObject-Apart p s p s' w.from_start ts o o',
    (size_bounds heap p s o).0,
    (size_bounds heap p s' o').0,
  )

  pub end_of-le : (f : Forwarding) → end_of w ts f ≤ w.to_end
  end_of-le f =
      omega (arith, moved_words-le-total f w.from_start ts, heap.filled, heap.within, heap.halves)

  pub end_of-forward :
      (f : Forwarding) (p s q : ℕ)
      → IsObject p s w.from_start ts
      → f p ≡ none
      → end_of w ts (forward f p q) ≡ end_of w ts f + 8 * s
  end_of-forward f p s q o e = omega (
    arith,
    moved_words-forward f p s q w.from_start ts (λ p' s' o'. (size_bounds heap p' s' o').0) o e,
  )

  -- One more object is copied.
  module _ (f : Forwarding) (d p s : ℕ) (m : Memory) (inv : Inv w ts f d m)
      (o : IsObject p s w.from_start ts) (e : f p ≡ none) (r : Reachable w ts p)
      (le : d ≤ end_of w ts f) where
    abbrev pub q : ℕ
    q = end_of w ts f

    pub room : q + 8 * s ≤ w.to_end
    room = omega (arith, end_of-forward f p s q o e, end_of-le (forward f p q))

    keep : (b : ℕ) → (b < q) ⊎ (w.to_end ≤ b) → b ≢ p → copied p s q m b ≡ m b
    keep b out ne =
        store_ne (copy_words m q p s) p q b ne ∙ copy_words-Outside m q p s b (omega (arith, room))

    new_word : (k : ℕ) → k < s → copied p s q m (q + 8 * k) ≡ w.mem (p + 8 * k)
    new_word k lt =
        let b = object_place p s o in
        store_ne (copy_words m q p s) p q (q + 8 * k) (omega (arith, room, heap.disjoint))
        ∙ copy_words_self m q p s k (omega (arith, room, heap.disjoint)) lt
        ∙ inv.unchanged p s k o e lt

    keep_object :
        (p' s' k : ℕ)
        → IsObject p' s' w.from_start ts
        → p' ≢ p
        → k < s'
        → copied p s q m (p' + 8 * k) ≡ m (p' + 8 * k)
    keep_object p' s' k o' ne lt =
        let b = object_place p' s' o' in
        let b' = object_place p s o in
        let a = IsObject-Apart p s p' s' w.from_start ts o o' in
        keep (p' + 8 * k) (omega (arith, room, heap.disjoint)) (omega arith)

    keep_copy :
        (p' s' q' k : ℕ)
        → IsObject p' s' w.from_start ts
        → f p' ≡ some q'
        → k < s'
        → copied p s q m (q' + 8 * k) ≡ m (q' + 8 * k)
    keep_copy p' s' q' k o' h lt =
        let c = inv.place p' s' q' o' h in
        let b = object_place p s o in
        keep (q' + 8 * k) (omega arith) (omega (arith, room, heap.disjoint))

    -- an object that the new forwarding sends somewhere is the one just copied, or was sent there
    forwarded_cases :
        (p' q' : ℕ)
        → forward f p q p' ≡ some q'
        → ((p' ≡ p) × (q' ≡ q)) ⊎ ((p' ≢ p) × (f p' ≡ some q'))
    forwarded_cases p' q' h = ground arith

    not_forwarded : (p' : ℕ) → forward f p q p' ≡ none → (p' ≢ p) × (f p' ≡ none)
    not_forwarded p' h = ground arith

    new_origin :
        (p' q' : ℕ) → forward f p q p' ≡ some q' → (s' : ℕ) × IsObject p' s' w.from_start ts
    new_origin p' q' h = elim (forwarded_cases p' q' h) [
      | inl (a, b) ↦ (s, rw a o)
      | inr (a, b) ↦ inv.origin p' q' b
    ]

    new_reached : (p' q' : ℕ) → forward f p q p' ≡ some q' → Reachable w ts p'
    new_reached p' q' h = elim (forwarded_cases p' q' h) [
      | inl (a, b) ↦ rw a r
      | inr (a, b) ↦ inv.reached p' q' b
    ]

    new_gone : (p' q' : ℕ) → forward f p q p' ≡ some q' → copied p s q m p' ≡ q'
    new_gone p' q' h = elim (forwarded_cases p' q' h) [
      | inl (a, b) ↦ rw (a, b) (store_self (copy_words m q p s) p q)
      | inr (a, b) ↦
          let (s', o') = inv.origin p' q' b in
          let e₀ : p' + 8 * 0 ≡ p' = omega arith in
          let c = object_place p' s' o' in
          (rw e₀ at (keep_object p' s' 0 o' a (omega arith))) ∙ inv.gone p' q' b
    ]

    new_place :
        (p' s' q' : ℕ)
        → IsObject p' s' w.from_start ts
        → forward f p q p' ≡ some q'
        → (w.to_start ≤ q') × (q' + 8 * s' ≤ end_of w ts (forward f p q)) × (q' % 8 ≡ 0)
    new_place p' s' q' o' h = elim (forwarded_cases p' q' h) [
      | inl (a, b) ↦
          let z = object_size p s' s (rw a at o') o in
          (omega arith, omega (arith, end_of-forward f p s q o e), omega (arith, heap.aligned))
      | inr (a, b) ↦
          let c = inv.place p' s' q' o' b in
          (c.0, omega (arith, c.1, end_of-forward f p s q o e), c.2)
    ]

    new_rest :
        (p' s' q' k : ℕ)
        → IsObject p' s' w.from_start ts
        → forward f p q p' ≡ some q'
        → k < s'
        → d ≤ q' + 8 * k
        → copied p s q m (q' + 8 * k) ≡ w.mem (p' + 8 * k)
    new_rest p' s' q' k o' h lt ge = elim (forwarded_cases p' q' h) [
      | inl (a, b) ↦
          let lt' : k < s = omega (arith, object_size p s' s (rw a at o') o) in
          rw (a, b) (new_word k lt')
      | inr (a, b) ↦ keep_copy p' s' q' k o' b lt ∙ inv.rest p' s' q' k o' b lt ge
    ]

    Follows-forward : (p' k v' : ℕ) → Follows w f p' k v' → Follows w (forward f p q) p' k v'
    Follows-forward p' k v' h = ground arith

    new_done :
        (p' s' q' k : ℕ)
        → IsObject p' s' w.from_start ts
        → forward f p q p' ≡ some q'
        → k < s'
        → q' + 8 * k < d
        → Follows w (forward f p q) p' k (copied p s q m (q' + 8 * k))
    new_done p' s' q' k o' h lt below = elim (forwarded_cases p' q' h) [
      | inl (a, b) ↦ absurd (omega arith)
      | inr (a, b) ↦
          rw (keep_copy p' s' q' k o' b lt)
            (Follows-forward p' k (m (q' + 8 * k)) (inv.done p' s' q' k o' b lt below))
    ]

    new_separate :
        (p₁ s₁ q₁ p₂ s₂ q₂ : ℕ)
        → IsObject p₁ s₁ w.from_start ts
        → IsObject p₂ s₂ w.from_start ts
        → forward f p q p₁ ≡ some q₁
        → forward f p q p₂ ≡ some q₂
        → (p₁ ≡ p₂) ⊎ ((q₁ + 8 * s₁ ≤ q₂) ⊎ (q₂ + 8 * s₂ ≤ q₁))
    new_separate p₁ s₁ q₁ p₂ s₂ q₂ o₁ o₂ h₁ h₂ = elim (forwarded_cases p₁ q₁ h₁) [
      | inl (a, b) ↦ elim (forwarded_cases p₂ q₂ h₂) [
        | inl (c, g) ↦ inl (omega arith)
        | inr (c, g) ↦ inr (inr (omega (arith, inv.place p₂ s₂ q₂ o₂ g)))
      ]
      | inr (a, b) ↦ elim (forwarded_cases p₂ q₂ h₂) [
        | inl (c, g) ↦ inr (inl (omega (arith, inv.place p₁ s₁ q₁ o₁ b)))
        | inr (c, g) ↦ inv.separate p₁ s₁ q₁ p₂ s₂ q₂ o₁ o₂ b g
      ]
    ]

    -- The copy behind the others keeps the invariant.
    pub copied-Inv : Inv w ts (forward f p q) d (copied p s q m)
    copied-Inv = record {
      origin = new_origin;
      reached = new_reached;
      unchanged = λ p' s' k o' h lt.
          let n = not_forwarded p' h in
          keep_object p' s' k o' n.0 lt ∙ inv.unchanged p' s' k o' n.1 lt;
      gone = new_gone;
      place = new_place;
      rest = new_rest;
      done = new_done;
      separate = new_separate;
    }
