-- ===== src/Pudge/Collect/Invariant.antt =====
-- What holds of the memory while `_gc_collect` runs: which objects have been copied, where to, and
-- what their copies hold.
use pudge_with_mo_ml.Forwarding.{Forwarding, forward}
use pudge_with_mo_ml.Base.{
  ℕ, ◌+◌, ◌-◌, ◌*◌, ◌≤◌, ◌<◌, ◌≡◌, ◌≢◌, ◌⊎◌, inl, inr, ◌∙◌, true, false, List, none, some, arith,
}
use pudge_with_mo_ml.Memory.{Memory}
use pudge_with_mo_ml.Pudge.{Runtime}
use pudge_with_mo_ml.Pudge.Collect.{moved, is_reference}
use pudge_with_mo_ml.Pudge.Heap.{
  IsObject, object_bounds, IsObject-Apart, IsHeap, Reachable, moved_words, moved_words-le-total,
  moved_words-forward,
}
use pudge_with_mo_ml.Pudge.Collect.Copied.{
  copied, Separate, copied-Outside, copied-header, copied-word, copied-moved, copied-forward,
}

-- the word `v` of an object becomes `v'` in its copy
abbrev pub Forwarded : Runtime → Forwarding → (v v' : ℕ) → Type 0
Forwarded w f v v' = (is_reference v w ≡ true → f v ≡ some v') × (is_reference v w ≡ false → v' ≡ v)

-- `q` is the address behind header word `j` of the old space, in front of word `off`
abbrev pub IsPlace : Runtime → (q s off : ℕ) → Type 0
IsPlace w q s off = (j : ℕ) × (q ≡ w.old_space + 8 * (j + 1)) × (j + 1 + s ≤ off)

-- The copied objects fill the first `off` words of the old space, and the first `d` words of these
-- point into the old space.
pub record Inv (w : Runtime) (ts : List ℕ) (f : Forwarding) (d off : ℕ) (m : Memory) : Type 0 where
  pub offset : off ≡ moved_words f w.new_space ts
  pub origin : (p q : ℕ) → f p ≡ some q → (s : ℕ) × IsObject p s w.new_space ts
  pub reached : (p q : ℕ) → f p ≡ some q → Reachable w ts p
  pub waiting : (p s : ℕ) → IsObject p s w.new_space ts → f p ≡ none → m (p - 8) ≡ s
  pub unchanged :
      (p s k : ℕ)
      → IsObject p s w.new_space ts
      → f p ≡ none
      → k < s
      → m (p + 8 * k) ≡ w.mem (p + 8 * k)
  pub gone :
      (p s q : ℕ) → IsObject p s w.new_space ts → f p ≡ some q → (m (p - 8) ≡ moved) × (m p ≡ q)
  pub place : (p s q : ℕ) → IsObject p s w.new_space ts → f p ≡ some q → IsPlace w q s off
  pub header : (p s q : ℕ) → IsObject p s w.new_space ts → f p ≡ some q → m (q - 8) ≡ s
  pub rest :
      (p s q k : ℕ)
      → IsObject p s w.new_space ts
      → f p ≡ some q
      → k < s
      → w.old_space + 8 * d ≤ q + 8 * k
      → m (q + 8 * k) ≡ w.mem (p + 8 * k)
  pub done :
      (p s q k : ℕ)
      → IsObject p s w.new_space ts
      → f p ≡ some q
      → k < s
      → q + 8 * k < w.old_space + 8 * d
      → Forwarded w f (w.mem (p + 8 * k)) (m (q + 8 * k))
  pub separate :
      (p s q p' s' q' : ℕ)
      → IsObject p s w.new_space ts
      → IsObject p' s' w.new_space ts
      → f p ≡ some q
      → f p' ≡ some q'
      → (p ≡ p') ⊎ ((q + 8 * s + 8 ≤ q') ⊎ (q' + 8 * s' + 8 ≤ q))

-- One more object is copied.
module _ (w : Runtime) (ts : List ℕ) (heap : IsHeap w ts) (f : Forwarding) (d off p s : ℕ)
    (m : Memory) (inv : Inv w ts f d off m) (o : IsObject p s w.new_space ts) (e : f p ≡ none)
    (r : Reachable w ts p) (le : d ≤ off) where
  abbrev pub q : ℕ
  q = w.old_space + 8 * (off + 1)

  pub room : off + 1 + s ≤ w.alloc_offset
  room = omega (
    arith,
    inv.offset,
    heap.filled,
    moved_words-forward f p s q w.new_space ts o e,
    moved_words-le-total (forward f p q) w.new_space ts,
  )

  in_space :
      (p' s' : ℕ)
      → IsObject p' s' w.new_space ts
      → (w.new_space + 8 ≤ p') × (p' + 8 * s' ≤ w.new_space + 8 * w.space_capacity)
  in_space p' s' o' =
      let b = object_bounds p' s' w.new_space ts o' in
      (b.0, omega (arith, b.1, heap.filled, heap.within))

  pub sep : Separate p s q
  sep =
      let b = in_space p s o in
      (
        omega arith,
        omega arith,
        heap.positive p s o,
        omega (arith, room, heap.within, heap.disjoint),
      )

  keep :
      (b : ℕ)
      → (b < w.old_space + 8 * off) ⊎ (w.old_space + 8 * w.space_capacity ≤ b)
      → b ≢ p - 8
      → b ≢ p
      → copied p s q m b ≡ m b
  keep b out ne ne' = copied-Outside p s q m sep b (omega (arith, room, heap.within)) ne ne'

  -- what stays as it is
  keep_new :
      (p' s' k : ℕ)
      → IsObject p' s' w.new_space ts
      → p' ≢ p
      → k < s'
      → copied p s q m (p' + 8 * k) ≡ m (p' + 8 * k)
  keep_new p' s' k o' ne lt =
      let b = in_space p' s' o' in
      let a = IsObject-Apart p s p' s' w.new_space ts o o' in
      keep (p' + 8 * k) (omega (arith, room, heap.within, heap.disjoint))
        (omega (arith, heap.positive p s o)) (omega (arith, heap.positive p s o))

  keep_header :
      (p' s' : ℕ) → IsObject p' s' w.new_space ts → p' ≢ p → copied p s q m (p' - 8) ≡ m (p' - 8)
  keep_header p' s' o' ne =
      let b = in_space p' s' o' in
      let b' = in_space p s o in
      let a = IsObject-Apart p s p' s' w.new_space ts o o' in
      keep (p' - 8) (omega (arith, room, heap.within, heap.disjoint)) (omega arith)
        (omega (arith, heap.positive p s o))

  keep_old : (j : ℕ) → j < off → copied p s q m (w.old_space + 8 * j) ≡ m (w.old_space + 8 * j)
  keep_old j lt =
      let b' = in_space p s o in
      keep (w.old_space + 8 * j) (omega arith)
        (omega (arith, room, heap.within, heap.disjoint, heap.positive p s o))
        (omega (arith, room, heap.within, heap.disjoint, heap.positive p s o))

  same_size : (s' : ℕ) → IsObject p s' w.new_space ts → s' ≡ s
  same_size s' o' =
      let a = IsObject-Apart p s p s' w.new_space ts o o' in
      omega (arith, heap.positive p s o, heap.positive p s' o')

  Forwarded-forward : (v v' : ℕ) → Forwarded w f v v' → Forwarded w (forward f p q) v v'
  Forwarded-forward v v' h = ground arith

  -- an object that the new forwarding sends somewhere is the one just copied, or was sent there
  forwarded_cases :
      (p' q' : ℕ)
      → forward f p q p' ≡ some q'
      → ((p' ≡ p) × (q' ≡ q)) ⊎ ((p' ≢ p) × (f p' ≡ some q'))
  forwarded_cases p' q' h = ground arith

  not_forwarded : (p' : ℕ) → forward f p q p' ≡ none → (p' ≢ p) × (f p' ≡ none)
  not_forwarded p' h = ground arith

  new_origin : (p' q' : ℕ) → forward f p q p' ≡ some q' → (s' : ℕ) × IsObject p' s' w.new_space ts
  new_origin p' q' h = elim (forwarded_cases p' q' h) [
    | inl (a, b) ↦ (s, rw a o)
    | inr (a, b) ↦ inv.origin p' q' b
  ]

  new_reached : (p' q' : ℕ) → forward f p q p' ≡ some q' → Reachable w ts p'
  new_reached p' q' h = elim (forwarded_cases p' q' h) [
    | inl (a, b) ↦ rw a r
    | inr (a, b) ↦ inv.reached p' q' b
  ]

  new_gone :
      (p' s' q' : ℕ)
      → IsObject p' s' w.new_space ts
      → forward f p q p' ≡ some q'
      → (copied p s q m (p' - 8) ≡ moved) × (copied p s q m p' ≡ q')
  new_gone p' s' q' o' h = elim (forwarded_cases p' q' h) [
    | inl (a, b) ↦ rw (a, b) (copied-moved p s q m sep, copied-forward p s q m sep)
    | inr (a, b) ↦
        let g = inv.gone p' s' q' o' b in
        let e₀ : p' + 8 * 0 ≡ p' = omega arith in
        (
          keep_header p' s' o' a ∙ g.0,
          (rw e₀ at (keep_new p' s' 0 o' a (heap.positive p' s' o'))) ∙ g.1,
        )
  ]

  new-IsPlace :
      (p' s' q' : ℕ)
      → IsObject p' s' w.new_space ts
      → forward f p q p' ≡ some q'
      → IsPlace w q' s' (off + 1 + s)
  new-IsPlace p' s' q' o' h = elim (forwarded_cases p' q' h) [
    | inl (a, b) ↦ (off, b, omega (arith, same_size s' (rw a at o')))
    | inr (a, b) ↦ let c = inv.place p' s' q' o' b in (c.0, c.1, omega (arith, c.2))
  ]

  new_header :
      (p' s' q' : ℕ)
      → IsObject p' s' w.new_space ts
      → forward f p q p' ≡ some q'
      → copied p s q m (q' - 8) ≡ s'
  new_header p' s' q' o' h = elim (forwarded_cases p' q' h) [
    | inl (a, b) ↦ rw (b, same_size s' (rw a at o')) (copied-header p s q m sep)
    | inr (a, b) ↦
        let c = inv.place p' s' q' o' b in
        let e₀ : q' - 8 ≡ w.old_space + 8 * c.0 = omega (arith, c.1) in
        (rw e₀ (keep_old c.0 (omega (arith, c.2)))) ∙ (rw e₀ at (inv.header p' s' q' o' b))
  ]

  -- a word of an older copy stays
  keep_copy :
      (p' s' q' k : ℕ)
      → IsObject p' s' w.new_space ts
      → f p' ≡ some q'
      → k < s'
      → copied p s q m (q' + 8 * k) ≡ m (q' + 8 * k)
  keep_copy p' s' q' k o' b lt =
      let c = inv.place p' s' q' o' b in
      let e₀ : q' + 8 * k ≡ w.old_space + 8 * (c.0 + 1 + k) = omega (arith, c.1) in
      rw e₀ (keep_old (c.0 + 1 + k) (omega (arith, c.2)))

  new_rest :
      (p' s' q' k : ℕ)
      → IsObject p' s' w.new_space ts
      → forward f p q p' ≡ some q'
      → k < s'
      → w.old_space + 8 * d ≤ q' + 8 * k
      → copied p s q m (q' + 8 * k) ≡ w.mem (p' + 8 * k)
  new_rest p' s' q' k o' h lt ge = elim (forwarded_cases p' q' h) [
    | inl (a, b) ↦
        let lt' : k < s = omega (arith, same_size s' (rw a at o')) in
        rw (a, b) (copied-word p s q m sep k lt' ∙ inv.unchanged p s k o e lt')
    | inr (a, b) ↦ keep_copy p' s' q' k o' b lt ∙ inv.rest p' s' q' k o' b lt ge
  ]

  new_done :
      (p' s' q' k : ℕ)
      → IsObject p' s' w.new_space ts
      → forward f p q p' ≡ some q'
      → k < s'
      → q' + 8 * k < w.old_space + 8 * d
      → Forwarded w (forward f p q) (w.mem (p' + 8 * k)) (copied p s q m (q' + 8 * k))
  new_done p' s' q' k o' h lt below = elim (forwarded_cases p' q' h) [
    | inl (a, b) ↦ absurd (omega arith)
    | inr (a, b) ↦ rw (keep_copy p' s' q' k o' b lt) (
        Forwarded-forward (w.mem (p' + 8 * k)) (m (q' + 8 * k)) (inv.done p' s' q' k o' b lt below))
  ]

  beyond : (p' s' q' : ℕ) → IsObject p' s' w.new_space ts → f p' ≡ some q' → q' + 8 * s' + 8 ≤ q
  beyond p' s' q' o' b = let c = inv.place p' s' q' o' b in omega (arith, c.1, c.2)

  new_separate :
      (p₁ s₁ q₁ p₂ s₂ q₂ : ℕ)
      → IsObject p₁ s₁ w.new_space ts
      → IsObject p₂ s₂ w.new_space ts
      → forward f p q p₁ ≡ some q₁
      → forward f p q p₂ ≡ some q₂
      → (p₁ ≡ p₂) ⊎ ((q₁ + 8 * s₁ + 8 ≤ q₂) ⊎ (q₂ + 8 * s₂ + 8 ≤ q₁))
  new_separate p₁ s₁ q₁ p₂ s₂ q₂ o₁ o₂ h₁ h₂ = elim (forwarded_cases p₁ q₁ h₁) [
    | inl (a, b) ↦ elim (forwarded_cases p₂ q₂ h₂) [
      | inl (c, g) ↦ inl (omega arith)
      | inr (c, g) ↦ inr (inr (omega (arith, beyond p₂ s₂ q₂ o₂ g)))
    ]
    | inr (a, b) ↦ elim (forwarded_cases p₂ q₂ h₂) [
      | inl (c, g) ↦ inr (inl (omega (arith, beyond p₁ s₁ q₁ o₁ b)))
      | inr (c, g) ↦ inv.separate p₁ s₁ q₁ p₂ s₂ q₂ o₁ o₂ b g
    ]
  ]

  -- The copy at the end of the old space keeps the invariant.
  pub copied-Inv : Inv w ts (forward f p q) d (off + 1 + s) (copied p s q m)
  copied-Inv = record {
    offset = omega (arith, inv.offset, moved_words-forward f p s q w.new_space ts o e);
    origin = new_origin;
    reached = new_reached;
    waiting = λ p' s' o' h.
        let n = not_forwarded p' h in keep_header p' s' o' n.0 ∙ inv.waiting p' s' o' n.1;
    unchanged = λ p' s' k o' h lt.
        let n = not_forwarded p' h in keep_new p' s' k o' n.0 lt ∙ inv.unchanged p' s' k o' n.1 lt;
    gone = new_gone;
    place = new-IsPlace;
    header = new_header;
    rest = new_rest;
    done = new_done;
    separate = new_separate;
  }
