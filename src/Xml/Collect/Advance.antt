-- ===== src/Xml/Collect/Advance.antt =====
-- The scan of `gc_collect` in XML/bin/runtime.c moves on by one word of a copy.
use mathlib.Core.Path.{fun_ext}
use pudge_with_mo_ml.Base.{
  ℕ, ◌+◌, ◌*◌, ◌≤◌, ◌<◌, ◌≡◌, ◌⊎◌, inl, inr, ◌∙◌, sym, refl, false, List, some, arith,
}
use pudge_with_mo_ml.Memory.{Memory, store}
use pudge_with_mo_ml.Memory.Copy.{store_self, store_ne}
use pudge_with_mo_ml.Forwarding.{Forwarding, one_copy}
use pudge_with_mo_ml.Xml.{Runtime}
use pudge_with_mo_ml.Xml.Heap.{IsObject, IsHeap, is_live}
use pudge_with_mo_ml.Xml.Collect.Invariant.{Inv, Follows, end_of, end_of-le, object_place}

-- Word `k` of the copy `q` of the object at `p` is the next one.
module _ (w : Runtime) (ts : List ℕ) (heap : IsHeap w ts) (f : Forwarding) (d : ℕ) (m : Memory)
    (inv : Inv w ts f d m) (p s q k : ℕ) (o : IsObject p s w.from_start ts) (e : f p ≡ some q)
    (lt : k < s) (here : q + 8 * k ≡ d) where
  pub word_here : m d ≡ w.mem (p + 8 * k)
  word_here = rw here at (inv.rest p s q k o e lt (omega arith))

  pub inside : (w.to_start ≤ d) × (d + 8 ≤ end_of w ts f)
  inside = let c = inv.place p s q o e in (omega (arith, c.0), omega (arith, c.1))

  same_word :
      (p' s' q' k' : ℕ)
      → IsObject p' s' w.from_start ts
      → f p' ≡ some q'
      → k' < s'
      → q' + 8 * k' ≡ d
      → (p' ≡ p) × (k' ≡ k)
  same_word p' s' q' k' o' e' lt' h = elim (inv.separate p s q p' s' q' o o' e e') [
    | inl a ↦ (omega arith, omega (arith, one_copy f p q q' e (rw (sym a) at e')))
    | inr b ↦ absurd (omega arith)
  ]

  at_word :
      (p' s' q' k' : ℕ)
      → IsObject p' s' w.from_start ts
      → f p' ≡ some q'
      → q' + 8 * k' < d + 8
      → (q' + 8 * k' < d) ⊎ (q' + 8 * k' ≡ d)
  at_word p' s' q' k' o' e' below =
      let c = inv.place p s q o e in let c' = inv.place p' s' q' o' e' in omega (arith, c.2, c'.2)

  module _ (v' : ℕ) (fw : Follows w f p k v') where
    outside_from :
        (p' s' k' : ℕ)
        → IsObject p' s' w.from_start ts
        → k' < s'
        → store m d v' (p' + 8 * k') ≡ m (p' + 8 * k')
    outside_from p' s' k' o' lt' =
        let b = object_place w ts heap p' s' o' in
        store_ne m d v' (p' + 8 * k') (omega (arith, inside, end_of-le w ts heap f, heap.disjoint))

    store_gone : (p' q' : ℕ) → f p' ≡ some q' → store m d v' p' ≡ q'
    store_gone p' q' e' =
        let (s', o') = inv.origin p' q' e' in
        let b = object_place w ts heap p' s' o' in
        let e₀ : p' + 8 * 0 ≡ p' = omega arith in
        (rw e₀ at (outside_from p' s' 0 o' (omega arith))) ∙ inv.gone p' q' e'

    store_done :
        (p' s' q' k' : ℕ)
        → IsObject p' s' w.from_start ts
        → f p' ≡ some q'
        → k' < s'
        → q' + 8 * k' < d + 8
        → Follows w f p' k' (store m d v' (q' + 8 * k'))
    store_done p' s' q' k' o' e' lt' below = elim (at_word p' s' q' k' o' e' below) [
      | inl b ↦ rw (store_ne m d v' (q' + 8 * k') (omega arith)) (inv.done p' s' q' k' o' e' lt' b)
      | inr b ↦ let a = same_word p' s' q' k' o' e' lt' b in rw (b, store_self m d v', a.0, a.1) fw
    ]

    pub store-Inv : Inv w ts f (d + 8) (store m d v')
    store-Inv = record {
      origin = inv.origin;
      reached = inv.reached;
      unchanged = λ p' s' k' o' h l. outside_from p' s' k' o' l ∙ inv.unchanged p' s' k' o' h l;
      gone = store_gone;
      place = inv.place;
      rest = λ p' s' q' k' o' h l ge.
          store_ne m d v' (q' + 8 * k') (omega arith) ∙ inv.rest p' s' q' k' o' h l (omega arith);
      done = store_done;
      separate = inv.separate;
    }

  pub store_same : store m d (w.mem (p + 8 * k)) ≡ m
  store_same = fun_ext λ b. ground (arith, word_here)

  -- A word that the collector does not follow stays, stored again or not.
  pub plain-Inv : is_live p k w ≡ false → Inv w ts f (d + 8) m
  plain-Inv h = rw store_same at (store-Inv (w.mem (p + 8 * k)) ((λ h'. cc), (λ _. refl)))
