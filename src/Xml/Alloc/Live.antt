-- ===== src/Xml/Alloc/Live.antt =====
-- When `alloc_closure` of XML/bin/runtime.c has to succeed: the objects that the program can get at
-- leave room.
use pudge_with_mo_ml.Base.{
  ℕ, ◌+◌, ◌*◌, ◌^◌, ◌≤◌, ◌<◌, ◌≡◌, refl, sym, ◌∙◌, inl, inr, Bool, true, false, List, [], ◌∷◌, some,
  arith, ltb, ltb-false, Returns, Option-cases, if◌then◌else◌, ok_injective,
}
use pudge_with_mo_ml.Forwarding.{Forwarding}
use pudge_with_mo_ml.Xml.{Runtime}
use pudge_with_mo_ml.Xml.Heap.{IsObject, IsHeap, IsClean, Reachable, moved_words}
use pudge_with_mo_ml.Xml.Collect.Graph.{gc_collect-Collected}
use pudge_with_mo_ml.Xml.Alloc.{alloc_closure}
use pudge_with_mo_ml.Xml.Alloc.Fresh.{NewClosure, alloc_closure-NewClosure}

-- the words that the objects with `keep` take
abbrev pub kept_words : (ℕ → Bool) → ℕ → List ℕ → ℕ
kept_words keep a [] = 0
kept_words keep a (t ∷ ts) = (if keep a then t else 0) + kept_words keep (a + 8 * t) ts

moved_words-le-kept :
    (f : Forwarding) (keep : ℕ → Bool) (a : ℕ) (ts : List ℕ)
    → ((p s q : ℕ) → IsObject p s a ts → f p ≡ some q → keep p ≡ true)
    → moved_words f a ts ≤ kept_words keep a ts
moved_words-le-kept f keep a [] h = omega arith
moved_words-le-kept f keep a (t ∷ ts) h =
    let rest = moved_words-le-kept f keep (a + 8 * t) ts (λ p s q o e. h p s q (inr o) e) in
    elim (Option-cases (f a)) [
      | inl e ↦ rw e (omega (arith, rest))
      | inr (q, e) ↦ rw (e, h a t q (inl (refl, refl)) e) (omega (arith, rest))
    ]

module _ (w : Runtime) (ts : List ℕ) (heap : IsHeap w ts) (clean : IsClean w ts) (keep : ℕ → Bool)
    (live : (p s : ℕ) → IsObject p s w.from_start ts → Reachable w ts p → keep p ≡ true) where
  -- For an arity below 2 ^ 29 - 4, `alloc_closure` returns a closure whenever the objects that a
  -- predicate keeps, which holds of all that the program can reach, and the new one fit into a half of
  -- the heap.
  pub alloc_closure-Live :
      (code arity : ℕ)
      → arity + 4 < 2 ^ 29
      → w.from_start + 8 * kept_words keep w.from_start ts + (32 + 8 * arity) ≤ w.from_end
      → Returns (NewClosure w ts code arity) (alloc_closure code arity w)
  alloc_closure-Live code arity lt fits =
      elim (alloc_closure-NewClosure code arity lt w ts heap clean) [
        | inr r ↦ r
        | inl (e, (w', ran, full)) ↦
            let (v, ran', c) = gc_collect-Collected w ts heap in
            let z : v ≡ w' = ok_injective v w' (sym ran' ∙ ran) in
            let m =
              moved_words-le-kept c.forwarding keep w.from_start ts
                (λ p s q o e'. live p s o ((c.exact p s o).1 (q, e'))) in
            let full' : ltb v.from_end (v.alloc_ptr + (32 + 8 * arity)) ≡ true = rw z full in
            let no : ltb v.from_end (v.alloc_ptr + (32 + 8 * arity)) ≡ false =
              ltb-false v.from_end (v.alloc_ptr + (32 + 8 * arity))
                (omega (arith, m, c.moved, c.filled, c.swapped, heap.halves)) in
            absurd (cc)
      ]
