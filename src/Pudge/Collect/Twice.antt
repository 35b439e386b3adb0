-- ===== src/Pudge/Collect/Twice.antt =====
-- Two collections in a row in PudgeWithMoML/lib/runtime/runtime.c: the first leaves no garbage.
use pudge_with_mo_ml.Base.{
  ℕ, ◌+◌, ◌*◌, ◌≡◌, refl, ◌∙◌, inl, inr, true, List, [], ◌∷◌, some, arith, Returns, Bool-cases,
  ◌==◌,
}
use pudge_with_mo_ml.Memory.{holds}
use pudge_with_mo_ml.Forwarding.{Forwarding, forwarded, forwarded_all, one_copy}
use pudge_with_mo_ml.Pudge.{Runtime}
use pudge_with_mo_ml.Pudge.Collect.{collect}
use pudge_with_mo_ml.Pudge.Heap.{
  total, IsObject, IsHeap, IsClean, Reachable, from_stack, from_globals, from_object, moved_words,
}
use pudge_with_mo_ml.Pudge.Collect.Graph.{Collected, collect-Collected}
use pudge_with_mo_ml.Pudge.Collect.Preserve.{Collected-IsHeap, Collected-IsClean}
use pudge_with_mo_ml.Pudge.Closure.Values.{object_reference}

holds-forwarded_all :
    (f : Forwarding) (p q : ℕ) (xs : List ℕ)
    → f p ≡ some q
    → holds p xs ≡ true
    → holds q (forwarded_all f xs) ≡ true
unfolding holds
holds-forwarded_all f p q [] e h = h
holds-forwarded_all f p q (x ∷ xs) e h = elim (Bool-cases (x == p)) [
  | inl z ↦
      let z' : x ≡ p = ground arith in
      let e' : forwarded f x ≡ q = rw (z', e, forwarded) in ground arith
  | inr z ↦ let ih = holds-forwarded_all f p q xs e (rw z at h) in ground arith
]

moved_words-total :
    (f : Forwarding) (a : ℕ) (ts : List ℕ)
    → ((p s : ℕ) → IsObject p s a ts → (q : ℕ) × (f p ≡ some q))
    → moved_words f a ts ≡ total ts
moved_words-total f a [] h = refl
moved_words-total f a (t ∷ ts) h =
    let (q, e) = h (a + 8) t (inl (refl, refl)) in
    let rest = moved_words-total f (a + 8 + 8 * t) ts (λ p s o. h p s (inr o)) in
    rw e (omega (arith, rest))

module _ (w : Runtime) (ts : List ℕ) (heap : IsHeap w ts) (clean : IsClean w ts) (w' : Runtime)
    (c : Collected w ts w') where
  abbrev heap' : IsHeap w' c.sizes
  heap' = Collected-IsHeap w ts heap clean w' c

  -- The copy of an object that the program can reach is one that it can reach.
  copy-Reachable : (p q : ℕ) → Reachable w ts p → c.forwarding p ≡ some q → Reachable w' c.sizes q
  copy-Reachable p q (from_stack _ h) e =
      from_stack q (rw c.stack (holds-forwarded_all c.forwarding p q w.stack e h))
  copy-Reachable p q (from_globals _ h) e =
      from_globals q (rw c.globals (holds-forwarded_all c.forwarding p q w.globals e h))
  copy-Reachable _ q (from_object p s k r o lt h) e =
      let (q₀, e₀) = (c.exact p s o).0 r in
      let to = (c.words p s q₀ k o e₀ lt).0 h in
      let z : w'.mem (q₀ + 8 * k) ≡ q =
        one_copy c.forwarding (w.mem (p + 8 * k)) (w'.mem (q₀ + 8 * k)) q to e in
      let (t, ot) = heap.references p s k o lt h in
      let ot' = c.copies (w.mem (p + 8 * k)) t (w'.mem (q₀ + 8 * k)) ot to in
      rw z at (
        from_object q₀ s k (copy-Reachable p q₀ r e₀) (c.copies p s q₀ o e₀) lt (
          object_reference w' c.sizes heap' (Collected-IsClean w ts heap clean w' c)
            (w'.mem (q₀ + 8 * k)) t ot'))

  all-Reachable : (q s : ℕ) → IsObject q s w'.new_space c.sizes → Reachable w' c.sizes q
  all-Reachable q s o =
      let (p, op, e) = c.no_others q s o in copy-Reachable p q ((c.exact p s op).1 (q, e)) e

  again : (w'' : Runtime) → Collected w' c.sizes w'' → w''.alloc_offset ≡ w'.alloc_offset
  again w'' c' =
      let all =
        moved_words-total c'.forwarding w'.new_space c.sizes
          (λ q s o. (c'.exact q s o).0 (all-Reachable q s o)) in
      c'.moved ∙ all ∙ c.filled

-- A state of objects of sizes `us`, without stale addresses, in which the program can reach every
-- object, and in which a collection leaves as many words in use as before.
pub record NoGarbage (w' : Runtime) : Type 0 where
  pub sizes : List ℕ
  pub heap : IsHeap w' sizes
  pub clean : IsClean w' sizes
  pub reachable : (q s : ℕ) → IsObject q s w'.new_space sizes → Reachable w' sizes q
  pub stable : Returns (λ w''. w''.alloc_offset ≡ w'.alloc_offset) (collect w')

empty_row : (ts : List ℕ) (p s a : ℕ) → total ts ≡ 0 → IsObject p s a ts → ⊥
empty_row [] p s a e o = absurd o
empty_row (t ∷ ts) p s a e o = absurd (omega arith)

-- A collection, of an empty heap too, ends and leaves no garbage: the program can reach every object
-- that is left, and a second collection, right after it, ends as well and leaves as many words in use
-- as it found.
pub collect-Stable :
    (w : Runtime) (ts : List ℕ) → IsHeap w ts → IsClean w ts → Returns NoGarbage (collect w)
unfolding collect
collect-Stable w ts heap clean = elim (Bool-cases (w.alloc_offset == 0)) [
  | inl e ↦
      let n : w.alloc_offset ≡ 0 = ground arith in
      (
        w,
        rw e,
        record {
          sizes = ts;
          heap = heap;
          clean = clean;
          reachable =
              λ q s o. absurd (empty_row ts q s w.new_space (omega (arith, heap.filled, n)) o);
          stable = (w, rw e, refl);
        },
      )
  | inr e ↦
      let (w', ran, c) = collect-Collected w ts heap (ground arith) in
      (
        w',
        ran,
        record {
          sizes = c.sizes;
          heap = Collected-IsHeap w ts heap clean w' c;
          clean = Collected-IsClean w ts heap clean w' c;
          reachable = all-Reachable w ts heap clean w' c;
          stable = elim (Bool-cases (w'.alloc_offset == 0)) [
            | inl e' ↦ (w', rw e', refl)
            | inr e' ↦
                let (w'', ran', c') =
                  collect-Collected w' c.sizes (Collected-IsHeap w ts heap clean w' c)
                    (ground arith) in
                (w'', ran', again w ts heap clean w' c w'' c')
          ];
        },
      )
]
