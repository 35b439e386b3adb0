-- ===== src/Pudge/Closure/Locals.antt =====
-- A local variable that is pushed on the stack of PudgeWithMoML/lib/runtime/runtime.c, and the words
-- below it, as a collection leaves them.
use pudge_with_mo_ml.Base.{
  ℕ, ◌+◌, ◌≤◌, ◌<◌, ◌≡◌, ◌∙◌, sym, ap, List, [], ◌∷◌, ◌++◌, arith, length, get_or, take, drop,
  get_or-append, get_or-append_left, get_or-slice, length-slice, take-append, length-append,
}
use pudge_with_mo_ml.Forwarding.{
  Forwarding, forwarded, forwarded_all, forwarded_all-append, length-forwarded_all,
  get_or-forwarded_all,
}

module _ (f : Forwarding) (stack ss : List ℕ) (c : ℕ)
    (e : ss ≡ forwarded_all f (stack ++ c ∷ [])) where
  split : ss ≡ forwarded_all f stack ++ forwarded f c ∷ []
  split = e ∙ forwarded_all-append f stack (c ∷ [])

  pub local_forwarded : get_or ss (length stack) 0 ≡ forwarded f c
  local_forwarded =
      ap (λ s. get_or s (length stack) 0) split
      ∙ ap (λ i. get_or (forwarded_all f stack ++ forwarded f c ∷ []) i 0)
          (sym (length-forwarded_all f stack))
      ∙ get_or-append (forwarded_all f stack) (forwarded f c ∷ []) 0

  pub take-local : take (length stack) ss ≡ forwarded_all f stack
  take-local =
      ap (take (length stack)) split
      ∙ ap (λ i. take i (forwarded_all f stack ++ forwarded f c ∷ []))
          (sym (length-forwarded_all f stack))
      ∙ take-append (forwarded_all f stack) (forwarded f c ∷ [])

  module _ (pos n : ℕ) (there : pos + n ≤ length stack) where
    pub length-local_slice : length (take n (drop pos ss)) ≡ n
    length-local_slice = length-slice n pos ss (
        omega (
          arith,
          ap length split,
          length-append (forwarded_all f stack) (forwarded f c ∷ []),
          length-forwarded_all f stack,
        ))

    pub get_or-local_slice :
        (j : ℕ) → j < n → get_or (take n (drop pos ss)) j 0 ≡ forwarded f (get_or stack (pos + j) 0)
    get_or-local_slice j lt =
        get_or-slice n pos ss j 0 (omega arith)
        ∙ ap (λ s. get_or s (pos + j) 0) split
        ∙ get_or-append_left (forwarded_all f stack) (forwarded f c ∷ []) (pos + j) 0
            (omega (arith, length-forwarded_all f stack))
        ∙ get_or-forwarded_all f stack (pos + j) (omega arith)
