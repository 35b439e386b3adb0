-- ===== src/Pudge/Collect/Roots.antt =====
-- The roots while objects move: each word is replaced by where its object has gone.
use pudge_with_mo_ml.Forwarding.{Forwarding, forward, forwarded, forwarded_all}
use pudge_with_mo_ml.Base.{
  ℕ, ◌≡◌, ◌≢◌, refl, inl, inr, List, [], ◌∷◌, none, some, arith, ◌==◌, if◌then◌else◌, Option-cases,
}
use mathlib.Core.Path.{ap₂}
use pudge_with_mo_ml.Memory.{holds, replace}

-- The object at `p` has not moved, and no object has moved to `p`.
module _ (f : Forwarding) (p : ℕ) (e : f p ≡ none) (far : (x q : ℕ) → f x ≡ some q → q ≢ p) where
  forwarded-eq : (x : ℕ) → (forwarded f x == p) ≡ (x == p)
  forwarded-eq x = elim (Option-cases (f x)) [
    | inl h ↦ rw (h, forwarded)
    | inr (q, h) ↦ ground (arith, far x q h)
  ]

  pub holds-forwarded : (xs : List ℕ) → holds p (forwarded_all f xs) ≡ holds p xs
  unfolding holds
  holds-forwarded [] = refl
  holds-forwarded (x ∷ xs) = rw (forwarded-eq x, holds-forwarded xs)

  replace_word :
      (q x : ℕ) → (if forwarded f x == p then q else forwarded f x) ≡ forwarded (forward f p q) x
  replace_word q x = rw (forwarded-eq x) (ground arith)

  -- Replacing the pointers to `p` is forwarding the roots once more.
  pub replace-forwarded :
      (q : ℕ) (xs : List ℕ) → replace p q (forwarded_all f xs) ≡ forwarded_all (forward f p q) xs
  unfolding replace
  replace-forwarded q [] = refl
  replace-forwarded q (x ∷ xs) = ap₂ ◌∷◌ (replace_word q x) (replace-forwarded q xs)
