-- ===== src/Forwarding.antt =====
-- Where a copying collector has put the objects, and the words of the roots that follow them.
use pudge_with_mo_ml.Base.{
  zero, suc, ◌<◌, ◌++◌, length, get_or, ℕ, ◌≡◌, refl, ap, List, [], ◌∷◌, Option, none, some, arith,
  ◌==◌, if◌then◌else◌, true,
}
use mathlib.Core.Path.{ap₂}
use pudge_with_mo_ml.Memory.{holds}

-- Where the collector has put an object: the address of its copy.
abbrev pub Forwarding : Type 0
Forwarding = ℕ → Option ℕ

abbrev pub forward : Forwarding → (p q : ℕ) → Forwarding
forward f p q x = if x == p then some q else f x

pub forward_self : (f : Forwarding) (p q : ℕ) → forward f p q p ≡ some q
forward_self f p q = ground arith

pub forward-extends :
    (f : Forwarding) (p q : ℕ)
    → f p ≡ none
    → (p' q' : ℕ) → f p' ≡ some q'
    → forward f p q p' ≡ some q'
forward-extends f p q e p' q' h = ground arith

pub one_copy : (f : Forwarding) (p q q' : ℕ) → f p ≡ some q → f p ≡ some q' → q ≡ q'
one_copy f p q q' h h' = ground arith

abbrev pub size_moved : Option ℕ → ℕ → ℕ
size_moved none t = 0
size_moved (some q) t = t

abbrev pub forwarded : Forwarding → ℕ → ℕ
forwarded f x = elim (f x) [ none ↦ x | some q ↦ q ]

abbrev pub forwarded_all : Forwarding → List ℕ → List ℕ
forwarded_all f [] = []
forwarded_all f (x ∷ xs) = forwarded f x ∷ forwarded_all f xs

pub forwarded_all-none : (xs : List ℕ) → forwarded_all (λ _. none) xs ≡ xs
forwarded_all-none [] = refl
forwarded_all-none (x ∷ xs) = ap (◌∷◌ x) (forwarded_all-none xs)

-- Forwardings that agree on the words of a list forward it alike.
pub forwarded_all_congr :
    (f g : Forwarding) (xs : List ℕ)
    → ((x : ℕ) → holds x xs ≡ true → forwarded f x ≡ forwarded g x)
    → forwarded_all f xs ≡ forwarded_all g xs
unfolding holds
forwarded_all_congr f g [] h = refl
forwarded_all_congr f g (x ∷ xs) h =
    ap₂ ◌∷◌ (h x (ground arith)) (forwarded_all_congr f g xs (λ y k. h y (ground arith)))

pub forwarded_all-append :
    (f : Forwarding) (xs ys : List ℕ)
    → forwarded_all f (xs ++ ys) ≡ forwarded_all f xs ++ forwarded_all f ys
forwarded_all-append f [] ys = refl
forwarded_all-append f (x ∷ xs) ys = ap (◌∷◌ (forwarded f x)) (forwarded_all-append f xs ys)

pub length-forwarded_all : (f : Forwarding) (xs : List ℕ) → length (forwarded_all f xs) ≡ length xs
length-forwarded_all f [] = refl
length-forwarded_all f (x ∷ xs) = ap suc (length-forwarded_all f xs)

pub get_or-forwarded_all :
    (f : Forwarding) (xs : List ℕ) (i : ℕ)
    → i < length xs
    → get_or (forwarded_all f xs) i 0 ≡ forwarded f (get_or xs i 0)
get_or-forwarded_all f [] i h = absurd (omega arith)
get_or-forwarded_all f (x ∷ xs) zero h = refl
get_or-forwarded_all f (x ∷ xs) (suc i) h = get_or-forwarded_all f xs i (omega arith)

-- A word of a list is among its words, whatever follows.
pub holds-get_or :
    (xs ys : List ℕ) (i : ℕ) → i < length xs → holds (get_or xs i 0) (xs ++ ys) ≡ true
unfolding holds
holds-get_or [] ys i h = absurd (omega arith)
holds-get_or (x ∷ xs) ys zero h = ground arith
holds-get_or (x ∷ xs) ys (suc i) h = ground (arith, holds-get_or xs ys i)

pub holds-snoc : (xs : List ℕ) (x : ℕ) → holds x (xs ++ x ∷ []) ≡ true
unfolding holds
holds-snoc [] x = ground arith
holds-snoc (y ∷ xs) x = ground (arith, holds-snoc xs x)
