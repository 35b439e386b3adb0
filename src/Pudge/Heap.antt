-- ===== src/Pudge/Heap.antt =====
-- The heap of PudgeWithMoML/lib/runtime/runtime.c as the comment "HEAP structure" draws it: objects
-- in a row, each a header word with its size and then its words. The sizes in order determine where
-- the objects are; an object is named by the address of its first word.
use pudge_with_mo_ml.Forwarding.{Forwarding, forward, size_moved}
use pudge_with_mo_ml.Base.{
  ℕ, ◌+◌, ◌-◌, ◌*◌, ◌%◌, ◌^◌, ◌≤◌, ◌<◌, ◌≡◌, refl, ◌⊎◌, inl, inr, true, List, [], ◌∷◌, ◌++◌, Option,
  none, some, arith,
}
use pudge_with_mo_ml.Memory.{holds}
use pudge_with_mo_ml.Pudge.{Runtime}
use pudge_with_mo_ml.Pudge.Collect.{is_reference}

-- the words that objects of these sizes take, headers included
abbrev pub total : List ℕ → ℕ
total [] = 0
total (t ∷ ts) = t + 1 + total ts

-- in the row of objects from address `a` on, one of size `s` has its first word at `p`
abbrev pub IsObject : (p s a : ℕ) → List ℕ → Type 0
IsObject p s a [] = ⊥
IsObject p s a (t ∷ ts) = ((p ≡ a + 8) × (s ≡ t)) ⊎ IsObject p s (a + 8 + 8 * t) ts

pub object_bounds :
    (p s a : ℕ) (ts : List ℕ) → IsObject p s a ts → (a + 8 ≤ p) × (p + 8 * s ≤ a + 8 * total ts)
object_bounds p s a [] h = absurd h
object_bounds p s a (t ∷ ts) (inl h) = (omega arith, omega arith)
object_bounds p s a (t ∷ ts) (inr h) =
    let b = object_bounds p s (a + 8 + 8 * t) ts h in (omega arith, omega arith)

-- Two objects are one, or neither's words, header included, cut the other's.
abbrev pub Apart : (p s p' s' : ℕ) → Type 0
Apart p s p' s' = ((p ≡ p') × (s ≡ s')) ⊎ ((p + 8 * s + 8 ≤ p') ⊎ (p' + 8 * s' + 8 ≤ p))

pub IsObject-Apart :
    (p s p' s' a : ℕ) (ts : List ℕ) → IsObject p s a ts → IsObject p' s' a ts → Apart p s p' s'
IsObject-Apart p s p' s' a [] h h' = absurd h
IsObject-Apart p s p' s' a (t ∷ ts) (inl h) (inl h') = inl (omega arith, omega arith)
IsObject-Apart p s p' s' a (t ∷ ts) (inl h) (inr h') =
    inr (inl (omega (arith, object_bounds p' s' (a + 8 + 8 * t) ts h')))
IsObject-Apart p s p' s' a (t ∷ ts) (inr h) (inl h') =
    inr (inr (omega (arith, object_bounds p s (a + 8 + 8 * t) ts h)))
IsObject-Apart p s p' s' a (t ∷ ts) (inr h) (inr h') =
    IsObject-Apart p s p' s' (a + 8 + 8 * t) ts h h'

pub object_aligned : (p s a : ℕ) (ts : List ℕ) → IsObject p s a ts → a % 8 ≡ 0 → p % 8 ≡ 0
object_aligned p s a [] h e = absurd h
object_aligned p s a (t ∷ ts) (inl h) e = omega arith
object_aligned p s a (t ∷ ts) (inr h) e = object_aligned p s (a + 8 + 8 * t) ts h (omega arith)

-- A heap between two calls of the program. The new space holds objects of sizes `ts`; a word of an
-- object that passes for a reference is one. The bounds are those of `init_GC`'s heap.
pub record IsHeap (w : Runtime) (ts : List ℕ) : Type 0 where
  pub filled : total ts ≡ w.alloc_offset
  pub within : w.alloc_offset ≤ w.space_capacity
  pub small : w.space_capacity < 2 ^ 32
  pub aligned : w.new_space % 8 ≡ 0
  pub aligned_old : w.old_space % 8 ≡ 0
  pub disjoint :
      (w.new_space + 8 * w.space_capacity ≤ w.old_space)
      ⊎ (w.old_space + 8 * w.space_capacity ≤ w.new_space)
  pub header : (p s : ℕ) → IsObject p s w.new_space ts → w.mem (p - 8) ≡ s
  pub positive : (p s : ℕ) → IsObject p s w.new_space ts → 0 < s
  pub references :
      (p s k : ℕ)
      → IsObject p s w.new_space ts
      → k < s
      → is_reference (w.mem (p + 8 * k)) w ≡ true
      → (t : ℕ) × IsObject (w.mem (p + 8 * k)) t w.new_space ts

-- No word of an object is a stale address: an aligned one that lies in the two spaces points into
-- the part of the new space in use.
pub record IsClean (w : Runtime) (ts : List ℕ) : Type 0 where
  pub not_old :
      (p s k : ℕ)
      → IsObject p s w.new_space ts
      → k < s
      → w.mem (p + 8 * k) % 8 ≡ 0
      → (w.mem (p + 8 * k) < w.old_space) ⊎ (w.old_space + 8 * w.space_capacity ≤ w.mem (p + 8 * k))
  pub not_free :
      (p s k : ℕ)
      → IsObject p s w.new_space ts
      → k < s
      → w.mem (p + 8 * k) % 8 ≡ 0
      → (w.mem (p + 8 * k) < w.new_space + 8 * w.alloc_offset)
        ⊎ (w.new_space + 8 * w.space_capacity ≤ w.mem (p + 8 * k))

-- The objects that the program can get at: those that a root points to, and those that a word of
-- such an object points to.
pub data Reachable (w : Runtime) (ts : List ℕ) : ℕ → Type 0 where
  from_stack : (p : ℕ) → holds p w.stack ≡ true → Reachable w ts p
  from_globals : (p : ℕ) → holds p w.globals ≡ true → Reachable w ts p
  from_object :
      (p s k : ℕ)
      → Reachable w ts p
      → IsObject p s w.new_space ts
      → k < s
      → is_reference (w.mem (p + 8 * k)) w ≡ true
      → Reachable w ts (w.mem (p + 8 * k))

-- the words of the objects that have been copied
abbrev pub moved_words : Forwarding → ℕ → List ℕ → ℕ
moved_words f a [] = 0
moved_words f a (t ∷ ts) = size_moved (f (a + 8)) (t + 1) + moved_words f (a + 8 + 8 * t) ts

pub moved_words-le-total : (f : Forwarding) (a : ℕ) (ts : List ℕ) → moved_words f a ts ≤ total ts
moved_words-le-total f a [] = omega arith
moved_words-le-total f a (t ∷ ts) = ground (arith, moved_words-le-total f (a + 8 + 8 * t) ts)

pub moved_words-none : (a : ℕ) (ts : List ℕ) → moved_words (λ _. none) a ts ≡ 0
moved_words-none a [] = refl
moved_words-none a (t ∷ ts) = omega (arith, moved_words-none (a + 8 + 8 * t) ts)

moved_words-below :
    (f : Forwarding) (p q a : ℕ) (ts : List ℕ)
    → p < a + 8
    → moved_words (forward f p q) a ts ≡ moved_words f a ts
moved_words-below f p q a [] h = refl
moved_words-below f p q a (t ∷ ts) h = ground (arith, moved_words-below f p q (a + 8 + 8 * t) ts)

pub moved_words-forward :
    (f : Forwarding) (p s q a : ℕ) (ts : List ℕ)
    → IsObject p s a ts
    → f p ≡ none
    → moved_words (forward f p q) a ts ≡ moved_words f a ts + s + 1
moved_words-forward f p s q a [] h e = absurd h
moved_words-forward f p s q a (t ∷ ts) (inl (hp, hs)) e =
    ground (arith, moved_words-below f p q (a + 8 + 8 * t) ts)
moved_words-forward f p s q a (t ∷ ts) (inr h) e = ground (
  arith,
  object_bounds p s (a + 8 + 8 * t) ts h,
  moved_words-forward f p s q (a + 8 + 8 * t) ts h e,
)

-- the number of the objects that have been copied
abbrev pub is_moved : Option ℕ → ℕ
is_moved none = 0
is_moved (some q) = 1

abbrev pub moved_count : Forwarding → ℕ → List ℕ → ℕ
moved_count f a [] = 0
moved_count f a (t ∷ ts) = is_moved (f (a + 8)) + moved_count f (a + 8 + 8 * t) ts

pub moved_count-le-total : (f : Forwarding) (a : ℕ) (ts : List ℕ) → moved_count f a ts ≤ total ts
moved_count-le-total f a [] = omega arith
moved_count-le-total f a (t ∷ ts) = ground (arith, moved_count-le-total f (a + 8 + 8 * t) ts)

pub moved_count-none : (a : ℕ) (ts : List ℕ) → moved_count (λ _. none) a ts ≡ 0
moved_count-none a [] = refl
moved_count-none a (t ∷ ts) = omega (arith, moved_count-none (a + 8 + 8 * t) ts)

moved_count-below :
    (f : Forwarding) (p q a : ℕ) (ts : List ℕ)
    → p < a + 8
    → moved_count (forward f p q) a ts ≡ moved_count f a ts
moved_count-below f p q a [] h = refl
moved_count-below f p q a (t ∷ ts) h = ground (arith, moved_count-below f p q (a + 8 + 8 * t) ts)

pub moved_count-forward :
    (f : Forwarding) (p s q a : ℕ) (ts : List ℕ)
    → IsObject p s a ts
    → f p ≡ none
    → moved_count (forward f p q) a ts ≡ moved_count f a ts + 1
moved_count-forward f p s q a [] h e = absurd h
moved_count-forward f p s q a (t ∷ ts) (inl (hp, hs)) e =
    ground (arith, moved_count-below f p q (a + 8 + 8 * t) ts)
moved_count-forward f p s q a (t ∷ ts) (inr h) e = ground (
  arith,
  object_bounds p s (a + 8 + 8 * t) ts h,
  moved_count-forward f p s q (a + 8 + 8 * t) ts h e,
)

-- One more object at the end.
pub total-snoc : (t : ℕ) (ts : List ℕ) → total (ts ++ t ∷ []) ≡ total ts + t + 1
total-snoc t [] = omega arith
total-snoc t (u ∷ ts) = omega (arith, total-snoc t ts)

pub IsObject-snoc :
    (p s a t : ℕ) (ts : List ℕ)
    → IsObject p s a (ts ++ t ∷ [])
    → IsObject p s a ts ⊎ ((p ≡ a + 8 * total ts + 8) × (s ≡ t))
IsObject-snoc p s a t [] (inl h) = inr (omega arith, omega arith)
IsObject-snoc p s a t [] (inr h) = absurd h
IsObject-snoc p s a t (u ∷ ts) (inl h) = inl (inl h)
IsObject-snoc p s a t (u ∷ ts) (inr h) = elim (IsObject-snoc p s (a + 8 + 8 * u) t ts h) [
  | inl o ↦ inl (inr o)
  | inr e ↦ inr (omega arith, omega arith)
]

pub IsObject-append :
    (p s a t : ℕ) (ts : List ℕ) → IsObject p s a ts → IsObject p s a (ts ++ t ∷ [])
IsObject-append p s a t [] h = absurd h
IsObject-append p s a t (u ∷ ts) (inl h) = inl h
IsObject-append p s a t (u ∷ ts) (inr h) = inr (IsObject-append p s (a + 8 + 8 * u) t ts h)

pub IsObject-last : (a t : ℕ) (ts : List ℕ) → IsObject (a + 8 * total ts + 8) t a (ts ++ t ∷ [])
IsObject-last a t [] = inl (omega arith, refl)
IsObject-last a t (u ∷ ts) =
    let e : a + 8 + 8 * u + 8 * total ts + 8 ≡ a + 8 * (u + 1 + total ts) + 8 = omega arith in
    inr (rw e at (IsObject-last (a + 8 + 8 * u) t ts))
