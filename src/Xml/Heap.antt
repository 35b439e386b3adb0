-- ===== src/Xml/Heap.antt =====
-- The heap of XML/bin/runtime.c: objects in a row from `from_start` to `alloc_ptr`, each with its
-- type in its first word. The sizes in order, in words, determine where the objects are.
use pudge_with_mo_ml.Base.{
  ℕ, ◌+◌, ◌*◌, ◌%◌, ◌^◌, ◌≤◌, ◌<◌, ◌≡◌, ◌≢◌, refl, ◌⊎◌, inl, inr, Bool, true, false, ◌&&◌, List, [],
  ◌∷◌, ◌++◌, none, arith, ltb, leb, ◌==◌, if◌then◌else◌,
}
use pudge_with_mo_ml.Memory.{holds}
use pudge_with_mo_ml.Forwarding.{Forwarding, forward, size_moved}
use pudge_with_mo_ml.Xml.{Runtime, in_from, in_to}
use pudge_with_mo_ml.Xml.Value.{is_ptr}

-- the words that objects of these sizes take
abbrev pub total : List ℕ → ℕ
total [] = 0
total (t ∷ ts) = t + total ts

-- in the row of objects from address `a` on, one of size `s` stands at `p`
abbrev pub IsObject : (p s a : ℕ) → List ℕ → Type 0
IsObject p s a [] = ⊥
IsObject p s a (t ∷ ts) = ((p ≡ a) × (s ≡ t)) ⊎ IsObject p s (a + 8 * t) ts

pub object_bounds :
    (p s a : ℕ) (ts : List ℕ) → IsObject p s a ts → (a ≤ p) × (p + 8 * s ≤ a + 8 * total ts)
object_bounds p s a [] h = absurd h
object_bounds p s a (t ∷ ts) (inl h) = (omega arith, omega arith)
object_bounds p s a (t ∷ ts) (inr h) =
    let b = object_bounds p s (a + 8 * t) ts h in (omega arith, omega arith)

pub object_aligned : (p s a : ℕ) (ts : List ℕ) → IsObject p s a ts → a % 8 ≡ 0 → p % 8 ≡ 0
object_aligned p s a [] h e = absurd h
object_aligned p s a (t ∷ ts) (inl h) e = omega arith
object_aligned p s a (t ∷ ts) (inr h) e = object_aligned p s (a + 8 * t) ts h (omega arith)

-- Two objects are one, or neither's words cut the other's.
abbrev pub Apart : (p s p' s' : ℕ) → Type 0
Apart p s p' s' = ((p ≡ p') × (s ≡ s')) ⊎ ((p + 8 * s ≤ p') ⊎ (p' + 8 * s' ≤ p))

pub IsObject-Apart :
    (p s p' s' a : ℕ) (ts : List ℕ) → IsObject p s a ts → IsObject p' s' a ts → Apart p s p' s'
IsObject-Apart p s p' s' a [] h h' = absurd h
IsObject-Apart p s p' s' a (t ∷ ts) (inl h) (inl h') = inl (omega arith, omega arith)
IsObject-Apart p s p' s' a (t ∷ ts) (inl h) (inr h') =
    inr (inl (omega (arith, object_bounds p' s' (a + 8 * t) ts h')))
IsObject-Apart p s p' s' a (t ∷ ts) (inr h) (inl h') =
    inr (inr (omega (arith, object_bounds p s (a + 8 * t) ts h)))
IsObject-Apart p s p' s' a (t ∷ ts) (inr h) (inr h') = IsObject-Apart p s p' s' (a + 8 * t) ts h h'

-- a value that the collector follows
unfoldable pub points : ℕ → Runtime → Bool
points v w = is_ptr v && in_from v w

-- word `k` of the object at `p` is one that `scan` visits
unfoldable pub is_field : (p k : ℕ) → Runtime → Bool
is_field p k w = if w.mem p == w.vt_block then leb 2 k else leb 4 k && ltb k (4 + w.mem (p + 16))

-- word `k` of the object at `p` is a pointer that the collector follows
unfoldable pub is_live : (p k : ℕ) → Runtime → Bool
is_live p k w = is_field p k w && points (w.mem (p + 8 * k)) w

-- A block with its length, or a closure with its arity and no more arguments than that.
abbrev pub IsTyped : (p s : ℕ) → Runtime → Type 0
IsTyped p s w =
    ((w.mem p ≡ w.vt_block) × (s ≡ 2 + w.mem (p + 8)))
    ⊎ ((w.mem p ≡ w.vt_closure) × (s ≡ 4 + w.mem (p + 8)) × (w.mem (p + 16) ≤ w.mem (p + 8)))

-- an address that lies in neither space
abbrev pub Elsewhere : ℕ → Runtime → Type 0
Elsewhere a w = ((a < w.from_start) ⊎ (w.from_end ≤ a)) × ((a < w.to_start) ⊎ (w.to_end ≤ a))

-- A heap between two calls of the program: the from-space holds objects of sizes `ts`, and every
-- pointer into it, in an object or on the stack, leads to one. An object takes fewer than 2 ^ 32
-- bytes, since sizes are rounded up by a mask of 32 bits.
pub record IsHeap (w : Runtime) (ts : List ℕ) : Type 0 where
  pub filled : w.from_start + 8 * total ts ≡ w.alloc_ptr
  pub within : w.alloc_ptr ≤ w.from_end
  pub halves : w.from_end + w.to_start ≡ w.to_end + w.from_start
  pub disjoint : (w.from_end ≤ w.to_start) ⊎ (w.to_end ≤ w.from_start)
  pub nonzero : (0 < w.from_start) × (0 < w.to_start)
  pub small : (w.from_end < 2 ^ 62) × (w.to_end < 2 ^ 62)
  pub aligned : (w.from_start % 8 ≡ 0) × (w.to_start % 8 ≡ 0)
  pub tables : w.vt_block ≢ w.vt_closure
  pub tables_elsewhere : Elsewhere w.vt_block w × Elsewhere w.vt_closure w
  pub typed : (p s : ℕ) → IsObject p s w.from_start ts → IsTyped p s w
  pub rounds_up : (p s : ℕ) → IsObject p s w.from_start ts → 8 * s < 2 ^ 32
  pub fields :
      (p s k : ℕ)
      → IsObject p s w.from_start ts
      → k < s
      → is_live p k w ≡ true
      → (t : ℕ) × IsObject (w.mem (p + 8 * k)) t w.from_start ts
  pub roots :
      (v : ℕ) → holds v w.stack ≡ true → points v w ≡ true → (t : ℕ) × IsObject v t w.from_start ts

-- The objects that the program can get at: those that a root points to, and those that a field of
-- such an object points to.
pub data Reachable (w : Runtime) (ts : List ℕ) : ℕ → Type 0 where
  from_stack : (p : ℕ) → holds p w.stack ≡ true → points p w ≡ true → Reachable w ts p
  from_object :
      (p s k : ℕ)
      → Reachable w ts p
      → IsObject p s w.from_start ts
      → k < s
      → is_live p k w ≡ true
      → Reachable w ts (w.mem (p + 8 * k))

pub size_bounds :
    {w : Runtime} {ts : List ℕ}
    → IsHeap w ts
    → (p s : ℕ) → IsObject p s w.from_start ts
    → (2 ≤ s) × (8 * s < 2 ^ 32)
size_bounds {w} {ts} h p s o = (omega (arith, h.typed p s o), h.rounds_up p s o)

-- the words of the objects that have been copied
abbrev pub moved_words : Forwarding → ℕ → List ℕ → ℕ
moved_words f a [] = 0
moved_words f a (t ∷ ts) = size_moved (f a) t + moved_words f (a + 8 * t) ts

pub moved_words-le-total : (f : Forwarding) (a : ℕ) (ts : List ℕ) → moved_words f a ts ≤ total ts
moved_words-le-total f a [] = omega arith
moved_words-le-total f a (t ∷ ts) = ground (arith, moved_words-le-total f (a + 8 * t) ts)

pub moved_words-none : (a : ℕ) (ts : List ℕ) → moved_words (λ _. none) a ts ≡ 0
moved_words-none a [] = refl
moved_words-none a (t ∷ ts) = omega (arith, moved_words-none (a + 8 * t) ts)

moved_words-below :
    (f : Forwarding) (p q a : ℕ) (ts : List ℕ)
    → p < a
    → moved_words (forward f p q) a ts ≡ moved_words f a ts
moved_words-below f p q a [] h = refl
moved_words-below f p q a (t ∷ ts) h = ground (arith, moved_words-below f p q (a + 8 * t) ts)

-- One more object is copied; no size is 0.
pub moved_words-forward :
    (f : Forwarding) (p s q a : ℕ) (ts : List ℕ)
    → ((p' s' : ℕ) → IsObject p' s' a ts → 2 ≤ s')
    → IsObject p s a ts
    → f p ≡ none
    → moved_words (forward f p q) a ts ≡ moved_words f a ts + s
moved_words-forward f p s q a [] big h e = absurd h
moved_words-forward f p s q a (t ∷ ts) big (inl (hp, hs)) e =
    ground (arith, big a t (inl (refl, refl)), moved_words-below f p q (a + 8 * t) ts)
moved_words-forward f p s q a (t ∷ ts) big (inr h) e = ground (
  arith,
  big a t (inl (refl, refl)),
  object_bounds p s (a + 8 * t) ts h,
  moved_words-forward f p s q (a + 8 * t) ts (λ p' s' o. big p' s' (inr o)) h e,
)

-- No field and no root is a stale address, one that lies in the other space.
pub record IsClean (w : Runtime) (ts : List ℕ) : Type 0 where
  pub fields :
      (p s k : ℕ)
      → IsObject p s w.from_start ts
      → k < s
      → is_field p k w ≡ true
      → is_ptr (w.mem (p + 8 * k)) ≡ true
      → in_to (w.mem (p + 8 * k)) w ≡ false
  pub roots : (v : ℕ) → holds v w.stack ≡ true → is_ptr v ≡ true → in_to v w ≡ false

-- One more object at the end.
pub total-snoc : (t : ℕ) (ts : List ℕ) → total (ts ++ t ∷ []) ≡ total ts + t
total-snoc t [] = omega arith
total-snoc t (u ∷ ts) = omega (arith, total-snoc t ts)

pub IsObject-snoc :
    (p s a t : ℕ) (ts : List ℕ)
    → IsObject p s a (ts ++ t ∷ [])
    → IsObject p s a ts ⊎ ((p ≡ a + 8 * total ts) × (s ≡ t))
IsObject-snoc p s a t [] (inl h) = inr (omega arith, omega arith)
IsObject-snoc p s a t [] (inr h) = absurd h
IsObject-snoc p s a t (u ∷ ts) (inl h) = inl (inl h)
IsObject-snoc p s a t (u ∷ ts) (inr h) = elim (IsObject-snoc p s (a + 8 * u) t ts h) [
  | inl o ↦ inl (inr o)
  | inr e ↦ inr (omega arith, omega arith)
]

pub IsObject-append :
    (p s a t : ℕ) (ts : List ℕ) → IsObject p s a ts → IsObject p s a (ts ++ t ∷ [])
IsObject-append p s a t [] h = absurd h
IsObject-append p s a t (u ∷ ts) (inl h) = inl h
IsObject-append p s a t (u ∷ ts) (inr h) = inr (IsObject-append p s (a + 8 * u) t ts h)

pub IsObject-last : (a t : ℕ) (ts : List ℕ) → IsObject (a + 8 * total ts) t a (ts ++ t ∷ [])
IsObject-last a t [] = inl (omega arith, refl)
IsObject-last a t (u ∷ ts) =
    let e : a + 8 * u + 8 * total ts ≡ a + 8 * (u + total ts) = omega arith in
    inr (rw e at (IsObject-last (a + 8 * u) t ts))
