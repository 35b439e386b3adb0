-- ===== src/Pudge/Run.antt =====
-- Runs of a program over PudgeWithMoML/lib/runtime/runtime.c: what the runtime is called for, in any
-- order, and what the program does to its roots in between.
pub mod Safety
use pudge_with_mo_ml.Base.{
  ℕ, ◌+◌, ◌-◌, ◌*◌, ◌%◌, ◌/◌, ◌^◌, ◌≤◌, ◌<◌, ◌≡◌, refl, sym, ◌∙◌, ap, ◌⊎◌, inl, inr, List, [], ◌∷◌,
  arith, length, get_or, ok, exit, Outcome, Returns,
}
use pudge_with_mo_ml.Memory.{Memory}
use pudge_with_mo_ml.Pudge.{Runtime, init_gc, space_size}
use pudge_with_mo_ml.Pudge.Heap.{total, IsObject, object_bounds, IsHeap, IsClean}
use pudge_with_mo_ml.Pudge.Malloc.Grow.{IsPlain}
use pudge_with_mo_ml.Pudge.Closure.{Call, alloc_closure_inner, apply_closure}
use pudge_with_mo_ml.Pudge.Closure.Alloc.{IsClosure}
use pudge_with_mo_ml.Pudge.Collect.{collect}

-- From address `a` on, the headers lead to an object whose first word is at `p`.
pub data Leads (m : Memory) (p : ℕ) : ℕ → Type 0 where
  here : {a : ℕ} → p ≡ a + 8 → Leads m p a
  next : {a : ℕ} → Leads m p (a + 8 + 8 * m a) → Leads m p a

-- an object of the heap, as the headers delimit the objects
abbrev pub InHeap : ℕ → Runtime → Type 0
InHeap p w = Leads w.mem p w.new_space × (p < w.new_space + 8 * w.alloc_offset)

pub Leads-IsObject :
    (m : Memory) (p a : ℕ) (ts : List ℕ)
    → ((q s : ℕ) → IsObject q s a ts → m (q - 8) ≡ s)
    → ((q s : ℕ) → IsObject q s a ts → 0 < s)
    → Leads m p a
    → p < a + 8 * total ts
    → IsObject p (m (p - 8)) a ts
Leads-IsObject m p a [] hd z l lt = absurd (lower m p a l (omega arith))
  where
    lower : (m : Memory) (p a : ℕ) → Leads m p a → p < a + 8 → ⊥
    lower m p a (here e) lt = omega arith
    lower m p a (next l) lt = lower m p (a + 8 + 8 * m a) l (omega arith)
Leads-IsObject m p a (t ∷ ts) hd z (here e) lt =
    let h = hd (a + 8) t (inl (refl, refl)) in inl (e, ap (λ x. m (x - 8)) e ∙ h)
Leads-IsObject m p a (t ∷ ts) hd z (next l) lt =
    let h = hd (a + 8) t (inl (refl, refl)) in
    let e : m a ≡ t = ap m (let e' : a ≡ a + 8 - 8 = omega arith in e') ∙ h in
    let l' : Leads m p (a + 8 + 8 * t) = rw e at l in
    inr (
      Leads-IsObject m p (a + 8 + 8 * t) ts (λ q s o. hd q s (inr o)) (λ q s o. z q s (inr o)) l'
        (omega arith))

-- a word that compiled code may pass on: plain, or a pointer to an object
abbrev pub IsWord : ℕ → Runtime → Type 0
IsWord v w = IsPlain v w ⊎ InHeap v w

-- A closure in the heap that has received `got` of its arguments.
pub record IsPartial (w : Runtime) (c code arity got : ℕ) : Type 0 where
  pub in_heap : InHeap c w
  pub size : w.mem (c - 8) ≡ 3 + arity
  pub closure : IsClosure w.mem c code arity got
  pub small : arity < 256
  pub plain : IsPlain code w

-- What happens to the state: the program changes its roots, it asks for a collection, it makes a
-- closure, or it applies one to fewer arguments than are missing.
pub data Step (call : Call) (w : Runtime) : Runtime → Type 0 where
  changes_roots : (ss gs : List ℕ) → Step call w (record w { stack = ss; globals = gs })
  collects : {w' : Runtime} → collect w ≡ ok w' → Step call w w'
  allocates :
      {w' : Runtime} (code arity p : ℕ)
      → arity < 256
      → IsPlain code w
      → alloc_closure_inner code arity w ≡ ok (p, w')
      → Step call w w'
  applies :
      {w' : Runtime} (c code arity got n pos p : ℕ)
      → IsPartial w c code arity got
      → got + n < arity
      → pos + n ≤ length w.stack
      → ((j : ℕ) → j < n → IsWord (get_or w.stack (pos + j) 0) w)
      → apply_closure call c n pos w ≡ ok (p, w')
      → Step call w w'

pub data Run (call : Call) (w : Runtime) : Runtime → Type 0 where
  start : Run call w w
  step : {v w' : Runtime} → Run call w v → Step call v w' → Run call w w'

-- A heap of objects of some sizes, without stale addresses; the spaces lie above small integers.
pub record Sound (w : Runtime) : Type 0 where
  pub sizes : List ℕ
  pub heap : IsHeap w sizes
  pub clean : IsClean w sizes
  pub low : (2048 ≤ w.new_space) × (2048 ≤ w.old_space)
