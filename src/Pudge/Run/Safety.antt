-- ===== src/Pudge/Run/Safety.antt =====
-- Runs of a program over PudgeWithMoML/lib/runtime/runtime.c: what their states have in common.
use pudge_with_mo_ml.Base.{
  ℕ, ◌+◌, ◌-◌, ◌%◌, ◌≤◌, ◌<◌, ◌≡◌, refl, sym, ◌∙◌, ◌⊎◌, inl, inr, List, [], arith, length, get_or,
  ok, exit, Outcome, Returns, of_result, Bool-cases, ◌==◌,
}
use pudge_with_mo_ml.Pudge.{Runtime, init_gc}
use pudge_with_mo_ml.Pudge.Heap.{IsObject, IsHeap}
use pudge_with_mo_ml.Pudge.Malloc.Grow.{IsPlain}
use pudge_with_mo_ml.Pudge.Collect.{collect, is_reference}
use pudge_with_mo_ml.Pudge.Collect.Graph.{collect-Collected}
use pudge_with_mo_ml.Pudge.Collect.Preserve.{Collected-IsHeap, Collected-IsClean}
use pudge_with_mo_ml.Pudge.Closure.{Call, alloc_closure_inner, apply_closure}
use pudge_with_mo_ml.Pudge.Closure.Alloc.{Ready-spaces, alloc_closure_inner-NewClosure}
use pudge_with_mo_ml.Pudge.Closure.Values.{IsValue}
use pudge_with_mo_ml.Pudge.Closure.Apply.{apply_closure-Partial}
use pudge_with_mo_ml.Pudge.Run.{
  InHeap, Leads-IsObject, IsWord, IsPartial, Step, changes_roots, collects, allocates, applies, Run,
  start, step, Sound,
}

module _ (w : Runtime) (ts : List ℕ) (heap : IsHeap w ts) where
  InHeap-IsObject : (p : ℕ) → InHeap p w → IsObject p (w.mem (p - 8)) w.new_space ts
  InHeap-IsObject p (l, lt) =
      Leads-IsObject w.mem p w.new_space ts heap.header heap.positive l (omega (arith, heap.filled))

  IsWord-IsValue : (v : ℕ) → IsWord v w → IsValue v w ts
  IsWord-IsValue v (inl h) = inl h
  IsWord-IsValue v (inr h) = inr (w.mem (v - 8), InHeap-IsObject v h)

roots-Sound :
    (w : Runtime) (ss gs : List ℕ) → Sound w → Sound (record w { stack = ss; globals = gs })
unfolding is_reference
roots-Sound w ss gs s = record {
  sizes = s.sizes;
  heap = record {
    filled = s.heap.filled;
    within = s.heap.within;
    small = s.heap.small;
    aligned = s.heap.aligned;
    aligned_old = s.heap.aligned_old;
    disjoint = s.heap.disjoint;
    header = s.heap.header;
    positive = s.heap.positive;
    references = s.heap.references;
  };
  clean = record { not_old = s.clean.not_old; not_free = s.clean.not_free };
  low = s.low;
}

pub init_gc-Sound :
    (base heap : ℕ) (w : Runtime) → heap % 8 ≡ 0 → 2048 ≤ heap → Sound (init_gc base heap w)
unfolding init_gc
init_gc-Sound base heap w al lo = record {
  sizes = [];
  heap = record {
    filled = refl;
    within = omega arith;
    small = omega arith;
    aligned = al;
    aligned_old = omega arith;
    disjoint = inl (omega arith);
    header = λ p s o. absurd o;
    positive = λ p s o. absurd o;
    references = λ p s k o lt h. absurd o;
  };
  clean = record { not_old = λ p s k o lt e. absurd o; not_free = λ p s k o lt e. absurd o };
  low = omega arith;
}

collect-Sound : (w : Runtime) → Sound w → Returns Sound (collect w)
unfolding collect
collect-Sound w s = elim (Bool-cases (w.alloc_offset == 0)) [
  | inl e ↦ (w, rw e, s)
  | inr e ↦
      let (w', ran, c) = collect-Collected w s.sizes s.heap (ground arith) in
      (
        w',
        ran,
        record {
          sizes = c.sizes;
          heap = Collected-IsHeap w s.sizes s.heap s.clean w' c;
          clean = Collected-IsClean w s.sizes s.heap s.clean w' c;
          low = omega (arith, s.low, c.swapped);
        },
      )
]

-- what a call returns that also returns an address
abbrev SoundAfter : ℕ × Runtime → Type 0
SoundAfter out = Sound out.1

alloc-Sound :
    (w : Runtime) (code arity : ℕ)
    → Sound w
    → arity < 256
    → IsPlain code w
    → (alloc_closure_inner code arity w ≡ exit 122)
      ⊎ Returns SoundAfter (alloc_closure_inner code arity w)
alloc-Sound w code arity s lt pl =
    elim (alloc_closure_inner-NewClosure w s.sizes s.heap s.clean code arity lt pl s.low) [
      | inl (e, x) ↦ inl e
      | inr (r, e, nc) ↦
          let z = Ready-spaces w s.sizes s.heap s.clean nc.before nc.before_sizes nc.ready in
          inr (
            r,
            e,
            record {
              sizes = nc.sizes;
              heap = nc.heap';
              clean = nc.clean';
              low = omega (arith, s.low, nc.grown.spaces, z.1);
            },
          )
    ]

apply-Sound :
    (call : Call) (w : Runtime) (c code arity got n pos : ℕ)
    → Sound w
    → IsPartial w c code arity got
    → got + n < arity
    → pos + n ≤ length w.stack
    → ((j : ℕ) → j < n → IsWord (get_or w.stack (pos + j) 0) w)
    → (apply_closure call c n pos w ≡ exit 122) ⊎ Returns SoundAfter (apply_closure call c n pos w)
apply-Sound call w c code arity got n pos s p fits there args =
    let o = InHeap-IsObject w s.sizes s.heap c p.in_heap in
    let o' : IsObject c (3 + arity) w.new_space s.sizes = rw p.size at o in
    elim (apply_closure-Partial w s.sizes s.heap s.clean c code arity got n pos call o' p.closure
      p.small p.plain s.low fits there
      (λ j lt. IsWord-IsValue w s.sizes s.heap (get_or w.stack (pos + j) 0) (args j lt))) [
        | inl (e, x) ↦ inl e
        | inr (out, e, (x, rest)) ↦ inr (
          out,
          e,
          record {
            sizes = x.sizes;
            heap = x.heap';
            clean = x.clean';
            low = omega (arith, s.low, x.spaces);
          },
        )
      ]

of_call :
    (o : Outcome (ℕ × Runtime)) (p : ℕ) (w' : Runtime)
    → (o ≡ exit 122) ⊎ Returns SoundAfter o
    → o ≡ ok (p, w')
    → Sound w'
of_call o p w' (inl e) h = absurd (let z : exit 122 ≡ ok (p, w') = sym e ∙ h in cc)
of_call o p w' (inr r) h = of_result SoundAfter o (p, w') r h

Step-Sound : (call : Call) (w w' : Runtime) → Sound w → Step call w w' → Sound w'
Step-Sound call w w' s (changes_roots ss gs) = roots-Sound w ss gs s
Step-Sound call w w' s (collects e) = of_result Sound (collect w) w' (collect-Sound w s) e
Step-Sound call w w' s (allocates code arity p lt pl e) =
    of_call (alloc_closure_inner code arity w) p w' (alloc-Sound w code arity s lt pl) e
Step-Sound call w w' s (applies c code arity got n pos p h fits there args e) =
    of_call (apply_closure call c n pos w) p w'
      (apply-Sound call w c code arity got n pos s h fits there args) e

Run-Sound : (call : Call) (w w' : Runtime) → Sound w → Run call w w' → Sound w'
Run-Sound call w w' s start = s
Run-Sound call w w' s (step {v} r t) = Step-Sound call v w' (Run-Sound call w v s r) t

-- From `init_GC` on an aligned block of memory at 2048 or above, whatever the program does with its
-- roots, with collections, new closures and partial applications, there is always a heap of objects
-- without stale addresses.
pub init_gc-Run :
    (call : Call) (base heap : ℕ) (w w' : Runtime)
    → heap % 8 ≡ 0
    → 2048 ≤ heap
    → Run call (init_gc base heap w) w'
    → Sound w'
init_gc-Run call base heap w w' al lo r =
    Run-Sound call (init_gc base heap w) w' (init_gc-Sound base heap w al lo) r
