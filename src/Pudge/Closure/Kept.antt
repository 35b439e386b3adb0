-- ===== src/Pudge/Closure/Kept.antt =====
-- What a collection in PudgeWithMoML/lib/runtime/runtime.c does to closures.
use pudge_with_mo_ml.Base.{
  ℕ, ◌+◌, ◌*◌, ◌≤◌, ◌<◌, ◌≡◌, ◌∙◌, ap, inl, inr, List, arith, ◌==◌, Returns, Bool-cases,
}
use pudge_with_mo_ml.Forwarding.{Forwarding, forwarded, forwarded_all}
use pudge_with_mo_ml.Pudge.{Runtime}
use pudge_with_mo_ml.Pudge.Collect.{collect}
use pudge_with_mo_ml.Pudge.Collect.Graph.{collect-Collected}
use pudge_with_mo_ml.Pudge.Heap.{IsObject, IsHeap, IsClean, Reachable}
use pudge_with_mo_ml.Pudge.Malloc.Grow.{IsPlain}
use pudge_with_mo_ml.Pudge.Closure.Alloc.{IsClosure}
use pudge_with_mo_ml.Pudge.Closure.Moved.{Moved, stays, collected}

-- A collection, of an empty heap too, is one forwarding.
collect-Moved :
    (w : Runtime) (ts : List ℕ)
    → IsHeap w ts
    → IsClean w ts
    → Returns (λ w'. (us : List ℕ) × Moved w ts w' us) (collect w)
unfolding collect
collect-Moved w ts heap clean = elim (Bool-cases (w.alloc_offset == 0)) [
  | inl e ↦ (w, rw e, (ts, stays w ts))
  | inr e ↦
      let (w', ran, c) = collect-Collected w ts heap (ground arith) in
      (w', ran, (c.sizes, collected w ts heap clean w' c))
]

module _ (w : Runtime) (ts : List ℕ) where
  -- The closure `c` stands at `move c` in the heap of `w'`, whose objects have sizes `us`.
  pub record MovedClosure (w' : Runtime) (us : List ℕ) (move : ℕ → ℕ) (c code argc got : ℕ)
      : Type 0 where
    pub object : IsObject (move c) (3 + argc) w'.new_space us
    pub closure : IsClosure w'.mem (move c) code argc got
    pub args : (k : ℕ) → k < argc → w'.mem (move c + 24 + 8 * k) ≡ move (w.mem (c + 24 + 8 * k))

  pub record ClosuresKept (w' : Runtime) : Type 0 where
    pub sizes : List ℕ
    pub forwarding : Forwarding
    pub stack : w'.stack ≡ forwarded_all forwarding w.stack
    pub globals : w'.globals ≡ forwarded_all forwarding w.globals
    pub plain : (v : ℕ) → IsPlain v w → forwarded forwarding v ≡ v
    pub closures :
        (c code argc got : ℕ)
        → IsObject c (3 + argc) w.new_space ts
        → Reachable w ts c
        → IsClosure w.mem c code argc got
        → IsPlain code w
        → argc < 2048
        → got ≤ argc
        → MovedClosure w' sizes (forwarded forwarding) c code argc got

  module _ (low : (2048 ≤ w.new_space) × (2048 ≤ w.old_space)) (w' : Runtime) (us : List ℕ)
      (mv : Moved w ts w' us) where
    low_stays : (v : ℕ) → v < 2048 → forwarded mv.forwarding v ≡ v
    low_stays v lt = mv.plain v (inr (inl (omega arith), inl (omega arith)))

    module _ (c code argc got : ℕ) (o : IsObject c (3 + argc) w.new_space ts) (r : Reachable w ts c)
        (cl : IsClosure w.mem c code argc got) where
      abbrev c' : ℕ
      c' = forwarded mv.forwarding c

      word :
          (k : ℕ) → k < 3 + argc → w'.mem (c' + 8 * k) ≡ forwarded mv.forwarding (w.mem (c + 8 * k))
      word k lt = mv.words c (3 + argc) k o r lt

      arg :
          (k : ℕ)
          → k < argc
          → w'.mem (c' + 24 + 8 * k) ≡ forwarded mv.forwarding (w.mem (c + 24 + 8 * k))
      arg k lt =
          let e : c + 8 * (3 + k) ≡ c + 24 + 8 * k = omega arith in
          let e' : c' + 8 * (3 + k) ≡ c' + 24 + 8 * k = omega arith in
          rw (e, e') at (word (3 + k) (omega arith))

      moved_closure :
          IsPlain code w
          → argc < 2048
          → got ≤ argc
          → MovedClosure w' us (forwarded mv.forwarding) c code argc got
      moved_closure plain small le = record {
        object = mv.objects c (3 + argc) o r;
        closure = record {
          code_at =
              ap w'.mem (let e : c' ≡ c' + 8 * 0 = omega arith in e)
              ∙ word 0 (omega arith)
              ∙ ap (forwarded mv.forwarding)
                  (ap w.mem (let e : c + 8 * 0 ≡ c = omega arith in e) ∙ cl.code_at)
              ∙ mv.plain code plain;
          argc_at =
              word 1 (omega arith) ∙ ap (forwarded mv.forwarding) cl.argc_at ∙ low_stays argc small;
          recived_at =
              word 2 (omega arith)
              ∙ ap (forwarded mv.forwarding) cl.recived_at
              ∙ low_stays got (omega arith);
          zeros = λ k ge lt.
              arg k lt
              ∙ ap (forwarded mv.forwarding) (cl.zeros k ge lt)
              ∙ low_stays 0 (omega arith);
        };
        args = arg;
      }

-- A collection ends, and moves the words of the stack, the global variables and the closures by one
-- forwarding, which leaves plain words alone. A closure that the program can reach stands at its
-- forwarded address afterwards: with the same code, arity, count of received arguments and empty
-- slots, and with its arguments forwarded. The closure's code is a plain word, its arity is below
-- 2048, it has received no more arguments than its arity, and the two spaces lie from address 2048 on.
pub collect-ClosuresKept :
    (w : Runtime) (ts : List ℕ)
    → IsHeap w ts
    → IsClean w ts
    → (2048 ≤ w.new_space) × (2048 ≤ w.old_space)
    → Returns (ClosuresKept w ts) (collect w)
collect-ClosuresKept w ts heap clean low =
    let (w', ran, (us, mv)) = collect-Moved w ts heap clean in
    (
      w',
      ran,
      record {
        sizes = us;
        forwarding = mv.forwarding;
        stack = mv.stack;
        globals = mv.globals;
        plain = mv.plain;
        closures = λ c code argc got o r cl plain small le.
            moved_closure w ts low w' us mv c code argc got o r cl plain small le;
      },
    )
