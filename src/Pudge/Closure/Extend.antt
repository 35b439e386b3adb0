-- ===== src/Pudge/Closure/Extend.antt =====
-- `_apply_closure` on too few arguments: a partial application, whose allocation may move every
-- object in use.
use pudge_with_mo_ml.Pudge.Closure.Alloc.{
  Ready-spaces, Ready-IsPlain, IsClosure, NewClosure, alloc_closure_inner-NewClosure,
}
use pudge_with_mo_ml.Base.{
  ℕ, zero, suc, ◌+◌, ◌-◌, ◌*◌, ◌%◌, ◌/◌, ◌≤◌, ◌<◌, ◌≡◌, ◌∙◌, ap, ◌⊎◌, inl, inr, List, [], ◌∷◌, ◌++◌,
  arith, length, get_or, take, drop, Returns, lt_or_le, Outcome, ok, exit,
}
use pudge_with_mo_ml.Memory.{Memory, store}
use pudge_with_mo_ml.Memory.Copy.{Outside}
use pudge_with_mo_ml.Base.Words.{add_word}
use pudge_with_mo_ml.Forwarding.{Forwarding, forwarded, forwarded_all, holds-get_or, holds-snoc}
use pudge_with_mo_ml.Pudge.{Runtime}
use pudge_with_mo_ml.Pudge.Heap.{IsObject, object_bounds, IsHeap, IsClean, Reachable, from_stack}
use pudge_with_mo_ml.Pudge.Malloc.{round_up}
use pudge_with_mo_ml.Pudge.Malloc.Grow.{IsPlain}
use pudge_with_mo_ml.Pudge.Malloc.Room.{Exhausted}
use pudge_with_mo_ml.Pudge.Closure.{
  push, pop_to, merge_closure_args, extend_closure, alloc_closure_inner,
}
use pudge_with_mo_ml.Pudge.Closure.Locals.{
  local_forwarded, take-local, length-local_slice, get_or-local_slice,
}
use pudge_with_mo_ml.Pudge.Closure.Values.{
  grown-IsPlain, grown-IsObject, grown-IsValue, IsValue, word-IsValue, refilled-IsHeap,
  refilled-IsClean,
}
use pudge_with_mo_ml.Pudge.Closure.Moved.{stack-IsHeap, stack-IsClean, Moved, Ready-Moved}
use pudge_with_mo_ml.Pudge.Closure.Merge.{
  filled, filled-Outside, filled_recived, filled_old, filled_new, filled-eq, filled-IsClosure,
}
use mathlib.Core.Path.{ap₂}

module _ (w : Runtime) (ts : List ℕ) (heap : IsHeap w ts) (clean : IsClean w ts) (c : ℕ) where
  -- `old_clos` is a local variable, so the collector sees it
  abbrev pub pushed : Runtime
  pushed = push (c ∷ []) w

  abbrev heap₁ : IsHeap pushed ts
  heap₁ = stack-IsHeap w ts (w.stack ++ c ∷ []) heap

  abbrev clean₁ : IsClean pushed ts
  clean₁ = stack-IsClean w ts (w.stack ++ c ∷ []) clean

  -- the collection that the allocation may make
  abbrev pub TooFull : ℕ → Type 0
  TooFull arity = Exhausted pushed ts heap₁ clean₁ (round_up (24 + 8 * arity) / 8)

  -- A partial application returns a closure with the code and the arity of the old one, the arguments
  -- of the old one and then the new ones. Objects may have moved: a forwarding says where to, for the
  -- stack, the global variables, the words of objects, and the arguments.
  pub record Extended (code arity got n pos : ℕ) (out : ℕ × Runtime) : Type 0 where
    pub forwarding : Forwarding
    pub sizes : List ℕ
    pub heap' : IsHeap out.1 sizes
    pub clean' : IsClean out.1 sizes
    pub spaces :
        ((out.1.new_space ≡ w.new_space) × (out.1.old_space ≡ w.old_space))
        ⊎ ((out.1.new_space ≡ w.old_space) × (out.1.old_space ≡ w.new_space))
    pub object : IsObject out.0 (3 + arity) out.1.new_space sizes
    pub closure : IsClosure out.1.mem out.0 code arity (got + n)
    pub old_args :
        (k : ℕ)
        → k < got
        → out.1.mem (out.0 + 24 + 8 * k) ≡ forwarded forwarding (w.mem (c + 24 + 8 * k))
    pub new_args :
        (j : ℕ)
        → j < n
        → out.1.mem (out.0 + 24 + 8 * (got + j)) ≡ forwarded forwarding (get_or w.stack (pos + j) 0)
    pub stack : out.1.stack ≡ forwarded_all forwarding w.stack
    pub globals : out.1.globals ≡ forwarded_all forwarding w.globals
    pub objects :
        (p s k : ℕ)
        → IsObject p s w.new_space ts
        → Reachable pushed ts p
        → k < s
        → out.1.mem (forwarded forwarding p + 8 * k) ≡ forwarded forwarding (w.mem (p + 8 * k))

  module _ (code arity got n pos : ℕ) (o : IsObject c (3 + arity) w.new_space ts)
      (cl : IsClosure w.mem c code arity got) (small : arity < 256) (plain : IsPlain code w)
      (low : (2048 ≤ w.new_space) × (2048 ≤ w.old_space)) (fits : got + n < arity)
      (there : pos + n ≤ length w.stack)
      (args : (j : ℕ) → j < n → IsValue (get_or w.stack (pos + j) 0) w ts) where
    module _ (r : ℕ × Runtime) (nc : NewClosure pushed ts heap₁ clean₁ code arity r) where
      abbrev moved : Moved pushed ts nc.before nc.before_sizes
      moved = Ready-Moved pushed ts heap₁ clean₁ nc.before nc.before_sizes nc.ready

      abbrev f : Forwarding
      f = moved.forwarding

      abbrev clos : ℕ
      clos = forwarded f c

      abbrev xs : List ℕ
      xs = take n (drop pos r.1.stack)

      stack-eq : r.1.stack ≡ forwarded_all f (w.stack ++ c ∷ [])
      stack-eq = nc.roots.0 ∙ moved.stack

      length-xs : length xs ≡ n
      length-xs = length-local_slice f w.stack r.1.stack c stack-eq pos n there

      arg-eq : (j : ℕ) → j < n → get_or xs j 0 ≡ forwarded f (get_or w.stack (pos + j) 0)
      arg-eq = get_or-local_slice f w.stack r.1.stack c stack-eq pos n there

      c-Reachable : Reachable pushed ts c
      c-Reachable = from_stack c (holds-snoc w.stack c)

      clos_object : IsObject clos (3 + arity) nc.before.new_space nc.before_sizes
      clos_object = moved.objects c (3 + arity) o c-Reachable

      -- the words of the objects before the new one
      kept_word :
          (p s k : ℕ)
          → IsObject p s w.new_space ts
          → Reachable pushed ts p
          → k < s
          → (forwarded f p + 8 * k + 8 < r.0)
            × (r.1.mem (forwarded f p + 8 * k) ≡ forwarded f (w.mem (p + 8 * k)))
      kept_word p s k x rc lt =
          let b =
            object_bounds (forwarded f p) s nc.before.new_space nc.before_sizes
              (moved.objects p s x rc) in
          let z = nc.before_heap.filled in
          (
            omega (arith, nc.pointer),
            nc.unchanged (forwarded f p + 8 * k) (omega arith) (omega arith)
                ∙ moved.words p s k x rc lt,
          )

      got-eq : r.1.mem (clos + 16) ≡ got
      got-eq =
          (kept_word c (3 + arity) 2 o c-Reachable (omega arith)).1
          ∙ ap (forwarded f) cl.recived_at
          ∙ moved.plain got (inr (inl (omega arith), inl (omega arith)))

      below : clos + 8 * (3 + arity) + 8 ≤ r.0
      below =
          let b = object_bounds clos (3 + arity) nc.before.new_space nc.before_sizes clos_object in
          let z = nc.before_heap.filled in omega (arith, nc.pointer)

      abbrev mem' : Memory
      mem' = filled r.1.mem r.0 clos got n arity xs got-eq length-xs (omega arith) small below

      abbrev grown_object :
          (p s : ℕ)
          → IsObject p s nc.before.new_space nc.before_sizes
          → IsObject p s r.1.new_space nc.sizes
      grown_object =
          grown-IsObject nc.before nc.before_sizes (3 + arity) r.1 nc.grown nc.sizes nc.sizes_eq

      count-IsValue : IsValue (got + n) r.1 nc.sizes
      count-IsValue = inl (
          grown-IsPlain nc.before nc.before_sizes (3 + arity) r.1 nc.grown nc.sizes nc.sizes_eq
            (got + n)
            (Ready-IsPlain pushed ts heap₁ clean₁ nc.before nc.before_sizes (got + n) nc.ready
              (inr (inl (omega arith), inl (omega arith)))))

      new-IsValue : (k : ℕ) → k < 3 + arity → IsValue (r.1.mem (r.0 + 8 * k)) r.1 nc.sizes
      new-IsValue k lt = word-IsValue r.1 nc.sizes nc.heap' nc.clean' r.0 (3 + arity) k nc.object lt

      -- an argument that points to an object is on the stack, so the object stays
      arg-IsValue : (j : ℕ) → j < n → IsValue (get_or xs j 0) r.1 nc.sizes
      arg-IsValue j lt =
          let v : ℕ = get_or w.stack (pos + j) 0 in
          let e = arg-eq j lt in
          rw e (
            grown-IsValue nc.before nc.before_sizes (3 + arity) r.1 nc.grown nc.sizes nc.sizes_eq
              (forwarded f v)
              (moved.values v (args j lt)
                (λ t x. from_stack v (holds-get_or w.stack (c ∷ []) (pos + j) (omega arith)))))

      same_outside : (b : ℕ) → (b < r.0 + 16) ⊎ (r.0 + 24 + 8 * (got + n) ≤ b) → mem' b ≡ r.1.mem b
      same_outside =
          filled-Outside r.1.mem r.0 clos got n arity xs got-eq length-xs (omega arith) small below

      arg_word-IsValue : (k : ℕ) → k < arity → IsValue (mem' (r.0 + 24 + 8 * k)) r.1 nc.sizes
      arg_word-IsValue k lt = elim (lt_or_le k got) [
        | inl a ↦
            let e : mem' (r.0 + 24 + 8 * k) ≡ r.1.mem (clos + 24 + 8 * k) =
              filled_old r.1.mem r.0 clos got n arity xs got-eq length-xs (omega arith) small below
                k a in
            let e' : clos + 8 * (3 + k) ≡ clos + 24 + 8 * k = omega arith in
            rw e (
              rw e' at (
                word-IsValue r.1 nc.sizes nc.heap' nc.clean' clos (3 + arity) (3 + k)
                  (grown_object clos (3 + arity) clos_object) (omega arith)))
        | inr a ↦ elim (lt_or_le k (got + n)) [
          | inl a' ↦
              let e : mem' (r.0 + 24 + 8 * (got + (k - got))) ≡ get_or xs (k - got) 0 =
                filled_new r.1.mem r.0 clos got n arity xs got-eq length-xs (omega arith) small
                  below (k - got) (omega arith) in
              let e' : got + (k - got) ≡ k = omega arith in
              let e'' : mem' (r.0 + 24 + 8 * k) ≡ get_or xs (k - got) 0 = rw e' at e in
              rw e'' (arg-IsValue (k - got) (omega arith))
          | inr a' ↦
              let e = same_outside (r.0 + 24 + 8 * k) (inr (omega arith)) in
              let e' : r.0 + 8 * (3 + k) ≡ r.0 + 24 + 8 * k = omega arith in
              rw e (rw e' at (new-IsValue (3 + k) (omega arith)))
        ]
      ]

      word-IsValue' : (k : ℕ) → k < 3 + arity → IsValue (mem' (r.0 + 8 * k)) r.1 nc.sizes
      word-IsValue' zero lt = rw (same_outside (r.0 + 8 * 0) (inl (omega arith))) (new-IsValue 0 lt)
      word-IsValue' (suc zero) lt =
          rw (same_outside (r.0 + 8 * 1) (inl (omega arith))) (new-IsValue 1 lt)
      word-IsValue' (suc (suc zero)) lt =
          let e : mem' (r.0 + 8 * 2) ≡ got + n =
            filled_recived r.1.mem r.0 clos got n arity xs got-eq length-xs (omega arith) small
              below in
          rw e count-IsValue
      word-IsValue' (suc (suc (suc k))) lt =
          let e : r.0 + 24 + 8 * k ≡ r.0 + 8 * suc (suc (suc k)) = omega arith in
          rw e at (arg_word-IsValue k (omega arith))

      same_object :
          (b : ℕ)
          → r.1.new_space ≤ b
          → b < r.1.new_space + 8 * r.1.alloc_offset
          → Outside b r.0 (3 + arity)
          → mem' b ≡ r.1.mem b
      same_object b lo hi h = same_outside b (omega arith)

      abbrev stack' : List ℕ
      stack' = take (length w.stack) r.1.stack

      abbrev after : Runtime
      after = record r.1 { mem = mem'; stack = stack' }

      abbrev refilled' : Runtime
      refilled' = record r.1 { mem = mem' }

      extended : Extended code arity got n pos (r.0, after)
      extended = record {
        forwarding = f;
        sizes = nc.sizes;
        heap' = stack-IsHeap refilled' nc.sizes stack' (
            refilled-IsHeap r.1 nc.sizes nc.heap' nc.clean' r.0 (3 + arity) nc.object mem'
              same_object word-IsValue');
        clean' = stack-IsClean refilled' nc.sizes stack' (
            refilled-IsClean r.1 nc.sizes nc.heap' nc.clean' r.0 (3 + arity) nc.object mem'
              same_object word-IsValue');
        spaces = omega (
          arith,
          nc.grown.spaces,
          (Ready-spaces pushed ts heap₁ clean₁ nc.before nc.before_sizes nc.ready).1,
        );
        object = nc.object;
        closure =
            filled-IsClosure r.1.mem r.0 clos got n arity xs got-eq length-xs (omega arith) small
              below code nc.closure;
        old_args = λ k lt.
            let e : clos + 8 * (3 + k) ≡ clos + 24 + 8 * k = omega arith in
            let e' : c + 8 * (3 + k) ≡ c + 24 + 8 * k = omega arith in
            filled_old r.1.mem r.0 clos got n arity xs got-eq length-xs (omega arith) small below k
              lt
            ∙ (rw (e, e') at (kept_word c (3 + arity) (3 + k) o c-Reachable (omega arith)).1);
        new_args = λ j lt.
            filled_new r.1.mem r.0 clos got n arity xs got-eq length-xs (omega arith) small below j
              lt
            ∙ arg-eq j lt;
        stack = take-local f w.stack r.1.stack c stack-eq;
        globals = nc.roots.1 ∙ moved.globals;
        objects = λ p s k x rc lt.
            let h = kept_word p s k x rc lt in
            same_outside (forwarded f p + 8 * k) (inl (omega (arith, h.0))) ∙ h.1;
      }

    -- `_apply_closure` on fewer arguments than are missing returns a partial application, or exits
    -- with 122 because a collection frees too little.
    pub extend_closure-Extended :
        ((extend_closure c n pos w ≡ exit 122) × TooFull arity)
        ⊎ Returns (Extended code arity got n pos) (extend_closure c n pos w)
    unfolding extend_closure
    extend_closure-Extended =
        elim (alloc_closure_inner-NewClosure pushed ts heap₁ clean₁ code arity small plain low) [
          | inl (e, x) ↦ inl (rw (call-eq, e), x)
          | inr (r, e, nc) ↦ inr ((r.0, after r nc), rw (call-eq, e) (finish r nc), extended r nc)
        ]
      where
        call-eq :
            alloc_closure_inner (w.mem c) (w.mem (c + 8) % 256) pushed
            ≡ alloc_closure_inner code arity pushed
        call-eq =
            let e : w.mem (c + 8) % 256 ≡ arity = omega (arith, cl.argc_at) in
            ap₂ (λ a b. alloc_closure_inner a b pushed) cl.code_at e

        returned : ℕ → Memory → Runtime → Outcome (ℕ × Runtime)
        returned d m b = ok (d, pop_to (length w.stack) (record b { mem = m }))

        stores : ℕ × Runtime → ℕ → Memory
        stores r k =
            let m = merge_closure_args (r.0 + 24) k (take n (drop pos r.1.stack)) r.1.mem in
            store m (r.0 + 16) (add_word (m (k + 16)) n)

        finish :
            (r : ℕ × Runtime) (nc : NewClosure pushed ts heap₁ clean₁ code arity r)
            → returned r.0 (stores r (get_or r.1.stack (length w.stack) 0)) r.1
              ≡ ok (r.0, after r nc)
        finish r nc =
            ap (λ k. returned r.0 (stores r k) r.1)
              (local_forwarded (f r nc) w.stack r.1.stack c (stack-eq r nc))
            ∙ ap (λ m. returned r.0 m r.1)
                (filled-eq r.1.mem r.0 (clos r nc) got n arity (xs r nc) (got-eq r nc)
                  (length-xs r nc) (omega arith) small (below r nc))
