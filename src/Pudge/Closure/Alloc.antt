-- ===== src/Pudge/Closure/Alloc.antt =====
-- `_alloc_closure` of PudgeWithMoML/lib/runtime/runtime.c.
use pudge_with_mo_ml.Base.{
  ℕ, zero, suc, ◌+◌, ◌-◌, ◌*◌, ◌/◌, ◌≤◌, ◌<◌, ◌≡◌, refl, ◌⊎◌, inl, inr, ◌∙◌, ap, List, [], ◌∷◌,
  ◌++◌, arith, Returns, ok, exit, Outcome,
}
use pudge_with_mo_ml.Base.Words.{add_word}
use pudge_with_mo_ml.Memory.{Memory, store}
use pudge_with_mo_ml.Memory.Copy.{zero_words-Outside, zero_words_self, store_self, store_ne}
use pudge_with_mo_ml.Pudge.{Runtime}
use pudge_with_mo_ml.Pudge.Heap.{total, IsObject, IsHeap, IsClean, IsObject-last}
use pudge_with_mo_ml.Pudge.Malloc.{round_up}
use mathlib.Core.Path.{ap₂}
use pudge_with_mo_ml.Pudge.Malloc.Grow.{IsPlain, next_object, Grown, Grown-IsHeap, Grown-IsClean}
use pudge_with_mo_ml.Pudge.Malloc.Room.{Ready, Exhausted, Allocated, my_malloc-Allocated}
use pudge_with_mo_ml.Pudge.Closure.{init_closure, alloc_closure_inner}

-- A closure at `c` of `argc` arguments, of which it has received `got`.
pub record IsClosure (m : Memory) (c code argc got : ℕ) : Type 0 where
  pub code_at : m c ≡ code
  pub argc_at : m (c + 8) ≡ argc
  pub recived_at : m (c + 16) ≡ got
  pub zeros : (k : ℕ) → got ≤ k → k < argc → m (c + 24 + 8 * k) ≡ 0

pub init_closure-Outside :
    (c code argc b : ℕ) (m : Memory)
    → (b < c) ⊎ (c + 8 * (3 + argc) ≤ b)
    → init_closure c code argc m b ≡ m b
unfolding init_closure
init_closure-Outside c code argc b m h = ground (
  arith,
  zero_words-Outside (store (store (store m c code) (c + 8) argc) (c + 16) 0) (c + 24) argc b,
)

pub init_closure-IsClosure :
    (c code argc : ℕ) (m : Memory) → IsClosure (init_closure c code argc m) c code argc 0
unfolding init_closure
init_closure-IsClosure c code argc m = record {
  code_at = ground (
    arith,
    zero_words-Outside (store (store (store m c code) (c + 8) argc) (c + 16) 0) (c + 24) argc c,
  );
  argc_at = ground (
    arith,
    zero_words-Outside (store (store (store m c code) (c + 8) argc) (c + 16) 0) (c + 24) argc
        (c + 8),
  );
  recived_at = ground (
    arith,
    zero_words-Outside (store (store (store m c code) (c + 8) argc) (c + 16) 0) (c + 24) argc
        (c + 16),
  );
  zeros = λ k ge lt.
      zero_words_self (store (store (store m c code) (c + 8) argc) (c + 16) 0) (c + 24) argc k lt;
}

module _ (w : Runtime) (ts : List ℕ) (heap : IsHeap w ts) (clean : IsClean w ts) where
  -- the spaces may have changed places
  pub Ready-spaces :
      (b : Runtime) (us : List ℕ)
      → Ready w ts b us
      → (b.space_capacity ≡ w.space_capacity)
        × (((b.new_space ≡ w.new_space) × (b.old_space ≡ w.old_space))
            ⊎ ((b.new_space ≡ w.old_space) × (b.old_space ≡ w.new_space)))
  Ready-spaces b us (inl (e, z)) = (
    ap (λ (r : Runtime). r.space_capacity) e,
    inl (ap (λ (r : Runtime). r.new_space) e, ap (λ (r : Runtime). r.old_space) e),
  )
  Ready-spaces b us (inr (c, z)) = (c.capacity, inr c.swapped)

  pub Ready-IsPlain :
      (b : Runtime) (us : List ℕ) (v : ℕ) → Ready w ts b us → IsPlain v w → IsPlain v b
  Ready-IsPlain b us v r pl = let s = Ready-spaces b us r in omega (arith, s.0, s.1)

  -- What `_alloc_closure` returns: a closure with no arguments, in a heap that is otherwise
  -- `before`.
  pub record NewClosure (code argc : ℕ) (out : ℕ × Runtime) : Type 0 where
    pub before : Runtime
    pub before_sizes : List ℕ
    pub ready : Ready w ts before before_sizes
    pub before_heap : IsHeap before before_sizes
    pub before_clean : IsClean before before_sizes
    pub grown : Grown before (3 + argc) out.1
    pub pointer : out.0 ≡ next_object before
    pub sizes : List ℕ
    pub sizes_eq : sizes ≡ before_sizes ++ (3 + argc) ∷ []
    pub heap' : IsHeap out.1 sizes
    pub clean' : IsClean out.1 sizes
    pub object : IsObject out.0 (3 + argc) out.1.new_space sizes
    pub closure : IsClosure out.1.mem out.0 code argc 0
    pub unchanged :
        (b : ℕ)
        → before.new_space ≤ b
        → b < before.new_space + 8 * before.alloc_offset
        → out.1.mem b ≡ before.mem b
    pub roots : (out.1.stack ≡ before.stack) × (out.1.globals ≡ before.globals)

  module _ (code argc : ℕ) (small : argc < 256) (plain : IsPlain code w)
      (low : (2048 ≤ w.new_space) × (2048 ≤ w.old_space)) where
    module _ (out : ℕ × Runtime) (a : Allocated w ts heap clean (24 + 8 * argc) out) where
      abbrev b : Runtime
      b = a.before

      abbrev c : ℕ
      c = next_object b

      words_eq : a.words ≡ 3 + argc
      words_eq = omega (arith, a.enough)

      abbrev mem' : Memory
      mem' = init_closure c code argc (store b.mem (b.new_space + 8 * b.alloc_offset) (3 + argc))

      abbrev after : Runtime
      after = record b {
        obj_count = add_word b.obj_count 1;
        mem = mem';
        alloc_offset = b.alloc_offset + 1 + (3 + argc);
        alloc_count = add_word b.alloc_count 1;
        alloc_bytes_count = add_word b.alloc_bytes_count (8 * (3 + argc) + 8);
      }

      after-eq : record out.1 { mem = init_closure out.0 code argc out.1.mem } ≡ after
      after-eq = rw (a.pointer, a.state, words_eq)

      here-IsClosure : IsClosure mem' c code argc 0
      here-IsClosure =
          init_closure-IsClosure c code argc
            (store b.mem (b.new_space + 8 * b.alloc_offset) (3 + argc))

      low-IsPlain : (v : ℕ) → v < 2048 → IsPlain v b
      low-IsPlain v lt =
          Ready-IsPlain b a.made.sizes v a.made.ready (inr (inl (omega arith), inl (omega arith)))

      words-IsPlain : (k : ℕ) → k < 3 + argc → IsPlain (mem' (c + 8 * k)) b
      words-IsPlain zero lt =
          let e : mem' (c + 8 * 0) ≡ code = ap mem' (omega arith) ∙ here-IsClosure.code_at in
          rw e (Ready-IsPlain b a.made.sizes code a.made.ready plain)
      words-IsPlain (suc zero) lt =
          let e : mem' (c + 8 * 1) ≡ argc = here-IsClosure.argc_at in
          rw e (low-IsPlain argc (omega arith))
      words-IsPlain (suc (suc zero)) lt =
          let e : mem' (c + 8 * 2) ≡ 0 = here-IsClosure.recived_at in
          rw e (low-IsPlain 0 (omega arith))
      words-IsPlain (suc (suc (suc k))) lt =
          let e : mem' (c + 8 * suc (suc (suc k))) ≡ 0 =
            ap mem' (let e₀ : c + 8 * suc (suc (suc k)) ≡ c + 24 + 8 * k = omega arith in e₀)
            ∙ here-IsClosure.zeros k (omega arith) (omega arith) in
          rw e (low-IsPlain 0 (omega arith))

      same_below :
          (x : ℕ) → b.new_space ≤ x → x < b.new_space + 8 * b.alloc_offset → mem' x ≡ b.mem x
      same_below x lo hi =
          init_closure-Outside c code argc x
            (store b.mem (b.new_space + 8 * b.alloc_offset) (3 + argc)) (inl (omega arith))
          ∙ store_ne b.mem (b.new_space + 8 * b.alloc_offset) (3 + argc) x (omega arith)

      grown : Grown b (3 + argc) after
      grown = record {
        room = omega (arith, a.made.room, words_eq);
        positive = omega arith;
        spaces = (refl, refl);
        capacity = refl;
        used = omega arith;
        header =
            init_closure-Outside c code argc (c - 8)
              (store b.mem (b.new_space + 8 * b.alloc_offset) (3 + argc)) (inl (omega arith))
            ∙ ap (store b.mem (b.new_space + 8 * b.alloc_offset) (3 + argc)) (omega arith)
            ∙ store_self b.mem (b.new_space + 8 * b.alloc_offset) (3 + argc);
        same = same_below;
        plain = words-IsPlain;
      }

      new_closure : NewClosure code argc (c, after)
      new_closure = record {
        before = b;
        before_sizes = a.made.sizes;
        ready = a.made.ready;
        before_heap = a.made.heap';
        before_clean = a.made.clean';
        grown = grown;
        pointer = refl;
        sizes_eq = refl;
        sizes = a.made.sizes ++ (3 + argc) ∷ [];
        heap' = Grown-IsHeap b a.made.sizes a.made.heap' a.made.clean' (3 + argc) after grown;
        clean' = Grown-IsClean b a.made.sizes a.made.heap' a.made.clean' (3 + argc) after grown;
        object =
            let e : b.new_space + 8 * total a.made.sizes + 8 ≡ c =
              omega (arith, a.made.heap'.filled) in
            rw e at (IsObject-last b.new_space (3 + argc) a.made.sizes);
        closure = here-IsClosure;
        unchanged = same_below;
        roots = (refl, refl);
      }

    -- `_alloc_closure` returns a closure with no arguments in a heap that is otherwise as it was,
    -- or as one collection leaves it, or exits with 122 because a collection frees too little.
    pub alloc_closure_inner-NewClosure :
        ((alloc_closure_inner code argc w ≡ exit 122)
          × Exhausted w ts heap clean (round_up (24 + 8 * argc) / 8))
        ⊎ Returns (NewClosure code argc) (alloc_closure_inner code argc w)
    unfolding alloc_closure_inner
    alloc_closure_inner-NewClosure =
        elim (my_malloc-Allocated w ts heap clean (24 + 8 * argc) (omega arith) (omega arith)) [
          | inl (e, x) ↦ inl (rw e, x)
          | inr (out, e, a) ↦
              inr ((next_object a.before, after out a), rw e (pair out a), new_closure out a)
        ]
      where
        returned : ℕ → Runtime → Outcome (ℕ × Runtime)
        returned c r = ok (c, r)

        pair :
            (out : ℕ × Runtime) (a : Allocated w ts heap clean (24 + 8 * argc) out)
            → returned out.0 (record out.1 { mem = init_closure out.0 code argc out.1.mem })
              ≡ returned (next_object a.before) (after out a)
        pair out a = ap₂ returned a.pointer (after-eq out a)
