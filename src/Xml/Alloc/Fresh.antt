-- ===== src/Xml/Alloc/Fresh.antt =====
-- `alloc_closure` of XML/bin/runtime.c.
use pudge_with_mo_ml.Base.{
  ℕ, ◌+◌, ◌*◌, ◌%◌, ◌^◌, ◌≤◌, ◌<◌, ◌≡◌, ◌∙◌, ap, refl, ◌⊎◌, inl, inr, List, [], ◌∷◌, ◌++◌, arith,
  leb-false, abort, Returns,
}
use pudge_with_mo_ml.Base.Words.{add_word}
use pudge_with_mo_ml.Memory.{Memory, store, zero_words}
use pudge_with_mo_ml.Memory.Copy.{zero_words-Outside, zero_words_self}
use pudge_with_mo_ml.Xml.{Runtime}
use pudge_with_mo_ml.Xml.Heap.{IsObject, IsHeap, IsClean, IsObject-last}
use pudge_with_mo_ml.Xml.Collect.{clos_bytes}
use pudge_with_mo_ml.Xml.Alloc.{bump, init_closure, alloc_closure}
use pudge_with_mo_ml.Xml.Alloc.Room.{Ready, Made, Exhausted, gc_alloc_bytes-Made}
use pudge_with_mo_ml.Xml.Alloc.Grow.{Grown, Grown-IsHeap, Grown-IsClean}

-- What `alloc_closure` returns: a closure with no arguments, in a heap that is otherwise `before`.
pub record NewClosure (w : Runtime) (ts : List ℕ) (code arity : ℕ) (out : ℕ × Runtime)
    : Type 0 where
  pub before : Runtime
  pub ready : Ready w ts before
  pub sizes : List ℕ
  pub heap' : IsHeap out.1 sizes
  pub clean' : IsClean out.1 sizes
  pub object : IsObject out.0 (4 + arity) out.1.from_start sizes
  pub type_at : out.1.mem out.0 ≡ out.1.vt_closure
  pub arity_at : out.1.mem (out.0 + 8) ≡ arity
  pub received_at : out.1.mem (out.0 + 16) ≡ 0
  pub code_at : out.1.mem (out.0 + 24) ≡ code
  pub zeros : (k : ℕ) → k < arity → out.1.mem (out.0 + 32 + 8 * k) ≡ 0
  pub unchanged :
      (b : ℕ) → before.from_start ≤ b → b < before.alloc_ptr → out.1.mem b ≡ before.mem b
  pub stack : out.1.stack ≡ before.stack

module _ (code arity : ℕ) (small : arity + 4 < 2 ^ 29) (w : Runtime) (ts : List ℕ)
    (heap : IsHeap w ts) (clean : IsClean w ts) where
  module _ (b : Runtime) (made : Made w ts heap clean (32 + 8 * arity) b) where
    abbrev c : ℕ
    c = b.alloc_ptr

    abbrev fields : Memory
    fields =
        store (store (store (store b.mem c b.vt_closure) (c + 8) arity) (c + 16) 0) (c + 24) code

    abbrev mem' : Memory
    mem' = zero_words fields (c + 32) arity

    abbrev after : Runtime
    after = record b {
      mem = mem';
      alloc_ptr = c + (32 + 8 * arity);
      allocations = add_word b.allocations 1;
      bytes_allocated_total = add_word b.bytes_allocated_total (32 + 8 * arity);
    }

    word : (x : ℕ) → x < c + 32 → mem' x ≡ fields x
    word x lt = zero_words-Outside fields (c + 32) arity x (inl lt)

    grown : Grown b arity after
    grown = record {
      room = omega (arith, made.room);
      from = (refl, refl);
      to = (refl, refl);
      tables = (refl, refl);
      stack = refl;
      rounds_up = small;
      used = omega arith;
      type_at = word c (omega arith) ∙ ground arith;
      arity_at = word (c + 8) (omega arith) ∙ ground arith;
      received_at = word (c + 16) (omega arith) ∙ ground arith;
      same = λ x lo hi. word x (omega arith) ∙ ground arith;
    }

    new_closure : NewClosure w ts code arity (c, after)
    new_closure = record {
      before = b;
      ready = made.ready;
      sizes = made.sizes ++ (4 + arity) ∷ [];
      heap' = Grown-IsHeap b made.sizes made.heap' made.clean' arity after grown;
      clean' = Grown-IsClean b made.sizes made.heap' made.clean' arity after grown;
      object = rw made.heap'.filled at (IsObject-last b.from_start (4 + arity) made.sizes);
      type_at = grown.type_at;
      arity_at = grown.arity_at;
      received_at = grown.received_at;
      code_at = word (c + 24) (omega arith) ∙ ground arith;
      zeros = λ k lt. zero_words_self fields (c + 32) arity k lt;
      unchanged = grown.same;
      stack = refl;
    }

  tables_kept : (b : Runtime) → Ready w ts b → b.vt_closure ≡ w.vt_closure
  tables_kept b (inl e) = ap (λ (r : Runtime). r.vt_closure) e
  tables_kept b (inr c) = c.tables.1

  -- For an arity below 2 ^ 29 - 4, `alloc_closure` returns a closure with no arguments in a heap that is
  -- otherwise as it was, or as one collection leaves it, or panics because a collection frees too
  -- little.
  pub alloc_closure-NewClosure :
      ((alloc_closure code arity w ≡ abort) × Exhausted w ts heap clean (32 + 8 * arity))
      ⊎ Returns (NewClosure w ts code arity) (alloc_closure code arity w)
  unfolding alloc_closure bump init_closure clos_bytes
  alloc_closure-NewClosure =
      let n : (32 + 8 * arity) % 2 ^ 64 ≡ 32 + 8 * arity = omega arith in
      let size = leb-false (2 ^ 63) arity (omega arith) in
      elim (gc_alloc_bytes-Made w ts heap clean (32 + 8 * arity) w.vt_closure (omega arith)
        (omega arith)) [
          | inl (e, x) ↦ inl (rw (size, n, e), x)
          | inr (b, made, e) ↦ inr (
            (b.alloc_ptr, after b made),
            rw (size, n, e, ← tables_kept b made.ready),
            new_closure b made,
          )
        ]
