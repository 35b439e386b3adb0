-- ===== src/AkaMl/Closure/Copy.antt =====
-- `copy_closure` of akaML/lib/runtime/runtime.c where the bank has room.
use pudge_with_mo_ml.Base.{
  ℕ, ◌+◌, ◌*◌, ◌/◌, ◌≤◌, ◌<◌, ◌≡◌, refl, inl, inr, ◌∙◌, false, arith, ltb, ltb-false, Returns,
}
use pudge_with_mo_ml.Memory.{Memory, store, copy_words, zero_words}
use pudge_with_mo_ml.Memory.Copy.{copy_words_self, copy_words-Outside, zero_words-Outside, store_ne}
use pudge_with_mo_ml.Base.Words.{add_word}
use pudge_with_mo_ml.AkaMl.{Runtime, bank_final}
use pudge_with_mo_ml.AkaMl.Header.{set_header, tag_closure}
use pudge_with_mo_ml.AkaMl.Alloc.{offset_of, offset_of_lem, gc_alloc, bump}
use pudge_with_mo_ml.AkaMl.Closure.{closure_bytes, copy_closure}

module _ (fuel src : ℕ) (w : Runtime) (room : w.ptr_base + 8 * (25 + 8 * w.mem src) ≤ bank_final w)
    (below : src + 8 * (3 + w.mem src) ≤ w.ptr_base) where
  abbrev arity : ℕ
  arity = w.mem src

  abbrev cleared : Memory
  cleared =
      zero_words (store w.mem w.ptr_base (set_header (closure_bytes arity) tag_closure))
        (w.ptr_base + 8) (closure_bytes arity)

  enough : ltb (bank_final w) (w.ptr_base + 8 * (closure_bytes arity + 1)) ≡ false
  enough = ltb-false (bank_final w) (w.ptr_base + 8 * (closure_bytes arity + 1)) (omega arith)

  one : offset_of (closure_bytes arity) ≡ closure_bytes arity + 1
  one = offset_of_lem (closure_bytes arity) (omega arith)

  source_word : (k : ℕ) → k < 3 + arity → cleared (src + 8 * k) ≡ w.mem (src + 8 * k)
  source_word k lt =
      zero_words-Outside (store w.mem w.ptr_base (set_header (closure_bytes arity) tag_closure))
        (w.ptr_base + 8) (closure_bytes arity) (src + 8 * k) (inl (omega arith))
      ∙ store_ne w.mem w.ptr_base (set_header (closure_bytes arity) tag_closure) (src + 8 * k)
          (omega arith)

  copied_word :
      (k : ℕ)
      → k < 3 + arity
      → copy_words cleared (w.ptr_base + 8) src (closure_bytes arity / 8) (w.ptr_base + 8 + 8 * k)
        ≡ w.mem (src + 8 * k)
  copied_word k lt =
      copy_words_self cleared (w.ptr_base + 8) src (closure_bytes arity / 8) k (inr (omega arith))
        (omega arith)
      ∙ source_word k lt

  abbrev after : Runtime
  after = record w {
    mem = copy_words cleared (w.ptr_base + 8) src (closure_bytes arity / 8);
    ptr_base = w.ptr_base + 8 * (closure_bytes arity + 1);
    words_allocated_total = add_word w.words_allocated_total (closure_bytes arity + 1);
    allocations_count = add_word w.allocations_count 1;
  }

  -- Where the bank has room and `src` lies in the part in use, the copy holds the closure's words,
  -- and it takes 25 + 8 * arity words of the bank: the size in bytes is taken for one in words.
  pub copy_closure_lem :
      Returns
        (λ r.
          (r.0 ≡ w.ptr_base + 8)
          × (r.1.ptr_base ≡ w.ptr_base + 8 * (25 + 8 * w.mem src))
          × ((k : ℕ) → k < 3 + w.mem src → r.1.mem (r.0 + 8 * k) ≡ w.mem (src + 8 * k)))
        (copy_closure fuel src w)
  unfolding copy_closure gc_alloc bump
  copy_closure_lem = ((w.ptr_base + 8, after), rw (one, enough), (refl, omega arith, copied_word))

  -- The same, with all words of the part in use as they were.
  pub record Copied (out : ℕ × Runtime) : Type 0 where
    pub pointer : out.0 ≡ w.ptr_base + 8
    pub words_at : (k : ℕ) → k < 3 + w.mem src → out.1.mem (out.0 + 8 * k) ≡ w.mem (src + 8 * k)
    pub same : (b : ℕ) → b < w.ptr_base → out.1.mem b ≡ w.mem b

  pub copy_closure-Copied : Returns Copied (copy_closure fuel src w)
  unfolding copy_closure gc_alloc bump
  copy_closure-Copied = (
    (w.ptr_base + 8, after),
    rw (one, enough),
    record {
      pointer = refl;
      words_at = copied_word;
      same = λ b lt.
          copy_words-Outside cleared (w.ptr_base + 8) src (closure_bytes arity / 8) b
            (inl (omega arith))
          ∙ zero_words-Outside
              (store w.mem w.ptr_base (set_header (closure_bytes arity) tag_closure))
              (w.ptr_base + 8) (closure_bytes arity) b (inl (omega arith))
          ∙ store_ne w.mem w.ptr_base (set_header (closure_bytes arity) tag_closure) b
              (omega arith);
    },
  )
