-- ===== src/Pudge/Closure/Merge.antt =====
-- The memory that `_apply_closure` leaves when arguments are missing: the new closure at `d` with the
-- arguments of the closure at `c` and then the new ones.
use pudge_with_mo_ml.Base.{
  ℕ, ◌+◌, ◌*◌, ◌%◌, ◌≤◌, ◌<◌, ◌≡◌, ◌∙◌, ap, ◌⊎◌, inl, inr, List, arith, length, get_or, ◌^◌,
}
use pudge_with_mo_ml.Base.Words.{add_word}
use pudge_with_mo_ml.Memory.{Memory, store, copy_words, write_words}
use pudge_with_mo_ml.Memory.Copy.{
  copy_words-Outside, copy_words_self, write_words-Outside, write_words_self, store_self, store_ne,
}
use pudge_with_mo_ml.Pudge.Closure.{merge_closure_args}
use pudge_with_mo_ml.Pudge.Closure.Alloc.{IsClosure}

module _ (m : Memory) (d c got n arity : ℕ) (xs : List ℕ) (got_at : m (c + 16) ≡ got)
    (len : length xs ≡ n) (fits : got + n ≤ arity) (small : arity < 256)
    (below : c + 8 * (3 + arity) + 8 ≤ d) where
  abbrev copied : Memory
  copied = copy_words m (d + 24) (c + 24) got

  abbrev merged : Memory
  merged = write_words copied (d + 24 + 8 * got) xs

  abbrev pub filled : Memory
  filled = store merged (d + 16) (got + n)

  merged-Outside : (b : ℕ) → (b < d + 24) ⊎ (d + 24 + 8 * (got + n) ≤ b) → merged b ≡ m b
  merged-Outside b h =
      write_words-Outside copied (d + 24 + 8 * got) xs b (omega (arith, len))
      ∙ copy_words-Outside m (d + 24) (c + 24) got b (omega arith)

  pub filled-Outside : (b : ℕ) → (b < d + 16) ⊎ (d + 24 + 8 * (got + n) ≤ b) → filled b ≡ m b
  filled-Outside b h =
      store_ne merged (d + 16) (got + n) b (omega arith) ∙ merged-Outside b (omega arith)

  pub filled_recived : filled (d + 16) ≡ got + n
  filled_recived = store_self merged (d + 16) (got + n)

  pub filled_old : (k : ℕ) → k < got → filled (d + 24 + 8 * k) ≡ m (c + 24 + 8 * k)
  filled_old k lt =
      store_ne merged (d + 16) (got + n) (d + 24 + 8 * k) (omega arith)
      ∙ write_words-Outside copied (d + 24 + 8 * got) xs (d + 24 + 8 * k) (inl (omega arith))
      ∙ copy_words_self m (d + 24) (c + 24) got k (inr (omega arith)) lt

  pub filled_new : (j : ℕ) → j < n → filled (d + 24 + 8 * (got + j)) ≡ get_or xs j 0
  filled_new j lt =
      store_ne merged (d + 16) (got + n) (d + 24 + 8 * (got + j)) (omega arith)
      ∙ ap merged (let e : d + 24 + 8 * (got + j) ≡ d + 24 + 8 * got + 8 * j = omega arith in e)
      ∙ write_words_self copied (d + 24 + 8 * got) xs j (omega (arith, len))

  merge-eq : merge_closure_args (d + 24) c xs m ≡ merged
  unfolding merge_closure_args
  merge-eq = ap (λ g. write_words (copy_words m (d + 24) (c + 24) g) (d + 24 + 8 * g) xs) got_at

  -- The stores of `_apply_closure` leave this memory.
  pub filled-eq :
      store
        (merge_closure_args (d + 24) c xs m)
        (d + 16)
        (add_word (merge_closure_args (d + 24) c xs m (c + 16)) n)
      ≡ filled
  filled-eq =
      let e : merged (c + 16) ≡ got = merged-Outside (c + 16) (inl (omega arith)) ∙ got_at in
      let z : (got + n) % 2 ^ 64 ≡ got + n = omega arith in rw (merge-eq, e, z)

  -- A closure with no arguments becomes one with these.
  pub filled-IsClosure :
      (code : ℕ) → IsClosure m d code arity 0 → IsClosure filled d code arity (got + n)
  filled-IsClosure code cl = record {
    code_at = filled-Outside d (inl (omega arith)) ∙ cl.code_at;
    argc_at = filled-Outside (d + 8) (inl (omega arith)) ∙ cl.argc_at;
    recived_at = filled_recived;
    zeros = λ k ge lt.
        filled-Outside (d + 24 + 8 * k) (inr (omega arith)) ∙ cl.zeros k (omega arith) lt;
  }
