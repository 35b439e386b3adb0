-- ===== src/Memory/Merge.antt =====
-- Words of one range followed by a list of words, stored in another range: how the runtimes put the
-- arguments of a closure before new ones.
use pudge_with_mo_ml.Base.{
  ℕ, ◌+◌, ◌*◌, ◌≤◌, ◌<◌, ◌≡◌, ◌∙◌, ◌⊎◌, inl, inr, List, ◌++◌, arith, length,
}
use mathlib.Core.Path.{ap₂}
use pudge_with_mo_ml.Memory.{Memory, copy_words, read_words, write_words}
use pudge_with_mo_ml.Memory.Copy.{
  copy_words-Outside, copy_words_self, write_words-Outside, read_words-write_words,
  read_words_shift, read_words-append,
}

abbrev pub merge : (m : Memory) (dst src n : ℕ) → List ℕ → Memory
merge m dst src n xs = write_words (copy_words m dst src n) (dst + 8 * n) xs

pub merge-Outside :
    (m : Memory) (dst src n : ℕ) (xs : List ℕ) (b : ℕ)
    → (b < dst) ⊎ (dst + 8 * (n + length xs) ≤ b)
    → merge m dst src n xs b ≡ m b
merge-Outside m dst src n xs b h =
    write_words-Outside (copy_words m dst src n) (dst + 8 * n) xs b (omega arith)
    ∙ copy_words-Outside m dst src n b (omega arith)

pub read_words-merge :
    (m : Memory) (dst src n : ℕ) (xs : List ℕ)
    → src + 8 * n ≤ dst
    → read_words (merge m dst src n xs) dst (n + length xs) ≡ read_words m src n ++ xs
read_words-merge m dst src n xs h =
    read_words-append (merge m dst src n xs) dst n (length xs)
    ∙ ap₂ ◌++◌
        (read_words_shift (merge m dst src n xs) m dst src n (λ k lt.
          write_words-Outside (copy_words m dst src n) (dst + 8 * n) xs (dst + 8 * k)
            (inl (omega arith))
          ∙ copy_words_self m dst src n k (inr h) lt))
        (read_words-write_words (copy_words m dst src n) (dst + 8 * n) xs)
