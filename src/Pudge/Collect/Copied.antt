-- ===== src/Pudge/Collect/Copied.antt =====
-- The memory that one copy of an object leaves, read word by word.
use pudge_with_mo_ml.Base.{
  ℕ, zero, suc, ◌+◌, ◌-◌, ◌*◌, ◌≤◌, ◌<◌, ◌≡◌, ◌≢◌, refl, ◌⊎◌, inl, ◌∙◌, ap, arith,
}
use mathlib.Core.Path.{fun_ext}
use pudge_with_mo_ml.Memory.{Memory, store, copy_words}
use pudge_with_mo_ml.Memory.Copy.{Outside, copy_words-Outside, copy_words_self}
use pudge_with_mo_ml.Pudge.Collect.{moved, mark_moved}

-- `s` words at `p` copied behind a new header to `q`, and the original marked
abbrev pub copied : (p s q : ℕ) → Memory → Memory
copied p s q m = mark_moved p q (copy_words (store m (q - 8) s) q p s)

store_comm : (m : Memory) (a v b x : ℕ) → a ≢ b → store (store m a v) b x ≡ store (store m b x) a v
store_comm m a v b x h = fun_ext λ c. ground arith

-- A store outside both ranges can wait until after the copy.
copy_words-store :
    (m : Memory) (d x dst src n : ℕ)
    → Outside d dst n
    → Outside d src n
    → copy_words (store m d x) dst src n ≡ store (copy_words m dst src n) d x
unfolding copy_words
copy_words-store m d x dst src zero h k = refl
copy_words-store m d x dst src (suc n) h k =
    let e : store m d x src ≡ m src = ground arith in
    ap (λ v. copy_words (store (store m d x) dst v) (dst + 8) (src + 8) n) e
    ∙ ap (λ t. copy_words t (dst + 8) (src + 8) n) (store_comm m d x dst (m src) (omega arith))
    ∙ copy_words-store (store m dst (m src)) d x (dst + 8) (src + 8) n (omega arith) (omega arith)

-- the original and the copy, headers included, do not cut one another
abbrev pub Separate : (p s q : ℕ) → Type 0
Separate p s q = (8 ≤ p) × (8 ≤ q) × (0 < s) × ((p + 8 * s + 8 ≤ q) ⊎ (q + 8 * s + 8 ≤ p))

module _ (p s q : ℕ) (m : Memory) (sep : Separate p s q) where
  pub copied-Outside :
      (b : ℕ) → Outside b (q - 8) (s + 1) → b ≢ p - 8 → b ≢ p → copied p s q m b ≡ m b
  unfolding mark_moved
  copied-Outside b h ne ne' =
      ground (arith, copy_words-Outside (store m (q - 8) s) q p s b (omega arith))

  pub copied-header : copied p s q m (q - 8) ≡ s
  unfolding mark_moved
  copied-header =
      ground (arith, copy_words-Outside (store m (q - 8) s) q p s (q - 8) (inl (omega arith)))

  pub copied-word : (k : ℕ) → k < s → copied p s q m (q + 8 * k) ≡ m (p + 8 * k)
  unfolding mark_moved
  copied-word k h = ground (arith, copy_words_self (store m (q - 8) s) q p s k (omega arith) h)

  pub copied-moved : copied p s q m (p - 8) ≡ moved
  unfolding mark_moved
  copied-moved = ground arith

  pub copied-forward : copied p s q m p ≡ q
  unfolding mark_moved
  copied-forward = ground arith

  -- a store between, in a word that the copy does not touch, can wait until after it
  pub copied-store :
      (d x : ℕ)
      → Outside d (q - 8) (s + 1)
      → Outside d (p - 8) (s + 1)
      → mark_moved p q (copy_words (store (store m (q - 8) s) d x) q p s)
        ≡ store (copied p s q m) d x
  unfolding mark_moved
  copied-store d x h k =
      ap (λ t. store (store t (p - 8) moved) p q)
        (copy_words-store (store m (q - 8) s) d x q p s (omega arith) (omega arith))
      ∙ ap (λ t. store t p q)
          (store_comm (copy_words (store m (q - 8) s) q p s) d x (p - 8) moved (omega arith))
      ∙ store_comm (store (copy_words (store m (q - 8) s) q p s) (p - 8) moved) d x p q
          (omega arith)
