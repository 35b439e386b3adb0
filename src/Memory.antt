-- ===== src/Memory.antt =====
-- Word-addressed memory: the byte address of an aligned 8-byte word gives the word it holds. The
-- runtimes' heaps, and the loops, `memcpy` and `memset` calls that move words between them.
pub mod Copy
pub mod Merge
use pudge_with_mo_ml.Base.{
  ℕ, zero, suc, ◌+◌, ◌*◌, Bool, true, false, List, [], ◌∷◌, ◌==◌, if◌then◌else◌,
}

abbrev pub Memory : Type 0
Memory = ℕ → ℕ

-- `*a = v`
abbrev pub store : Memory → ℕ → ℕ → Memory
store m a v b = if b == a then v else m b

-- `for (i = 0; i < n; i++) dst[i] = src[i]`, also `memcpy(dst, src, n * 8)`
unfoldable pub copy_words : Memory → (dst src n : ℕ) → Memory
copy_words m dst src zero = m
copy_words m dst src (suc n) = copy_words (store m dst (m src)) (dst + 8) (src + 8) n

-- `memset(dst, 0, n * 8)`, or a loop that stores 0
unfoldable pub zero_words : Memory → (dst n : ℕ) → Memory
zero_words m dst zero = m
zero_words m dst (suc n) = zero_words (store m dst 0) (dst + 8) n

-- `n` words from address `src` on
unfoldable pub read_words : Memory → (src n : ℕ) → List ℕ
read_words m src zero = []
read_words m src (suc n) = m src ∷ read_words m (src + 8) n

-- stores a list of words from `dst` on
unfoldable pub write_words : Memory → ℕ → List ℕ → Memory
write_words m dst [] = m
write_words m dst (x ∷ xs) = write_words (store m dst x) (dst + 8) xs

-- is `v` among the words
unfoldable pub holds : ℕ → List ℕ → Bool
holds v [] = false
holds v (x ∷ xs) = if x == v then true else holds v xs

-- every word that equals `old` becomes `new`
unfoldable pub replace : (old new : ℕ) → List ℕ → List ℕ
replace old new [] = []
replace old new (x ∷ xs) = (if x == old then new else x) ∷ replace old new xs
