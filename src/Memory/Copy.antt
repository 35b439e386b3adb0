-- ===== src/Memory/Copy.antt =====
-- What the word loops leave in memory.
use pudge_with_mo_ml.Base.{
  ℕ, zero, suc, ◌+◌, ◌*◌, ◌≤◌, ◌<◌, ◌≡◌, ◌≢◌, refl, ◌⊎◌, inl, ◌∙◌, ap, List, [], ◌∷◌, ◌++◌, arith,
  length, get_or,
}
use pudge_with_mo_ml.Memory.{Memory, store, copy_words, zero_words, read_words, write_words}

-- the address lies outside the `n` words from `a` on
abbrev pub Outside : (b a n : ℕ) → Type 0
Outside b a n = (b < a) ⊎ (a + 8 * n ≤ b)

pub store_self : (m : Memory) (a v : ℕ) → store m a v a ≡ v
store_self m a v = ground arith

pub store_ne : (m : Memory) (a v b : ℕ) → b ≢ a → store m a v b ≡ m b
store_ne m a v b h = ground arith

pub copy_words-Outside :
    (m : Memory) (dst src n b : ℕ) → Outside b dst n → copy_words m dst src n b ≡ m b
unfolding copy_words
copy_words-Outside m dst src zero b h = refl
copy_words-Outside m dst src (suc n) b h =
    ground (arith, copy_words-Outside (store m dst (m src)) (dst + 8) (src + 8) n b)

-- A copy upwards between ranges of which neither cuts the other puts word `k` of the source in
-- word `k` of the destination.
pub copy_words_self :
    (m : Memory) (dst src n k : ℕ)
    → (dst + 8 * n ≤ src) ⊎ (src + 8 * n ≤ dst)
    → k < n
    → copy_words m dst src n (dst + 8 * k) ≡ m (src + 8 * k)
unfolding copy_words
copy_words_self m dst src zero k h lt = absurd (omega arith)
copy_words_self m dst src (suc n) zero h lt =
    ap (copy_words (store m dst (m src)) (dst + 8) (src + 8) n) (omega arith)
    ∙ copy_words-Outside (store m dst (m src)) (dst + 8) (src + 8) n dst (omega arith)
    ∙ ground (arith, ap m (let e : src ≡ src + 8 * 0 = omega arith in e))
copy_words_self m dst src (suc n) (suc k) h lt =
    ap (copy_words (store m dst (m src)) (dst + 8) (src + 8) n) (omega arith)
    ∙ copy_words_self (store m dst (m src)) (dst + 8) (src + 8) n k (omega arith) (omega arith)
    ∙ ground (arith, ap m (let e : src + 8 + 8 * k ≡ src + 8 * suc k = omega arith in e))

pub zero_words-Outside : (m : Memory) (dst n b : ℕ) → Outside b dst n → zero_words m dst n b ≡ m b
unfolding zero_words
zero_words-Outside m dst zero b h = refl
zero_words-Outside m dst (suc n) b h =
    ground (arith, zero_words-Outside (store m dst 0) (dst + 8) n b)

pub write_words-Outside :
    (m : Memory) (dst : ℕ) (xs : List ℕ) (b : ℕ)
    → Outside b dst (length xs)
    → write_words m dst xs b ≡ m b
unfolding write_words
write_words-Outside m dst [] b h = refl
write_words-Outside m dst (x ∷ xs) b h =
    ground (arith, write_words-Outside (store m dst x) (dst + 8) xs b)

-- What was written is read back.
pub read_words-write_words :
    (m : Memory) (dst : ℕ) (xs : List ℕ) → read_words (write_words m dst xs) dst (length xs) ≡ xs
unfolding read_words write_words
read_words-write_words m dst [] = refl
read_words-write_words m dst (x ∷ xs) =
    ap (λ v. v ∷ read_words (write_words (store m dst x) (dst + 8) xs) (dst + 8) (length xs))
      (write_words-Outside (store m dst x) (dst + 8) xs dst (inl (omega arith))
        ∙ store_self m dst x)
    ∙ ap (◌∷◌ x) (read_words-write_words (store m dst x) (dst + 8) xs)

-- Two ranges of two memories that agree word by word are read alike.
pub read_words_shift :
    (m m' : Memory) (src src' n : ℕ)
    → ((k : ℕ) → k < n → m (src + 8 * k) ≡ m' (src' + 8 * k))
    → read_words m src n ≡ read_words m' src' n
unfolding read_words
read_words_shift m m' src src' zero h = refl
read_words_shift m m' src src' (suc n) h =
    let e : src + 8 * 0 ≡ src = omega arith in
    let e' : src' + 8 * 0 ≡ src' = omega arith in
    let head : m src ≡ m' src' = rw (e, e') at (h 0 (omega arith)) in
    let tail : read_words m (src + 8) n ≡ read_words m' (src' + 8) n =
      read_words_shift m m' (src + 8) (src' + 8) n (λ k lt.
        let f : src + 8 * suc k ≡ src + 8 + 8 * k = omega arith in
        let f' : src' + 8 * suc k ≡ src' + 8 + 8 * k = omega arith in
        rw (f, f') at (h (suc k) (omega arith))) in
    cc

-- Two memories that agree on a range are read alike there.
pub read_words_congr :
    (m m' : Memory) (src n : ℕ)
    → ((k : ℕ) → k < n → m (src + 8 * k) ≡ m' (src + 8 * k))
    → read_words m src n ≡ read_words m' src n
read_words_congr m m' src n h = read_words_shift m m' src src n h

pub length-read_words : (m : Memory) (src n : ℕ) → length (read_words m src n) ≡ n
unfolding read_words
length-read_words m src zero = refl
length-read_words m src (suc n) = ap suc (length-read_words m (src + 8) n)

pub read_words-append :
    (m : Memory) (src a b : ℕ)
    → read_words m src (a + b) ≡ read_words m src a ++ read_words m (src + 8 * a) b
unfolding read_words
read_words-append m src zero b =
    ap (read_words m src) (omega arith) ∙ ap (λ s. read_words m s b) (omega arith)
read_words-append m src (suc a) b =
    ap (read_words m src) (let e : suc a + b ≡ suc (a + b) = omega arith in e)
    ∙ ap (◌∷◌ (m src)) (
        read_words-append m (src + 8) a b
        ∙ ap (λ s. read_words m (src + 8) a ++ read_words m s b) (omega arith))

pub zero_words_self : (m : Memory) (dst n k : ℕ) → k < n → zero_words m dst n (dst + 8 * k) ≡ 0
unfolding zero_words
zero_words_self m dst zero k lt = absurd (omega arith)
zero_words_self m dst (suc n) zero lt =
    ap (zero_words (store m dst 0) (dst + 8) n) (omega arith)
    ∙ zero_words-Outside (store m dst 0) (dst + 8) n dst (inl (omega arith))
    ∙ store_self m dst 0
zero_words_self m dst (suc n) (suc k) lt =
    ap (zero_words (store m dst 0) (dst + 8) n) (omega arith)
    ∙ zero_words_self (store m dst 0) (dst + 8) n k (omega arith)

-- Word `j` of a list that was written.
pub write_words_self :
    (m : Memory) (dst : ℕ) (xs : List ℕ) (j : ℕ)
    → j < length xs
    → write_words m dst xs (dst + 8 * j) ≡ get_or xs j 0
unfolding write_words
write_words_self m dst [] j lt = absurd (omega arith)
write_words_self m dst (x ∷ xs) zero lt =
    ap (write_words (store m dst x) (dst + 8) xs) (omega arith)
    ∙ write_words-Outside (store m dst x) (dst + 8) xs dst (inl (omega arith))
    ∙ store_self m dst x
write_words_self m dst (x ∷ xs) (suc j) lt =
    ap (write_words (store m dst x) (dst + 8) xs) (omega arith)
    ∙ write_words_self (store m dst x) (dst + 8) xs j (omega arith)

-- The words of a range, one by one.
pub read_words-eq :
    (m : Memory) (src : ℕ) (xs : List ℕ)
    → ((k : ℕ) → k < length xs → m (src + 8 * k) ≡ get_or xs k 0)
    → read_words m src (length xs) ≡ xs
unfolding read_words
read_words-eq m src [] h = refl
read_words-eq m src (x ∷ xs) h =
    ap (λ v. v ∷ read_words m (src + 8) (length xs))
      (ap m (let e : src ≡ src + 8 * 0 = omega arith in e) ∙ h 0 (omega arith))
    ∙ ap (◌∷◌ x) (
        read_words-eq m (src + 8) xs (λ k lt.
          ap m (let e : src + 8 + 8 * k ≡ src + 8 * suc k = omega arith in e)
          ∙ h (suc k) (omega arith)))
