-- ===== src/AkaMl/Closure/Push.antt =====
-- The loop at the end of `applyN` of akaML/lib/runtime/runtime.c, which stores the new arguments.
use mathlib.Core.Path.{ap₂}
use pudge_with_mo_ml.Base.{
  ℕ, ◌+◌, ◌*◌, ◌^◌, ◌≤◌, ◌<◌, ◌≡◌, ◌≢◌, refl, ap, ◌∙◌, ◌⊎◌, inl, arith, List, [], ◌∷◌, length,
}
use pudge_with_mo_ml.Base.Words.{add_word}
use pudge_with_mo_ml.Memory.{Memory, store, read_words}
use pudge_with_mo_ml.Memory.Copy.{store_ne, store_self}
use pudge_with_mo_ml.AkaMl.Closure.{push_args}

-- `new_closure->args[new_closure->args_received++] = x`, for each argument in turn
pub push_args-Outside :
    (c got : ℕ) (xs : List ℕ) (m : Memory) (b : ℕ)
    → m (c + 8) ≡ got
    → got + length xs < 2 ^ 64
    → (b ≢ c + 8) × ((b < c + 24 + 8 * got) ⊎ (c + 24 + 8 * (got + length xs) ≤ b))
    → push_args c xs m b ≡ m b
unfolding push_args
push_args-Outside c got [] m b e few h = refl
push_args-Outside c got (x ∷ xs) m b e few h =
    let m₁ : Memory = store m (c + 24 + 8 * m (c + 8)) x in
    let n : add_word (m (c + 8)) 1 ≡ got + 1 = omega (arith, e) in
    push_args-Outside c (got + 1) xs (store m₁ (c + 8) (add_word (m (c + 8)) 1)) b
      (store_self m₁ (c + 8) (add_word (m (c + 8)) 1) ∙ n) (omega arith) (omega arith)
    ∙ store_ne m₁ (c + 8) (add_word (m (c + 8)) 1) b h.0
    ∙ store_ne m (c + 24 + 8 * m (c + 8)) x b (omega (arith, e))

pub push_args_count :
    (c got : ℕ) (xs : List ℕ) (m : Memory)
    → m (c + 8) ≡ got
    → got + length xs < 2 ^ 64
    → push_args c xs m (c + 8) ≡ got + length xs
unfolding push_args
push_args_count c got [] m e few = e ∙ omega arith
push_args_count c got (x ∷ xs) m e few =
    let m₁ : Memory = store m (c + 24 + 8 * m (c + 8)) x in
    let n : add_word (m (c + 8)) 1 ≡ got + 1 = omega (arith, e) in
    push_args_count c (got + 1) xs (store m₁ (c + 8) (add_word (m (c + 8)) 1))
      (store_self m₁ (c + 8) (add_word (m (c + 8)) 1) ∙ n) (omega arith)
    ∙ omega arith

pub read_words-push_args :
    (c got : ℕ) (xs : List ℕ) (m : Memory)
    → m (c + 8) ≡ got
    → got + length xs < 2 ^ 64
    → read_words (push_args c xs m) (c + 24 + 8 * got) (length xs) ≡ xs
unfolding push_args read_words
read_words-push_args c got [] m e few = refl
read_words-push_args c got (x ∷ xs) m e few =
    let m₁ : Memory = store m (c + 24 + 8 * m (c + 8)) x in
    let m₂ : Memory = store m₁ (c + 8) (add_word (m (c + 8)) 1) in
    let n : add_word (m (c + 8)) 1 ≡ got + 1 = omega (arith, e) in
    let e₂ : m₂ (c + 8) ≡ got + 1 = store_self m₁ (c + 8) (add_word (m (c + 8)) 1) ∙ n in
    let a : c + 24 + 8 * got ≡ c + 24 + 8 * m (c + 8) = omega (arith, e) in
    let hd : push_args c xs m₂ (c + 24 + 8 * got) ≡ x =
      push_args-Outside c (got + 1) xs m₂ (c + 24 + 8 * got) e₂ (omega arith)
        (omega arith, inl (omega arith))
      ∙ store_ne m₁ (c + 8) (add_word (m (c + 8)) 1) (c + 24 + 8 * got) (omega arith)
      ∙ ap m₁ a
      ∙ store_self m (c + 24 + 8 * m (c + 8)) x in
    let z : c + 24 + 8 * got + 8 ≡ c + 24 + 8 * (got + 1) = omega arith in
    let tl : read_words (push_args c xs m₂) (c + 24 + 8 * got + 8) (length xs) ≡ xs =
      ap (λ s. read_words (push_args c xs m₂) s (length xs)) z
      ∙ read_words-push_args c (got + 1) xs m₂ e₂ (omega arith) in
    ap₂ ◌∷◌ hd tl
