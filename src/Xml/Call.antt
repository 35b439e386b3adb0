-- ===== src/Xml/Call.antt =====
-- How `rv_call` of XML/bin/runtime.c passes the arguments: the first eight in registers, the others
-- on the machine stack. Here memory is that of the machine stack, with the array of arguments.
use pudge_with_mo_ml.Base.{
  ℕ, zero, suc, ◌+◌, ◌-◌, ◌*◌, ◌≤◌, ◌<◌, ◌≡◌, refl, ◌∙◌, ap, inl, inr, List, [], ◌∷◌, ◌++◌, ltb,
  if◌then◌else◌, arith, length, get_or, take, ◌^◌, ◌%◌,
}
use pudge_with_mo_ml.Base.Words.{sub_word}
use pudge_with_mo_ml.Memory.{Memory, copy_words, read_words}
use pudge_with_mo_ml.Memory.Copy.{copy_words_self, copy_words-Outside, length-read_words}

-- `RV_GP_ARGS`
abbrev pub rv_gp_args : ℕ
rv_gp_args = 8

-- `spill`, the number of arguments that find no register
unfoldable pub spill : ℕ → ℕ
spill n = if ltb rv_gp_args n then n - rv_gp_args else 0

-- the operand for register `i`: the argument, or 0 where there is none
unfoldable pub operand : Memory → (argv n i : ℕ) → ℕ
operand m argv n i = if ltb i n then m (argv + 8 * i) else 0

-- What the code that is called finds: a0 to a7, the stack pointer, and the stack.
pub record Frame : Type 0 where
  pub registers : List ℕ
  pub sp : ℕ
  pub mem : Memory

-- The loop at label 1 copies the words that do not fit; with none of them it is skipped.
unfoldable pub rv_call : (argv n sp : ℕ) → Memory → Frame
rv_call argv n sp m =
    let sp' = sub_word sp (8 * spill n) in
    record {
      registers =
          operand m argv n 0
          ∷ operand m argv n 1
          ∷ operand m argv n 2
          ∷ operand m argv n 3
          ∷ operand m argv n 4
          ∷ operand m argv n 5
          ∷ operand m argv n 6
          ∷ operand m argv n 7
          ∷ [];
      sp = sp';
      mem = copy_words m sp' (argv + 8 * rv_gp_args) (spill n);
    }

-- What code of `n` arguments takes for them by the calling convention of RISC-V: the registers, and
-- then the words from the stack pointer on.
abbrev pub received : ℕ → Frame → List ℕ
received n f = take n (f.registers ++ read_words f.mem f.sp (n - 8))

take_words :
    (m : Memory) (src n : ℕ) (xs : List ℕ)
    → n ≤ length xs
    → ((k : ℕ) → k < n → get_or xs k 0 ≡ m (src + 8 * k))
    → take n xs ≡ read_words m src n
unfolding read_words
take_words m src zero xs h e = refl
take_words m src (suc n) [] h e = absurd (omega arith)
take_words m src (suc n) (x ∷ xs) h e =
    let e₀ : x ≡ m src = e 0 (omega arith) ∙ ap m (omega arith) in
    let es : take n xs ≡ read_words m (src + 8) n =
      take_words m (src + 8) n xs (omega arith) (λ k lt.
        e (suc k) (omega arith)
        ∙ ap m (let e' : src + 8 * suc k ≡ src + 8 + 8 * k = omega arith in e')) in
    rw (e₀, es) refl

get_or-read_words :
    (m : Memory) (src n k : ℕ) → k < n → get_or (read_words m src n) k 0 ≡ m (src + 8 * k)
unfolding read_words
get_or-read_words m src zero k lt = absurd (omega arith)
get_or-read_words m src (suc n) zero lt = ap m (omega arith)
get_or-read_words m src (suc n) (suc k) lt =
    get_or-read_words m (src + 8) n k (omega arith)
    ∙ ap m (let e : src + 8 + 8 * k ≡ src + 8 * suc k = omega arith in e)

module _ (argv n sp : ℕ) (m : Memory) (few : n < 2 ^ 60) (room : 8 * (n - 8) ≤ sp)
    (above : sp ≤ argv) (small : argv < 2 ^ 64) where
  operand_lem : (i : ℕ) → i < n → operand m argv n i ≡ m (argv + 8 * i)
  unfolding operand
  operand_lem i lt = ground arith

  spill-eq : spill n ≡ n - 8
  unfolding spill
  spill-eq = ground arith

  abbrev sp' : ℕ
  sp' = sub_word sp (8 * spill n)

  sp'-eq : sp' ≡ sp - 8 * (n - 8)
  sp'-eq =
      rw spill-eq
        (let e : (sp + 2 ^ 64 - 8 * (n - 8)) % 2 ^ 64 ≡ sp - 8 * (n - 8) = omega arith in e)

  stack_word :
      (j : ℕ)
      → j < n - 8
      → get_or (read_words (copy_words m sp' (argv + 64) (spill n)) sp' (n - 8)) j 0
        ≡ m (argv + 64 + 8 * j)
  stack_word j lt =
      get_or-read_words (copy_words m sp' (argv + 64) (spill n)) sp' (n - 8) j lt
      ∙ copy_words_self m sp' (argv + 64) (spill n) j (inl (omega (arith, sp'-eq, spill-eq)))
          (omega (arith, spill-eq))

  finds_args : received n (rv_call argv n sp m) ≡ read_words m argv n
  unfolding rv_call
  finds_args =
      take_words m argv n
        ((rv_call argv n sp m).registers
          ++ read_words (rv_call argv n sp m).mem (rv_call argv n sp m).sp (n - 8))
        (omega (arith, length-read_words (rv_call argv n sp m).mem sp' (n - 8))) word
    where
      word :
          (k : ℕ)
          → k < n
          → get_or
              ((rv_call argv n sp m).registers
                ++ read_words (rv_call argv n sp m).mem (rv_call argv n sp m).sp (n - 8))
              k
              0
            ≡ m (argv + 8 * k)
      word zero lt = operand_lem 0 lt
      word (suc zero) lt = operand_lem 1 lt
      word (suc (suc zero)) lt = operand_lem 2 lt
      word (suc (suc (suc zero))) lt = operand_lem 3 lt
      word (suc (suc (suc (suc zero)))) lt = operand_lem 4 lt
      word (suc (suc (suc (suc (suc zero))))) lt = operand_lem 5 lt
      word (suc (suc (suc (suc (suc (suc zero)))))) lt = operand_lem 6 lt
      word (suc (suc (suc (suc (suc (suc (suc zero))))))) lt = operand_lem 7 lt
      word (suc (suc (suc (suc (suc (suc (suc (suc j)))))))) lt =
          stack_word j (omega arith)
          ∙ ap m (
              let e : argv + 64 + 8 * j
                  ≡ argv + 8 * suc (suc (suc (suc (suc (suc (suc (suc j))))))) =
                omega arith in
              e)

  -- Code that `rv_call` calls finds the words of the array as its arguments, in registers and on the
  -- stack, where the array lies at the stack pointer or above it and the stack has room for what is
  -- spilled; the words of the stack from the old stack pointer on are as before.
  pub rv_call-received :
      (received n (rv_call argv n sp m) ≡ read_words m argv n)
      × ((b : ℕ) → sp ≤ b → (rv_call argv n sp m).mem b ≡ m b)
  unfolding rv_call
  rv_call-received = (
    finds_args,
    λ b h. copy_words-Outside m sp' (argv + 64) (spill n) b (inr (omega (arith, sp'-eq, spill-eq))),
  )
