-- ===== src/AkaMl/Closure/Apply.antt =====
-- `applyN` of akaML/lib/runtime/runtime.c where the bank has room.
use mathlib.Core.Path.{ap₂}
use pudge_with_mo_ml.Base.{
  ℕ, ◌+◌, ◌*◌, ◌/◌, ◌^◌, ◌≤◌, ◌<◌, ◌≡◌, ◌≢◌, refl, ap, sym, ◌∙◌, ◌⊎◌, inl, inr, arith, abort,
  Returns, List, length, ◌++◌, ◌==◌, ltb, ltb-false, true, false, lt_or_le,
}
use pudge_with_mo_ml.Base.Words.{add_word}
use pudge_with_mo_ml.Memory.{Memory, store, zero_words, read_words, copy_words}
use pudge_with_mo_ml.Memory.Copy.{
  store_ne, zero_words-Outside, read_words_congr, read_words-append, read_words_shift,
  read_words-write_words,
}
use pudge_with_mo_ml.Memory.Merge.{merge, merge-Outside, read_words-merge}
use pudge_with_mo_ml.AkaMl.{Runtime, bank_final}
use pudge_with_mo_ml.AkaMl.Header.{set_header, tag_closure}
use pudge_with_mo_ml.AkaMl.Alloc.{offset_of_lem, gc_alloc, bump}
use pudge_with_mo_ml.AkaMl.Closure.{Call, gather_args, push_args, apply_gathered, apply_n}
use pudge_with_mo_ml.AkaMl.Closure.Copy.{Copied, copy_closure-Copied}
use pudge_with_mo_ml.AkaMl.Closure.Push.{push_args-Outside, push_args_count, read_words-push_args}

-- A closure at `f` in the part of the bank in use.
pub record IsClosure (w : Runtime) (f code arity got : ℕ) : Type 0 where
  pub arity_at : w.mem f ≡ arity
  pub received_at : w.mem (f + 8) ≡ got
  pub code_at : w.mem (f + 16) ≡ code
  pub below : f + 24 + 8 * arity ≤ w.ptr_base
  pub le : got ≤ arity
  pub small : arity < 2 ^ 32

module _ (call : Call) (fuel f code arity got : ℕ) (w : Runtime) (cl : IsClosure w f code arity got)
    (args : List ℕ) where
  -- the arguments received and the new ones
  abbrev pub given : List ℕ
  given = read_words w.mem (f + 24) got ++ args

  -- what `applyN` returns on fewer arguments than are missing
  pub record Extended (out : ℕ × Runtime) : Type 0 where
    pub arity_at : out.1.mem out.0 ≡ arity
    pub received_at : out.1.mem (out.0 + 8) ≡ got + length args
    pub code_at : out.1.mem (out.0 + 16) ≡ code
    pub args_at : read_words out.1.mem (out.0 + 24) (got + length args) ≡ given
    pub same : (b : ℕ) → b < w.ptr_base → out.1.mem b ≡ w.mem b

  -- the call of the code on all arguments
  abbrev pub Called : Runtime → Type 0
  Called w' =
      (apply_n call fuel f args w ≡ call code given w')
      × ((b : ℕ) → b < w.ptr_base → w'.mem b ≡ w.mem b)

  module _ (fits : got + length args ≤ arity)
      (room : w.ptr_base + 8 * (arity + 1) ≤ bank_final w) where
    abbrev all : ℕ
    all = w.ptr_base + 8

    abbrev cleared : Memory
    cleared = zero_words (store w.mem w.ptr_base (set_header arity tag_closure)) all arity

    -- the state with the array of the arguments
    abbrev gathered : Runtime
    gathered = record w {
      mem = merge cleared all (f + 24) got args;
      ptr_base = w.ptr_base + 8 * (arity + 1);
      words_allocated_total = add_word w.words_allocated_total (arity + 1);
      allocations_count = add_word w.allocations_count 1;
    }

    cleared_same : (b : ℕ) → b < w.ptr_base → cleared b ≡ w.mem b
    cleared_same b lt =
        zero_words-Outside (store w.mem w.ptr_base (set_header arity tag_closure)) all arity b
          (inl (omega arith))
        ∙ store_ne w.mem w.ptr_base (set_header arity tag_closure) b (omega arith)

    gathered_same : (b : ℕ) → b < w.ptr_base → gathered.mem b ≡ w.mem b
    gathered_same b lt =
        merge-Outside cleared all (f + 24) got args b (inl (omega arith)) ∙ cleared_same b lt

    gathered_args : read_words gathered.mem all (got + length args) ≡ given
    gathered_args =
        read_words-merge cleared all (f + 24) got args (omega (arith, cl.below, cl.le))
        ∙ ap (λ ys. ys ++ args)
            (read_words_congr cleared w.mem (f + 24) got
              (λ k lt. cleared_same (f + 24 + 8 * k) (omega (arith, cl.below, cl.le))))

    gather_args-merge : gather_args all f args cleared ≡ gathered.mem
    unfolding gather_args
    gather_args-merge =
        let e : cleared (f + 8) ≡ got =
          cleared_same (f + 8) (omega (arith, cl.below)) ∙ cl.received_at in
        rw e refl

    apply_n-gathered : apply_n call fuel f args w ≡ apply_gathered call fuel f args all gathered
    unfolding apply_n gc_alloc bump
    apply_n-gathered =
        let h : ltb arity (got + length args) ≡ false = ltb-false arity (got + length args) fits in
        let n : (8 * arity + 7) / 8 ≡ arity = omega arith in
        let h' : ltb (bank_final w) (w.ptr_base + 8 * (arity + 1)) ≡ false =
          ltb-false (bank_final w) (w.ptr_base + 8 * (arity + 1)) room in
        rw
          (
            cl.arity_at,
            cl.received_at,
            h,
            n,
            offset_of_lem arity (omega (arith, cl.small)),
            h',
            gather_args-merge,
          )
          refl

    g_arity : gathered.mem f ≡ arity
    g_arity = gathered_same f (omega (arith, cl.below)) ∙ cl.arity_at

    g_received : gathered.mem (f + 8) ≡ got
    g_received = gathered_same (f + 8) (omega (arith, cl.below)) ∙ cl.received_at

    g_code : gathered.mem (f + 16) ≡ code
    g_code = gathered_same (f + 16) (omega (arith, cl.below)) ∙ cl.code_at

    full : got + length args ≡ arity → Called gathered
    unfolding apply_gathered
    full e =
        let t : (got + length args == arity) ≡ true = ground arith in
        let xs : read_words gathered.mem all arity ≡ given =
          ap (read_words gathered.mem all) (sym e) ∙ gathered_args in
        (apply_n-gathered ∙ rw (g_arity, g_received, t, g_code, xs) refl, gathered_same)

    module _ (fewer : got + length args < arity)
        (room₂ : w.ptr_base + 8 * (arity + 1) + 8 * (25 + 8 * arity) ≤ bank_final w) where
      copy_room : gathered.ptr_base + 8 * (25 + 8 * gathered.mem f) ≤ bank_final gathered
      unfolding bank_final
      copy_room = omega (arith, g_arity, room₂)

      copy_below : f + 8 * (3 + gathered.mem f) ≤ gathered.ptr_base
      copy_below = omega (arith, g_arity, cl.below)

      module _ (out : ℕ × Runtime) (c : Copied fuel f gathered copy_room copy_below out) where
        abbrev pushed : Memory
        pushed = push_args out.0 args out.1.mem

        copied : (k : ℕ) → k < 3 + arity → out.1.mem (out.0 + 8 * k) ≡ gathered.mem (f + 8 * k)
        copied k lt = c.words_at k (omega (arith, g_arity))

        c_arity : out.1.mem out.0 ≡ arity
        c_arity =
            ap out.1.mem (let e : out.0 ≡ out.0 + 8 * 0 = omega arith in e)
            ∙ copied 0 (omega arith)
            ∙ ap gathered.mem (let e : f + 8 * 0 ≡ f = omega arith in e)
            ∙ g_arity

        c_received : out.1.mem (out.0 + 8) ≡ got
        c_received = copied 1 (omega arith) ∙ g_received

        c_code : out.1.mem (out.0 + 16) ≡ code
        c_code = copied 2 (omega arith) ∙ g_code

        outside :
            (b : ℕ)
            → (b ≢ out.0 + 8)
              × ((b < out.0 + 24 + 8 * got) ⊎ (out.0 + 24 + 8 * (got + length args) ≤ b))
            → pushed b ≡ out.1.mem b
        outside b h =
            push_args-Outside out.0 got args out.1.mem b c_received (omega (arith, cl.small)) h

        old_args : read_words pushed (out.0 + 24) got ≡ read_words w.mem (f + 24) got
        old_args = read_words_shift pushed w.mem (out.0 + 24) (f + 24) got (λ k lt.
            let e : out.0 + 8 * (3 + k) ≡ out.0 + 24 + 8 * k = omega arith in
            let e' : f + 8 * (3 + k) ≡ f + 24 + 8 * k = omega arith in
            outside (out.0 + 24 + 8 * k) (omega arith, inl (omega arith))
            ∙ (rw (e, e') at (copied (3 + k) (omega arith)))
            ∙ gathered_same (f + 24 + 8 * k) (omega (arith, cl.below, cl.le)))

        extended : Extended (out.0, record out.1 { mem = pushed })
        extended = record {
          arity_at = outside out.0 (omega arith, inl (omega arith)) ∙ c_arity;
          received_at =
              push_args_count out.0 got args out.1.mem c_received (omega (arith, cl.small));
          code_at = outside (out.0 + 16) (omega arith, inl (omega arith)) ∙ c_code;
          args_at =
              read_words-append pushed (out.0 + 24) got (length args)
              ∙ ap₂ ◌++◌ old_args (
                  read_words-push_args out.0 got args out.1.mem c_received
                    (omega (arith, cl.small)));
          same = λ b lt.
              outside b (omega (arith, c.pointer), inl (omega (arith, c.pointer)))
              ∙ c.same b (omega arith)
              ∙ gathered_same b lt;
        }

        -- the new arguments, read back from the array
        new_args : read_words out.1.mem (all + 8 * got) (length args) ≡ args
        new_args =
            read_words_congr out.1.mem gathered.mem (all + 8 * got) (length args)
              (λ k lt. c.same (all + 8 * got + 8 * k) (omega arith))
            ∙ read_words-write_words (copy_words cleared all (f + 24) got) (all + 8 * got) args

      partial : Returns Extended (apply_n call fuel f args w)
      unfolding apply_gathered
      partial =
          let (out, ran, c) = copy_closure-Copied fuel f gathered copy_room copy_below in
          let t : (got + length args == arity) ≡ false = ground arith in
          let g : out.1.mem (f + 8) ≡ got = c.same (f + 8) (omega (arith, cl.below)) ∙ g_received in
          (
            (out.0, record out.1 { mem = pushed out c }),
            apply_n-gathered ∙ rw (g_arity, g_received, t, ran, g, new_args out c) refl,
            extended out c,
          )

  over : arity < got + length args → apply_n call fuel f args w ≡ abort
  unfolding apply_n
  over h =
      let t : ltb arity (got + length args) ≡ true = ground arith in
      rw (cl.arity_at, cl.received_at, t) refl

  -- Where the bank has room for the array of the arguments and for a copy of the closure, `applyN`
  -- aborts on more arguments than are missing; on just as many it calls the code once, on the
  -- arguments received and the new ones; on fewer it returns a closure of the same code and arity with
  -- these arguments. No word of the part that was in use changes until the call.
  pub apply_n_lem :
      w.ptr_base + 8 * (arity + 1) + 8 * (25 + 8 * arity) ≤ bank_final w
      → ((arity < got + length args) × (apply_n call fuel f args w ≡ abort))
        ⊎ (((got + length args ≡ arity) × ((w' : Runtime) × Called w'))
            ⊎ ((got + length args < arity) × Returns Extended (apply_n call fuel f args w)))
  apply_n_lem room = elim (lt_or_le arity (got + length args)) [
    | inl h ↦ inl (h, over h)
    | inr h ↦ elim (lt_or_le (got + length args) arity) [
      | inl h' ↦ inr (inr (h', partial h (omega arith) h' room))
      | inr h' ↦
          let e : got + length args ≡ arity = omega arith in
          inr (inl (e, (gathered h (omega arith), full h (omega arith) e)))
    ]
  ]
