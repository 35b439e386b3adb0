-- ===== src/Omlet/Closure/Apply.antt =====
-- `apply` of OMLet/lib/runtime.c where the heap has room.
use pudge_with_mo_ml.Base.{
  ltb, leb, ltb-true, ltb-false, leb-false, lt_or_le, fault, Outcome, ◌⊎◌, inr, ◌||◌, if◌then◌else◌,
  ℕ, ◌+◌, ◌*◌, ◌%◌, ◌^◌, ◌≤◌, ◌<◌, ◌≡◌, ◌≢◌, refl, ap, sym, ◌∙◌, arith, ok, Returns, inl, List,
  length, ◌++◌, ◌==◌, true, false,
}
use pudge_with_mo_ml.Memory.{Memory, store, read_words}
use pudge_with_mo_ml.Memory.Copy.{store_ne, read_words_congr}
use pudge_with_mo_ml.Memory.Merge.{merge, merge-Outside, read_words-merge}
use pudge_with_mo_ml.Omlet.{Runtime, cur_heap}
use pudge_with_mo_ml.Omlet.Header.{t_unboxed, t_closure}
use pudge_with_mo_ml.Omlet.Malloc.{omlet_malloc}
use pudge_with_mo_ml.Omlet.Malloc.Room.{Fresh, omlet_malloc-Fresh}
use pudge_with_mo_ml.Omlet.Closure.{Call, merge_args, apply, apply_full, apply_partial}

-- A closure at `f` in the part of the current heap in use.
pub record IsClosure (w : Runtime) (f code arity got : ℕ) : Type 0 where
  pub code_at : w.mem f ≡ code
  pub arity_at : w.mem (f + 8) ≡ arity
  pub received_at : w.mem (f + 16) ≡ got
  pub below : f + 24 + 8 * got ≤ (cur_heap w).start + (cur_heap w).offset
  pub small : arity < 2 ^ 15

abbrev pub in_use : Runtime → ℕ
in_use w = (cur_heap w).start + (cur_heap w).offset

-- room for an object of so many words
abbrev pub HasRoom : ℕ → Runtime → Type 0
HasRoom words w = (cur_heap w).offset + 8 * words + 15 ≤ (cur_heap w).size

merge_args-merge :
    (dest f got : ℕ) (xs : List ℕ) (m : Memory)
    → m (f + 16) ≡ got
    → merge_args dest f xs m ≡ merge m dest (f + 24) got xs
unfolding merge_args
merge_args-merge dest f got xs m e = rw e refl

module _ (call : Call) (fuel f code arity got : ℕ) (w : Runtime) (cl : IsClosure w f code arity got)
    (args : List ℕ) where
  -- The words of the closure are as they were, with an array or a closure behind the part in use.
  module _ (out : ℕ × Runtime) (n : ℕ) (fresh : Fresh n w out) where
    field : (k : ℕ) → k < 3 + got → out.1.mem (f + 8 * k) ≡ w.mem (f + 8 * k)
    field k lt = fresh.same (f + 8 * k) (omega (arith, cl.below))

    old_args : read_words out.1.mem (f + 24) got ≡ read_words w.mem (f + 24) got
    old_args =
        read_words_congr out.1.mem w.mem (f + 24) got
          (λ k lt. fresh.same (f + 24 + 8 * k) (omega (arith, cl.below)))

    got-eq : out.1.mem (f + 16) ≡ got
    got-eq = field 2 (omega arith) ∙ cl.received_at

  -- a full application, where there is room for the array of the arguments
  abbrev pub Called : Runtime → Type 0
  Called w' =
      (apply call fuel f args w ≡ call code (read_words w.mem (f + 24) got ++ args) w')
      × ((b : ℕ) → b < in_use w → w'.mem b ≡ w.mem b)

  pub apply-Called :
      got + length args ≡ arity
      → (cur_heap w).offset + 8 * arity + 15 ≤ (cur_heap w).size
      → (w' : Runtime) × Called w'
  unfolding apply apply_full
  apply-Called all room =
      let (out, ran, fresh) =
        omlet_malloc-Fresh fuel arity t_unboxed w (omega (arith, cl.small)) (omega arith) room in
      let m' = merge out.1.mem out.0 (f + 24) got args in
      let ran' : omlet_malloc fuel (8 * w.mem (f + 8)) t_unboxed w ≡ ok out =
        ap (λ n. omlet_malloc fuel (8 * n) t_unboxed w) cl.arity_at ∙ ran in
      let total : (w.mem (f + 16) + length args) % 2 ^ 64 ≡ w.mem (f + 8) =
        omega (arith, cl.received_at, cl.arity_at, cl.small) in
      let eq : (w.mem (f + 8) == w.mem (f + 8)) ≡ true = ground arith in
      let keep : (b : ℕ) → b < in_use w → m' b ≡ w.mem b = λ b lt.
        merge-Outside out.1.mem out.0 (f + 24) got args b (inl (omega (arith, fresh.pointer)))
        ∙ fresh.same b (omega arith) in
      let c₀ : m' f ≡ code = keep f (omega (arith, cl.below)) ∙ cl.code_at in
      let a₀ : m' (f + 8) ≡ got + length args =
        keep (f + 8) (omega (arith, cl.below)) ∙ cl.arity_at ∙ sym all in
      let xs : read_words m' out.0 (got + length args) ≡ read_words w.mem (f + 24) got ++ args =
        read_words-merge out.1.mem out.0 (f + 24) got args (omega (arith, cl.below, fresh.pointer))
        ∙ ap (λ ys. ys ++ args) (old_args out arity fresh) in
      (
        record out.1 { mem = m' },
        (
          rw
              (
                total,
                eq,
                ran',
                merge_args-merge out.0 f got args out.1.mem (got-eq out arity fresh),
                c₀,
                a₀,
                xs,
              )
              refl,
          keep,
        ),
      )

  -- What `apply` returns on fewer arguments than are missing.
  pub record Extended (out : ℕ × Runtime) : Type 0 where
    pub pointer : out.0 ≡ in_use w + 8
    pub heap :
        cur_heap out.1 ≡ record (cur_heap w) { offset = (cur_heap w).offset + 8 + 8 * (3 + arity) }
    pub code_at : out.1.mem out.0 ≡ code
    pub arity_at : out.1.mem (out.0 + 8) ≡ arity
    pub received_at : out.1.mem (out.0 + 16) ≡ got + length args
    pub args_at :
        read_words out.1.mem (out.0 + 24) (got + length args)
        ≡ read_words w.mem (f + 24) got ++ args
    pub same : (b : ℕ) → b < in_use w → out.1.mem b ≡ w.mem b

  module _ (differ : got + length args ≢ arity) (few : got + length args < 2 ^ 31)
      (room : (cur_heap w).offset + 8 * (3 + arity) + 15 ≤ (cur_heap w).size) where
    module _ (out : ℕ × Runtime) (fresh : Fresh (3 + arity) w out) where
      abbrev fields : Memory
      fields =
          store (store (store out.1.mem out.0 code) (out.0 + 8) arity) (out.0 + 16)
            (got + length args)

      abbrev mem' : Memory
      mem' = merge fields (out.0 + 24) (f + 24) got args

      fields_same : (b : ℕ) → b < in_use w → fields b ≡ w.mem b
      fields_same b lt =
          store_ne (store (store out.1.mem out.0 code) (out.0 + 8) arity) (out.0 + 16)
            (got + length args) b (omega (arith, fresh.pointer))
          ∙ store_ne (store out.1.mem out.0 code) (out.0 + 8) arity b (omega (arith, fresh.pointer))
          ∙ store_ne out.1.mem out.0 code b (omega (arith, fresh.pointer))
          ∙ fresh.same b (omega arith)

      mem'_low : (b : ℕ) → b < out.0 + 24 → mem' b ≡ fields b
      mem'_low b lt = merge-Outside fields (out.0 + 24) (f + 24) got args b (inl lt)

      same_heap : cur_heap (record out.1 { mem = mem' }) ≡ cur_heap out.1
      unfolding cur_heap
      same_heap = refl

      extended : Extended (out.0, record out.1 { mem = mem' })
      extended = record {
        pointer = fresh.pointer;
        heap = same_heap ∙ fresh.heap;
        code_at = mem'_low out.0 (omega arith) ∙ ground arith;
        arity_at = mem'_low (out.0 + 8) (omega arith) ∙ ground arith;
        received_at = mem'_low (out.0 + 16) (omega arith) ∙ ground arith;
        args_at =
            read_words-merge fields (out.0 + 24) (f + 24) got args
              (omega (arith, cl.below, fresh.pointer))
            ∙ ap (λ ys. ys ++ args)
                (read_words_congr fields w.mem (f + 24) got
                  (λ k lt. fields_same (f + 24 + 8 * k) (omega (arith, cl.below))));
        same = λ b lt. mem'_low b (omega (arith, fresh.pointer)) ∙ fields_same b lt;
      }

    -- the run of `apply` up to the test that C leaves out
    abbrev tested : ℕ × Runtime → Outcome (ℕ × Runtime)
    tested r =
        if ltb arity (got + length args) || leb (2 ^ 31) (got + length args) then fault else ok r

    run_partial :
        (out : ℕ × Runtime) × (fresh : Fresh (3 + arity) w out) × (apply call fuel f args w
          ≡ tested (out.0, record out.1 { mem = mem' out fresh }))
    unfolding apply apply_partial
    run_partial =
        let (out, ran, fresh) =
          omlet_malloc-Fresh fuel (3 + arity) t_closure w (omega (arith, cl.small)) (omega arith)
            room in
        let size : 24 + 8 * arity ≡ 8 * (3 + arity) = omega arith in
        let ran' : omlet_malloc fuel (24 + 8 * arity) t_closure w ≡ ok out =
          ap (λ n. omlet_malloc fuel n t_closure w) size ∙ ran in
        let total : (w.mem (f + 16) + length args) % 2 ^ 64 ≡ got + length args =
          omega (arith, cl.received_at) in
        let eq : (got + length args == arity) ≡ false = ground arith in
        let c₀ : out.1.mem f ≡ code = fresh.same f (omega (arith, cl.below)) ∙ cl.code_at in
        let a₀ : out.1.mem (f + 8) ≡ arity =
          fresh.same (f + 8) (omega (arith, cl.below)) ∙ cl.arity_at in
        let g₀ : fields out fresh (f + 16) ≡ got =
          fields_same out fresh (f + 16) (omega (arith, cl.below)) ∙ cl.received_at in
        let r₀ : out.1.mem (f + 16) ≡ got =
          fresh.same (f + 16) (omega (arith, cl.below)) ∙ cl.received_at in
        (
          out,
          fresh,
          rw
              (
                total,
                cl.arity_at,
                eq,
                ran',
                c₀,
                a₀,
                r₀,
                merge_args-merge (out.0 + 24) f got args (fields out fresh) g₀,
              )
              refl,
        )

    pub apply-Extended :
        ((arity < got + length args) × (apply call fuel f args w ≡ fault))
        ⊎ ((got + length args < arity) × Returns Extended (apply call fuel f args w))
    apply-Extended =
        let (out, fresh, e) = run_partial in
        elim (lt_or_le arity (got + length args)) [
          | inl lt ↦ inl (lt, e ∙ (let h = ltb-true arity (got + length args) lt in rw h refl))
          | inr le ↦
              let h = ltb-false arity (got + length args) le in
              let h' = leb-false (2 ^ 31) (got + length args) few in
              inr (
                omega arith,
                (
                  (out.0, record out.1 { mem = mem' out fresh }),
                  e ∙ rw (h, h') refl,
                  extended out fresh,
                ),
              )
        ]

  -- on fewer arguments than are missing
  pub apply-fewer :
      got + length args < arity
      → (cur_heap w).offset + 8 * (3 + arity) + 15 ≤ (cur_heap w).size
      → Returns Extended (apply call fuel f args w)
  apply-fewer lt room = elim (apply-Extended (omega arith) (omega (arith, cl.small)) room) [
    | inl x ↦ absurd (omega (arith, x.0))
    | inr x ↦ x.1
  ]
