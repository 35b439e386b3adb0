-- ===== src/Pudge/Closure/Apply.antt =====
-- `_apply_closure` on some arguments and then on the rest.
use pudge_with_mo_ml.Base.{
  ℕ, zero, suc, ◌+◌, ◌*◌, ◌%◌, ◌^◌, ◌≤◌, ◌<◌, ◌≡◌, refl, sym, ◌∙◌, ap, ◌⊎◌, inl, inr, List, ◌∷◌,
  ◌++◌, arith, length, get_or, take, drop, Returns, Outcome, ok, exit, ◌>>=◌, true, false,
  length-slice, get_or-slice, drop-append, take_all, ltb, ◌==◌,
}
use pudge_with_mo_ml.Memory.{Memory, read_words}
use pudge_with_mo_ml.Memory.Copy.{read_words_shift, read_words-eq, read_words-append}
use pudge_with_mo_ml.Forwarding.{
  Forwarding, forwarded, forwarded_all, forwarded_all-append, length-forwarded_all,
  get_or-forwarded_all,
}
use mathlib.Core.Path.{ap₂}
use pudge_with_mo_ml.Pudge.{Runtime}
use pudge_with_mo_ml.Pudge.Heap.{IsObject, IsHeap, IsClean}
use pudge_with_mo_ml.Pudge.Malloc.Grow.{IsPlain}
use pudge_with_mo_ml.Pudge.Closure.{
  Call, push, pop_to, merged_args, exec_closure, extend_closure, apply_closure,
}
use pudge_with_mo_ml.Pudge.Closure.Alloc.{IsClosure}
use pudge_with_mo_ml.Pudge.Closure.Values.{IsValue}
use pudge_with_mo_ml.Pudge.Closure.Extend.{TooFull, Extended, extend_closure-Extended}

-- One call of compiled code, its arguments on the stack meanwhile.
abbrev pub run : Call → (code : ℕ) → List ℕ → Runtime → Outcome (ℕ × Runtime)
run call code args w = do r ← call code args (push args w); ok (r.0, pop_to (length w.stack) r.1)

module _ (call : Call) (c code arity got : ℕ) (w : Runtime) (cl : IsClosure w.mem c code arity got)
    (small : arity < 256) (le : got ≤ arity) where
  -- the arguments that are missing, all of them
  pub apply_closure-run :
      (n pos : ℕ)
      → got + n ≡ arity
      → apply_closure call c n pos w
        ≡ run call code (read_words w.mem (c + 24) got ++ take n (drop pos w.stack)) w
  unfolding apply_closure exec_closure merged_args
  apply_closure-run n pos e =
      let a = cl.argc_at in
      let g = cl.recived_at in
      let z : (got + n) % 2 ^ 64 ≡ arity = omega arith in
      let lt : ltb arity arity ≡ false = ground arith in
      let eq : (arity == arity) ≡ true = ground arith in rw (a, g, z, lt, eq, cl.code_at) refl

  pub apply_closure-extend :
      (n pos : ℕ) → got + n < arity → apply_closure call c n pos w ≡ extend_closure c n pos w
  unfolding apply_closure
  apply_closure-extend n pos h =
      let z : (got + n) % 2 ^ 64 ≡ got + n = omega arith in
      let lt : ltb arity (got + n) ≡ false = ground arith in
      let eq : (got + n == arity) ≡ false = ground arith in
      rw (cl.argc_at, cl.recived_at, z, lt, eq) refl

read_words-forwarded :
    (f : Forwarding) (m : Memory) (src n : ℕ)
    → read_words (λ a. forwarded f (m a)) src n ≡ forwarded_all f (read_words m src n)
unfolding read_words
read_words-forwarded f m src zero = refl
read_words-forwarded f m src (suc n) =
    ap (◌∷◌ (forwarded f (m src))) (read_words-forwarded f m (src + 8) n)

module _ (w : Runtime) (ts : List ℕ) (heap : IsHeap w ts) (clean : IsClean w ts) (c : ℕ)
    (code arity got n pos : ℕ) where
  -- the arguments received and the new ones
  abbrev pub given : List ℕ
  given = read_words w.mem (c + 24) got ++ take n (drop pos w.stack)

  module _ (there : pos + n ≤ length w.stack) (out : ℕ × Runtime)
      (x : Extended w ts heap clean c code arity got n pos out) where
    old_given :
        read_words out.1.mem (out.0 + 24) got
        ≡ forwarded_all x.forwarding (read_words w.mem (c + 24) got)
    old_given =
        read_words_shift out.1.mem (λ a. forwarded x.forwarding (w.mem a)) (out.0 + 24) (c + 24) got
          x.old_args
        ∙ read_words-forwarded x.forwarding w.mem (c + 24) got

    abbrev new_words : List ℕ
    new_words = forwarded_all x.forwarding (take n (drop pos w.stack))

    length-new_words : length new_words ≡ n
    length-new_words =
        length-forwarded_all x.forwarding (take n (drop pos w.stack))
        ∙ length-slice n pos w.stack there

    new_word :
        (j : ℕ) → j < n → get_or new_words j 0 ≡ forwarded x.forwarding (get_or w.stack (pos + j) 0)
    new_word j lt =
        get_or-forwarded_all x.forwarding (take n (drop pos w.stack)) j
          (omega (arith, length-slice n pos w.stack there))
        ∙ ap (forwarded x.forwarding) (get_or-slice n pos w.stack j 0 (omega arith))

    new_given : read_words out.1.mem (out.0 + 24 + 8 * got) n ≡ new_words
    new_given =
        ap (read_words out.1.mem (out.0 + 24 + 8 * got)) (sym length-new_words)
        ∙ read_words-eq out.1.mem (out.0 + 24 + 8 * got) new_words (λ j lt.
          let lt' : j < n = omega (arith, length-new_words) in
          ap out.1.mem
            (let e : out.0 + 24 + 8 * got + 8 * j ≡ out.0 + 24 + 8 * (got + j) = omega arith in e)
          ∙ x.new_args j lt'
          ∙ sym (new_word j lt'))

    given_forwarded : read_words out.1.mem (out.0 + 24) (got + n) ≡ forwarded_all x.forwarding given
    given_forwarded =
        read_words-append out.1.mem (out.0 + 24) got n
        ∙ ap₂ ◌++◌ old_given new_given
        ∙ sym (
            forwarded_all-append x.forwarding (read_words w.mem (c + 24) got)
              (take n (drop pos w.stack)))

  -- A partial application, and that it takes the rest of the arguments later: the code then runs once,
  -- on the arguments received, the new ones, and the rest.
  abbrev pub Partial : Call → ℕ × Runtime → Type 0
  Partial call out =
      (x : Extended w ts heap clean c code arity got n pos out) × ((rest : List ℕ)
        → got + n + length rest ≡ arity
        → apply_closure call out.0 (length rest) (length out.1.stack) (push rest out.1)
          ≡ run call code (forwarded_all x.forwarding given ++ rest) (push rest out.1))

  -- `_apply_closure` on fewer arguments than are missing exits with 122, because a collection frees
  -- too little, or returns a partial application, which takes the rest of the arguments later.
  pub apply_closure-Partial :
      (call : Call)
      → IsObject c (3 + arity) w.new_space ts
      → IsClosure w.mem c code arity got
      → arity < 256
      → IsPlain code w
      → (2048 ≤ w.new_space) × (2048 ≤ w.old_space)
      → got + n < arity
      → pos + n ≤ length w.stack
      → ((j : ℕ) → j < n → IsValue (get_or w.stack (pos + j) 0) w ts)
      → ((apply_closure call c n pos w ≡ exit 122) × TooFull w ts heap clean c arity)
        ⊎ Returns (Partial call) (apply_closure call c n pos w)
  apply_closure-Partial call o cl small plain low fits there args =
      let e = apply_closure-extend call c code arity got w cl small (omega arith) n pos fits in
      elim (extend_closure-Extended w ts heap clean c code arity got n pos o cl small plain low fits
        there args) [
          | inl (h, full) ↦ inl (e ∙ h, full)
          | inr (out, h, x) ↦ inr (out, e ∙ h, (x, rest_of out x))
        ]
    where
      rest_of :
          (out : ℕ × Runtime) (x : Extended w ts heap clean c code arity got n pos out)
          (rest : List ℕ)
          → got + n + length rest ≡ arity
          → apply_closure call out.0 (length rest) (length out.1.stack) (push rest out.1)
            ≡ run call code (forwarded_all x.forwarding given ++ rest) (push rest out.1)
      rest_of out x rest h =
          apply_closure-run call out.0 code arity (got + n) (push rest out.1)
            (record {
              code_at = x.closure.code_at;
              argc_at = x.closure.argc_at;
              recived_at = x.closure.recived_at;
              zeros = x.closure.zeros;
            })
            small (omega arith) (length rest) (length out.1.stack) h
          ∙ ap₂ (λ xs ys. run call code (xs ++ ys) (push rest out.1)) (given_forwarded there out x)
              (ap (take (length rest)) (drop-append out.1.stack rest)
                ∙ take_all (length rest) rest (omega arith))
