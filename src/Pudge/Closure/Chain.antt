-- ===== src/Pudge/Closure/Chain.antt =====
-- `_apply_closure_chain` of PudgeWithMoML/lib/runtime/runtime.c: how long its loop runs, and what it
-- does on more arguments than a closure takes.
use pudge_with_mo_ml.Base.{
  ℕ, zero, suc, ◌+◌, ◌-◌, ◌*◌, ◌%◌, ◌≤◌, ◌<◌, ◌≡◌, ◌≢◌, refl, ◌∙◌, ap, inl, inr, true, false, List,
  ◌++◌, arith, length, take, drop, take_all, drop-append, ◌/◌, ltb, leb, leb-false, leb-true,
  Bool-cases, Outcome, ok, exit, abort, fault, out_of_fuel, ◌>>=◌,
}
use pudge_with_mo_ml.Base.Words.{add_word, sub_word}
use pudge_with_mo_ml.Memory.{read_words}
use pudge_with_mo_ml.Pudge.{Runtime}
use pudge_with_mo_ml.Pudge.Closure.{
  Call, push, pop_to, apply_closure, apply_loop, apply_closure_chain,
}
use pudge_with_mo_ml.Pudge.Closure.Alloc.{IsClosure}
use pudge_with_mo_ml.Pudge.Closure.Apply.{run, apply_closure-run}

-- A chain stops if its first step does, and so does what follows.
bind_stops {ℓ κ} :
    {A : Type ℓ} {B : Type κ} (o : Outcome A) (f : A → Outcome B)
    → o ≢ out_of_fuel
    → ((a : A) → o ≡ ok a → f a ≢ out_of_fuel)
    → (o >>= f) ≢ out_of_fuel
bind_stops (ok a) f h k = k a refl
bind_stops (exit n) f h k = λ e. cc
bind_stops abort f h k = λ e. cc
bind_stops fault f h k = λ e. cc
bind_stops out_of_fuel f h k = λ e. h refl

-- A closure that lacks an argument.
pub record Lacks (c : ℕ) (w : Runtime) : Type 0 where
  pub code : ℕ
  pub arity : ℕ
  pub got : ℕ
  pub closure : IsClosure w.mem c code arity got
  pub less : got < arity
  pub small : arity < 256

module _ (call : Call) (Good : ℕ → Runtime → Type 0)
    (lacks : (c : ℕ) (w : Runtime) → Good c w → Lacks c w)
    (ends : (c n pos : ℕ) (w : Runtime)
      → Good c w
      → 0 < n
      → w.mem (c + 16) + n ≤ w.mem (c + 8)
      → apply_closure call c n pos w ≢ out_of_fuel)
    (keeps : (c n pos : ℕ) (w : Runtime) (r : ℕ × Runtime)
      → Good c w
      → w.mem (c + 16) + n ≡ w.mem (c + 8)
      → apply_closure call c n pos w ≡ ok r
      → Good r.0 r.1) where
  -- The loop of `_apply_closure_chain` takes no more rounds than there are arguments, and one more to
  -- stop, if each application in it ends, and a full one gives a closure that lacks an argument.
  pub apply_loop-stops :
      (fuel c argc applied pos : ℕ) (w : Runtime)
      → Good c w
      → applied ≤ argc
      → argc < applied + fuel
      → argc < 256
      → apply_loop call fuel c argc applied pos w ≢ out_of_fuel
  unfolding apply_loop
  apply_loop-stops zero c argc applied pos w g le lt few = λ e. omega arith
  apply_loop-stops (suc fuel) c argc applied pos w g le lt few =
      let l = lacks c w g in
      let need : ℕ = sub_word (w.mem (c + 8)) (w.mem (c + 16)) in
      let n : need ≡ l.arity - l.got =
        omega (arith, l.closure.argc_at, l.closure.recived_at, l.less, l.small) in
      elim (Bool-cases (ltb applied argc)) [
        | inr e ↦ rw (apply_loop, e) (λ x. cc)
        | inl e ↦ elim (Bool-cases (leb (argc - applied) need)) [
          | inl e' ↦
              let provided : argc - applied ≤ need = ground arith in
              let some_left : applied < argc = ground arith in
              rw (apply_loop, e, e')
                (ends c ((argc - applied) % 256) (pos + applied) w g (omega arith)
                  (omega (arith, l.closure.argc_at, l.closure.recived_at, l.less, provided)))
          | inr e' ↦
              let more : need < argc - applied = ground arith in
              let s : add_word applied need ≡ applied + need = omega (arith, few) in
              rw (apply_loop, e, e')
                (bind_stops (apply_closure call c (need % 256) (pos + applied) w) _
                  (ends c (need % 256) (pos + applied) w g (omega (arith, l.less, l.small))
                    (omega (arith, l.closure.argc_at, l.closure.recived_at, l.less, l.small)))
                  (λ r x. rw s (
                    apply_loop-stops fuel r.0 argc (applied + need) pos r.1
                      (keeps c (need % 256) (pos + applied) w r g
                        (omega (arith, l.closure.argc_at, l.closure.recived_at, l.less, l.small)) x)
                      (omega arith) (omega (arith, l.less)) few)))
        ]
      ]

-- One round of the loop with more arguments than the closure lacks, and the last one.
module _ (call : Call) (c code arity got : ℕ) (w : Runtime) (cl : IsClosure w.mem c code arity got)
    (small : arity < 256) (less : got < arity) (argc applied pos : ℕ) (few : argc < 256) where
  need-eq : sub_word (w.mem (c + 8)) (w.mem (c + 16)) ≡ arity - got
  need-eq = omega (arith, cl.argc_at, cl.recived_at)

  pub apply_loop-more :
      (fuel need : ℕ)
      → got + need ≡ arity
      → applied + need < argc
      → apply_loop call (suc fuel) c argc applied pos w ≡ (
          run call code
            (read_words w.mem (c + 24) got ++ take need (drop (pos + applied) w.stack))
            w
          >>= λ r. apply_loop call fuel r.0 argc (applied + need) pos r.1)
  unfolding apply_loop
  apply_loop-more fuel need e more =
      let n : sub_word (w.mem (c + 8)) (w.mem (c + 16)) ≡ need = omega (arith, need-eq) in
      let h : ltb applied argc ≡ true = ground arith in
      let h' : leb (argc - applied) need ≡ false = leb-false (argc - applied) need (omega arith) in
      let m : need % 256 ≡ need = omega arith in
      let s : add_word applied need ≡ applied + need = omega arith in
      rw
        (
          apply_loop,
          h,
          n,
          h',
          n,
          m,
          s,
          apply_closure-run call c code arity got w cl small (omega arith) need (pos + applied) e,
        )
        refl

  pub apply_loop-last :
      (fuel : ℕ)
      → got + (argc - applied) ≡ arity
      → applied < argc
      → apply_loop call (suc fuel) c argc applied pos w
        ≡ run call code
            (read_words w.mem (c + 24) got ++ take (argc - applied) (drop (pos + applied) w.stack))
            w
  unfolding apply_loop
  apply_loop-last fuel e lt =
      let n : sub_word (w.mem (c + 8)) (w.mem (c + 16)) ≡ argc - applied = omega (arith, need-eq) in
      let h : ltb applied argc ≡ true = ground arith in
      let h' : leb (argc - applied) (argc - applied) ≡ true =
        leb-true (argc - applied) (argc - applied) (omega arith) in
      let m : (argc - applied) % 256 ≡ argc - applied = omega arith in
      rw
        (
          apply_loop,
          h,
          n,
          h',
          m,
          apply_closure-run call c code arity got w cl small (omega arith) (argc - applied)
              (pos + applied) e,
        )
        refl

-- `apply_closure_chain` on more arguments than a closure lacks runs its code on the first of them and
-- applies the closure that this returns to the others, which are as many as that closure lacks.
pub apply_closure_chain-over :
    (call : Call) (fuel c code arity got need : ℕ) (w : Runtime) (args : List ℕ) (d : ℕ)
    (v : Runtime) (code₂ arity₂ got₂ : ℕ)
    → IsClosure w.mem c code arity got
    → (arity < 256) × (got < arity) × (got + need ≡ arity)
    → (length args < 128) × (need < length args)
    → run call code (read_words w.mem (c + 24) got ++ take need args) (push args w) ≡ ok (d, v)
    → IsClosure v.mem d code₂ arity₂ got₂
    → (arity₂ < 256) × (got₂ + (length args - need) ≡ arity₂)
    → apply_closure_chain call (suc (suc fuel)) c (2 * length args + 1) args w ≡ (
        run call code₂
          (read_words v.mem (d + 24) got₂
            ++ take (length args - need) (drop (length w.stack + need) v.stack))
          v
        >>= λ r. ok (r.0, pop_to (length w.stack) r.1))
unfolding apply_closure_chain
apply_closure_chain-over call fuel c code arity got need w args d v code₂ arity₂ got₂ cl a l ran cl₂
      b =
    let n : ℕ = length args in
    let e : (2 * n + 1) % 256 / 2 ≡ n = omega arith in
    let top : ℕ = length w.stack in
    let all : take n args ≡ args = take_all n args (omega arith) in
    let pos : drop (top + 0) (w.stack ++ args) ≡ args =
      ap (λ k. drop k (w.stack ++ args)) (let z : top + 0 ≡ top = omega arith in z)
      ∙ drop-append w.stack args in
    let z : 0 + need ≡ need = omega arith in
    let first =
      apply_loop-more call c code arity got (push args w)
        (record {
          code_at = cl.code_at;
          argc_at = cl.argc_at;
          recived_at = cl.recived_at;
          zeros = cl.zeros;
        })
        a.0 a.1 n 0 top (omega arith) (suc fuel) need a.2 (omega arith) in
    let second =
      apply_loop-last call d code₂ arity₂ got₂ v cl₂ b.0 (omega arith) n need top (omega arith) fuel
        b.1 (omega arith) in
    rw (e, all, first, pos, ran, z, second) refl
