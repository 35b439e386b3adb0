-- ===== src/Omlet/Closure/Curry.antt =====
-- `apply` of OMLet/lib/runtime.c on some arguments and then on the rest, where the heap has room.
use pudge_with_mo_ml.Base.{ℕ, ◌+◌, ◌*◌, ◌≤◌, ◌<◌, ◌≡◌, ap, ◌∙◌, arith, List, length, ◌++◌, ◌>>=◌}
use pudge_with_mo_ml.Memory.{read_words}
use pudge_with_mo_ml.Omlet.{Runtime, cur_heap}
use pudge_with_mo_ml.Omlet.Closure.{Call, apply}
use pudge_with_mo_ml.Omlet.Closure.Apply.{IsClosure, in_use, apply-Called, Extended, apply-fewer}

module _ (call : Call) (fuel f code arity got : ℕ) (w : Runtime) (cl : IsClosure w f code arity got)
    (args rest : List ℕ) (fewer : got + length args < arity)
    (all : got + length args + length rest ≡ arity)
    (room : (cur_heap w).offset + 8 * (3 + arity) + 8 + 8 * arity + 15 ≤ (cur_heap w).size) where
  -- What `apply` returns on too few arguments is a closure again.
  partial :
      (out : ℕ × Runtime)
      → Extended call fuel f code arity got w cl args out
      → IsClosure out.1 out.0 code arity (got + length args)
  partial out x =
      let s = ap (λ h. h.start) x.heap in
      let o = ap (λ h. h.offset) x.heap in
      record {
        code_at = x.code_at;
        arity_at = x.arity_at;
        received_at = x.received_at;
        below = omega (arith, x.pointer);
        small = cl.small;
      }

  -- A closure that is applied to some of the arguments that it lacks, and what this gives to the rest
  -- of them, calls its code once, on the arguments that it had, the first and the rest; no word of the
  -- part of the heap that was in use has changed then. The heap has room for both allocations.
  pub apply-apply :
      (w' : Runtime) × ((apply call fuel f args w >>= λ r. apply call fuel r.0 rest r.1)
        ≡ call code ((read_words w.mem (f + 24) got ++ args) ++ rest) w')
      × ((b : ℕ) → b < in_use w → w'.mem b ≡ w.mem b)
  apply-apply =
      let (out, ran, x) = apply-fewer call fuel f code arity got w cl args fewer (omega arith) in
      let s = ap (λ h. h.start) x.heap in
      let o = ap (λ h. h.offset) x.heap in
      let z = ap (λ h. h.size) x.heap in
      let (w', (run, kept)) =
        apply-Called call fuel out.0 code arity (got + length args) out.1 (partial out x) rest all
          (omega arith) in
      let e : call code (read_words out.1.mem (out.0 + 24) (got + length args) ++ rest) w'
          ≡ call code ((read_words w.mem (f + 24) got ++ args) ++ rest) w' =
        ap (λ xs. call code (xs ++ rest) w') x.args_at in
      (w', rw ran (run ∙ e), λ b lt. kept b (omega arith) ∙ x.same b lt)
