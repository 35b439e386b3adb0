-- ===== src/Omlet/Closure.antt =====
-- Closures of OMLet/lib/runtime.c, compiled with ENABLE_GC. A closure at `c` has its code at `c`,
-- `arity` at `c + 8`, `received` at `c + 16` and its arguments from `c + 24` on. `callf`, which
-- OMLet/lib/callf.s defines, is the parameter `call`.
pub mod Apply
pub mod Curry
use pudge_with_mo_ml.Base.{
  ℕ, ◌+◌, ◌*◌, ◌%◌, Bool, List, length, ◌==◌, if◌then◌else◌, Outcome, ok, fault, ltb, leb, ◌||◌,
  ◌^◌, ◌>>=◌,
}
use pudge_with_mo_ml.Base.Int.{ℤ, sar1}
use pudge_with_mo_ml.Base.Words.{add_word, signed}
use pudge_with_mo_ml.Memory.{Memory, store, copy_words, zero_words, read_words, write_words}
use pudge_with_mo_ml.Omlet.{Runtime}
use pudge_with_mo_ml.Omlet.Header.{t_unboxed, t_closure}
use pudge_with_mo_ml.Omlet.Malloc.{omlet_malloc}

abbrev pub Call : Type 0
Call = (code : ℕ) → (args : List ℕ) → Runtime → Outcome (ℕ × Runtime)

-- `my_alloc`, which is `omlet_malloc` with ENABLE_GC
abbrev pub my_alloc : (fuel size tag : ℕ) → Runtime → Outcome (ℕ × Runtime)
my_alloc fuel size tag w = omlet_malloc fuel size tag w

unfoldable pub init_closure : (c code arity : ℕ) → Memory → Memory
init_closure c code arity m =
    zero_words (store (store (store m c code) (c + 8) arity) (c + 16) 0) (c + 24) arity

unfoldable pub alloc_closure : (fuel code arity : ℕ) → Runtime → Outcome (ℕ × Runtime)
alloc_closure fuel code arity w = my_alloc fuel (24 + 8 * arity) t_closure w >>= λ r.
    ok (r.0, record r.1 { mem = init_closure r.0 code arity r.1.mem })

-- `is_pointer`
unfoldable pub is_pointer : ℕ → Bool
is_pointer arg = arg % 2 == 0

-- The two loops over the old arguments of `f` and the new ones, into an array at `dest`.
unfoldable pub merge_args : (dest f : ℕ) → List ℕ → Memory → Memory
merge_args dest f args m =
    let received = m (f + 16) in
    write_words (copy_words m dest (f + 24) received) (dest + 8 * received) args

-- All arguments are there. The local variable `f` is in a register, which a collection does not
-- change; so it is below.
unfoldable pub apply_full : Call → (fuel f : ℕ) → List ℕ → Runtime → Outcome (ℕ × Runtime)
apply_full call fuel f args w = my_alloc fuel (8 * w.mem (f + 8)) t_unboxed w >>= λ r.
    let m = merge_args r.0 f args r.1.mem in
    call (m f) (read_words m r.0 (m (f + 8))) (record r.1 { mem = m })

-- More arguments than the closure takes, or more than an `int` counts.
abbrev pub overruns : (received arity : ℕ) → List ℕ → Bool
overruns received arity args =
    ltb arity (received + length args) || leb (2 ^ 31) (received + length args)

-- The new closure. Where the arguments run past its end, C leaves the stores undefined.
unfoldable pub apply_partial : (fuel f total : ℕ) → List ℕ → Runtime → Outcome (ℕ × Runtime)
apply_partial fuel f total args w = my_alloc fuel (24 + 8 * w.mem (f + 8)) t_closure w >>= λ r.
    let c = r.0 in
    let m = r.1.mem in
    let fields = store (store (store m c (m f)) (c + 8) (m (f + 8))) (c + 16) total in
    if overruns (m (f + 16)) (m (f + 8)) args
    then fault
    else ok (c, record r.1 { mem = merge_args (c + 24) f args fields })

unfoldable pub apply : Call → (fuel f : ℕ) → List ℕ → Runtime → Outcome (ℕ × Runtime)
apply call fuel f args w =
    let total = add_word (w.mem (f + 16)) (length args) in
    if total == w.mem (f + 8)
    then apply_full call fuel f args w
    else apply_partial fuel f total args w

-- The integer that `printf` is given.
unfoldable pub print_int : ℕ → ℤ
print_int a = sar1 (signed a)
