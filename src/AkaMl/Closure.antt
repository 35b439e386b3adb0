-- ===== src/AkaMl/Closure.antt =====
-- Closures of akaML/lib/runtime/runtime.c, compiled with ENABLE_GC. A closure at address `c` has
-- `arity` at `c`, `args_received` at `c + 8`, its code at `c + 16` and its arguments from `c + 24`
-- on. Compiled code, called by the inline assembly of `applyN`, is the parameter `call`.
pub mod Copy
pub mod Push
pub mod Apply
use pudge_with_mo_ml.Base.{
  ℕ, zero, suc, ◌+◌, ◌-◌, ◌*◌, ◌/◌, ◌%◌, ◌≤◌, ◌<◌, ◌≡◌, arith, refl, List, [], ◌∷◌, ◌++◌, ltb, leb,
  ◌==◌, if◌then◌else◌, length, Outcome, ok, exit, abort, ◌>>=◌,
}
use pudge_with_mo_ml.Base.Words.{add_word}
use pudge_with_mo_ml.Memory.{Memory, store, copy_words, zero_words, read_words, write_words}
use pudge_with_mo_ml.AkaMl.{Runtime, bank_final}
use pudge_with_mo_ml.AkaMl.Header.{tag_closure}
use pudge_with_mo_ml.AkaMl.Alloc.{gc_alloc, bump}

-- `sizeof(closure) + arity * sizeof(void *)`
abbrev pub closure_bytes : ℕ → ℕ
closure_bytes arity = 24 + 8 * arity

abbrev pub words_of_bytes : ℕ → ℕ
words_of_bytes bytes = (bytes + 7) / 8

unfoldable pub init_closure : (c func arity : ℕ) → Memory → Memory
init_closure c func arity m =
    zero_words (store (store (store m c arity) (c + 8) 0) (c + 16) func) (c + 24) arity

unfoldable pub alloc_closure : (fuel func arity : ℕ) → Runtime → Outcome (ℕ × Runtime)
alloc_closure fuel func arity w =
    gc_alloc fuel (words_of_bytes (closure_bytes arity)) tag_closure w >>= λ r.
    ok (r.0, record r.1 { mem = init_closure r.0 func arity r.1.mem })

-- `copy_closure`. It gives `gc_alloc` the size in bytes; `memcpy` copies as many bytes.
unfoldable pub copy_closure : (fuel src : ℕ) → Runtime → Outcome (ℕ × Runtime)
copy_closure fuel src w =
    let size = closure_bytes (w.mem src) in
    gc_alloc fuel size tag_closure w >>= λ r.
    ok (r.0, record r.1 { mem = copy_words r.1.mem r.0 src (size / 8) })

abbrev pub Call : Type 0
Call = (code : ℕ) → (args : List ℕ) → Runtime → Outcome (ℕ × Runtime)

-- The array `args_all`: the arguments that the closure has, and then the new ones.
unfoldable pub gather_args : (all clos : ℕ) → List ℕ → Memory → Memory
gather_args all clos args m =
    let received = m (clos + 8) in
    write_words (copy_words m all (clos + 24) received) (all + 8 * received) args

-- The new closure's arguments, stored one by one behind those that it has.
unfoldable pub push_args : (clos : ℕ) → List ℕ → Memory → Memory
push_args clos [] m = m
push_args clos (x ∷ xs) m =
    push_args clos xs
      (store (store m (clos + 24 + 8 * m (clos + 8)) x) (clos + 8) (add_word (m (clos + 8)) 1))

-- The end of `applyN` for a closure that still lacks arguments.
abbrev pub apply_partial : (fuel f : ℕ) → List ℕ → (all : ℕ) → Runtime → Outcome (ℕ × Runtime)
apply_partial fuel f args all w = copy_closure fuel f w >>= λ r.
    let new_args = read_words r.1.mem (all + 8 * r.1.mem (f + 8)) (length args) in
    ok (r.0, record r.1 { mem = push_args r.0 new_args r.1.mem })

-- `applyN` with the array `all` filled. What the inline assembly does is `call`.
unfoldable pub apply_gathered :
    Call → (fuel f : ℕ) → List ℕ → (all : ℕ) → Runtime → Outcome (ℕ × Runtime)
apply_gathered call fuel f args all w =
    let m = w.mem in
    if m (f + 8) + length args == m f
    then call (m (f + 16)) (read_words m all (m f)) w
    else apply_partial fuel f args all w

-- `applyN`; a failing `assert` aborts. The local variables `f` and `args_all` are in registers,
-- which a collection does not change.
unfoldable pub apply_n : Call → (fuel f : ℕ) → List ℕ → Runtime → Outcome (ℕ × Runtime)
apply_n call fuel f args w =
    if ltb (w.mem f) (w.mem (f + 8) + length args)
    then abort
    else (gc_alloc fuel (words_of_bytes (8 * w.mem f)) tag_closure w >>= λ r.
        let w' = record r.1 { mem = gather_args r.0 f args r.1.mem } in
        apply_gathered call fuel f args r.0 w')
