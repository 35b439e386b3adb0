-- ===== src/Xml/Alloc.antt =====
-- Allocation in XML/bin/runtime.c.
pub mod Room
pub mod Grow
pub mod Fresh
pub mod Live
use pudge_with_mo_ml.Base.{ℕ, ◌+◌, ◌/◌, ◌^◌, ltb, leb, if◌then◌else◌, Outcome, ok, abort, ◌>>=◌}
use pudge_with_mo_ml.Base.Words.{add_word}
use pudge_with_mo_ml.Memory.{Memory, store, copy_words, zero_words}
use pudge_with_mo_ml.Xml.{Runtime}
use pudge_with_mo_ml.Xml.Collect.{gc_collect, round_up, block_bytes, clos_bytes}

unfoldable pub bump : (n vt : ℕ) → Runtime → ℕ × Runtime
bump n vt w = (
  w.alloc_ptr,
  record w {
    mem = store w.mem w.alloc_ptr vt;
    alloc_ptr = w.alloc_ptr + n;
    allocations = add_word w.allocations 1;
    bytes_allocated_total = add_word w.bytes_allocated_total n;
  },
)

unfoldable pub bump_or_panic : (n vt : ℕ) → Runtime → Outcome (ℕ × Runtime)
bump_or_panic n vt w = if ltb w.from_end (w.alloc_ptr + n) then abort else ok (bump n vt w)

unfoldable pub gc_alloc_bytes : (n vt : ℕ) → Runtime → Outcome (ℕ × Runtime)
gc_alloc_bytes n vt w =
    let n' = round_up n in
    if ltb w.from_end (w.alloc_ptr + n')
    then (gc_collect w >>= bump_or_panic n' vt)
    else ok (bump n' vt w)

-- A word of 2 ^ 63 or more is a negative `int64_t`.
unfoldable pub alloc_block : (len : ℕ) → Runtime → Outcome (ℕ × Runtime)
alloc_block len w =
    if leb (2 ^ 63) len
    then abort
    else (gc_alloc_bytes (block_bytes len) w.vt_block w >>= λ r.
        ok (r.0, record r.1 { mem = store r.1.mem (r.0 + 8) len }))

-- The stores of `alloc_closure` into its new object.
unfoldable pub init_closure : (c code arity : ℕ) → Memory → Memory
init_closure c code arity m =
    zero_words (store (store (store m (c + 8) arity) (c + 16) 0) (c + 24) code) (c + 32) arity

unfoldable pub alloc_closure : (code arity : ℕ) → Runtime → Outcome (ℕ × Runtime)
alloc_closure code arity w =
    if leb (2 ^ 63) arity
    then abort
    else (gc_alloc_bytes (clos_bytes arity) w.vt_closure w >>= λ r.
        ok (r.0, record r.1 { mem = init_closure r.0 code arity r.1.mem }))

-- The local variable `src` is in a register, which a collection does not change.
unfoldable pub copy_closure : (src : ℕ) → Runtime → Outcome (ℕ × Runtime)
copy_closure src w = gc_alloc_bytes (clos_bytes (w.mem (src + 8))) w.vt_closure w >>= λ r.
    ok (r.0, record r.1 { mem = copy_words r.1.mem r.0 src (clos_bytes (r.1.mem (src + 8)) / 8) })
