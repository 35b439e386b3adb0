-- ===== src/Xml/Collect.antt =====
-- The copying collector of XML/bin/runtime.c (`forward_obj`, `gc_collect`). A block has its type at
-- `p`, `len` at `p + 8` and its elements from `p + 16` on; a closure has its type at `p`, `arity` at
-- `p + 8`, `received` at `p + 16`, its code at `p + 24` and its arguments from `p + 32` on.
pub mod Forward
pub mod Invariant
pub mod Advance
pub mod Step
pub mod Words
pub mod Objects
pub mod Roots
pub mod Graph
pub mod Preserve
use pudge_with_mo_ml.Base.{
  ℕ, zero, suc, ◌+◌, ◌-◌, ◌*◌, ◌/◌, ◌%◌, ◌^◌, Bool, true, false, not, ◌&&◌, List, [], ◌∷◌, ltb,
  ◌==◌, if◌then◌else◌, Outcome, ok, abort, fault, out_of_fuel, ◌>>=◌,
}
use pudge_with_mo_ml.Base.Words.{add_word}
use pudge_with_mo_ml.Memory.{store, copy_words}
use pudge_with_mo_ml.Xml.{Runtime, in_from, in_to}
use pudge_with_mo_ml.Xml.Value.{is_ptr, slt}

-- `block_bytes_for_len` and `clos_bytes_for_arity`, in which `size_t` wraps
unfoldable pub block_bytes : ℕ → ℕ
block_bytes len = (16 + 8 * len) % 2 ^ 64

unfoldable pub clos_bytes : ℕ → ℕ
clos_bytes arity = (32 + 8 * arity) % 2 ^ 64

-- `(n + 7u) & ~7u`, where the mask has 32 bits, so that the upper half of the word is cut off
unfoldable pub round_up : ℕ → ℕ
round_up n = add_word n 7 % 2 ^ 32 / 8 * 8

-- The call of `size_bytes` by way of the type. Any other type is none of the runtime's tables.
unfoldable pub size_bytes : ℕ → Runtime → Outcome ℕ
size_bytes p w =
    if w.mem p == w.vt_block
    then ok (block_bytes (w.mem (p + 8)))
    else if w.mem p == w.vt_closure
    then ok (clos_bytes (w.mem (p + 8)))
    else fault

-- The end of `forward_obj`, at an object of `sz` bytes that is not forwarded yet.
unfoldable pub move_obj : (old sz : ℕ) → Runtime → Outcome (ℕ × Runtime)
move_obj old sz w =
    let dst = w.to_alloc in
    if ltb w.to_end (dst + round_up sz)
    then abort
    else ok (
      dst,
      record w {
        mem = store (copy_words w.mem dst old (sz / 8)) old dst;
        to_alloc = dst + round_up sz;
      },
    )

unfoldable pub forward_obj : ℕ → Runtime → Outcome (ℕ × Runtime)
forward_obj old w =
    if not (in_from old w)
    then ok (old, w)
    else if in_to (w.mem old) w
    then ok (w.mem old, w)
    else (size_bytes old w >>= λ sz. move_obj old sz w)

unfoldable pub forward_val : ℕ → Runtime → Outcome (ℕ × Runtime)
forward_val v w =
    if not (is_ptr v) then ok (v, w) else if not (in_from v w) then ok (v, w) else forward_obj v w

-- The loops of `block_scan` and `clos_scan`: `n` words from address `a` on.
unfoldable pub scan_words : (n a : ℕ) → Runtime → Outcome Runtime
scan_words zero a w = ok w
scan_words (suc n) a w =
    forward_val (w.mem a) w >>= λ r. scan_words n (a + 8) (record r.1 { mem = store r.1.mem a r.0 })

-- The number of rounds of a loop from 0 up to an `int64_t`.
abbrev pub rounds : ℕ → ℕ
rounds n = if ltb n (2 ^ 63) then n else 0

unfoldable pub block_scan : ℕ → Runtime → Outcome Runtime
block_scan p w = scan_words (rounds (w.mem (p + 8))) (p + 16) w

unfoldable pub clos_scan : ℕ → Runtime → Outcome Runtime
clos_scan p w = scan_words (rounds (w.mem (p + 16))) (p + 32) w

-- The call of `scan` by way of the type.
unfoldable pub scan : ℕ → Runtime → Outcome Runtime
scan p w =
    if w.mem p == w.vt_block
    then block_scan p w
    else if w.mem p == w.vt_closure
    then clos_scan p w
    else fault

-- The roots: the stack words in turn.
unfoldable pub scan_stack : List ℕ → Runtime → Outcome (List ℕ × Runtime)
scan_stack [] w = ok ([], w)
scan_stack (v ∷ vs) w = (if is_ptr v && in_from v w then forward_obj v w else ok (v, w)) >>= λ r.
    scan_stack vs r.1 >>= λ rest. ok (r.0 ∷ rest.0, rest.1)

-- The copied objects in turn, those that the loop copies itself included. The size is read after
-- the object's scan, as the type may be.
unfoldable pub scan_to : ℕ → (p : ℕ) → Runtime → Outcome Runtime
scan_to zero p w = out_of_fuel
scan_to (suc fuel) p w = elim (ltb p w.to_alloc) [
  | false ↦ ok w
  | true ↦ scan p w >>= λ w'. size_bytes p w' >>= λ sz. scan_to fuel (p + round_up sz) w'
]

unfoldable pub swap_spaces : Runtime → Runtime
swap_spaces w = record w {
  from_start = w.to_start;
  from_end = w.to_end;
  to_start = w.from_start;
  to_end = w.from_end;
  alloc_ptr = w.to_alloc;
  runs = add_word w.runs 1;
  current_bank = 1 - w.current_bank;
}

-- `gc_collect` and `collect`. An object has two words at least.
unfoldable pub gc_collect : Runtime → Outcome Runtime
gc_collect w =
    let fuel = (w.to_end - w.to_start) / 16 + 1 in
    do
      roots ← scan_stack w.stack (record w { to_alloc = w.to_start })
      w' ← scan_to fuel w.to_start (record roots.1 { stack = roots.0 })
      ok (swap_spaces w')
