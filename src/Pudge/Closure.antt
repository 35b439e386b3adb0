-- ===== src/Pudge/Closure.antt =====
-- Closures of PudgeWithMoML/lib/runtime/runtime.c. A closure at address `c` has its code at `c`,
-- `argc` at `c + 8`, `argc_recived` at `c + 16` and its arguments from `c + 24` on. What compiled
-- code does, by way of `call_closure` in call_closure.s, is the parameter `call`.
pub mod Alloc
pub mod Values
pub mod Moved
pub mod Kept
pub mod Merge
pub mod Locals
pub mod Extend
pub mod Apply
pub mod Chain
use pudge_with_mo_ml.Base.{
  ℕ, zero, suc, ◌+◌, ◌-◌, ◌*◌, ◌/◌, ◌%◌, true, false, List, [], ◌∷◌, ◌++◌, ltb, leb, ◌==◌,
  if◌then◌else◌, length, get_or, take, drop, Outcome, ok, exit, out_of_fuel, ◌>>=◌,
}
use pudge_with_mo_ml.Base.Words.{add_word, sub_word}
use pudge_with_mo_ml.Memory.{Memory, store, copy_words, zero_words, read_words, write_words}
use pudge_with_mo_ml.Pudge.{Runtime}
use pudge_with_mo_ml.Pudge.Malloc.{my_malloc}

abbrev pub args_at : ℕ → ℕ
args_at c = c + 24

-- The local variables of a call that is under way stand on the stack, where a collection updates
-- them. The words of an array stand in the array's order.
abbrev pub push : List ℕ → Runtime → Runtime
push locals w = record w { stack = w.stack ++ locals }

abbrev pub pop_to : ℕ → Runtime → Runtime
pop_to top w = record w { stack = take top w.stack }

-- The stores of `_alloc_closure` into its new object.
unfoldable pub init_closure : (c code argc : ℕ) → Memory → Memory
init_closure c code argc m =
    zero_words (store (store (store m c code) (c + 8) argc) (c + 16) 0) (args_at c) argc

-- `_alloc_closure`; `argc` is a `uint8_t`.
unfoldable pub alloc_closure_inner : (code argc : ℕ) → Runtime → Outcome (ℕ × Runtime)
alloc_closure_inner code argc w = do
  r ← my_malloc (24 + 8 * argc) w
  ok (r.0, record r.1 { mem = init_closure r.0 code argc r.1.mem })

-- `alloc_closure`; `argc` is the tagged word of which the function keeps 8 bits.
unfoldable pub alloc_closure : (code argc : ℕ) → Runtime → Outcome (ℕ × Runtime)
alloc_closure code argc w = alloc_closure_inner code (argc % 256 / 2) w

-- `merge_closure_args` into an object, and into an array on the stack.
unfoldable pub merge_closure_args : (dest clos : ℕ) → List ℕ → Memory → Memory
merge_closure_args dest clos new_args m =
    write_words (copy_words m dest (args_at clos) (m (clos + 16))) (dest + 8 * m (clos + 16))
      new_args

unfoldable pub merged_args : (clos : ℕ) → List ℕ → Memory → List ℕ
merged_args clos new_args m = read_words m (args_at clos) (m (clos + 16)) ++ new_args

abbrev pub Call : Type 0
Call = (code : ℕ) → (args : List ℕ) → Runtime → Outcome (ℕ × Runtime)

-- All arguments are there: the code runs on them, which stand on the stack meanwhile.
unfoldable pub exec_closure : Call → (clos : ℕ) → List ℕ → Runtime → Outcome (ℕ × Runtime)
exec_closure call clos new_args w =
    let args = merged_args clos new_args w.mem in
    do r ← call (w.mem clos) args (push args w); ok (r.0, pop_to (length w.stack) r.1)

-- Some arguments are missing: a new closure with the old arguments and the new ones. The
-- allocation may move `old_clos` and what the arguments point to; both are read after it.
unfoldable pub extend_closure : (old_clos argc pos : ℕ) → Runtime → Outcome (ℕ × Runtime)
extend_closure old_clos argc pos w =
    let top = length w.stack in
    do
      r ← alloc_closure_inner (w.mem old_clos) (w.mem (old_clos + 8) % 256) (push (old_clos ∷ []) w)
      let clos = get_or r.1.stack top 0
      let new_args = take argc (drop pos r.1.stack)
      let m = merge_closure_args (args_at r.0) clos new_args r.1.mem
      let m' = store m (r.0 + 16) (add_word (m (clos + 16)) argc)
      ok (r.0, pop_to top (record r.1 { mem = m' }))

-- `_apply_closure`; its `argc` new arguments are the stack words from position `pos` on.
unfoldable pub apply_closure : Call → (old_clos argc pos : ℕ) → Runtime → Outcome (ℕ × Runtime)
apply_closure call old_clos argc pos w =
    let total = add_word (w.mem (old_clos + 16)) argc in
    if ltb (w.mem (old_clos + 8)) total
    then exit 122
    else if total == w.mem (old_clos + 8)
    then exec_closure call old_clos (take argc (drop pos w.stack)) w
    else extend_closure old_clos argc pos w

-- The loop of `_apply_closure_chain`. It goes on as long as compiled code returns closures that
-- take no argument, so it has fuel.
unfoldable pub apply_loop : Call → ℕ → (clos argc applied pos : ℕ) → Runtime → Outcome (ℕ × Runtime)
apply_loop call zero clos argc applied pos w = out_of_fuel
apply_loop call (suc fuel) clos argc applied pos w =
    let need = sub_word (w.mem (clos + 8)) (w.mem (clos + 16)) in
    let provide = argc - applied in
    elim (ltb applied argc) [
      | false ↦ ok (clos, w)
      | true ↦ elim (leb provide need) [
        | true ↦ apply_closure call clos (provide % 256) (pos + applied) w
        | false ↦ apply_closure call clos (need % 256) (pos + applied) w >>= λ r.
            apply_loop call fuel r.0 argc (add_word applied need) pos r.1
      ]
    ]

-- `apply_closure_chain`; `argc` is tagged, and `args` are the variable arguments, of which it loads
-- `argc` into an array on the stack.
unfoldable pub apply_closure_chain :
    Call → ℕ → (old_clos argc : ℕ) → List ℕ → Runtime → Outcome (ℕ × Runtime)
apply_closure_chain call fuel old_clos argc args w =
    let n = argc % 256 / 2 in
    let top = length w.stack in
    do r ← apply_loop call fuel old_clos n 0 top (push (take n args) w); ok (r.0, pop_to top r.1)
