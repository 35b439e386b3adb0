-- ===== src/AkaMl/Collect.antt =====
-- The collector of akaML/lib/runtime/runtime.c.
pub mod Trace
pub mod Ends
use pudge_with_mo_ml.Base.{
  ℕ, zero, suc, ◌+◌, ◌-◌, ◌*◌, ◌/◌, ◌%◌, Bool, true, false, ◌&&◌, ◌||◌, not, List, [], ◌∷◌, Option,
  none, some, ltb, leb, ◌==◌, if◌then◌else◌, length, get_or, Outcome, ok, exit, fault, out_of_fuel,
  ◌>>=◌,
}
use pudge_with_mo_ml.Base.Words.{add_word}
use pudge_with_mo_ml.Memory.{Memory, store, copy_words}
use pudge_with_mo_ml.AkaMl.{Runtime, bank_start, bank_final, is_in_bank_cur, is_in_bank_old}
use pudge_with_mo_ml.AkaMl.Header.{set_header, get_size, get_tag, is_header}

-- The walk down from `p` to the nearest header word, as long as the address is not NULL and lies in
-- the bank. It takes at most a step for each word below `p`.
unfoldable pub find_header : ℕ → (ℕ → Bool) → ℕ → Memory → Option ℕ
find_header zero in_bank p m = none
find_header (suc fuel) in_bank p m = elim (not (p == 0) && in_bank p) [
  | false ↦ none
  | true ↦ elim (is_header (m p)) [ true ↦ some p | false ↦ find_header fuel in_bank (p - 8) m ]
]

-- `get_header`; with no header it exits with 1.
unfoldable pub get_header : ℕ → Runtime → Outcome ℕ
get_header obj w = elim (find_header (obj / 8 + 1) (λ p. is_in_bank_old p w) obj w.mem) [
  | none ↦ exit 1
  | some p ↦ ok p
]

-- `get_step_to_header`; `none` is -1.
unfoldable pub get_step_to_header : ℕ → Runtime → Option ℕ
get_step_to_header obj w = elim (find_header (obj / 8 + 1) (λ p. is_in_bank_cur p w) obj w.mem) [
  | none ↦ none
  | some p ↦ some ((obj - p) / 8)
]

-- The end of `copy_object`, with the header found. Both branches on the tag copy `size` words.
unfoldable pub copy_with_header : (obj header : ℕ) → Runtime → Outcome (ℕ × Runtime)
copy_with_header obj header w =
    let size = get_size (w.mem header) in
    let tag = get_tag (w.mem header) in
    let obj_sub = w.ptr_base + 8 in
    if ltb (bank_final w) (w.ptr_base + 8 * (size + 1))
    then exit 1
    else ok (
      obj_sub,
      record w {
        mem = copy_words (store w.mem w.ptr_base (set_header size tag)) obj_sub obj size;
        ptr_base = w.ptr_base + 8 * (size + 1);
      },
    )

unfoldable pub copy_object : (obj : ℕ) → Runtime → Outcome (ℕ × Runtime)
copy_object obj w = get_header obj w >>= λ header. copy_with_header obj header w

-- The loop of `update_ptr_on_stack` over the cells behind the one that held `value_old`.
unfoldable pub update_cells : (value_old ptr_sub : ℕ) → List ℕ → List ℕ
update_cells value_old ptr_sub [] = []
update_cells value_old ptr_sub (x ∷ xs) =
    (if not (x == 0) && x == value_old then ptr_sub else x) ∷ update_cells value_old ptr_sub xs

-- Where `mark_and_copy` finds a word: in the stack cell with this index, or in the heap.
pub data Place : Type 0 where
  cell : ℕ → Place
  word : ℕ → Place

unfoldable pub read : Place → Runtime → ℕ
read (cell i) w = get_or w.stack i 0
read (word a) w = w.mem a

unfoldable pub set_cell : List ℕ → ℕ → ℕ → List ℕ
set_cell [] i v = []
set_cell (x ∷ xs) zero v = v ∷ xs
set_cell (x ∷ xs) (suc i) v = x ∷ set_cell xs i v

unfoldable pub write : Place → ℕ → Runtime → Runtime
write (cell i) v w = record w { stack = set_cell w.stack i v }
write (word a) v w = record w { mem = store w.mem a v }

unfoldable pub update_from : ℕ → (value_old ptr_sub : ℕ) → List ℕ → List ℕ
update_from i value_old ptr_sub [] = []
update_from zero value_old ptr_sub (x ∷ xs) = update_cells value_old ptr_sub (x ∷ xs)
update_from (suc i) value_old ptr_sub (x ∷ xs) = x ∷ update_from i value_old ptr_sub xs

-- `update_ptr_on_stack`. From a word in the heap the loop runs over everything between the heap and
-- the stack, which C leaves undefined.
unfoldable pub update_ptr_on_stack : Place → (ptr_sub : ℕ) → Runtime → Outcome Runtime
update_ptr_on_stack (cell i) ptr_sub w =
    ok (record w { stack = update_from (i + 1) (get_or w.stack i 0) ptr_sub w.stack })
update_ptr_on_stack (word a) ptr_sub w = fault

-- The loop of `update_args`, with `mark` for `mark_and_copy`: `n` words from address `a` on.
unfoldable pub mark_words :
    (Place → Runtime → Outcome Runtime) → (n a : ℕ) → Runtime → Outcome Runtime
mark_words mark zero a w = ok w
mark_words mark (suc n) a w = mark (word a) w >>= mark_words mark n (a + 8)

-- `update_args`
unfoldable pub update_args : (Place → Runtime → Outcome Runtime) → ℕ → Runtime → Outcome Runtime
update_args mark p w = elim (get_step_to_header p w) [
  | none ↦ ok w
  | some step ↦
      if step == 0
      then ok w
      else if ltb step 3
      then mark (word p) w
      else let header = p - 8 * step in
        mark_words mark (get_size (w.mem header) - 2) (header + 16) w
]

-- `mark_and_copy`, which calls itself by way of `update_args`.
unfoldable pub mark_and_copy : ℕ → Place → Runtime → Outcome Runtime
mark_and_copy zero p w = out_of_fuel
mark_and_copy (suc fuel) p w =
    let value = read p w in
    elim (value == 0 || not (value % 8 == 0)) [
      | true ↦ ok w
      | false ↦ elim (is_in_bank_old value w) [
        | false ↦ ok w
        | true ↦ copy_object value w >>= λ r. update_ptr_on_stack p r.0 r.1 >>= λ w'.
            update_args (mark_and_copy fuel) r.0 w' >>= λ w''. ok (write p r.0 w'')
      ]
    ]

-- The loop of `collect`: `n` cells from cell `i` on.
unfoldable pub mark_stack : ℕ → (n i : ℕ) → Runtime → Outcome Runtime
mark_stack fuel zero i w = ok w
mark_stack fuel (suc n) i w = mark_and_copy fuel (cell i) w >>= mark_stack fuel n (i + 1)

unfoldable pub switch_bank : Runtime → Runtime
switch_bank w =
    let w' = record w { bank_current = 1 - w.bank_current } in
    record w' { ptr_base = bank_start w' }

-- `collect`. With no stack set, or nothing on it, there is no cell to scan and it returns.
unfoldable pub collect : ℕ → Runtime → Outcome Runtime
collect fuel w = elim (length w.stack == 0) [
  | true ↦ ok w
  | false ↦ mark_stack fuel (length w.stack) 0 (switch_bank w) >>= λ w'.
      ok (record w' { collections_count = add_word w'.collections_count 1 })
]
