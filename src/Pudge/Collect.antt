-- ===== src/Pudge/Collect.antt =====
-- The copying collector of PudgeWithMoML/lib/runtime/runtime.c (`update_stack_data_ptrs`,
-- `_gc_collect`). Offsets count words from the start of a space, so they stay far below 2 ^ 64.
pub mod Copied
pub mod Invariant
pub mod Advance
pub mod Stage
pub mod Roots
pub mod First
pub mod Second
pub mod Correct
pub mod Graph
pub mod Preserve
pub mod Twice
use pudge_with_mo_ml.Base.{
  ℕ, zero, suc, ◌+◌, ◌-◌, ◌*◌, ◌%◌, ◌^◌, Bool, true, false, ◌||◌, ltb, ◌==◌, if◌then◌else◌, Outcome,
  ok, exit, out_of_fuel, ◌>>=◌,
}
use pudge_with_mo_ml.Base.Words.{add_word}
use pudge_with_mo_ml.Memory.{Memory, store, copy_words, holds, replace}
use pudge_with_mo_ml.Pudge.{Runtime}

-- `(size_t)-1`, the mark of an object that has moved.
abbrev pub moved : ℕ
moved = 2 ^ 64 - 1

unfoldable pub update_stack_data_ptrs : (old new : ℕ) → Runtime → Runtime
update_stack_data_ptrs old new w = record w {
  stack = replace old new w.stack;
  globals = replace old new w.globals;
}

-- The search for one pointer to the object in the globals and on the stack.
unfoldable pub found : ℕ → Runtime → Bool
found p w = holds p w.globals || holds p w.stack

-- The header of a moved object becomes -1, and its first word the new pointer.
unfoldable pub mark_moved : (pointer new_pointer : ℕ) → Memory → Memory
mark_moved p q m = store (store m (p - 8) moved) p q

-- The copy of an object of the first pass, to word `off` of the old space.
unfoldable pub copy_root : (pointer size off : ℕ) → Runtime → Runtime
copy_root p size off w =
    let q = w.old_space + 8 * (off + 1) in
    let m = copy_words (store w.mem (w.old_space + 8 * off) size) q p size in
    let w' =
      update_stack_data_ptrs p q (record w { mem = m; obj_count = add_word w.obj_count 1 }) in
    record w' { mem = mark_moved p q w'.mem }

-- One round of the first pass, at the object whose header is word `cur` of the new space.
unfoldable pub visit_object : (cur size off : ℕ) → Runtime → ℕ × Runtime
visit_object cur size off w =
    let p = w.new_space + 8 * (cur + 1) in
    if found p w then (off + 1 + size, copy_root p size off w) else (off, w)

-- The first pass: the objects of the new space in turn, from word `cur` on.
unfoldable pub scan_roots : ℕ → (cur off : ℕ) → Runtime → Outcome (ℕ × Runtime)
scan_roots zero cur off w = out_of_fuel
scan_roots (suc fuel) cur off w =
    let size = w.mem (w.new_space + 8 * cur) in
    elim (ltb cur w.alloc_offset) [
      | false ↦ ok (off, w)
      | true ↦ elim (size == 0) [
        | true ↦ exit 122
        | false ↦
            let next = visit_object cur size off w in
            scan_roots fuel (cur + (size + 1)) next.0 next.1
      ]
    ]

-- An object that the second pass finds not copied yet: `d` is the word of the old space that points
-- to it.
unfoldable pub copy_field : (d pointer size off : ℕ) → Runtime → Runtime
copy_field d p size off w =
    let q = w.old_space + 8 * (off + 1) in
    let header = store w.mem (w.old_space + 8 * off) size in
    let m = copy_words (store header (w.old_space + 8 * d) q) q p size in
    record w { mem = mark_moved p q m; obj_count = add_word w.obj_count 1 }

-- `data & 7`, the remainder by 8, and the bounds of the part of the new space in use.
unfoldable pub is_reference : ℕ → Runtime → Bool
is_reference v w =
    if v % 8 == 0
    then (if ltb v w.new_space then false else ltb v (w.new_space + 8 * w.alloc_offset))
    else false

-- One word of the second pass that points to an object.
unfoldable pub visit_reference : (d v off : ℕ) → Runtime → ℕ × Runtime
visit_reference d v off w =
    let size = w.mem (v - 8) in
    if size == moved
    then (off, record w { mem = store w.mem (w.old_space + 8 * d) (w.mem v) })
    else (off + 1 + size, copy_field d v size off w)

-- One word of the second pass.
unfoldable pub visit_field : (d off : ℕ) → Runtime → ℕ × Runtime
visit_field d off w =
    let v = w.mem (w.old_space + 8 * d) in
    if is_reference v w then visit_reference d v off w else (off, w)

-- The words of one copied object, `n` of them from word `d` on.
unfoldable pub scan_fields : (n d off : ℕ) → Runtime → ℕ × Runtime
scan_fields zero d off w = (off, w)
scan_fields (suc n) d off w = let next = visit_field d off w in scan_fields n (d + 1) next.0 next.1

-- The second pass: the copied objects in turn, those that it copies itself included.
unfoldable pub scan_copied : ℕ → (cur off : ℕ) → Runtime → Outcome (ℕ × Runtime)
scan_copied zero cur off w = out_of_fuel
scan_copied (suc fuel) cur off w =
    let size = w.mem (w.old_space + 8 * cur) in
    let next = scan_fields size (cur + 1) off w in
    elim (ltb cur off) [
      | false ↦ ok (off, w)
      | true ↦ scan_copied fuel (cur + 1 + size) next.0 next.1
    ]

-- The spaces change places.
unfoldable pub swap_spaces : (off : ℕ) → Runtime → Runtime
swap_spaces off w = record w {
  new_space = w.old_space;
  old_space = w.new_space;
  alloc_offset = off;
  collect_count = add_word w.collect_count 1;
}

-- `_gc_collect`, and `gc_collect`, for which the model's stack is already up to date. Each round of
-- a pass moves on by a word at least, so `alloc_offset + 1` rounds are enough.
unfoldable pub collect : Runtime → Outcome Runtime
collect w = if w.alloc_offset == 0 then ok w else do
  first ← scan_roots (w.alloc_offset + 1) 0 0 (record w { obj_count = 0 })
  second ← scan_copied (w.alloc_offset + 1) 0 first.0 first.1
  ok (swap_spaces second.0 second.1)
