-- ===== src/Omlet/Collect.antt =====
-- The collector of OMLet/lib/gc.c. It copies from the old heap to the current one: `collect` makes
-- the other heap the current one first.
pub mod Shared
pub mod Ends
pub mod Forest
pub mod Exact
pub mod Walk
pub mod Copy
pub mod Fields
pub mod Roots
use pudge_with_mo_ml.Base.{
  ℕ, zero, suc, ◌+◌, ◌-◌, ◌*◌, ◌/◌, Bool, true, false, not, List, [], ◌∷◌, ltb, ◌==◌, ◌&&◌,
  if◌then◌else◌, Outcome, ok, exit, fault, out_of_fuel, ◌>>=◌,
}
use pudge_with_mo_ml.Memory.{Memory, store, copy_words}
use pudge_with_mo_ml.Omlet.{Runtime, cur_heap, old_heap, set_offset, on_heap}
use pudge_with_mo_ml.Omlet.Header.{get_tag, get_color, get_size, mark, t_closure, color_marked}

-- `get_header`, and the header that is there
abbrev pub header_at : ℕ → Runtime → ℕ
header_at obj w = w.mem (obj - 8)

-- The end of `copy_object`, for a header that is not marked. Both branches on the tag copy the same
-- words. What they read past the old heap's block C leaves undefined.
unfoldable pub move_object : ℕ → Runtime → Outcome (ℕ × Runtime)
move_object obj w =
    let h = header_at obj w in
    let bytes = 8 + 8 * get_size h in
    let heap = cur_heap w in
    let dest = heap.start + heap.offset in
    if ltb heap.size (heap.offset + bytes)
    then exit 1
    else if ltb ((old_heap w).start + (old_heap w).size) (obj + 8 * get_size h)
    then fault
    else ok (
      dest + 8,
      record (set_offset (heap.offset + bytes) w) {
        mem =
            store (copy_words (store w.mem dest h) (dest + 8) obj (get_size h)) (obj - 8) (mark h);
      },
    )

unfoldable pub copy_object : ℕ → Runtime → Outcome (ℕ × Runtime)
copy_object obj w =
    if get_color (header_at obj w) == color_marked then ok (obj, w) else move_object obj w

-- the tests of the two loops: a pointer to an object that is not copied yet
unfoldable pub is_fresh : ℕ → Runtime → Bool
is_fresh v w = on_heap v (old_heap w) && not (get_color (header_at v w) == color_marked)

-- The same with the read of the header: in front of the heap's block C leaves it undefined.
unfoldable pub find_fresh : ℕ → Runtime → Outcome Bool
find_fresh v w =
    if on_heap v (old_heap w) && ltb v ((old_heap w).start + 8) then fault else ok (is_fresh v w)

-- The loop of `update_pointers`, with `update` for the function itself: `n` words from `a` on.
unfoldable pub update_fields :
    (ℕ → Runtime → Outcome Runtime) → (n a : ℕ) → Runtime → Outcome Runtime
update_fields update zero a w = ok w
update_fields update (suc n) a w = find_fresh (w.mem a) w >>= λ fresh. elim fresh [
  | false ↦ update_fields update n (a + 8) w
  | true ↦ copy_object (w.mem a) w >>= λ r.
      update r.0 (record r.1 { mem = store r.1.mem a r.0 }) >>= update_fields update n (a + 8)
]

unfoldable pub update_pointers : ℕ → (obj : ℕ) → Runtime → Outcome Runtime
update_pointers zero obj w = out_of_fuel
update_pointers (suc fuel) obj w = elim (get_tag (header_at obj w) == t_closure) [
  | false ↦ ok w
  | true ↦ update_fields (update_pointers fuel) (get_size (header_at obj w)) obj w
]

-- The loop of `mark_and_copy` over the stack words.
unfoldable pub mark_and_copy : ℕ → List ℕ → Runtime → Outcome (List ℕ × Runtime)
mark_and_copy fuel [] w = ok ([], w)
mark_and_copy fuel (v ∷ vs) w = find_fresh v w >>= λ fresh. elim fresh [
  | false ↦ mark_and_copy fuel vs w >>= λ rest. ok (v ∷ rest.0, rest.1)
  | true ↦ copy_object v w >>= λ r. update_pointers fuel r.0 r.1 >>= λ w'.
      mark_and_copy fuel vs w' >>= λ rest. ok (r.0 ∷ rest.0, rest.1)
]

unfoldable pub switch_heap : Runtime → Runtime
switch_heap w = set_offset 0 (record w { is_from = not w.is_from })

-- `collect`; `fuel` bounds the depth of `update_pointers`.
unfoldable pub collect : (fuel : ℕ) → Runtime → Outcome Runtime
collect fuel w = mark_and_copy fuel w.stack (switch_heap w) >>= λ r. ok (record r.1 { stack = r.0 })
