-- ===== src/Pudge/Status/Layout.antt =====
-- The loop of `print_gc_status` on a heap.
use pudge_with_mo_ml.Base.{
  ℕ, zero, suc, ◌+◌, ◌-◌, ◌*◌, ◌<◌, ◌≡◌, refl, ◌∙◌, ap, inl, inr, true, false, List, [], ◌∷◌, arith,
  ltb, some,
}
use pudge_with_mo_ml.Pudge.{Runtime}
use pudge_with_mo_ml.Pudge.Heap.{total, IsObject, IsHeap}
use pudge_with_mo_ml.Pudge.Status.{Row, row_address, row_words, status_rows}

-- the row for an object of `t` words at word `offset`
abbrev pub row_at : (offset t : ℕ) → Runtime → Row
row_at offset t w = record {
  address = row_address offset w;
  offset = offset;
  size = t;
  words = row_words t (row_address offset w + 8) (offset + 1) w;
}

-- the rows for objects of these sizes from word `offset` on
abbrev pub layout : (offset : ℕ) → List ℕ → Runtime → List Row
layout offset [] w = []
layout offset (t ∷ ts) w = row_at offset t w ∷ layout (offset + 1 + t) ts w

status_rows-layout :
    (w : Runtime) (ts : List ℕ) (fuel offset : ℕ)
    → offset + total ts ≡ w.alloc_offset
    → ((p s : ℕ) → IsObject p s (w.new_space + 8 * offset) ts → w.mem (p - 8) ≡ s)
    → total ts < fuel
    → status_rows fuel offset w ≡ some (layout offset ts w)
unfolding status_rows
status_rows-layout w ts zero offset e hd lt = absurd (omega arith)
status_rows-layout w [] (suc fuel) offset e hd lt =
    let h : ltb offset w.alloc_offset ≡ false = ground arith in rw (status_rows, h) refl
status_rows-layout w (t ∷ ts) (suc fuel) offset e hd lt =
    let h : ltb offset w.alloc_offset ≡ true = ground arith in
    let e' : w.mem (w.new_space + 8 * offset) ≡ t =
      ap w.mem (omega arith) ∙ hd (w.new_space + 8 * offset + 8) t (inl (refl, refl)) in
    let z : w.new_space + 8 * offset + 8 + 8 * t ≡ w.new_space + 8 * (offset + 1 + t) =
      omega arith in
    let r : status_rows fuel (offset + 1 + t) w ≡ some (layout (offset + 1 + t) ts w) =
      status_rows-layout w ts fuel (offset + 1 + t) (omega arith)
        (λ p s o. hd p s (inr (rw (← z) at o))) (omega arith) in
    rw (status_rows, h, e', r)
      (ap (λ s. some (row_at offset s w ∷ layout (offset + 1 + t) ts w)) e')

-- On a heap, the loop of `print_gc_status` ends within `alloc_offset + 1` rounds and prints one row for
-- each object, in order, with its offset and its size.
pub status_rows-IsHeap :
    (w : Runtime) (ts : List ℕ)
    → IsHeap w ts
    → status_rows (w.alloc_offset + 1) 0 w ≡ some (layout 0 ts w)
status_rows-IsHeap w ts heap =
    let z : w.new_space + 8 * 0 ≡ w.new_space = omega arith in
    status_rows-layout w ts (w.alloc_offset + 1) 0 (omega (arith, heap.filled))
      (λ p s o. heap.header p s (rw z at o)) (omega (arith, heap.filled))
