-- ===== src/Omlet/Malloc/Ends.antt =====
-- How `omlet_malloc` of OMLet/lib/gc.c ends, whatever the words of the heaps and of the stack are.
use pudge_with_mo_ml.Base.{
  ℕ, ◌+◌, ◌*◌, ◌^◌, ◌≤◌, ◌<◌, ◌≡◌, refl, ap, ◌⊎◌, inl, inr, arith, ltb, EndsOrFaults,
  EndsOrFaults-bind, Bool-cases,
}
use pudge_with_mo_ml.Memory.{store}
use pudge_with_mo_ml.Omlet.{Runtime, cur_heap, old_heap, cur_heap-set_offset}
use pudge_with_mo_ml.Omlet.Header.{make_header}
use pudge_with_mo_ml.Omlet.Collect.{collect}
use pudge_with_mo_ml.Omlet.Collect.Ends.{Swapped, collect-Swapped}
use pudge_with_mo_ml.Omlet.Malloc.{words_of_bytes, bump, bump_or_exit, omlet_malloc}

-- An object of `size` bytes within the part in use of the current heap, which stays within the heap
-- and is one of the two heaps.
pub record Placed (w : Runtime) (size : ℕ) (out : ℕ × Runtime) : Type 0 where
  pub above : (cur_heap out.1).start + 8 ≤ out.0
  pub below : out.0 + size ≤ (cur_heap out.1).start + (cur_heap out.1).offset
  pub within : (cur_heap out.1).offset ≤ (cur_heap out.1).size
  pub same_or_other :
      (((cur_heap out.1).start ≡ (cur_heap w).start) × ((cur_heap out.1).size ≡ (cur_heap w).size))
      ⊎ (((cur_heap out.1).start ≡ (old_heap w).start)
          × ((cur_heap out.1).size ≡ (old_heap w).size))

module _ (w : Runtime) (size tag : ℕ) (small : size < 2 ^ 62) where
  bump-Placed :
      (b : Runtime)
      → (((cur_heap b).start ≡ (cur_heap w).start) × ((cur_heap b).size ≡ (cur_heap w).size))
        ⊎ (((cur_heap b).start ≡ (old_heap w).start) × ((cur_heap b).size ≡ (old_heap w).size))
      → (cur_heap b).offset + (8 + 8 * words_of_bytes size) ≤ (cur_heap b).size
      → Placed w size (bump (words_of_bytes size) tag b)
  unfolding bump
  bump-Placed b h room =
      let n : ℕ = (cur_heap b).offset + (8 + 8 * words_of_bytes size) in
      let c =
        cur_heap-set_offset n
          (store b.mem ((cur_heap b).start + (cur_heap b).offset)
            (make_header tag (words_of_bytes size)))
          b in
      let s = ap (λ k. k.start) c in
      let z = ap (λ k. k.size) c in
      let o = ap (λ k. k.offset) c in
      record {
        above = omega (arith, s);
        below = omega (arith, s, o);
        within = omega (arith, z, o);
        same_or_other = omega (arith, s, z, h);
      }

  -- Whatever the words of the heaps and of the stack are, `omlet_malloc` of less than 2 ^ 62 bytes
  -- exits with 1, returns an object in the part in use of the current heap, which stays within its size
  -- and is one of the two heaps, or its collection reads outside the heap, which C leaves undefined.
  -- The heaps are of less than 2 ^ 62 bytes, what is in use of the current one is within its size, and
  -- `fuel` + 1 is more than an eighth of the size of the heap that a collection copies to.
  pub omlet_malloc-Ends :
      (fuel : ℕ)
      → (cur_heap w).offset ≤ (cur_heap w).size
      → (cur_heap w).size < 2 ^ 62
      → (old_heap w).size < 2 ^ 62
      → (old_heap w).size < 8 * fuel + 8
      → EndsOrFaults (Placed w size) (omlet_malloc fuel size tag w)
  unfolding omlet_malloc bump_or_exit
  omlet_malloc-Ends fuel fits small_cur small_old lt =
      let n : ℕ = 8 + 8 * words_of_bytes size in
      elim (Bool-cases (ltb (cur_heap w).size ((cur_heap w).offset + n))) [
        | inr e ↦
            let room : (cur_heap w).offset + n ≤ (cur_heap w).size = ground arith in
            inr (
              inr (
                bump (words_of_bytes size) tag w,
                rw e refl,
                bump-Placed w (inl (refl, refl)) room,
              ))
        | inl e ↦ rw e (
            EndsOrFaults-bind (Swapped w) (Placed w size) (collect fuel w) _
              (collect-Swapped fuel w small_old lt)
              (λ b s. elim (Bool-cases (ltb (cur_heap b).size ((cur_heap b).offset + n))) [
                | inl e' ↦ inl (rw e' refl)
                | inr e' ↦
                    let room : (cur_heap b).offset + n ≤ (cur_heap b).size = ground arith in
                    inr (
                      inr (
                        bump (words_of_bytes size) tag b,
                        rw e' refl,
                        bump-Placed b (inr (s.start, s.size)) room,
                      ))
              ]))
      ]
