-- ===== src/Xml/Init.antt =====
-- What `rt_init` of XML/bin/runtime.c makes of the block that `malloc` returns.
use pudge_with_mo_ml.Base.{
  ℕ, ◌+◌, ◌*◌, ◌%◌, ◌/◌, ◌^◌, ◌≤◌, ◌<◌, ◌≡◌, ◌≢◌, refl, ◌⊎◌, inl, true, false, [], arith, Returns,
  ◌==◌,
}
use pudge_with_mo_ml.Memory.{holds}
use pudge_with_mo_ml.Xml.{Runtime, heap_size, rt_init}
use pudge_with_mo_ml.Xml.Value.{is_ptr, is_int}
use pudge_with_mo_ml.Xml.Heap.{IsHeap, IsClean}

-- The size that `rt_init` asks for: at least what is wanted and 2 ^ 20, and even.
pub heap_size_lem :
    (n : ℕ)
    → n < 2 ^ 61
    → (n ≤ heap_size n)
      × (2 ^ 20 ≤ heap_size n)
      × (heap_size n ≤ n + 2 ^ 20)
      × (heap_size n % 2 ≡ 0)
unfolding heap_size
heap_size_lem n h = ground arith

whole : (n : ℕ) → n < 2 ^ 61 → n % 16 ≡ 0 → heap_size n % 16 ≡ 0
unfolding heap_size
whole n h e = ground arith

odd : (n : ℕ) → 2 ^ 20 ≤ n → n < 2 ^ 61 → n % 4 ≡ 2 → heap_size n ≡ n
unfolding heap_size
odd n a b c = ground arith

none_held : (v : ℕ) → holds v [] ≡ true → ⊥
unfolding holds
none_held v h = ground arith

module _ (heap n : ℕ) (w : Runtime) (there : heap ≢ 0) (al : heap % 8 ≡ 0) where
  -- For a size that is a multiple of 16, `rt_init` makes an empty heap of two aligned halves, where the
  -- stack is empty and the tables of the types lie outside the block.
  pub rt_init-IsHeap :
      n % 16 ≡ 0
      → heap + n + 2 ^ 20 < 2 ^ 61
      → w.stack ≡ []
      → w.vt_block ≢ w.vt_closure
      → (w.vt_block < heap) ⊎ (heap + heap_size n ≤ w.vt_block)
      → (w.vt_closure < heap) ⊎ (heap + heap_size n ≤ w.vt_closure)
      → Returns
          (λ r.
            IsHeap r []
            × IsClean r []
            × (r.from_end ≡ r.from_start + heap_size n / 2)
            × (2 ^ 19 ≤ heap_size n / 2))
          (rt_init heap n w)
  unfolding rt_init
  rt_init-IsHeap e small empty differ out_block out_closure =
      let z = heap_size_lem n (omega arith) in
      let z' = whole n (omega arith) e in
      let h : (heap == 0) ≡ false = ground arith in
      (
        record w {
          from_start = heap;
          from_end = heap + heap_size n / 2;
          to_start = heap + heap_size n / 2;
          to_end = heap + heap_size n;
          alloc_ptr = heap;
          to_alloc = heap + heap_size n / 2;
          current_bank = 0;
        },
        rw h refl,
        (
          record {
            filled = omega arith;
            within = omega arith;
            halves = omega arith;
            disjoint = inl (omega arith);
            nonzero = omega arith;
            small = omega arith;
            aligned = omega arith;
            tables = differ;
            tables_elsewhere = omega arith;
            typed = λ p s o. absurd o;
            rounds_up = λ p s o. absurd o;
            fields = λ p s k o lt l. absurd o;
            roots = λ v hd. absurd (none_held v (rw empty at hd));
          },
          record {
            fields = λ p s k o lt l. absurd o;
            roots = λ v hd. absurd (none_held v (rw empty at hd));
          },
          refl,
          omega arith,
        ),
      )

  -- For a size that is two more than a multiple of 4, the second half starts at an odd address, so
  -- that no address of an object in it is taken for a pointer.
  pub rt_init-odd_half :
      2 ^ 20 ≤ n
      → n < 2 ^ 61
      → n % 4 ≡ 2
      → Returns
          (λ r. (r.to_start % 2 ≡ 1) × ((k : ℕ) → is_ptr (r.to_start + 8 * k) ≡ false))
          (rt_init heap n w)
  unfolding rt_init is_ptr is_int
  rt_init-odd_half big small e =
      let z = odd n big small e in
      let h : (heap == 0) ≡ false = ground arith in
      (
        record w {
          from_start = heap;
          from_end = heap + heap_size n / 2;
          to_start = heap + heap_size n / 2;
          to_end = heap + heap_size n;
          alloc_ptr = heap;
          to_alloc = heap + heap_size n / 2;
          current_bank = 0;
        },
        rw h refl,
        (
          omega (arith, z),
          λ k. let o : (heap + heap_size n / 2 + 8 * k) % 2 ≡ 1 = omega (arith, z) in ground arith,
        ),
      )
