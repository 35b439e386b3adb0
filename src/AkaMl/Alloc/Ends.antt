-- ===== src/AkaMl/Alloc/Ends.antt =====
-- How `gc_alloc` of akaML/lib/runtime/runtime.c ends, whatever the words of the banks and of the stack
-- are.
use pudge_with_mo_ml.Base.{
  ◌^◌, ◌%◌, EndsOrFaults, EndsOrFaults-bind, ℕ, suc, ◌+◌, ◌-◌, ◌*◌, ◌≤◌, ◌<◌, ◌≡◌, refl, ◌∙◌, ap,
  inl, inr, arith, ltb, Bool-cases,
}
use pudge_with_mo_ml.Memory.{Memory, store, zero_words}
use pudge_with_mo_ml.Memory.Copy.{zero_words-Outside, zero_words_self, store_self}
use pudge_with_mo_ml.AkaMl.{Runtime, bank_start, bank_final}
use pudge_with_mo_ml.AkaMl.Header.{set_header, set_header_lem, get_tag, get_size}
use pudge_with_mo_ml.AkaMl.Collect.{collect}
use pudge_with_mo_ml.AkaMl.Collect.Ends.{IsBanks, Bounded, collect-Bounded}
use pudge_with_mo_ml.AkaMl.Alloc.{offset_of_lem, bump, bump_or_exit, gc_alloc}

-- An object of `size` words that are 0, with its header, at the end of what is in use.
pub record Placed (w : Runtime) (size tag : ℕ) (out : ℕ × Runtime) : Type 0 where
  pub bounded : Bounded w out.1
  pub above : bank_start out.1 + 8 ≤ out.0
  pub end_at : out.0 + 8 * size ≡ out.1.ptr_base
  pub tag_at : get_tag (out.1.mem (out.0 - 8)) ≡ tag
  pub size_at : get_size (out.1.mem (out.0 - 8)) ≡ size % 2 ^ 14
  pub zeros : (k : ℕ) → k < size → out.1.mem (out.0 + 8 * k) ≡ 0

module _ (w : Runtime) (size tag : ℕ) (small : size < 2 ^ 60) (byte : tag < 256) where
  bump-Placed :
      (b : Runtime)
      → Bounded w b
      → b.ptr_base + 8 * (size + 1) ≤ bank_final b
      → Placed w size tag (bump size tag b)
  unfolding bump bank_start bank_final
  bump-Placed b bd room =
      let one = offset_of_lem size (omega arith) in
      let m : Memory = store b.mem b.ptr_base (set_header size tag) in
      let e =
        ap (zero_words m (b.ptr_base + 8) size)
          (let z : b.ptr_base + 8 - 8 ≡ b.ptr_base = omega arith in z)
        ∙ zero_words-Outside m (b.ptr_base + 8) size b.ptr_base (inl (omega arith))
        ∙ store_self b.mem b.ptr_base (set_header size tag) in
      let h = set_header_lem size tag byte in
      rw one record {
        bounded = record { bank = bd.bank; in_use = (omega (arith, bd.in_use), room) };
        above = omega (arith, bd.in_use);
        end_at = omega arith;
        tag_at = ap get_tag e ∙ h.1;
        size_at = ap get_size e ∙ h.0;
        zeros = λ k lt. zero_words_self m (b.ptr_base + 8) size k lt;
      }

  -- With two units of fuel, `gc_alloc` of fewer than 2 ^ 60 words with a tag of a byte returns an
  -- object of words that are 0 in the current bank, whose header gives back the tag and 14 bits of the
  -- size, or exits with 1, or its collection does what C leaves undefined, whatever the words of the
  -- banks and of the stack are. The banks end below 2 ^ 63.
  pub gc_alloc-Ends :
      (fuel : ℕ)
      → IsBanks w
      → (w.final_bank_main < 2 ^ 63) × (w.final_bank_sub < 2 ^ 63)
      → EndsOrFaults (Placed w size tag) (gc_alloc (suc (suc fuel)) size tag w)
  unfolding gc_alloc bump_or_exit
  gc_alloc-Ends fuel b low =
      let one = offset_of_lem size (omega arith) in
      rw one elim (Bool-cases (ltb (bank_final w) (w.ptr_base + 8 * (size + 1)))) [
        | inr e ↦
            let room : w.ptr_base + 8 * (size + 1) ≤ bank_final w = ground arith in
            inr (
              inr (
                bump size tag w,
                rw e refl,
                bump-Placed w (record { bank = inl (refl, refl); in_use = b.in_use }) room,
              ))
        | inl e ↦ rw e (
            EndsOrFaults-bind (Bounded w) (Placed w size tag) (collect (suc (suc fuel)) w) _
              (collect-Bounded fuel w b)
              (λ v bd. elim (Bool-cases (ltb (bank_final v) (v.ptr_base + 8 * (size + 1)))) [
                | inl e' ↦ inl (rw (one, e') refl)
                | inr e' ↦
                    let room : v.ptr_base + 8 * (size + 1) ≤ bank_final v = ground arith in
                    inr (inr (bump size tag v, rw (one, e') refl, bump-Placed v bd room))
              ]))
      ]
