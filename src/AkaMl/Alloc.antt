-- ===== src/AkaMl/Alloc.antt =====
-- `gc_alloc` of akaML/lib/runtime/runtime.c.
pub mod Ends
use pudge_with_mo_ml.Base.{
  ◌-◌, ◌^◌, ◌==◌, ◌≡◌, ◌≢◌, arith, ℕ, ◌+◌, ◌*◌, ltb, if◌then◌else◌, Outcome, ok, exit, ◌>>=◌,
}
use pudge_with_mo_ml.Base.Words.{add_word}
use pudge_with_mo_ml.Memory.{store, zero_words}
use pudge_with_mo_ml.AkaMl.{Runtime, bank_final}
use pudge_with_mo_ml.AkaMl.Header.{set_header}
use pudge_with_mo_ml.AkaMl.Collect.{collect}

-- `size + 1` as a `uint64_t`
unfoldable pub offset_of : ℕ → ℕ
offset_of size = if size == 2 ^ 64 - 1 then 0 else size + 1

pub offset_of_lem : (size : ℕ) → size ≢ 2 ^ 64 - 1 → offset_of size ≡ size + 1
unfolding offset_of
offset_of_lem size h = ground arith

-- The new object: a header, and words that are 0.
unfoldable pub bump : (size tag : ℕ) → Runtime → ℕ × Runtime
bump size tag w =
    let obj = w.ptr_base + 8 in
    (
      obj,
      record w {
        mem = zero_words (store w.mem w.ptr_base (set_header size tag)) obj size;
        ptr_base = w.ptr_base + 8 * offset_of size;
        words_allocated_total = add_word w.words_allocated_total (offset_of size);
        allocations_count = add_word w.allocations_count 1;
      },
    )

unfoldable pub bump_or_exit : (size tag : ℕ) → Runtime → Outcome (ℕ × Runtime)
bump_or_exit size tag w =
    if ltb (bank_final w) (w.ptr_base + 8 * offset_of size) then exit 1 else ok (bump size tag w)

-- `fuel` is for the collection.
unfoldable pub gc_alloc : (fuel size tag : ℕ) → Runtime → Outcome (ℕ × Runtime)
gc_alloc fuel size tag w =
    if ltb (bank_final w) (w.ptr_base + 8 * offset_of size)
    then (collect fuel w >>= bump_or_exit size tag)
    else ok (bump size tag w)
