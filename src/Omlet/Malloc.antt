-- ===== src/Omlet/Malloc.antt =====
-- `omlet_malloc` of OMLet/lib/gc.c.
pub mod Room
pub mod Ends
pub mod Live
use pudge_with_mo_ml.Base.{ℕ, ◌+◌, ◌*◌, ◌/◌, ltb, if◌then◌else◌, Outcome, ok, exit, ◌>>=◌}
use pudge_with_mo_ml.Base.Words.{add_word}
use pudge_with_mo_ml.Memory.{store}
use pudge_with_mo_ml.Omlet.{Runtime, cur_heap, set_offset}
use pudge_with_mo_ml.Omlet.Header.{make_header}
use pudge_with_mo_ml.Omlet.Collect.{collect}

abbrev pub words_of_bytes : ℕ → ℕ
words_of_bytes size = add_word size 7 / 8

unfoldable pub bump : (words tag : ℕ) → Runtime → ℕ × Runtime
bump words tag w =
    let heap = cur_heap w in
    let p = heap.start + heap.offset in
    (
      p + 8,
      record (set_offset (heap.offset + (8 + 8 * words)) w) {
        mem = store w.mem p (make_header tag words);
      },
    )

unfoldable pub bump_or_exit : (words tag : ℕ) → Runtime → Outcome (ℕ × Runtime)
bump_or_exit words tag w =
    if ltb (cur_heap w).size ((cur_heap w).offset + (8 + 8 * words))
    then exit 1
    else ok (bump words tag w)

-- `fuel` is for the collection. Offsets are within the size of a heap, so that the sums do not wrap.
unfoldable pub omlet_malloc : (fuel size tag : ℕ) → Runtime → Outcome (ℕ × Runtime)
omlet_malloc fuel size tag w =
    let words = words_of_bytes size in
    if ltb (cur_heap w).size ((cur_heap w).offset + (8 + 8 * words))
    then (collect fuel w >>= bump_or_exit words tag)
    else ok (bump words tag w)
