-- ===== src/Pudge/Malloc.antt =====
-- `my_malloc` of PudgeWithMoML/lib/runtime/runtime.c.
pub mod Room
pub mod Grow
pub mod Live
use pudge_with_mo_ml.Base.{
  ℕ, ◌+◌, ◌-◌, ◌*◌, ◌/◌, ◌%◌, Bool, leb, ◌==◌, if◌then◌else◌, Outcome, ok, exit, ◌>>=◌,
}
use pudge_with_mo_ml.Base.Words.{add_word}
use pudge_with_mo_ml.Memory.{store}
use pudge_with_mo_ml.Pudge.{Runtime}
use pudge_with_mo_ml.Pudge.Collect.{collect}

-- the size in bytes, rounded up to whole words
unfoldable pub round_up : ℕ → ℕ
round_up size = if size % 8 == 0 then size else add_word size (8 - size % 8)

-- the test for a full space
unfoldable pub is_full : (words : ℕ) → Runtime → Bool
is_full words w = leb w.space_capacity (add_word w.alloc_offset (add_word words 1))

-- Status 122 if the space is still full after a collection.
unfoldable pub check_room : (words : ℕ) → Runtime → Outcome Runtime
check_room words w = if is_full words w then exit 122 else ok w

-- A collection if the space is full.
unfoldable pub make_room : (words : ℕ) → Runtime → Outcome Runtime
make_room words w = if is_full words w then (collect w >>= check_room words) else ok w

-- The object at the end of the part in use, and the counters.
unfoldable pub bump : (size : ℕ) → Runtime → ℕ × Runtime
bump size w =
    let words = size / 8 in
    let start = w.alloc_offset + 1 in
    (
      w.new_space + 8 * start,
      record w {
        obj_count = add_word w.obj_count 1;
        mem = store w.mem (w.new_space + 8 * w.alloc_offset) words;
        alloc_offset = start + words;
        alloc_count = add_word w.alloc_count 1;
        alloc_bytes_count = add_word w.alloc_bytes_count (add_word size 8);
      },
    )

unfoldable pub my_malloc : (size : ℕ) → Runtime → Outcome (ℕ × Runtime)
my_malloc size w =
    if size == 0
    then ok (0, w)
    else do w' ← make_room (round_up size / 8) w; ok (bump (round_up size) w')
