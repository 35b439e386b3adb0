-- ===== src/Xml/Value.antt =====
-- Values of XML/bin/runtime.c: tagged integers and pointers.
use pudge_with_mo_ml.Base.{ℕ, ◌+◌, ◌*◌, ◌/◌, ◌%◌, ◌^◌, ◌≡◌, Bool, not, ◌&&◌, arith, ◌==◌, ltb}
use pudge_with_mo_ml.Base.Int.{ℤ, pos, negsuc}
use pudge_with_mo_ml.Base.Words.{signed, to_word, Fits63, unsigned63}

-- `IS_INT` and `IS_PTR`
unfoldable pub is_int : ℕ → Bool
is_int v = v % 2 == 1

unfoldable pub is_ptr : ℕ → Bool
is_ptr v = not (is_int v) && not (v == 0)

-- `mk_int`, of the word of an `int64_t`; the shifted word is even, so `|` adds.
unfoldable pub mk_int : ℕ → ℕ
mk_int n = n * 2 % 2 ^ 64 + 1

unfoldable pub un_int : ℕ → ℤ
un_int v = signed (v / 2)

-- The integer that `printf` is given.
unfoldable pub print_int : ℕ → ℤ
print_int v = signed (v / 2)

-- `<` on words that are read as `int64_t`
abbrev pub slt : ℕ → ℕ → Bool
slt a b = ltb ((a + 2 ^ 63) % 2 ^ 64) ((b + 2 ^ 63) % 2 ^ 64)

-- An integer of 63 bits comes back from its tagged value, and is printed, as itself if it is not
-- negative, and as the integer larger by 2 ^ 63 if it is.
pub un_int-mk_int :
    (z : ℤ)
    → Fits63 z
    → (un_int (mk_int (to_word z)) ≡ unsigned63 z) × (print_int (mk_int (to_word z)) ≡ unsigned63 z)
unfolding un_int mk_int print_int
un_int-mk_int (pos n) h = (ground arith, ground arith)
un_int-mk_int (negsuc n) h = (ground arith, ground arith)
