-- ===== src/Base/Words.antt =====
-- 64-bit words as native numbers, with the wrap-around written out, and the compiled program's
-- tagged integers.
use Prim.Native.Nat.{ℕ, ◌+◌, ◌-◌, ◌*◌, ◌%◌, ◌^◌, ◌<◌}
use pudge_with_mo_ml.Base.Tests.{ltb, if◌then◌else◌}
use pudge_with_mo_ml.Base.Int.{ℤ, pos, negsuc}

abbrev pub word_count : ℕ
word_count = 2 ^ 64

-- `size_t` (also `uint64_t`) addition and subtraction.
abbrev pub add_word : ℕ → ℕ → ℕ
add_word a b = (a + b) % 2 ^ 64

abbrev pub sub_word : ℕ → ℕ → ℕ
sub_word a b = (a + 2 ^ 64 - b) % 2 ^ 64

-- A word read as an `int64_t`.
abbrev pub signed : ℕ → ℤ
signed w = if ltb w (2 ^ 63) then pos w else negsuc (2 ^ 64 - w - 1)

-- The word of an integer, and the word `2 * z + 1` by which compiled code passes the integer `z`.
abbrev pub to_word : ℤ → ℕ
to_word (pos n) = n % 2 ^ 64
to_word (negsuc n) = (2 ^ 64 - (n % 2 ^ 64) - 1) % 2 ^ 64

abbrev pub tagged : ℤ → ℕ
tagged (pos n) = (2 * n + 1) % 2 ^ 64
tagged (negsuc n) = (2 ^ 64 - 2 * (n % 2 ^ 63) - 1) % 2 ^ 64

-- The integers that have a tagged form: those of 63 bits.
abbrev pub Fits63 : ℤ → Type 0
Fits63 (pos n) = n < 2 ^ 62
Fits63 (negsuc n) = n < 2 ^ 62

-- The integer, as its 63 bits read without a sign.
abbrev pub unsigned63 : ℤ → ℤ
unsigned63 (pos n) = pos n
unsigned63 (negsuc n) = pos (2 ^ 63 - n - 1)
