-- ===== src/Pudge/Print.antt =====
-- `print_int` of PudgeWithMoML/lib/runtime/runtime.c, and what it makes of a tagged integer.
use pudge_with_mo_ml.Base.{ℕ, ◌≡◌, arith}
use pudge_with_mo_ml.Base.Int.{ℤ, pos, negsuc, sar1}
use pudge_with_mo_ml.Base.Words.{signed, tagged, Fits63}

-- The integer that `printf` is given; `n` is the argument's word.
unfoldable pub print_int : ℕ → ℤ
print_int n = sar1 (signed n)

-- An integer of 63 bits is printed as itself when it is passed tagged.
pub print_int-tagged : (z : ℤ) → Fits63 z → print_int (tagged z) ≡ z
unfolding print_int
print_int-tagged (pos n) h = ground arith
print_int-tagged (negsuc n) h = ground arith
