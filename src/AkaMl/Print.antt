-- ===== src/AkaMl/Print.antt =====
-- `print_int` of akaML/lib/runtime/runtime.c. `TO_ML_INTEGER` shifts the word as an unsigned one.
use pudge_with_mo_ml.Base.{ℕ, ◌/◌, ◌≡◌, arith}
use pudge_with_mo_ml.Base.Int.{ℤ, pos, negsuc}
use pudge_with_mo_ml.Base.Words.{signed, tagged, Fits63, unsigned63}

-- The integer that `printf` is given: `"%ld"` reads the shifted word as a signed one.
unfoldable pub print_int : ℕ → ℤ
print_int n = signed (n / 2)

-- An integer of 63 bits that is not negative is printed as itself, and a negative one as the
-- integer larger by 2 ^ 63.
pub print_int-printed : (z : ℤ) → Fits63 z → print_int (tagged z) ≡ unsigned63 z
unfolding print_int
print_int-printed (pos n) h = ground arith
print_int-printed (negsuc n) h = ground arith
