-- ===== src/Base/Int.antt =====
-- Integers over the native numbers: what `printf` is given, and what a tagged word stands for.
use Prim.Native.Nat.{ℕ, ◌/◌}

-- `negsuc n` is -(n + 1).
pub data ℤ : Type 0 where
  pos : ℕ → ℤ
  negsuc : ℕ → ℤ

-- `>> 1` on a signed integer rounds towards minus infinity.
abbrev pub sar1 : ℤ → ℤ
sar1 (pos n) = pos (n / 2)
sar1 (negsuc n) = negsuc (n / 2)
