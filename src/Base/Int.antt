-- ===== src/Base/Int.antt =====
-- Signed machine integers: an integer as a natural number or one below zero.
use webapp_wago.Base.Tests.{ltb, if◌then◌else◌}
use Prim.Native.Nat.{ℕ, zero, suc, ◌*◌, ◌-◌, ◌%◌, ◌^◌}
use mathlib.Core.Bool.{Bool, true, false}

-- `negsuc n` is -(n + 1).
pub data ℤ : Type 0 where
  pos : ℕ → ℤ
  negsuc : ℕ → ℤ

-- a < b and a ≤ 0 on integers.
abbrev pub ltb_int : ℤ → ℤ → Bool
ltb_int (pos a) (pos b) = ltb a b
ltb_int (pos a) (negsuc b) = false
ltb_int (negsuc a) (pos b) = true
ltb_int (negsuc a) (negsuc b) = ltb b a

abbrev pub le_zero : ℤ → Bool
le_zero (pos zero) = true
le_zero (pos (suc a)) = false
le_zero (negsuc a) = true

-- An int64 from its bit pattern, and back.
abbrev pub from_bits : ℕ → ℤ
from_bits n = if ltb n (2 ^ 63) then pos n else negsuc (2 ^ 64 - 1 - n)

abbrev pub to_bits : ℤ → ℕ
to_bits (pos n) = n
to_bits (negsuc n) = 2 ^ 64 - 1 - n

-- `d * 2` on int64, which wraps round.
unfoldable pub double : ℤ → ℤ
double d = from_bits ((2 * to_bits d) % 2 ^ 64)
