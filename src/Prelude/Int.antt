-- ===== src/Prelude/Int.antt =====
-- `i64`: integers with the saturating difference.
use Prim.Native.Nat.{ℕ, suc, ◌+◌, ◌-◌, ◌^◌}
use Prim.Native.String.{String}
use mathlib.Core.Bool.{Bool}
use fancy_flow_rs.Prelude.Tests.{ltb, leb, if◌then◌else◌}
use fancy_flow_rs.Prelude.Text.{◌<>◌, decimal}

-- `negsuc n` is -(n + 1).
pub data ℤ : Type 0 where
  pos : ℕ → ℤ
  negsuc : ℕ → ℤ

abbrev pub pos_part : ℤ → ℕ
pos_part (pos n) = n
pos_part (negsuc n) = 0

abbrev pub neg_part : ℤ → ℕ
neg_part (pos n) = 0
neg_part (negsuc n) = suc n

abbrev pub sub_ℕ : ℕ → ℕ → ℤ
sub_ℕ a b = if leb b a then pos (a - b) else negsuc (b - a - 1)

abbrev pub ltb_ℤ : ℤ → ℤ → Bool
ltb_ℤ a b = ltb (pos_part a + neg_part b) (pos_part b + neg_part a)

-- Into the range of `i64`.
abbrev pub saturate : ℤ → ℤ
saturate (pos n) = if ltb n (2 ^ 63) then pos n else pos (2 ^ 63 - 1)
saturate (negsuc n) = if ltb n (2 ^ 63) then negsuc n else negsuc (2 ^ 63 - 1)

-- `i64::saturating_sub`
unfoldable pub saturating_sub : ℤ → ℤ → ℤ
saturating_sub a b = saturate (sub_ℕ (pos_part a + neg_part b) (neg_part a + pos_part b))

-- `i64` as `Display` prints it.
unfoldable pub display : ℤ → String
display (pos n) = decimal n
display (negsuc n) = "-" <> decimal (suc n)
