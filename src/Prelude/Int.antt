-- ===== src/Prelude/Int.antt =====
-- Signed numbers, where a difference can fall below zero.
use meta_mcp.Prelude.Tests.{leb, if◌then◌else◌}
use Prim.Native.Nat.{ℕ, zero, suc, ◌-◌, ◌/◌}

-- `negsuc n` is -(n + 1).
pub data ℤ : Type 0 where
  pos : ℕ → ℤ
  negsuc : ℕ → ℤ

abbrev pub negate : ℕ → ℤ
negate zero = pos zero
negate (suc n) = negsuc n

-- The difference `a - b` in units, cut towards zero as Go converts a float.
unfoldable pub units_between : ℕ → ℕ → ℕ → ℤ
units_between unit a b = if leb b a then pos ((a - b) / unit) else negate ((b - a) / unit)
