-- ===== src/Base/Int.antt =====
-- Signed integers over the native numbers, as far as the program's fields need them.
use Prim.Native.Nat.{ℕ, ◌-◌, ◌^◌}
use unix_like_file_system.Base.Tests.{ltb, if◌then◌else◌}

-- `negsuc n` is -(n + 1).
pub data ℤ : Type 0 where
  pos : ℕ → ℤ
  negsuc : ℕ → ℤ

-- The `int32_t` that a 32-bit pattern stands for.
unfoldable pub int32 : ℕ → ℤ
int32 w = if ltb w (2 ^ 31) then pos w else negsuc (2 ^ 32 - w - 1)
