-- ===== src/Common/Int.antt =====
-- `i64` displacements: `negsuc n` is -(n + 1).
use Prim.Native.Nat.{ℕ, ◌-◌, ◌^◌, ◌*◌, ◌<◌, ◌≤◌}
use native.Mathlib.Omega.{arith}
use ganymede.Common.Tests.{ltb, if◌then◌else◌}

pub data ℤ : Type 0 where
  pos : ℕ → ℤ
  negsuc : ℕ → ℤ

-- The integer that a pattern of `8 * n` bits stands for; `half` is `2 ^ (8 * n - 1)`.
abbrev pub signed : ℕ → ℕ → ℤ
signed half w = if ltb w half then pos w else negsuc (2 * half - w - 1)

-- `i64::cast_unsigned`
abbrev pub cast_unsigned : ℤ → ℕ
cast_unsigned (pos n) = n
cast_unsigned (negsuc n) = 2 ^ 64 - n - 1

-- `w` sign-extended to 64 bits: the value modulo `2 ^ 64`.
pub cast_unsigned-signed-lt :
    (half w : ℕ) → half ≤ 2 ^ 63 → w < 2 * half → cast_unsigned (signed half w) < 2 ^ 64
cast_unsigned-signed-lt half w h lt = ground arith
