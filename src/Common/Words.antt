-- ===== src/Common/Words.antt =====
-- The checked and saturating operations of `usize` and `u64`, both 64 bits wide.
use Prim.Native.Nat.{ℕ, ◌+◌, ◌-◌, ◌*◌, ◌^◌, ◌<◌}
use mathlib.Core.Path.{◌≡◌}
use mathlib.Core.Option.{Option, none, some}
use native.Mathlib.Omega.{arith}
use ganymede.Common.Tests.{ltb, leb, if◌then◌else◌}

-- One more than `usize::MAX` and `u64::MAX`.
abbrev pub word_mod : ℕ
word_mod = 2 ^ 64

abbrev pub checked_add : ℕ → ℕ → Option ℕ
checked_add a b = if ltb (a + b) word_mod then some (a + b) else none

abbrev pub checked_sub : ℕ → ℕ → Option ℕ
checked_sub a b = if leb b a then some (a - b) else none

abbrev pub checked_mul : ℕ → ℕ → Option ℕ
checked_mul a b = if ltb (a * b) word_mod then some (a * b) else none

abbrev pub saturating_add : ℕ → ℕ → ℕ
saturating_add a b = if ltb (a + b) word_mod then a + b else word_mod - 1

pub checked_add-lt : (a b : ℕ) {c : ℕ} → checked_add a b ≡ some c → (c ≡ a + b) × (c < word_mod)
checked_add-lt a b h = ground arith

pub checked_add-some : (a b : ℕ) → a + b < word_mod → checked_add a b ≡ some (a + b)
checked_add-some a b h = ground arith
