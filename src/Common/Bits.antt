-- ===== src/Common/Bits.antt =====
-- Masked comparison of bytes: `&` and `^` digit by digit, and the two ways in which the code
-- compares bytes under a mask.
use Prim.Native.Nat.{
  ℕ, zero, suc, ◌+◌, ◌*◌, ◌/◌, ◌%◌, ◌≤◌, ◌<◌, min, bit_and, bit_xor, differ, digits, bitwise,
  bit_and-bitwise, bit_xor-bitwise,
}
use mathlib.Core.Path.{◌≡◌, refl}
use mathlib.Core.Logic.{◌↔◌}
use mathlib.Core.Bool.{Bool, true, ◌&&◌}
use native.Mathlib.Omega.{arith}
use ganymede.Common.Tests.{◌==◌, ==_iff}

-- The binary recursion that defines the native operations, for any operation on bits: fuel above
-- the first operand changes nothing, whatever bound `limit` there is on it.
enough_fuel :
    (zero_case : ℕ → ℕ) (on_bits : ℕ → ℕ → ℕ) (limit fuel x y : ℕ)
    → fuel ≤ limit
    → x ≤ fuel
    → digits zero_case on_bits fuel x y ≡ bitwise zero_case on_bits x y
enough_fuel zero_case on_bits zero zero zero y below above = refl
enough_fuel zero_case on_bits zero (suc fuel) x y below above = absurd (omega arith)
enough_fuel zero_case on_bits limit zero (suc x) y below above = absurd (omega arith)
enough_fuel zero_case on_bits (suc limit) zero zero y below above = refl
enough_fuel zero_case on_bits (suc limit) (suc fuel) zero y below above = refl
enough_fuel zero_case on_bits (suc limit) (suc fuel) (suc x) y below above =
    let wide =
      enough_fuel zero_case on_bits limit fuel (suc x / 2) (y / 2) (omega arith) (omega arith) in
    let tight =
      enough_fuel zero_case on_bits limit x (suc x / 2) (y / 2) (omega arith) (omega arith) in
    rw (wide, tight) refl

-- The lowest digit of an operation, and the operation on what is above it.
lowest_digit :
    (zero_case : ℕ → ℕ) (on_bits : ℕ → ℕ → ℕ) (x y : ℕ)
    → bitwise zero_case on_bits (suc x) y
      ≡ bitwise zero_case on_bits (suc x / 2) (y / 2) * 2 + on_bits (suc x % 2) (y % 2)
lowest_digit zero_case on_bits x y =
    let shorter =
      enough_fuel zero_case on_bits x x (suc x / 2) (y / 2) (omega arith) (omega arith) in
    omega (arith, shorter)

pub bit_and_step : (x y : ℕ) → bit_and x y ≡ bit_and (x / 2) (y / 2) * 2 + min (x % 2) (y % 2)
bit_and_step zero y = simp bit_and-bitwise (omega arith)
bit_and_step (suc x) y = simp bit_and-bitwise (lowest_digit (λ _. 0) min x y)

bit_xor_step : (x y : ℕ) → bit_xor x y ≡ bit_xor (x / 2) (y / 2) * 2 + differ (x % 2) (y % 2)
bit_xor_step zero y = simp bit_xor-bitwise (omega arith)
bit_xor_step (suc x) y = simp bit_xor-bitwise (lowest_digit (λ same. same) differ x y)

differ-lt : (x y : ℕ) → x < 2 → y < 2 → differ x y < 2
differ-lt zero y hx hy = hy
differ-lt (suc zero) zero hx hy = omega arith
differ-lt (suc zero) (suc zero) hx hy = omega arith
differ-lt (suc zero) (suc (suc y)) hx hy = absurd (omega arith)
differ-lt (suc (suc x)) y hx hy = absurd (omega arith)

differ_masked : (x y m : ℕ) → x < 2 → y < 2 → (min (differ x y) m ≡ 0) ↔ (min x m ≡ min y m)
differ_masked zero y m hx hy = omega arith
differ_masked (suc zero) zero m hx hy = omega arith
differ_masked (suc zero) (suc zero) m hx hy = omega arith
differ_masked (suc zero) (suc (suc y)) m hx hy = absurd (omega arith)
differ_masked (suc (suc x)) y m hx hy = absurd (omega arith)

zero-bit_and : (b : ℕ) → bit_and 0 b ≡ 0
zero-bit_and b = bit_and-bitwise 0 b

bit_xor-half : (a b : ℕ) → bit_xor a b / 2 ≡ bit_xor (a / 2) (b / 2)
bit_xor-half a b =
    omega (arith, bit_xor_step a b, differ-lt (a % 2) (b % 2) (omega arith) (omega arith))

bit_xor-parity : (a b : ℕ) → bit_xor a b % 2 ≡ differ (a % 2) (b % 2)
bit_xor-parity a b =
    omega (arith, bit_xor_step a b, differ-lt (a % 2) (b % 2) (omega arith) (omega arith))

and_xor_step :
    (a p m : ℕ)
    → bit_and (bit_xor a p) m
      ≡ bit_and (bit_xor (a / 2) (p / 2)) (m / 2) * 2 + min (differ (a % 2) (p % 2)) (m % 2)
and_xor_step a p m = rw (bit_and_step (bit_xor a p) m, bit_xor-half a p, bit_xor-parity a p) refl

masked_fuel :
    (n a p m : ℕ) → a + p ≤ n → (bit_and (bit_xor a p) m ≡ 0) ↔ (bit_and a m ≡ bit_and p m)
masked_fuel zero zero zero m h = (λ _. refl, λ _. zero-bit_and m)
masked_fuel zero (suc a) p m h = absurd (omega arith)
masked_fuel zero zero (suc p) m h = absurd (omega arith)
masked_fuel (suc n) a p m h =
    let ih = masked_fuel n (a / 2) (p / 2) (m / 2) (omega arith) in
    let digit = differ_masked (a % 2) (p % 2) (m % 2) (omega arith) (omega arith) in
    let low = differ-lt (a % 2) (p % 2) (omega arith) (omega arith) in
    (
      λ e. omega (
        arith,
        and_xor_step a p m,
        bit_and_step a m,
        bit_and_step p m,
        ih.0 (omega (arith, and_xor_step a p m)),
        digit.0 (omega (arith, and_xor_step a p m)),
      ),
      λ e. omega (
        arith,
        and_xor_step a p m,
        ih.1 (omega (arith, bit_and_step a m, bit_and_step p m)),
        digit.1 (omega (arith, bit_and_step a m, bit_and_step p m)),
      ),
    )

-- `((a ^ p) & m) == 0` compares `a` and `p` under the mask `m`.
pub bit_xor_masked : (a p m : ℕ) → (bit_and (bit_xor a p) m ≡ 0) ↔ (bit_and a m ≡ bit_and p m)
bit_xor_masked a p m = masked_fuel (a + p) a p m (omega arith)

bit_and-zero_fuel : (n a : ℕ) → a ≤ n → bit_and a 0 ≡ 0
bit_and-zero_fuel zero zero h = zero-bit_and 0
bit_and-zero_fuel zero (suc a) h = absurd (omega arith)
bit_and-zero_fuel (suc n) a h =
    omega (arith, bit_and_step a 0, bit_and-zero_fuel n (a / 2) (omega arith))

-- A mask with no bit constrains nothing.
pub bit_and-zero : (a : ℕ) → bit_and a 0 ≡ 0
bit_and-zero a = bit_and-zero_fuel a a (omega arith)

bit_and_twice_fuel : (n b m : ℕ) → b ≤ n → bit_and (bit_and b m) m ≡ bit_and b m
bit_and_twice_fuel zero zero m h = rw (zero-bit_and m, zero-bit_and m) refl
bit_and_twice_fuel zero (suc b) m h = absurd (omega arith)
bit_and_twice_fuel (suc n) b m h =
    let half : bit_and b m / 2 ≡ bit_and (b / 2) (m / 2) = omega (arith, bit_and_step b m) in
    let low : bit_and b m % 2 ≡ min (b % 2) (m % 2) = omega (arith, bit_and_step b m) in
    let again : bit_and (bit_and b m) m
        ≡ bit_and (bit_and (b / 2) (m / 2)) (m / 2) * 2 + min (min (b % 2) (m % 2)) (m % 2) =
      rw (bit_and_step (bit_and b m) m, half, low) refl in
    omega (arith, again, bit_and_step b m, bit_and_twice_fuel n (b / 2) (m / 2) (omega arith))

-- A stored byte is kept under its mask: masking it again changes nothing.
pub bit_and_twice : (b m : ℕ) → bit_and (bit_and b m) m ≡ bit_and b m
bit_and_twice b m = bit_and_twice_fuel b b m (omega arith)

-- Facts about one byte are checked at all 256 values.
abbrev pub all_below : ℕ → (ℕ → Bool) → Bool
all_below zero p = true
all_below (suc n) p = p n && all_below n p

pub all_below→true : (n : ℕ) (p : ℕ → Bool) (b : ℕ) → all_below n p ≡ true → b < n → p b ≡ true
all_below→true zero p b h lt = absurd (omega arith)
all_below→true (suc n) p b h lt = ground (arith, all_below→true n p b)

-- A full mask compares the whole byte.
pub bit_and-255 : (a : ℕ) → a < 256 → bit_and a 255 ≡ a
bit_and-255 a h = (==_iff _ a).0 (all_below→true 256 (λ b. bit_and b 255 == b) a refl h)
