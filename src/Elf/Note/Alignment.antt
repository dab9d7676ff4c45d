-- ===== src/Elf/Note/Alignment.antt =====
-- `Notes::aligned` of ganymede-elf/src/note.rs.
use ganymede.Common.{
  ap, ℕ, zero, suc, ◌+◌, ◌-◌, ◌*◌, ◌/◌, ◌%◌, ◌<◌, ◌≤◌, ◌≡◌, ◌⊎◌, inl, inr, refl, none, some, ltb,
  Bool-cases, checked_add, bit_and, bit_and_step, word_mod, arith,
}
use mathlib.Core.Option
use ganymede.Elf.Note.{aligned}

ones : ℕ → ℕ
ones zero = 0
ones (suc n) = 2 * ones n + 1

span : ℕ → ℕ
span zero = 1
span (suc n) = 2 * span n

bit_and-ones : (n a : ℕ) → a < span n → bit_and a (ones n) ≡ a
unfolding span ones
bit_and-ones zero a h = let e : a ≡ 0 = omega (arith, h) in rw e refl
bit_and-ones (suc n) a h =
    let again = bit_and-ones n (a / 2) (omega (arith, h)) in
    let half : (2 * ones n + 1) / 2 ≡ ones n = omega arith in
    let odd : (2 * ones n + 1) % 2 ≡ 1 = omega arith in
    rw (bit_and_step a (2 * ones n + 1), half, odd, again) omega arith

bit_and-mask : (v : ℕ) → v < word_mod → bit_and v (word_mod - 4) ≡ v / 4 * 4
unfolding ones span
bit_and-mask v h =
    let low = bit_and-ones 62 (v / 2 / 2) (omega (arith, h)) in
    let one = bit_and_step v (word_mod - 4) in
    let two = bit_and_step (v / 2) ((word_mod - 4) / 2) in omega (arith, low, one, two)

-- The least multiple of four that is not below the size.
abbrev pub padded_size : ℕ → ℕ
padded_size size = (size + 3) / 4 * 4

-- An aligned size is the least multiple of four that is not below the size.
pub aligned-some : (size : ℕ) → size + 3 < word_mod → aligned size ≡ some (padded_size size)
unfolding aligned
aligned-some size h =
    let sum : checked_add size 3 ≡ some (size + 3) = ground (arith, h) in
    rw (sum, Option.map) (ap some (bit_and-mask (size + 3) h))

-- A size that has no aligned one is within three of the end of the words.
pub aligned-cases :
    (size : ℕ)
    → ((aligned size ≡ none) × (word_mod ≤ size + 3)) ⊎ (aligned size ≡ some (padded_size size))
unfolding aligned
aligned-cases size = elim (Bool-cases (ltb (size + 3) word_mod)) [
  | inl fits ↦ inr (aligned-some size (ground (arith, fits)))
  | inr past ↦ inl (rw past refl, ground (arith, past))
]
