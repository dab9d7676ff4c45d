-- ===== src/Pattern/FixedScan/Masks.antt =====
-- The masked comparison of ganymede-pattern-core/src/pattern/fixed.rs where every mask is full, and
-- where every mask is empty.
use ganymede.Common.{
  ℕ, suc, ◌+◌, ◌≤◌, ◌<◌, ◌≡◌, refl, [], ◌∷◌, some, leb, ◌==◌, length, get_elem?, get_elem?-lt,
  get_elem?-some, All, All-get_elem?, bit_and, bit_xor, bit_and-255, bit_and-zero, arith,
  Option-cases, inl, inr,
}
use ganymede.Pattern.Read.{Bytes}
use ganymede.Pattern.Fixed.Run.{masked_at, byte_test}
use ganymede.Pattern.FixedScan.{occurs_at}

pub Constant-All :
    (m : ℕ) (masks : Bytes)
    → ((i : ℕ) → i < length masks → get_elem? masks i ≡ some m)
    → All (λ k. k ≡ m) masks
Constant-All m [] h = tt
Constant-All m (k ∷ masks) h =
    (ground (arith, h 0 (omega arith)), Constant-All m masks (λ i l. h (suc i) (omega arith)))

-- A comparison under a full mask is equality of bytes.
full_mask : (t b : ℕ) → t < 256 → b < 256 → (bit_and (bit_xor t b) 255 == 0) ≡ (t == b)
full_mask t b t_fits b_fits =
    let byte = bit_and-255 b b_fits in
    let test = rw byte at (byte_test t b 255) in rw (← test, bit_and-255 t t_fits) refl

module _ (haystack : Bytes) (image : All (λ b. b < 256) haystack) where
  pub masked_at-occurs_at :
      (bytes masks : Bytes) (i : ℕ)
      → All (λ b. b < 256) bytes
      → length bytes ≡ length masks
      → All (λ k. k ≡ 255) masks
      → i ≤ length haystack
      → masked_at haystack i bytes masks ≡ occurs_at haystack bytes i
  unfolding masked_at occurs_at
  masked_at-occurs_at [] masks i fits same full h = ground (arith, h)
  masked_at-occurs_at (b ∷ bytes) [] i fits same full h = absurd (omega arith)
  masked_at-occurs_at (b ∷ bytes) (m ∷ masks) i (b_fits, fits) same (e, full) h =
      elim (Option-cases (get_elem? haystack i)) [
        | inl past ↦ ground (arith, past)
        | inr (t, found) ↦
            let lt = get_elem?-lt haystack i found in
            let test = full_mask t b (All-get_elem? (λ b. b < 256) haystack i image found) b_fits in
            rw
              (
                found,
                e,
                test,
                masked_at-occurs_at bytes masks (i + 1) fits (omega arith) full (omega arith),
              )
              refl
      ]

  pub masked_at-wildcard :
      (bytes masks : Bytes) (i : ℕ)
      → length bytes ≡ length masks
      → All (λ k. k ≡ 0) masks
      → i ≤ length haystack
      → masked_at haystack i bytes masks ≡ leb (i + length bytes) (length haystack)
  unfolding masked_at
  masked_at-wildcard [] masks i same full h = ground (arith, h)
  masked_at-wildcard (b ∷ bytes) [] i same full h = absurd (omega arith)
  masked_at-wildcard (b ∷ bytes) (m ∷ masks) i same (e, full) h =
      elim (Option-cases (get_elem? haystack i)) [
        | inl past ↦ ground (arith, past, get_elem?-some haystack i)
        | inr (t, found) ↦
            let lt = get_elem?-lt haystack i found in
            let next : i + 1 + length bytes ≡ i + suc (length bytes) = omega arith in
            rw
              (
                found,
                e,
                bit_and-zero,
                masked_at-wildcard bytes masks (i + 1) (omega arith) full (omega arith),
                next,
              )
              refl
      ]
