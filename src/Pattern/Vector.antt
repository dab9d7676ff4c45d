-- ===== src/Pattern/Vector.antt =====
-- ganymede-pattern-core/src/pattern/fixed/scan/vector.rs: verification and candidate masks over one
-- byte vector. `Simd` is what the code uses of the crate `fearless_simd` at the level that
-- `dispatch!` selects: `lanes` is `SimdType::u8s::N`, and the laws say that each operation works
-- lane by lane. A `u64` mask is a number.
use ganymede.Common.{
  ℕ, zero, suc, ◌+◌, ◌-◌, ◌*◌, ◌/◌, ◌%◌, ◌^◌, ◌≤◌, ◌<◌, ◌≡◌, Option, none, some, Bool, true, ◌&&◌,
  ◌==◌, if◌then◌else◌, length, get_elem?, get_or, get_range, take, drop, bit_and, bit_or, bit_xor,
  min,
}
use ganymede.Common.Checked.{Checked, done, and_then, expect}
use ganymede.Pattern.Read.{Bytes}
use ganymede.Pattern.Plan.{Probe}
use ganymede.Pattern.Fixed.{Fixed, masked_all}

-- Bit `i` of a number.
unfoldable pub test_bit : ℕ → ℕ → Bool
test_bit n zero = n % 2 == 1
test_bit n (suc i) = test_bit (n / 2) i

pub record Simd : Type 1 where
  pub Vec : Type 0
  pub Mask : Type 0
  pub lanes : ℕ
  pub from_slice : Bytes → Vec
  pub splat : ℕ → Vec
  pub vec_xor : Vec → Vec → Vec
  pub vec_and : Vec → Vec → Vec
  pub simd_eq : Vec → Vec → Mask
  pub all_true : Mask → Bool
  pub to_bitmask : Mask → ℕ
  -- What a lane holds; the laws are stated by it.
  pub lane : Vec → ℕ → ℕ
  pub lanes_pos : 0 < lanes
  pub lanes_le : lanes ≤ 64
  pub lane_from_slice :
      (bs : Bytes) (i : ℕ) → length bs ≡ lanes → i < lanes → lane (from_slice bs) i ≡ get_or bs i 0
  pub lane_splat : (b i : ℕ) → i < lanes → lane (splat b) i ≡ b
  pub lane_xor :
      (v w : Vec) (i : ℕ) → i < lanes → lane (vec_xor v w) i ≡ bit_xor (lane v i) (lane w i)
  pub lane_and :
      (v w : Vec) (i : ℕ) → i < lanes → lane (vec_and v w) i ≡ bit_and (lane v i) (lane w i)
  pub all_true_eq :
      (v w : Vec) → all_true (simd_eq v w) ≡ true → (i : ℕ) → i < lanes → lane v i ≡ lane w i
  pub eq_all_true :
      (v w : Vec) → ((i : ℕ) → i < lanes → lane v i ≡ lane w i) → all_true (simd_eq v w) ≡ true
  pub bitmask_lane :
      (v w : Vec) (i : ℕ)
      → i < lanes
      → test_bit (to_bitmask (simd_eq v w)) i ≡ (lane v i == lane w i)
  pub bitmask_bound : (v w : Vec) → to_bitmask (simd_eq v w) < 2 ^ lanes

module _ (simd : Simd) where
  open simd use {lanes, from_slice, splat, vec_xor, vec_and, simd_eq, all_true, to_bitmask}

  unfoldable pub chunk_matches : Bytes → Bytes → Bytes → Bool
  chunk_matches candidate bytes masks = all_true (
      simd_eq (vec_and (vec_xor (from_slice candidate) (from_slice bytes)) (from_slice masks))
        (splat 0))

  -- `n` complete chunks of the three slices, then the remainder.
  unfoldable pub chunks_match : ℕ → Bytes → Bytes → Bytes → Bool
  chunks_match zero candidate bytes masks = true
  chunks_match (suc n) candidate bytes masks =
      chunk_matches (take lanes candidate) (take lanes bytes) (take lanes masks)
      && chunks_match n (drop lanes candidate) (drop lanes bytes) (drop lanes masks)

  abbrev pub remainder : Bytes → Bytes
  remainder xs = drop (length xs / lanes * lanes) xs

  unfoldable pub verify : Fixed → Bytes → Bool
  verify f candidate =
      chunks_match
        (min (min (length candidate / lanes) (length f.bytes / lanes)) (length f.masks / lanes))
        candidate f.bytes f.masks
      && masked_all (remainder f.bytes) (remainder f.masks) (remainder candidate)

  unfoldable pub probe_mask : Bytes → ℕ → Probe → Checked ℕ
  probe_mask haystack base p =
      let start = base + p.offset in
      and_then (expect (get_range haystack start (start + lanes))) λ source. done (
        to_bitmask (
          simd_eq (vec_and (vec_xor (from_slice source) (splat p.value)) (splat p.mask)) (splat 0)))

-- The test of one probe at one position, with its `expect`.
abbrev pub probe_byte : Bytes → ℕ → Probe → Checked Bool
probe_byte haystack position p =
    and_then (expect (get_elem? haystack position))
      λ b. done (bit_and (bit_xor b p.value) p.mask == 0)

abbrev pub second_byte : Bytes → ℕ → Option Probe → Checked Bool
second_byte haystack candidate none = done true
second_byte haystack candidate (some p) = probe_byte haystack (candidate + p.offset) p

-- The fold of `scalar`: `count` lanes are left, the next one is `lane`.
unfoldable pub scalar_loop : Bytes → ℕ → Probe → Option Probe → ℕ → ℕ → ℕ → Checked ℕ
scalar_loop haystack base first second lane zero mask = done mask
scalar_loop haystack base first second lane (suc count) mask =
    and_then (probe_byte haystack (base + lane + first.offset) first) λ f.
      and_then (second_byte haystack (base + lane) second) λ s.
        scalar_loop haystack base first second (lane + 1) count
          (if f && s then bit_or mask (2 ^ lane) else mask)

module _ (simd : Simd) where
  unfoldable pub second_mask : Bytes → ℕ → Option Probe → Checked ℕ
  second_mask haystack base none = done (2 ^ 64 - 1)
  second_mask haystack base (some p) = probe_mask simd haystack base p

  unfoldable pub candidate_mask : Bytes → ℕ → Probe → Option Probe → ℕ → Checked ℕ
  candidate_mask haystack base first second count =
      if count == simd.lanes
      then and_then (probe_mask simd haystack base first)
          (λ f. and_then (second_mask haystack base second) λ s. done (bit_and f s))
      else scalar_loop haystack base first second 0 count 0
