-- ===== src/Pattern/Naive.antt =====
-- A byte search and a vector of one lane, by which the laws asked of the crates `memchr` and
-- `fearless_simd` in ganymede-pattern-core/src/pattern/fixed/scan.rs and scan/vector.rs can hold.
use ganymede.Common.{
  ℕ, zero, suc, ◌+◌, ◌^◌, ◌<◌, ◌≡◌, refl, Bool, true, false, ◌==◌, ==_iff, if◌then◌else◌, length,
  get_or, bit_and, bit_xor, arith,
}
use ganymede.Common.First.{IsFirst, first_from, first_from-IsFirst}
use ganymede.Pattern.Read.{Bytes}
use ganymede.Pattern.FixedScan.{Memchr, holds_byte, occurs_at}
use ganymede.Pattern.Vector.{Simd, test_bit}

pub from_start : (p : ℕ → Bool) (n : ℕ) → IsFirst p 0 n (first_from p 0 n)
from_start p n = let e : 0 + n ≡ n = omega arith in rw e at (first_from-IsFirst p n 0)

abbrev pub naive : Memchr
naive = record {
  memchr = λ b haystack. first_from (holds_byte haystack b) 0 (length haystack);
  find = λ haystack needle. first_from (occurs_at haystack needle) 0 (length haystack + 1);
  memchr_first = λ b haystack. from_start (holds_byte haystack b) (length haystack);
  find_first = λ haystack needle. from_start (occurs_at haystack needle) (length haystack + 1);
}

pub first_byte : (bs : Bytes) (i : ℕ) → length bs ≡ 1 → i < 1 → get_or bs 0 0 ≡ get_or bs i 0
first_byte bs i h l = let e : i ≡ 0 = omega arith in rw e refl

abbrev pub bit_of : Bool → ℕ
bit_of b = if b then 1 else 0

pub bit_of_lem : (b : Bool) (i : ℕ) → i < 1 → test_bit (bit_of b) i ≡ b
unfolding test_bit
bit_of_lem true zero l = refl
bit_of_lem false zero l = refl
bit_of_lem b (suc i) l = absurd (omega arith)

pub bit_of-bound : (b : Bool) → bit_of b < 2 ^ 1
bit_of-bound true = omega arith
bit_of-bound false = omega arith

abbrev pub one_lane : Simd
one_lane = record {
  Vec = ℕ;
  Mask = Bool;
  lanes = 1;
  from_slice = λ bs. get_or bs 0 0;
  splat = λ b. b;
  vec_xor = bit_xor;
  vec_and = bit_and;
  simd_eq = λ v w. v == w;
  all_true = λ m. m;
  to_bitmask = bit_of;
  lane = λ v i. v;
  lanes_pos = omega arith;
  lanes_le = omega arith;
  lane_from_slice = first_byte;
  lane_splat = λ b i l. refl;
  lane_xor = λ v w i l. refl;
  lane_and = λ v w i l. refl;
  all_true_eq = λ v w e i l. (==_iff v w).0 e;
  eq_all_true = λ v w same. (==_iff v w).1 (same 0 (omega arith));
  bitmask_lane = λ v w i l. bit_of_lem (v == w) i l;
  bitmask_bound = λ v w. bit_of-bound (v == w);
}
