-- ===== src/Pattern/FixedScan/Exact.antt =====
-- The fixed scanner of ganymede-pattern-core/src/pattern/fixed/scan.rs for the strategies that
-- need no verification, the literal and the wildcard.
use ganymede.Common.{
  ℕ, ◌+◌, ◌-◌, ◌≤◌, ◌<◌, ◌≡◌, ◌⊎◌, refl, ap, Option, none, some, Bool, true, false, ◌&&◌, leb,
  length, All, window, length-window, get_range-some, min, arith, leb→le, le→leb, Option-cases, inl,
  inr,
}
use ganymede.Common.Checked.{done}
use ganymede.Common.First.{IsFirst, IsFirst-shift, IsFirst-first_from, first_from}
use mathlib.Core.Option
use native.Mathlib.Decide.{dec_le, dec_lt}
use ganymede.Pattern.Read.{Bytes}
use ganymede.Pattern.Plan.{SearchPlan, plan_compile}
use ganymede.Pattern.Plan.Valid.{plan_compile-IsPlan}
use ganymede.Pattern.Fixed.{fixed_new, anchor_of}
use ganymede.Pattern.Fixed.Run.{masked_at}
use ganymede.Pattern.Vector.{Simd}
use ganymede.Pattern.FixedScan.{
  Memchr, scanner_new, occurs_at, last_start, find_literal, find_planned, fixed_find,
}
use ganymede.Pattern.FixedScan.Occurs.{occurs_at-window, occurs_at-le}
use ganymede.Pattern.FixedScan.Masks.{Constant-All, masked_at-occurs_at, masked_at-wildcard}

-- The last candidate start is the last position of the range at which the pattern fits.
last_start-IsLast :
    (width n start end last : ℕ)
    → last_start width n start end ≡ some last
    → (start ≤ last)
      × (last < end)
      × (last + width ≤ n)
      × ((i : ℕ) → i < end → i + width ≤ n → i ≤ last)
unfolding last_start
last_start-IsLast width n start end last h =
    let low : (start ≤ last) × (last < end) × (last + width ≤ n) = ground arith in
    let most : min (n - width) (end - 1) ≡ last = ground arith in
    (low.0, low.1, low.2, λ i a b. omega arith)

last_start-none :
    (width n start end : ℕ)
    → last_start width n start end ≡ none
    → (i : ℕ) → start ≤ i
    → i < end
    → n < i + width
unfolding last_start
last_start-none width n start end h i l u = elim (dec_lt n (i + width)) [
  | yes past ↦ past
  | no inside ↦ ground arith
]

-- The first position at which a test holds, where the test holds only at candidates up to `last`.
IsFirst-last :
    (p : ℕ → Bool) (start last end : ℕ) (o : Option ℕ)
    → last < end
    → ((i : ℕ) → last < i → i < end → p i ≡ false)
    → IsFirst p start (last + 1) o
    → IsFirst p start end o
IsFirst-last p start last end none h past f = λ i l u. elim (dec_le i last) [
  | yes inside ↦ f i l (omega arith)
  | no beyond ↦ past i (omega arith) u
]
IsFirst-last p start last end (some k) h past (l, u, e, before) = (l, omega arith, e, before)

module _ (lib : Memchr) (simd : Simd) (haystack needle : Bytes) where
  -- A literal search over the candidates from `start` to `last`.
  find_literal-IsFirst :
      (start last : ℕ)
      → start ≤ last
      → last + length needle ≤ length haystack
      → (o : Option ℕ) × (find_literal lib simd (length needle) needle haystack start last ≡ done o)
        × IsFirst (occurs_at haystack needle) start (last + 1) o
  unfolding find_literal
  find_literal-IsFirst start last h k =
      let end = last + length needle in
      let span = window haystack start end in
      let size = length-window haystack start end (omega arith) k in
      let o = Option.map (λ i. start + i) (lib.find span needle) in
      let within : ℕ → Bool = λ i. leb (i + length needle) end && occurs_at haystack needle i in
      let shifted =
        IsFirst-shift within (occurs_at span needle) start (length span + 1) (lib.find span needle)
          (λ i l. occurs_at-window haystack needle start end i (omega arith) k)
          (lib.find_first span needle) in
      let hi : start + (length span + 1) ≡ last + 1 + length needle = omega arith in
      (
        o,
        rw (get_range-some haystack start end (omega arith) k) refl,
        narrowed o (rw hi at shifted),
      )
    where
      narrowed :
          (o : Option ℕ)
          → IsFirst
              (λ i. leb (i + length needle) (last + length needle) && occurs_at haystack needle i)
              start
              (last + 1 + length needle)
              o
          → IsFirst (occurs_at haystack needle) start (last + 1) o
      narrowed none f = λ i l u. ground (arith, f i l (omega arith))
      narrowed (some k) (l, u, e, before) =
          (l, ground (arith, e), ground (arith, e), λ i a b. ground (arith, before i a b, e))

IsFirst-agrees :
    (p q : ℕ → Bool) (lo hi : ℕ) (o : Option ℕ)
    → ((i : ℕ) → i < hi → p i ≡ q i)
    → IsFirst q lo hi o
    → IsFirst p lo hi o
IsFirst-agrees p q lo hi none same f = λ i l u. ground (arith, same i u, f i l u)
IsFirst-agrees p q lo hi (some k) same (l, u, e, before) =
    (l, u, ground (arith, same k u, e), λ i a b. ground (arith, same i (omega arith), before i a b))

past_last : (i last width n : ℕ) → last < i → (i + width ≤ n → i ≤ last) → n < i + width
past_last i last width n h most = elim (dec_le (i + width) n) [
  | yes inside ↦ absurd (omega (arith, most inside))
  | no past ↦ omega arith
]

module _ (lib : Memchr) (simd : Simd) (haystack bytes masks : Bytes)
    (same : length bytes ≡ length masks) where
  -- The search ended with the first position from `start` to `end` at which the masked bytes stand.
  FindsFirst : ℕ → ℕ → Type 0
  FindsFirst start end =
      (o : Option ℕ) × (fixed_find lib simd (scanner_new (fixed_new bytes masks)) haystack start end
        ≡ done o)
      × IsFirst (λ i. masked_at haystack i bytes masks) start end o

  -- Both strategies are given by a test that says where the pattern stands.
  module _ (test : ℕ → Bool)
      (agrees : (i : ℕ) → i ≤ length haystack → masked_at haystack i bytes masks ≡ test i)
      (fits : (i : ℕ) → test i ≡ true → i + length bytes ≤ length haystack) where
    beyond :
        (i : ℕ)
        → i ≤ length haystack
        → length haystack < i + length bytes
        → masked_at haystack i bytes masks ≡ false
    beyond i h past = ground (arith, agrees i h, fits i)

    FindsFirst-from :
        (start end : ℕ)
        → end ≤ length haystack
        → ((last : ℕ)
            → start ≤ last
            → last + length bytes ≤ length haystack
            → (o : Option ℕ) × (find_planned lib simd
                  (scanner_new (fixed_new bytes masks))
                  haystack
                  start
                  last
                ≡ done o)
              × IsFirst test start (last + 1) o)
        → FindsFirst start end
    unfolding FindsFirst fixed_find last_start scanner_new fixed_new
    FindsFirst-from start end h planned =
        elim (Option-cases (last_start (length bytes) (length haystack) start end)) [
          | inl nowhere ↦ (
            none,
            rw (fixed_find, nowhere) refl,
            λ i l u.
                beyond i (omega arith)
                  (last_start-none (length bytes) (length haystack) start end nowhere i l u),
          )
          | inr (last, found) ↦
              let (low, high, room, most) =
                last_start-IsLast (length bytes) (length haystack) start end last found in
              let (o, e, f) = planned last low room in
              (
                o,
                rw (fixed_find, found) e,
                IsFirst-last (λ i. masked_at haystack i bytes masks) start last end o high
                    (λ i a b.
                      beyond i (omega arith)
                        (past_last i last (length bytes) (length haystack) a (most i b)))
                    (IsFirst-agrees (λ i. masked_at haystack i bytes masks) test start (last + 1) o
                      (λ i l. agrees i (omega arith)) f),
              )
        ]

  anchor_of-literal :
      plan_compile bytes masks ≡ SearchPlan.literal → anchor_of (fixed_new bytes masks) ≡ some bytes
  unfolding anchor_of fixed_new
  anchor_of-literal plan = rw plan refl

  literal_planned :
      (start last : ℕ) (o : Option ℕ)
      → plan_compile bytes masks ≡ SearchPlan.literal
      → find_literal lib simd (length bytes) bytes haystack start last ≡ done o
      → find_planned lib simd (scanner_new (fixed_new bytes masks)) haystack start last ≡ done o
  unfolding find_planned scanner_new fixed_new
  literal_planned start last o plan e = rw (find_planned, plan, anchor_of-literal plan) e

  wildcard_planned :
      (start last : ℕ)
      → plan_compile bytes masks ≡ SearchPlan.wildcard
      → find_planned lib simd (scanner_new (fixed_new bytes masks)) haystack start last
        ≡ done (some start)
  unfolding find_planned scanner_new fixed_new
  wildcard_planned start last plan = rw (find_planned, plan) refl

  -- For bytes and byte masks of one length whose derived strategy is the literal or the wildcard,
  -- on an image of bytes: the fixed scanner returns the first position of a range inside the image
  -- at which the pattern agrees with the image under its masks.
  pub fixed_find-exact :
      (start end : ℕ)
      → All (λ b. b < 256) haystack
      → All (λ b. b < 256) bytes
      → All (λ m. m < 256) masks
      → (plan_compile bytes masks ≡ SearchPlan.literal)
        ⊎ (plan_compile bytes masks ≡ SearchPlan.wildcard)
      → start ≤ end
      → end ≤ length haystack
      → fixed_find lib simd (scanner_new (fixed_new bytes masks)) haystack start end
        ≡ done (first_from (λ i. masked_at haystack i bytes masks) start (end - start))
  unfolding FindsFirst
  fixed_find-exact start end image fits bound (inl plan) h k =
      let valid = rw plan at (plan_compile-IsPlan bytes masks bound) in
      let full = Constant-All 255 masks (λ i l. valid i (omega arith) l) in
      let (o, e, f) =
        FindsFirst-from (occurs_at haystack bytes)
          (λ i l. masked_at-occurs_at haystack image bytes masks i fits same full l)
          (λ i t. occurs_at-le haystack bytes i t) start end k
          (λ last low room.
            let (o, e, f) = find_literal-IsFirst lib simd haystack bytes start last low room in
            (o, literal_planned start last o plan e, f)) in
      rw e (ap done (IsFirst-first_from (λ i. masked_at haystack i bytes masks) start end o h f))
  fixed_find-exact start end image fits bound (inr plan) h k =
      let valid = rw plan at (plan_compile-IsPlan bytes masks bound) in
      let empty = Constant-All 0 masks (λ i l. valid i (omega arith) l) in
      let (o, e, f) =
        FindsFirst-from (λ i. leb (i + length bytes) (length haystack))
          (λ i l. masked_at-wildcard haystack image bytes masks i same empty l)
          (λ i t. leb→le _ _ t) start end k
          (λ last low room. (
            some start,
            wildcard_planned start last plan,
            (omega arith, omega arith, le→leb _ _ (omega arith), λ i a b. absurd (omega arith)),
          )) in
      rw e (ap done (IsFirst-first_from (λ i. masked_at haystack i bytes masks) start end o h f))
