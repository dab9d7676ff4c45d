-- ===== src/Pattern/FixedScan.antt =====
-- ganymede-pattern-core/src/pattern/fixed/scan.rs: the search engine of the fixed projection.
-- `Memchr` is what the code uses of the crate `memchr`: `find` is `memmem::find` and the method of
-- a `Finder`, which the model keeps as the needle that it was built from.
pub mod Occurs
pub mod Masks
pub mod Exact
use ganymede.Common.{
  ℕ, zero, suc, ◌+◌, ◌-◌, ◌%◌, ◌/◌, ◌≤◌, ◌<◌, ◌≡◌, List, [], ◌∷◌, Option, none, some, Bool, true,
  false, ◌&&◌, leb, ◌==◌, if◌then◌else◌, length, get_elem?, get_range, drop, bit_and, checked_sub,
  saturating_add, min,
}
use mathlib.Core.Option
use ganymede.Common.Checked.{Checked, panic, out_of_fuel, done, and_then, expect}
use ganymede.Common.First.{IsFirst}
use ganymede.Pattern.Read.{Bytes}
use ganymede.Pattern.Plan.{Probe, SearchPlan}
use ganymede.Pattern.Fixed.{Fixed, matches, anchor_of}
use ganymede.Pattern.Vector.{Simd, test_bit, verify, candidate_mask}

abbrev pub byte_is : ℕ → Option ℕ → Bool
byte_is b none = false
byte_is b (some t) = t == b

-- The needle stands in the haystack at `i`.
unfoldable pub occurs_at : Bytes → Bytes → ℕ → Bool
occurs_at haystack [] i = leb i (length haystack)
occurs_at haystack (b ∷ needle) i =
    byte_is b (get_elem? haystack i) && occurs_at haystack needle (i + 1)

abbrev pub holds_byte : Bytes → ℕ → ℕ → Bool
holds_byte haystack b i = byte_is b (get_elem? haystack i)

pub record Memchr : Type 0 where
  pub memchr : ℕ → Bytes → Option ℕ
  pub find : Bytes → Bytes → Option ℕ
  pub memchr_first :
      (b : ℕ) (haystack : Bytes)
      → IsFirst (holds_byte haystack b) 0 (length haystack) (memchr b haystack)
  pub find_first :
      (haystack needle : Bytes)
      → IsFirst (occurs_at haystack needle) 0 (length haystack + 1) (find haystack needle)

pub record FixedScanner : Type 0 where
  pub pattern : Fixed
  pub finder : Option Bytes

unfoldable pub scanner_new : Fixed → FixedScanner
scanner_new f = record { pattern = f; finder = anchor_of f }

-- The last candidate start, if there is one at or after `start`.
unfoldable pub last_start : ℕ → ℕ → ℕ → ℕ → Option ℕ
last_start width image_length start end = elim (checked_sub image_length width) [
  | none ↦ none
  | some available ↦ elim (checked_sub end 1) [
    | none ↦ none
    | some requested ↦
        if leb start (min available requested) then some (min available requested) else none
  ]
]

-- `u64::trailing_zeros` of a nonzero number, counted over at most `fuel` bits.
unfoldable pub trailing_zeros : ℕ → ℕ → ℕ
trailing_zeros zero n = 0
trailing_zeros (suc fuel) n = elim (n % 2 == 1) [
  | true ↦ 0
  | false ↦ suc (trailing_zeros fuel (n / 2))
]

module _ (lib : Memchr) (haystack : Bytes) where
  -- The loop of `find_anchor` from `search_offset` on, over the span `anchor_haystack`.
  unfoldable pub anchor_loop :
      ℕ → (Bytes → Bool) → ℕ → Bytes → ℕ → ℕ → Bytes → ℕ → Checked (Option ℕ)
  anchor_loop zero check width needle anchor_offset search_start span search_offset = out_of_fuel
  anchor_loop (suc fuel) check width needle anchor_offset search_start span search_offset =
      elim (leb search_offset (length span)) [
        | false ↦ done none
        | true ↦ elim (lib.find (drop search_offset span) needle) [
          | none ↦ done none
          | some relative ↦
              let candidate = search_start + search_offset + relative - anchor_offset in
              elim (get_range haystack candidate (candidate + width)) [
                | none ↦ panic
                | some bytes ↦ elim (check bytes) [
                  | true ↦ done (some candidate)
                  | false ↦
                      anchor_loop fuel check width needle anchor_offset search_start span
                        (search_offset + (relative + 1))
                ]
              ]
        ]
      ]

  unfoldable pub find_anchor : (Bytes → Bool) → ℕ → Bytes → ℕ → ℕ → ℕ → Checked (Option ℕ)
  find_anchor check width needle anchor_offset start last =
      let search_start = start + anchor_offset in
      let search_end = last + anchor_offset + length needle in
      and_then (expect (get_range haystack search_start search_end))
        λ span. anchor_loop (length span + 2) check width needle anchor_offset search_start span 0

module _ (simd : Simd) (haystack : Bytes) (f : Fixed) where
  -- The inner loop of `find_probes`: the lanes set in `mask`, lowest first.
  unfoldable pub lane_loop : ℕ → ℕ → ℕ → Checked (Option ℕ)
  lane_loop zero base mask = if mask == 0 then done none else out_of_fuel
  lane_loop (suc fuel) base mask = elim (mask == 0) [
    | true ↦ done none
    | false ↦
        let candidate = base + trailing_zeros 64 mask in
        elim (get_range haystack candidate (candidate + length f.bytes)) [
          | none ↦ panic
          | some bytes ↦ elim (verify simd f bytes) [
            | true ↦ done (some candidate)
            | false ↦ lane_loop fuel base (bit_and mask (mask - 1))
          ]
        ]
  ]

  unfoldable pub probe_loop : ℕ → Probe → Option Probe → ℕ → ℕ → Checked (Option ℕ)
  probe_loop zero first second last base = if leb base last then out_of_fuel else done none
  probe_loop (suc fuel) first second last base = elim (leb base last) [
    | false ↦ done none
    | true ↦
        let count = min (last - base + 1) simd.lanes in
        elim (and_then (candidate_mask simd haystack base first second count) (lane_loop 64 base)) [
          | panic ↦ panic
          | out_of_fuel ↦ out_of_fuel
          | done (some k) ↦ done (some k)
          | done none ↦ probe_loop fuel first second last (saturating_add base count)
        ]
  ]

module _ (lib : Memchr) (simd : Simd) where
  unfoldable pub find_probes : Fixed → Probe → Option Probe → Bytes → ℕ → ℕ → Checked (Option ℕ)
  find_probes f first second haystack start last =
      probe_loop simd haystack f (last + 1 - start) first second last start

  -- A literal's needle is searched in the span that its candidates cover.
  unfoldable pub find_literal : ℕ → Bytes → Bytes → ℕ → ℕ → Checked (Option ℕ)
  find_literal width needle haystack start last =
      and_then (expect (get_range haystack start (last + width)))
        λ span. done (Option.map (λ offset. start + offset) (lib.find span needle))

  -- The `match` of `find_from`; `verify` serves patterns of a vector's width and more. The last case
  -- is `unreachable!`.
  unfoldable pub find_planned : FixedScanner → Bytes → ℕ → ℕ → Checked (Option ℕ)
  find_planned s haystack start last = elim s.pattern.plan [
    | SearchPlan.wildcard ↦ done (some start)
    | SearchPlan.literal ↦ elim s.finder [
      | none ↦ panic
      | some needle ↦ find_literal (length s.pattern.bytes) needle haystack start last
    ]
    | SearchPlan.anchor offset _ ↦ elim s.finder [
      | none ↦ panic
      | some needle ↦
          find_anchor lib haystack
            (if leb 16 (length s.pattern.bytes) then verify simd s.pattern else matches s.pattern)
            (length s.pattern.bytes) needle offset start last
    ]
    | SearchPlan.probes first second ↦ elim s.finder [
      | none ↦ find_probes s.pattern first second haystack start last
      | some _ ↦ panic
    ]
  ]

  unfoldable pub fixed_find : FixedScanner → Bytes → ℕ → ℕ → Checked (Option ℕ)
  fixed_find s haystack start end =
      elim (last_start (length s.pattern.bytes) (length haystack) start end) [
        | none ↦ done none
        | some last ↦ find_planned s haystack start last
      ]
