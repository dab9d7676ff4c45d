-- ===== src/Pattern/Search/Answers.antt =====
-- The searches of `Scanner` and `Matches` in ganymede-pattern-core/src/pattern/scan.rs, for a
-- scanner that is `Served`, against direct execution at every position of the image.
use ganymede.Common.{
  ℕ, zero, suc, ◌+◌, ◌-◌, ◌≤◌, ◌<◌, ◌≡◌, ◌↔◌, refl, List, [], ◌∷◌, none, some, Bool, true, false,
  if◌then◌else◌, leb, length, min, saturating_add, word_mod, arith, All, Bool-cases, inl, inr,
  Option-cases,
}
use ganymede.Common.Checked.{done}
use ganymede.Common.First.{first_from, first_from-IsFirst, IsFirst-first_from}
use native.Mathlib.Decide.{dec_lt}
use ganymede.Pattern.Read.{Bytes}
use ganymede.Pattern.FixedScan.{Memchr}
use ganymede.Pattern.Vector.{Simd}
use ganymede.Pattern.Search.{
  Scanner, context, find_from, find_in, find_with, finds, Matches, matches_in, next_with, collect,
}
use ganymede.Pattern.Search.Filter.{direct, EndsFirst}
use ganymede.Pattern.Search.Prefix.{IsByte, AtomFits}
use ganymede.Pattern.Search.Projected.{Served, projected-EndsFirst}
use ganymede.Pattern.Search.First.{find_prefix-EndsFirst}

-- Every position of a span at which the test holds, in ascending order.
pub all_from : (ℕ → Bool) → ℕ → ℕ → List ℕ
all_from p start zero = []
all_from p start (suc count) =
    let rest = all_from p (start + 1) count in if p start then start ∷ rest else rest

all_from-none :
    (p : ℕ → Bool) (start count : ℕ) → first_from p start count ≡ none → all_from p start count ≡ []
unfolding all_from first_from
all_from-none p start zero h = refl
all_from-none p start (suc count) h = ground (arith, all_from-none p (start + 1) count)

all_from-some :
    (p : ℕ → Bool) (start count : ℕ) {k : ℕ}
    → first_from p start count ≡ some k
    → (start ≤ k)
      × (k < start + count)
      × (all_from p start count ≡ k ∷ all_from p (k + 1) (start + count - (k + 1)))
unfolding all_from first_from
all_from-some p start zero h = cc
all_from-some p start (suc count) {k} h = elim (Bool-cases (p start)) [
  | inl hit ↦
      let here : start ≡ k = ground (arith, hit, h) in
      let left : start + suc count - (k + 1) ≡ count = omega arith in
      (omega arith, omega arith, rw (left, ← here) (ground (arith, hit)))
  | inr miss ↦
      let (l, u, e) = all_from-some p (start + 1) count {k = k} (ground (arith, miss, h)) in
      let left : start + suc count ≡ start + 1 + count = omega arith in
      (omega arith, omega arith, rw left (ground (arith, miss, e)))
]

same_or_later :
    (p : ℕ → Bool) (k n i : ℕ)
    → ((j : ℕ) → 0 ≤ j → j < k → p j ≡ false)
    → ((j : ℕ) → k + 1 ≤ j → j < n → p j ≡ false)
    → i < n
    → p i ≡ true
    → i ≡ k
same_or_later p k n i before after below hit = elim (dec_lt i k) [
  | yes early ↦ ground (arith, before i (omega arith) early, hit)
  | no late ↦ elim (dec_lt k i) [
    | yes later ↦ ground (arith, after i (omega arith) below, hit)
    | no here ↦ omega arith
  ]
]

module _ (lib : Memchr) (simd : Simd) (s : Scanner) (haystack : Bytes) (image : All IsByte haystack)
    (fit : All AtomFits s.pattern.atoms) (short : length haystack < word_mod)
    (served : Served s) where
  find_from-EndsFirst :
      (start end : ℕ)
      → start < end
      → end ≤ length haystack
      → EndsFirst
          (direct (context s haystack))
          start
          end
          (find_from lib simd s haystack start end [])
  unfolding find_from
  find_from-EndsFirst start end more h =
      let nonempty : leb end start ≡ false = ground arith in by served nonempty
    where
      by :
          Served s
          → leb end start ≡ false
          → EndsFirst
              (direct (context s haystack))
              start
              end
              (find_from lib simd s haystack start end [])
      by (inl plain) nonempty =
          rw (EndsFirst, find_from, nonempty, plain)
            (find_prefix-EndsFirst lib simd (context s haystack) image fit short start end
              (omega arith) h)
      by (inr p) nonempty =
          rw (EndsFirst, find_from, nonempty, p.is_fixed)
            (projected-EndsFirst lib simd (context s haystack) s.fixed p start end image short
              (omega arith) h)

  find_from_lem :
      (start end : ℕ)
      → end ≤ length haystack
      → find_from lib simd s haystack start end []
        ≡ done (first_from (direct (context s haystack)) start (end - start), [])
  unfolding find_from first_from
  find_from_lem start end h = elim (dec_lt start end) [
    | no empty ↦ let span : end - start ≡ 0 = omega arith in rw span (ground arith)
    | yes more ↦
        let (o, e, f) = find_from-EndsFirst start end more h in
        let r = IsFirst-first_from (direct (context s haystack)) start end o (omega arith) f in
        ground (arith, e, r)
  ]

  -- For a scanner that has no fixed projection, or a valid one whose strategy is the literal or
  -- the wildcard, and whose byte atoms are bytes, on an image of bytes that is shorter than 2 ^
  -- 64: `find_in` returns the first position of the range, cut to the image, at which direct
  -- execution of the pattern matches.
  pub find_in-first :
      (start end : ℕ)
      → find_in lib simd s haystack start end
        ≡ done (first_from (direct (context s haystack)) start (min end (length haystack) - start))
  unfolding find_in
  find_in-first start end = rw (find_from_lem start (min end (length haystack)) (omega arith)) refl

  next_with_lem :
      (m : Matches)
      → m.end_offset ≤ length haystack
      → next_with lib simd s haystack m []
        ≡ done
            (elim (first_from
              (direct (context s haystack))
              m.next_offset
              (m.end_offset - m.next_offset)) [
                | none ↦ (none, m, [])
                | some k ↦ (some k, record m { next_offset = saturating_add k 1 }, [])
              ])
  unfolding next_with
  next_with_lem m h = rw (find_from_lem m.next_offset m.end_offset h) refl

  collect_from :
      (fuel : ℕ) (m : Matches)
      → m.end_offset ≤ length haystack
      → m.end_offset - m.next_offset < fuel
      → collect lib simd s haystack fuel m
        ≡ done (all_from (direct (context s haystack)) m.next_offset (m.end_offset - m.next_offset))
  unfolding collect
  collect_from zero m h f = absurd (omega arith)
  collect_from (suc fuel) m h f =
      let p = direct (context s haystack) in
      let n = m.end_offset - m.next_offset in
      elim (Option-cases (first_from p m.next_offset n)) [
        | inl none_left ↦
            rw (next_with_lem m h, none_left, all_from-none p m.next_offset n none_left) refl
        | inr (k, found) ↦
            let (l, u, e) = all_from-some p m.next_offset n found in
            let onward : saturating_add k 1 ≡ k + 1 = ground arith in
            let left : m.next_offset + n - (k + 1) ≡ m.end_offset - (k + 1) = omega arith in
            rw
              (
                next_with_lem m h,
                found,
                onward,
                e,
                left,
                collect_from fuel (record m { next_offset = k + 1 }) h (omega arith),
              )
              refl
      ]

  -- For a scanner that has no fixed projection, or a valid one whose strategy is the literal or
  -- the wildcard, and whose byte atoms are bytes, on an image of bytes that is shorter than 2 ^
  -- 64: the iterator over a range yields, with a round for each position and one more, exactly the
  -- positions of the range inside the image at which direct execution matches, in ascending order.
  pub collect-all :
      (start end fuel : ℕ)
      → min end (length haystack) - start < fuel
      → collect lib simd s haystack fuel (matches_in haystack start end)
        ≡ done (all_from (direct (context s haystack)) start (min end (length haystack) - start))
  unfolding matches_in
  collect-all start end fuel f = collect_from fuel (matches_in haystack start end) (omega arith) f

  -- The image has exactly one position at which direct execution matches.
  abbrev pub MatchesOnce : Type 0
  MatchesOnce =
      (k : ℕ) × (k < length haystack)
      × (direct (context s haystack) k ≡ true)
      × ((i : ℕ) → i < length haystack → direct (context s haystack) i ≡ true → i ≡ k)

  -- For a scanner that has no fixed projection, or a valid one whose strategy is the literal or
  -- the wildcard, and whose byte atoms are bytes, on an image of bytes that is shorter than 2 ^
  -- 64: `finds` with no slots returns, and its verdict is that direct execution matches at exactly
  -- one position of the image.
  pub finds-MatchesOnce :
      (b : Bool) × (finds lib simd s haystack [] ≡ done (b, [])) × ((b ≡ true) ↔ MatchesOnce)
  unfolding finds find_with
  finds-MatchesOnce =
      let p = direct (context s haystack) in
      let n = length haystack in
      let span : n - 0 ≡ n = omega arith in
      let span' : 0 + n ≡ n = omega arith in
      let whole = rw span at (find_from_lem 0 n (omega arith)) in
      let first = rw span' at (first_from-IsFirst p n 0) in
      elim (Option-cases (first_from p 0 n)) [
        | inl nowhere ↦ (
          false,
          rw (whole, nowhere) refl,
          (
            (λ e. cc),
            λ (k, u, e, only).
                let f = rw nowhere at first in ground (arith, f k (omega arith) u, e),
          ),
        )
        | inr (k, found) ↦
            let (l, u, e, before) = rw found at first in
            let onward : saturating_add k 1 ≡ k + 1 = ground arith in
            let second = find_from_lem (k + 1) n (omega arith) in
            let later = first_from-IsFirst p (n - (k + 1)) (k + 1) in
            let end : k + 1 + (n - (k + 1)) ≡ n = omega arith in
            elim (Option-cases (first_from p (k + 1) (n - (k + 1)))) [
              | inl unique ↦ (
                true,
                rw (whole, found, onward, second, unique) refl,
                (
                  (λ _. (
                    k,
                    u,
                    e,
                    λ i below hit.
                        same_or_later p k n i before (rw (end, unique) at later) below hit,
                  )),
                  λ _. refl,
                ),
              )
              | inr (j, again) ↦
                  let (l', u', e', _) = rw again at later in
                  (
                    false,
                    rw (whole, found, onward, second, again) refl,
                    (
                      (λ w. cc),
                      λ (i, _, _, only).
                          absurd (omega (arith, only k u e, only j (omega arith) e')),
                    ),
                  )
            ]
      ]
