-- ===== src/Pattern/Search/Filter.antt =====
-- The candidate loops of ganymede-pattern-core/src/pattern/scan.rs with no capture slots, as
-- filters of positions.
use ganymede.Common.{
  ℕ, zero, suc, ◌+◌, ◌-◌, ◌≤◌, ◌<◌, ◌≡◌, refl, ap, [], ◌∷◌, Option, none, some, Bool, true, false,
  ◌&&◌, leb, length, get_range-some, window, length-window, get_elem?-window, word_mod,
  saturating_add, arith, Bool-cases, inl, inr,
}
use ganymede.Common.Checked.{Checked, done}
use mathlib.Core.Option
use mathlib.Core.Path.{subst}
use ganymede.Common.First.{IsFirst, IsFirst-shift, cut, IsFirst-cut, IsFirst-skip}
use native.Mathlib.Decide.{dec_le, dec_lt}
use ganymede.Pattern.Read.{Bytes, Saves}
use ganymede.Pattern.Exec.{Context, exec}
use ganymede.Pattern.Exec.Total.{exec_total}
use ganymede.Pattern.FixedScan.Occurs.{occurs_at-window}
use ganymede.Pattern.FixedScan.{Memchr, byte_is, holds_byte, occurs_at}
use ganymede.Pattern.Search.{Found, try_candidate, brute_loop, byte_loop, prefix_search}

-- Direct execution at one start, with no capture slots.
abbrev pub direct : Context → ℕ → Bool
direct c i = (exec c i []).0

length-zero : (xs : Saves) → length xs ≡ 0 → xs ≡ []
length-zero [] h = refl
length-zero (x ∷ xs) h = absurd (omega arith)

exec-nil : (c : Context) (i : ℕ) → (exec c i []).1 ≡ []
exec-nil c i = elim (dec_le i (length c.haystack)) [
  | yes inside ↦ let (o, _, e, k) = exec_total c i [] inside in length-zero _ (rw e k)
  | no past ↦ unfold exec in ground arith
]

-- The search ended with the first position from `lo` to `hi` at which `p` holds.
abbrev pub EndsFirst : (ℕ → Bool) → ℕ → ℕ → Checked Found → Type 0
EndsFirst p lo hi r = (o : Option ℕ) × (r ≡ done (o, [])) × IsFirst p lo hi o

try_step :
    (c : Context) (k hi : ℕ) (onward : Saves → Checked Found)
    → k < hi
    → EndsFirst (direct c) (k + 1) hi (onward [])
    → EndsFirst (direct c) k hi (try_candidate c k [] onward)
try_step c k hi onward h (o, e, f) = elim (Bool-cases (direct c k)) [
  | inl hit ↦ (
    some k,
    ground (arith, hit, exec-nil c k),
    (omega arith, h, hit, λ i l u. absurd (omega arith)),
  )
  | inr miss ↦ (
    o,
    ground (arith, miss, exec-nil c k, e),
    IsFirst-skip (direct c) k (k + 1) hi o (omega arith)
        (λ i l u. let here : i ≡ k = omega arith in rw here miss) f,
  )
]

-- A generator of candidates: the first position that meets a condition which every match meets.
pub filter_step :
    (c : Context) (q : ℕ → Bool) (lo hi : ℕ) (o : Option ℕ) (onward : ℕ → Saves → Checked Found)
    → ((i : ℕ) → i < hi → direct c i ≡ true → q i ≡ true)
    → IsFirst q lo hi o
    → ((k : ℕ) → lo ≤ k → k < hi → EndsFirst (direct c) (k + 1) hi (onward k []))
    → EndsFirst
        (direct c)
        lo
        hi
        (elim o [ none ↦ done (none, []) | some k ↦ try_candidate c k [] (onward k) ])
filter_step c q lo hi none onward need first rest = (none, refl, λ i l u. unmet i u (first i l u))
  where
    unmet : (i : ℕ) → i < hi → q i ≡ false → direct c i ≡ false
    unmet i u e = ground (arith, need i u, e)
filter_step c q lo hi (some k) onward need (l, u, e, before) rest =
    let (o, r, f) = try_step c k hi (onward k) u (rest k l u) in
    (
      o,
      r,
      IsFirst-skip (direct c) lo k hi o l
          (λ i a b. ground (arith, need i (omega arith), before i a b)) f,
    )

pub brute_loop-EndsFirst :
    (c : Context) (count lo : ℕ) → EndsFirst (direct c) lo (lo + count) (brute_loop c lo count [])
unfolding brute_loop
brute_loop-EndsFirst c zero lo = (none, refl, λ i l u. absurd (omega arith))
brute_loop-EndsFirst c (suc count) lo =
    let end : lo + suc count ≡ lo + 1 + count = omega arith in
    rw end (
      try_step c lo (lo + 1 + count) (brute_loop c (lo + 1) count) (omega arith)
        (brute_loop-EndsFirst c count (lo + 1)))

module _ (lib : Memchr) (c : Context) (end : ℕ) (short : length c.haystack < word_mod)
    (inside : end ≤ length c.haystack) where
  saturating_next : (k : ℕ) → k < end → saturating_add k 1 ≡ k + 1
  saturating_next k h = ground arith

  -- One round of the loop, as a filter over the candidate that the library proposes.
  byte_round :
      (byte fuel next : ℕ) (o : Option ℕ)
      → next < end
      → lib.memchr byte (window c.haystack next end) ≡ o
      → IsFirst (holds_byte c.haystack byte) next end (Option.map (λ i. next + i) o)
      → (elim (Option.map (λ i. next + i) o) [
        | none ↦ done (none, [])
        | some k ↦ try_candidate c k [] (byte_loop lib c byte end fuel (k + 1))
      ])
        ≡ byte_loop lib c byte end (suc fuel) next []
  unfolding byte_loop
  byte_round byte fuel next none h e f =
      ground (arith, e, get_range-some c.haystack next end (omega arith) inside)
  byte_round byte fuel next (some r) h e f = ground (
    arith,
    e,
    get_range-some c.haystack next end (omega arith) inside,
    f,
    saturating_next (next + r) f.1,
  )

  holds_byte-window :
      (byte next : ℕ)
      → next ≤ end
      → (i : ℕ) → i < end - next
      → holds_byte (window c.haystack next end) byte i ≡ holds_byte c.haystack byte (next + i)
  holds_byte-window byte next h i l = ap (byte_is byte) (get_elem?-window c.haystack next end i l)

  pub byte_loop-EndsFirst :
      (byte : ℕ)
      → ((i : ℕ) → i < end → direct c i ≡ true → holds_byte c.haystack byte i ≡ true)
      → (fuel next : ℕ) → next ≤ end
      → end - next ≤ fuel
      → EndsFirst (direct c) next end (byte_loop lib c byte end fuel next [])
  unfolding byte_loop
  byte_loop-EndsFirst byte need zero next h f = (none, ground arith, λ i l u. absurd (omega arith))
  byte_loop-EndsFirst byte need (suc fuel) next h f = elim (dec_lt next end) [
    | no last ↦ (none, ground arith, λ i l u. absurd (omega arith))
    | yes more ↦
        let span : next + (end - next) ≡ end = omega arith in
        let size = length-window c.haystack next end h inside in
        let slice = window c.haystack next end in
        let local = rw size at (lib.memchr_first byte slice) in
        let shifted =
          IsFirst-shift (holds_byte c.haystack byte) (holds_byte slice byte) next (end - next)
            (lib.memchr byte slice) (holds_byte-window byte next h) local in
        let gen : IsFirst (holds_byte c.haystack byte) next end
            (Option.map (λ i. next + i) (lib.memchr byte slice)) =
          subst
            (λ e.
              IsFirst (holds_byte c.haystack byte) next e
                (Option.map (λ i. next + i) (lib.memchr byte slice)))
            span shifted in
        subst (EndsFirst (direct c) next end)
          (byte_round byte fuel next (lib.memchr byte slice) more refl gen)
          (filter_step c (holds_byte c.haystack byte) next end
            (Option.map (λ i. next + i) (lib.memchr byte slice))
            (λ k. byte_loop lib c byte end fuel (k + 1)) need gen
            λ k l u. byte_loop-EndsFirst byte need fuel (k + 1) (omega arith) (omega arith))
  ]

  module _ (needle : Bytes) (search_end : ℕ) (fits : search_end ≤ length c.haystack)
      (reach : end ≤ search_end) where
    -- A candidate whose prefix lies inside the searched span.
    abbrev pub candidate_at : ℕ → Bool
    candidate_at i = leb (i + length needle) search_end && occurs_at c.haystack needle i

    prefix_round :
        (fuel next : ℕ) (o : Option ℕ)
        → next < end
        → lib.find (window c.haystack next search_end) needle ≡ o
        → (elim (cut end (Option.map (λ i. next + i) o)) [
          | none ↦ done (none, [])
          | some k ↦ try_candidate c k [] (prefix_search lib c needle search_end end fuel (k + 1))
        ])
          ≡ prefix_search lib c needle search_end end (suc fuel) next []
    unfolding prefix_search
    prefix_round fuel next none h e =
        ground (arith, e, get_range-some c.haystack next search_end (omega arith) fits)
    prefix_round fuel next (some r) h e = ground (
      arith,
      e,
      get_range-some c.haystack next search_end (omega arith) fits,
      saturating_next (next + r),
    )

    pub prefix_search-EndsFirst :
        ((i : ℕ) → i < end → direct c i ≡ true → candidate_at i ≡ true)
        → (fuel next : ℕ) → next ≤ end
        → end - next ≤ fuel
        → EndsFirst (direct c) next end (prefix_search lib c needle search_end end fuel next [])
    unfolding prefix_search
    prefix_search-EndsFirst need zero next h f = (none, ground arith, λ i l u. absurd (omega arith))
    prefix_search-EndsFirst need (suc fuel) next h f = elim (dec_lt next end) [
      | no last ↦ (none, ground arith, λ i l u. absurd (omega arith))
      | yes more ↦
          let slice = window c.haystack next search_end in
          let size = length-window c.haystack next search_end (omega arith) fits in
          let shifted =
            IsFirst-shift candidate_at (occurs_at slice needle) next (length slice + 1)
              (lib.find slice needle)
              (λ i l. occurs_at-window c.haystack needle next search_end i (omega arith) fits)
              (lib.find_first slice needle) in
          let gen =
            IsFirst-cut candidate_at next end (next + (length slice + 1))
              (Option.map (λ i. next + i) (lib.find slice needle)) (omega arith) shifted in
          subst (EndsFirst (direct c) next end)
            (prefix_round fuel next (lib.find slice needle) more refl)
            (filter_step c candidate_at next end
              (cut end (Option.map (λ i. next + i) (lib.find slice needle)))
              (λ k. prefix_search lib c needle search_end end fuel (k + 1)) need gen
              λ k l u. prefix_search-EndsFirst need fuel (k + 1) (omega arith) (omega arith))
    ]
