-- ===== src/Common/First.antt =====
-- The reference for every search: the least position of a range at which a test holds.
use Prim.Native.Nat.{ℕ, zero, suc, ◌+◌, ◌-◌, ◌≤◌, ◌<◌}
use mathlib.Core.Path.{◌≡◌, refl, ap, sym, ◌∙◌}
use mathlib.Core.Bool.{Bool, true, false}
use mathlib.Core.Option
use mathlib.Core.Option.{Option, none, some}
use native.Mathlib.Omega.{arith}
use native.Mathlib.Decide.{dec_lt}
use ganymede.Common.Tests.{leb, leb→le, if◌then◌else◌, if_split}

-- The first of `count` positions from `start` on.
unfoldable pub first_from : (ℕ → Bool) → ℕ → ℕ → Option ℕ
first_from p start zero = none
first_from p start (suc count) = elim (p start) [
  | true ↦ some start
  | false ↦ first_from p (start + 1) count
]

-- `o` is the least position from `lo` to `hi` at which `p` holds, or there is none.
abbrev pub IsFirst : (ℕ → Bool) → ℕ → ℕ → Option ℕ → Type 0
IsFirst p lo hi none = (i : ℕ) → lo ≤ i → i < hi → p i ≡ false
IsFirst p lo hi (some k) =
    (lo ≤ k) × (k < hi) × (p k ≡ true) × ((i : ℕ) → lo ≤ i → i < k → p i ≡ false)

-- Positions that fail may be skipped in front.
pub IsFirst-skip :
    (p : ℕ → Bool) (lo mid hi : ℕ) (o : Option ℕ)
    → lo ≤ mid
    → ((i : ℕ) → lo ≤ i → i < mid → p i ≡ false)
    → IsFirst p mid hi o
    → IsFirst p lo hi o
IsFirst-skip p lo mid hi none h fails f =
    λ i l u. elim (dec_lt i mid) [ yes below ↦ fails i l below | no above ↦ f i (omega arith) u ]
IsFirst-skip p lo mid hi (some k) h fails (l, u, e, f) = (
  omega arith,
  u,
  e,
  λ i a b. elim (dec_lt i mid) [ yes below ↦ fails i a below | no above ↦ f i (omega arith) b ],
)

pub first_from-IsFirst :
    (p : ℕ → Bool) (count lo : ℕ) → IsFirst p lo (lo + count) (first_from p lo count)
unfolding first_from
first_from-IsFirst p zero lo = λ i l u. absurd (omega arith)
first_from-IsFirst p (suc count) lo = go (p lo) refl (first_from-IsFirst p count (lo + 1))
  where
    go :
        (b : Bool)
        → p lo ≡ b
        → IsFirst p (lo + 1) (lo + 1 + count) (first_from p (lo + 1) count)
        → IsFirst p lo
            (lo + suc count)
            (elim b [ true ↦ some lo | false ↦ first_from p (lo + 1) count ])
    go true e rest = (omega arith, omega arith, e, λ i l u. absurd (omega arith))
    go false e rest =
        let end : lo + suc count ≡ lo + 1 + count = omega arith in
        rw end (
          IsFirst-skip p lo (lo + 1) (lo + 1 + count) _ (omega arith)
            (λ i l u. let here : i ≡ lo = omega arith in rw here e) rest)

-- Two answers to one search are the same.
IsFirst-unique :
    (p : ℕ → Bool) (lo hi : ℕ) (o o' : Option ℕ) → IsFirst p lo hi o → IsFirst p lo hi o' → o ≡ o'
IsFirst-unique p lo hi none none h h' = refl
IsFirst-unique p lo hi none (some k) h (l, u, e, f) = ground (arith, h k l u, e)
IsFirst-unique p lo hi (some k) none (l, u, e, f) h' = ground (arith, h' k l u, e)
IsFirst-unique p lo hi (some k) (some k') (l, u, e, f) (l', u', e', f') = elim (dec_lt k k') [
  | yes below ↦ ground (arith, f' k l below, e)
  | no above ↦ elim (dec_lt k' k) [
    | yes below ↦ ground (arith, f k' l' below, e')
    | no same ↦ ap some (omega arith)
  ]
]

-- Any search that finds the least position is the reference search.
pub IsFirst-first_from :
    (p : ℕ → Bool) (lo hi : ℕ) (o : Option ℕ)
    → lo ≤ hi
    → IsFirst p lo hi o
    → o ≡ first_from p lo (hi - lo)
IsFirst-first_from p lo hi o h f =
    let end : lo + (hi - lo) ≡ hi = omega arith in
    IsFirst-unique p lo hi o _ f (rw end at (first_from-IsFirst p (hi - lo) lo))

-- A search in a part of the range, its positions counted from the part's start.
pub IsFirst-shift :
    (p q : ℕ → Bool) (lo n : ℕ) (o : Option ℕ)
    → ((i : ℕ) → i < n → q i ≡ p (lo + i))
    → IsFirst q 0 n o
    → IsFirst p lo (lo + n) (Option.map (λ i. lo + i) o)
IsFirst-shift p q lo n none same none_found = λ i l u.
    let e : lo + (i - lo) ≡ i = omega arith in
    rw e at (sym (same (i - lo) (omega arith)) ∙ none_found (i - lo) (omega arith) (omega arith))
IsFirst-shift p q lo n (some k) same (l, u, e, before) = (
  omega arith,
  omega arith,
  sym (same k u) ∙ e,
  λ i a b.
      let e : lo + (i - lo) ≡ i = omega arith in
      rw e at (sym (same (i - lo) (omega arith)) ∙ before (i - lo) (omega arith) (omega arith)),
)

-- What lies at or past `mid` is dropped.
abbrev pub cut : ℕ → Option ℕ → Option ℕ
cut mid none = none
cut mid (some k) = if leb mid k then none else some k

-- A search that goes on past the range answers for the range, if what lies past it is dropped.
pub IsFirst-cut :
    (p : ℕ → Bool) (lo mid hi : ℕ) (o : Option ℕ)
    → mid ≤ hi
    → IsFirst p lo hi o
    → IsFirst p lo mid (cut mid o)
IsFirst-cut p lo mid hi none h f = λ i a b. f i a (omega arith)
IsFirst-cut p lo mid hi (some k) h (l, u, e, before) =
    if_split (IsFirst p lo mid) (leb mid k)
      (λ past i a b. before i a (omega (arith, leb→le mid k past)))
      λ inside. (l, ground arith, e, before)
