-- ===== src/Module/Distinct.antt =====
-- The modules that share no address, of ganymede-module/src/lib.rs.
use ganymede.Common.{
  ℕ, suc, ◌+◌, ◌≤◌, ◌<◌, ◌≡◌, ◌≢◌, inl, inr, refl, List, [], ◌∷◌, some, true, All, arith,
  Bool-cases, get_elem?,
}
use ganymede.Common.Sort.{Pairwise, append-All, append-Pairwise, All-append, All-map}
use ganymede.Process.Snapshot.{Range, Region}
use ganymede.Process.Snapshot
use ganymede.Module.{Module, any_contains, contains, ranges_of, ranges_from}
use ganymede.Module.Apart.{Apart}
use ganymede.Module.Ownership.{Owned}

-- No address is contained by both.
abbrev pub Distinct : Module → Module → Type 0
Distinct m n = (address : ℕ) → contains m address ≡ true → contains n address ≡ true → ⊥

-- No address is contained by two modules of the list.
abbrev pub Unambiguous : List Module → Type 0
Unambiguous modules = Pairwise Distinct modules

abbrev pub OwnedApart : Owned → Owned → Type 0
OwnedApart p q = Apart p.0 q.0

inside :
    (r : Region) (address : ℕ)
    → Snapshot.contains r address ≡ true
    → (r.range.start_address ≤ address) × (address < r.range.end_address)
unfolding Snapshot.contains
inside r address h = ground (arith, h)

holds :
    (r : Region) (address : ℕ)
    → r.range.start_address ≤ address
    → address < r.range.end_address
    → Snapshot.contains r address ≡ true
unfolding Snapshot.contains
holds r address low high = ground (arith, low, high)

region_clear :
    (r : Region) (index : ℕ) (mappings : List Region) (other address : ℕ)
    → All (OwnedApart (r.range, index)) (ranges_of mappings other)
    → Snapshot.contains r address ≡ true
    → any_contains mappings address ≡ true
    → ⊥
region_clear r index [] other address h e f = cc
region_clear r index (s ∷ mappings) other address (a, h) e f =
    elim (Bool-cases (Snapshot.contains s address)) [
      | inl here ↦ clash (inside r address e) (inside s address here) a
      | inr away ↦ region_clear r index mappings other address h e (ground (arith, f, away))
    ]
  where
    clash :
        (r.range.start_address ≤ address) × (address < r.range.end_address)
        → (s.range.start_address ≤ address) × (address < s.range.end_address)
        → Apart r.range s.range
        → ⊥
    clash (a, b) (c, d) (inl e) = omega (arith, a, b, c, d, e)
    clash (a, b) (c, d) (inr e) = omega (arith, a, b, c, d, e)

mappings_clear :
    (mappings others : List Region) (index other address : ℕ)
    → All (λ p. All (OwnedApart p) (ranges_of others other)) (ranges_of mappings index)
    → any_contains mappings address ≡ true
    → any_contains others address ≡ true
    → ⊥
mappings_clear [] others index other address h e f = cc
mappings_clear (r ∷ mappings) others index other address (a, h) e f =
    elim (Bool-cases (Snapshot.contains r address)) [
      | inl here ↦ region_clear r index others other address a here f
      | inr away ↦ mappings_clear mappings others index other address h (ground (arith, e, away)) f
    ]

head-Distinct :
    (m : Module) (index : ℕ) (modules : List Module) (next : ℕ)
    → All (λ p. All (OwnedApart p) (ranges_from next modules)) (ranges_of m.mappings index)
    → All (Distinct m) modules
unfolding contains
head-Distinct m index [] next h = tt
head-Distinct m index (n ∷ modules) next h = (
  λ address e f.
      mappings_clear m.mappings n.mappings index next address
        (All-map _ _ _
          (λ p all.
            (append-All (OwnedApart p) (ranges_of n.mappings next) (ranges_from (suc next) modules)
              all).0)
          h)
        e f,
  head-Distinct m index modules (suc next) (
      All-map _ _ _
        (λ p all.
          (append-All (OwnedApart p) (ranges_of n.mappings next) (ranges_from (suc next) modules)
            all).1)
        h),
)

pub ranges_from-Unambiguous :
    (modules : List Module) (index : ℕ)
    → Pairwise OwnedApart (ranges_from index modules)
    → Unambiguous modules
ranges_from-Unambiguous [] index h = tt
ranges_from-Unambiguous (m ∷ modules) index h =
    let (across, rest) =
      append-Pairwise OwnedApart (ranges_of m.mappings index) (ranges_from (suc index) modules) h in
    (
      head-Distinct m index modules (suc index) across,
      ranges_from-Unambiguous modules (suc index) rest,
    )

-- Two modules of the list, at different places, contain the address.
abbrev pub Claimed : List Module → Type 0
Claimed modules =
    (i : ℕ) × (j : ℕ) × (m : Module) × (n : Module) × (address : ℕ) × (i ≢ j)
    × (get_elem? modules i ≡ some m)
    × (get_elem? modules j ≡ some n)
    × (contains m address ≡ true)
    × (contains n address ≡ true)

-- The range is one of the module at its index, counted from `index` on.
abbrev pub Owner : ℕ → List Module → Owned → Type 0
Owner index modules p =
    (k : ℕ) × (m : Module) × (p.1 ≡ index + k)
    × (get_elem? modules k ≡ some m)
    × ((address : ℕ)
        → p.0.start_address ≤ address
        → address < p.0.end_address
        → contains m address ≡ true)

within :
    (mappings : List Region) (index : ℕ)
    → All
        (λ (p : Owned).
          (p.1 ≡ index)
          × ((address : ℕ)
              → p.0.start_address ≤ address
              → address < p.0.end_address
              → any_contains mappings address ≡ true))
        (ranges_of mappings index)
within [] index = tt
within (r ∷ mappings) index = (
  (refl, λ address low high. let here = holds r address low high in ground (arith, here)),
  All-map _ _ _
      (λ p (e, h). (e, λ address low high. let there = h address low high in ground (arith, there)))
      (within mappings index),
)

pub ranges_from-Owner :
    (modules : List Module) (index : ℕ) → All (Owner index modules) (ranges_from index modules)
unfolding contains
ranges_from-Owner [] index = tt
ranges_from-Owner (m ∷ modules) index =
    All-append _ (ranges_of m.mappings index) (ranges_from (suc index) modules)
      (All-map _ _ _ (λ p (e, h). (0, m, omega (arith, e), refl, h)) (within m.mappings index))
      (All-map _ _ _ (λ p (k, n, e, at, h). (suc k, n, omega (arith, e), at, h))
        (ranges_from-Owner modules (suc index)))
