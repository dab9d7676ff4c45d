-- ===== src/Module/Lookup.antt =====
-- What `Modules::new` of ganymede-module/src/lib.rs makes of the modules, and `Modules::module_at`.
use ganymede.Common.{
  ℕ, zero, suc, ◌<◌, ◌≡◌, ◌↔◌, inl, inr, refl, ap, List, [], ◌∷◌, Option, some, true, false, ◌==◌,
  All, arith, if_split, Bool-cases, get_elem?, All-get_elem?, if◌then◌else◌,
}
use ganymede.Common.Result.{Result, ok, err}
use ganymede.Common.Sort.{
  all_neighbours, Neighbours, All→Neighbours, sort-All, sort-Pairwise, Pairwise→Neighbours,
  all_neighbours→Neighbours, all_neighbours-false, Neighbours-both, Neighbours-map,
}
use ganymede.Module.{
  RangeOrder, Module, NormalizeError, ambiguous_mapping_ownership, contains, ranges_from,
  unambiguous, sorted_ranges, new, find, module_at,
}
use ganymede.Module.Apart.{Nonempty, by_range-starts, Apart-follow, sorted→Apart}
use ganymede.Module.Ownership.{
  IsModule, owned_key, SameApart, SameApart-sym, ranges_from-full, ranges_from-apart,
}
use ganymede.Module.Distinct.{
  Distinct, Unambiguous, OwnedApart, Claimed, Owner, ranges_from-Unambiguous, ranges_from-Owner,
}

abbrev pub Answers : List Module → Result NormalizeError (List Module) → Type 0
Answers modules (ok made) = (made ≡ modules) × Unambiguous modules
Answers modules (err e) = (e ≡ ambiguous_mapping_ownership) × Claimed modules

Neighbours-apart :
    (order : RangeOrder) (modules : List Module)
    → All IsModule modules
    → all_neighbours unambiguous (sorted_ranges order modules) ≡ true
    → Neighbours OwnedApart (sorted_ranges order modules)
Neighbours-apart order modules good e =
    let ranges = ranges_from 0 modules in
    let same =
      Pairwise→Neighbours _ _
        (sort-Pairwise _ SameApart ranges SameApart-sym (ranges_from-apart modules 0 good)) in
    let tested = all_neighbours→Neighbours unambiguous (sorted_ranges order modules) e in
    Neighbours-map OwnedApart (sorted_ranges order modules)
      (λ p q (h, t). elim (Bool-cases (p.1 == q.1)) [
        | inl equal ↦ h (ground (arith, equal))
        | inr differ ↦ inl (ground (arith, t, differ))
      ])
      (Neighbours-both _ _ _ same tested)

claimed :
    (order : RangeOrder) (modules : List Module)
    → All IsModule modules
    → all_neighbours unambiguous (sorted_ranges order modules) ≡ false
    → Claimed modules
claimed order modules good e =
    let ranges = ranges_from 0 modules in
    let owners =
      sort-All (λ p q. order.before (owned_key p) (owned_key q)) (Owner 0 modules) ranges
        (ranges_from-Owner modules 0) in
    let full = All→Neighbours _ _ (
      sort-All (λ p q. order.before (owned_key p) (owned_key q)) (λ p. Nonempty (owned_key p))
        ranges (ranges_from-full modules 0 good)) in
    let starts = by_range-starts order owned_key ranges in
    let (p, q, (i, m, at, im, hm), (j, n, bt, jn, hn), ((_, nonempty), low), wrong) =
      all_neighbours-false unambiguous (Owner 0 modules) _ (sorted_ranges order modules) owners
        (Neighbours-both _ _ _ full starts) e in
    let differ : (p.1 == q.1) ≡ false = ground (arith, wrong) in
    let over : q.0.start_address < p.0.end_address = ground (arith, wrong) in
    (
      i,
      j,
      m,
      n,
      q.0.start_address,
      (λ same. ground (arith, same, at, bt, differ)),
      im,
      jn,
      hm q.0.start_address low over,
      hn q.0.start_address (omega arith) nonempty,
    )

-- On modules whose mappings are nonempty and apart `Modules::new` keeps the list exactly when no
-- address is contained by two of its modules. Where it fails, two modules at different places contain
-- one address.
pub new-Answers :
    (order : RangeOrder) (modules : List Module)
    → All IsModule modules
    → Answers modules (new order modules)
unfolding new
new-Answers order modules good =
    if_split (Answers modules) (all_neighbours unambiguous (sorted_ranges order modules))
      (λ e.
        let ranges = ranges_from 0 modules in
        let full = ranges_from-full modules 0 good in
        let follow =
          Apart-follow order owned_key ranges full (Neighbours-apart order modules good e) in
        (refl, ranges_from-Unambiguous modules 0 (sorted→Apart order owned_key ranges full follow)))
      λ e. (refl, claimed order modules good e)

-- The module stands in the list and contains the address.
abbrev pub Has : List Module → ℕ → Module → Type 0
Has modules address m = (i : ℕ) × (get_elem? modules i ≡ some m) × (contains m address ≡ true)

Distinct-at :
    (m : Module) (modules : List Module) (address i : ℕ) {n : Module}
    → All (Distinct m) modules
    → contains m address ≡ true
    → get_elem? modules i ≡ some n
    → contains n address ≡ true
    → ⊥
Distinct-at m modules address i {n} h e at f = All-get_elem? (Distinct m) modules i h at address e f

found-Has :
    (modules : List Module) (address : ℕ) (m : Module)
    → Unambiguous modules
    → (find (λ n. contains n address) modules ≡ some m) ↔ Has modules address m
found-Has [] address m h = ((λ e. cc), λ (i, e, f). cc)
found-Has (n ∷ modules) address m (clear, h) = elim (Bool-cases (contains n address)) [
  | inl here ↦ (
    λ e. (
      0,
      ground (arith, e, here),
      let same : n ≡ m = ground (arith, e, here) in rw (← same) here,
    ),
    λ k. only here k,
  )
  | inr away ↦ (
    λ e.
        let (i, at, c) = (found-Has modules address m h).0 (ground (arith, e, away)) in
        (suc i, at, c),
    λ k. later away (found-Has modules address m h).1 k,
  )
]
  where
    chosen : Option Module
    chosen = find (λ n. contains n address) modules

    only :
        contains n address ≡ true
        → Has (n ∷ modules) address m
        → (if contains n address then some n else chosen) ≡ some m
    only here (zero, at, c) = rw here at
    only here (suc i, at, c) = absurd (Distinct-at n modules address i clear here at c)

    later :
        contains n address ≡ false
        → (Has modules address m → chosen ≡ some m)
        → Has (n ∷ modules) address m
        → (if contains n address then some n else chosen) ≡ some m
    later away back (zero, at, c) =
        let same : n ≡ m = cc in absurd (ground (arith, away, c, ap (λ x. contains x address) same))
    later away back (suc i, at, c) = rw away (back (i, at, c))

-- On a collection that `Modules::new` made of modules whose mappings are nonempty and apart,
-- `module_at` returns a module exactly when it stands in the collection and contains the address.
pub module_at-Has :
    (order : RangeOrder) (modules : List Module) {made : List Module} (address : ℕ) (m : Module)
    → All IsModule modules
    → new order modules ≡ ok made
    → (module_at made address ≡ some m) ↔ Has modules address m
unfolding module_at
module_at-Has order modules {made} address m good e =
    known (new order modules) e (new-Answers order modules good)
  where
    known :
        (o : Result NormalizeError (List Module))
        → o ≡ ok made
        → Answers modules o
        → (find (λ n. contains n address) made ≡ some m) ↔ Has modules address m
    known (err x) e h = cc
    known (ok list) e (same, clear) =
        let equal : made ≡ modules = cc in rw equal (found-Has modules address m clear)
