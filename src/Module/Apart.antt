-- ===== src/Module/Apart.antt =====
-- Sorting by address range, as `Module::from_mappings` and `Modules::new` of ganymede-module/src/lib.rs do.
use ganymede.Common.{◌≤◌, ◌<◌, ◌⊎◌, inl, inr, List, arith, All}
use ganymede.Common.Sort.{
  sort, Neighbours, Pairwise, sort-All, sort-Pairwise, Pairwise-sort, sort-Neighbours,
  Neighbours-both, Neighbours-map, All→Neighbours, Pairwise→Neighbours, Neighbours→Pairwise,
  Pairwise-map,
}
use ganymede.Process.Snapshot.{Range}
use ganymede.Module.{RangeOrder}

abbrev pub Nonempty : Range → Type 0
Nonempty r = r.start_address < r.end_address

abbrev pub Apart : Range → Range → Type 0
Apart r s = (r.end_address ≤ s.start_address) ⊎ (s.end_address ≤ r.start_address)

abbrev pub Before : Range → Range → Type 0
Before r s = r.end_address ≤ s.start_address

pub Apart-sym : (r s : Range) → Apart r s → Apart s r
Apart-sym r s (inl e) = inr e
Apart-sym r s (inr e) = inl e

Apart-Before :
    (r s : Range) → Nonempty s → r.start_address ≤ s.start_address → Apart r s → Before r s
Apart-Before r s nonempty start (inl e) = e
Apart-Before r s nonempty start (inr e) = omega (arith, nonempty, start, e)

module _ {ℓ} {A : Type ℓ} (order : RangeOrder) (key : A → Range) where
  abbrev pub by_range : List A → List A
  by_range = sort λ a b. order.before (key a) (key b)

  pub by_range-starts :
      (xs : List A)
      → Neighbours (λ a b. (key a).start_address ≤ (key b).start_address) (by_range xs)
  by_range-starts xs =
      sort-Neighbours _ (λ a b. (key a).start_address ≤ (key b).start_address) xs
        (λ a b e. order.early (key a) (key b) e) λ a b e. order.late (key a) (key b) e

  -- Neighbours of the sorted list that are apart follow each other.
  pub Apart-follow :
      (xs : List A)
      → All (λ a. Nonempty (key a)) xs
      → Neighbours (λ a b. Apart (key a) (key b)) (by_range xs)
      → Neighbours (λ a b. Before (key a) (key b)) (by_range xs)
  Apart-follow xs nonempty apart =
      let starts = by_range-starts xs in
      let full =
        All→Neighbours (λ a. Nonempty (key a)) (by_range xs)
          (sort-All _ (λ a. Nonempty (key a)) xs nonempty) in
      let all =
        Neighbours-both _ _ (by_range xs) full (Neighbours-both _ _ (by_range xs) starts apart) in
      Neighbours-map (λ a b. Before (key a) (key b)) (by_range xs)
        (λ a b ((_, y), (start, h)). Apart-Before (key a) (key b) y start h) all

  pub Apart→sorted :
      (xs : List A)
      → All (λ a. Nonempty (key a)) xs
      → Pairwise (λ a b. Apart (key a) (key b)) xs
      → Neighbours (λ a b. Before (key a) (key b)) (by_range xs)
  Apart→sorted xs nonempty apart = Apart-follow xs nonempty (
      Pairwise→Neighbours _ (by_range xs) (
        sort-Pairwise _ (λ a b. Apart (key a) (key b)) xs (λ a b. Apart-sym (key a) (key b)) apart))

  pub sorted→Apart :
      (xs : List A)
      → All (λ a. Nonempty (key a)) xs
      → Neighbours (λ a b. Before (key a) (key b)) (by_range xs)
      → Pairwise (λ a b. Apart (key a) (key b)) xs
  sorted→Apart xs nonempty follow =
      let pairs =
        Neighbours→Pairwise (λ a. Nonempty (key a)) (λ a b. Before (key a) (key b)) (by_range xs)
          (λ a b c full ab bc. omega (arith, full, ab, bc))
          (sort-All _ (λ a. Nonempty (key a)) xs nonempty) follow in
      Pairwise-sort _ (λ a b. Apart (key a) (key b)) xs (λ a b. Apart-sym (key a) (key b))
        (Pairwise-map _ _ (by_range xs) (λ a b. inl) pairs)
