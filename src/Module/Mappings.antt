-- ===== src/Module/Mappings.antt =====
-- `Module::from_mappings` and `Module::from_anchor` of ganymede-module/src/lib.rs.
use ganymede.Common.{
  ℕ, ◌≡◌, ◌≢◌, inl, inr, refl, sym, ◌∙◌, List, [], ◌∷◌, Option, none, some, true, false, not, All,
  arith, if_split,
}
use mathlib.Core.List.{Perm}
use ganymede.Common.Result.{Result, ok, err, try_then}
use ganymede.Common.Sort.{
  is_empty, Any, Any-sort, sort-is_empty, sort, insert, Pairwise-map, Neighbours→Pairwise,
  all_neighbours, Neighbours, Pairwise, sort-perm, sort-All, All-sort, all_neighbours→Neighbours,
  Neighbours-true, Neighbours-map,
}
use ganymede.Process.Snapshot.{FileIdentity, Region, region_at}
use ganymede.Process.Snapshot.Regions.{Follows}
use ganymede.Process.Snapshot.Lookup.{Holds, region_at-Holds}
use ganymede.Module.{
  RangeOrder, Module, NormalizeError, missing_anchor, empty_mappings, overlapping_mappings,
  conflicting_file_identity, ambiguous_mapping_ownership, identity_of, merge_identity,
  identity_from, ends_before, module_of, sorted_mappings, from_mappings, from_anchor,
}
use ganymede.Module.Apart.{Nonempty, Apart, Before, Apart→sorted, sorted→Apart}
use ganymede.Module.Identity.{range_key, BackedBy, Agrees, Identified, identity_from-Identified}

abbrev pub IsPair : List Region → FileIdentity → FileIdentity → Type 0
IsPair mappings i j = (i ≢ j) × Any (BackedBy i) mappings × Any (BackedBy j) mappings

abbrev pub IdentityOf : Option FileIdentity → List Region → Type 0
IdentityOf none mappings = All (Agrees none) mappings
IdentityOf (some i) mappings = Any (BackedBy i) mappings × All (Agrees (some i)) mappings

abbrev pub AllApart : List Region → Type 0
AllApart mappings = Pairwise (λ r s. Apart (range_key r) (range_key s)) mappings

-- The ranges of a region are nonempty: `Process::snapshot` makes no other region.
abbrev pub Ranged : List Region → Type 0
Ranged mappings = All (λ r. Nonempty (range_key r)) mappings

abbrev pub Ascending : List Region → Type 0
Ascending mappings = Neighbours (λ r s. Before (range_key r) (range_key s)) mappings

-- What the normalisation of mappings returns.
abbrev pub Normal : List ℕ → List Region → Result NormalizeError Module → Type 0
Normal name mappings (ok m) =
    (m.name ≡ name)
    × Perm m.mappings mappings
    × (mappings ≢ [])
    × Ascending m.mappings
    × Ranged m.mappings
    × IdentityOf m.file_identity mappings
Normal name mappings (err (missing_anchor a)) = ⊥
Normal name mappings (err empty_mappings) = mappings ≡ []
Normal name mappings (err overlapping_mappings) = ¬ AllApart mappings
Normal name mappings (err conflicting_file_identity) =
    AllApart mappings × (i : FileIdentity) × (j : FileIdentity) × IsPair mappings i j
Normal name mappings (err ambiguous_mapping_ownership) = ⊥

is_empty_lem : (xs : List Region) → is_empty xs ≡ true → xs ≡ []
is_empty_lem [] e = refl
is_empty_lem (x ∷ xs) e = cc

is_empty-none : (xs : List Region) → is_empty xs ≡ false → xs ≢ []
is_empty-none [] e = cc
is_empty-none (x ∷ xs) e = λ f. cc

module _ (order : RangeOrder) where
  -- The mappings are apart and stand in order: what the identities then decide.
  identified-Normal :
      (name : List ℕ) (mappings : List Region) (o : Result NormalizeError (Option FileIdentity))
      → mappings ≢ []
      → AllApart mappings
      → Ascending (sorted_mappings order mappings)
      → Ranged (sorted_mappings order mappings)
      → Identified none (sorted_mappings order mappings) o
      → Normal name mappings
          (try_then o λ identity. ok (module_of name (sorted_mappings order mappings) identity))
  unfolding Identified
  identified-Normal name mappings (ok none) full apart sorted ranged (_, all) =
      (refl, sort-perm _ mappings, full, sorted, ranged, All-sort _ (Agrees none) mappings all)
  identified-Normal name mappings (ok (some i)) full apart sorted ranged (inl e, k, all) = cc
  identified-Normal name mappings (ok (some i)) full apart sorted ranged (inr has, k, all) = (
    refl,
    sort-perm _ mappings,
    full,
    sorted,
    ranged,
    (Any-sort _ (BackedBy i) mappings has, All-sort _ (Agrees (some i)) mappings all),
  )
  identified-Normal name mappings (err e) full apart sorted ranged (h, i, j, ne, inl s, t) = cc
  identified-Normal name mappings (err e) full apart sorted ranged (h, i, j, ne, inr s, inl t) = cc
  identified-Normal name mappings (err e) full apart sorted ranged (h, i, j, ne, inr s, inr t) =
      rw h
        (apart, i, j, (ne, Any-sort _ (BackedBy i) mappings s, Any-sort _ (BackedBy j) mappings t))

  ends_before-Ascending : (xs : List Region) → all_neighbours ends_before xs ≡ true → Ascending xs
  ends_before-Ascending xs e =
      Neighbours-map (λ r s. Before (range_key r) (range_key s)) xs (λ r s h. ground (arith, h))
        (all_neighbours→Neighbours ends_before xs e)

  Ascending-ends_before : (xs : List Region) → Ascending xs → all_neighbours ends_before xs ≡ true
  Ascending-ends_before xs h =
      Neighbours-true ends_before xs
        (Neighbours-map (λ r s. ends_before r s ≡ true) xs (λ r s k. ground (arith, k)) h)

  -- On nonempty ranges `from_mappings` keeps the mappings, in ascending order and apart, with the one
  -- file identity that they have or with none; it fails as empty exactly when there is no mapping, as
  -- overlapping only when two mappings overlap, and as conflicting only when none overlap and two are
  -- backed by different files.
  pub from_mappings-Normal :
      (name : List ℕ) (mappings : List Region)
      → Ranged mappings
      → Normal name mappings (from_mappings order name mappings)
  unfolding from_mappings
  from_mappings-Normal name mappings ranges =
      let sorted = sorted_mappings order mappings in
      if_split (Normal name mappings) (is_empty sorted)
        (λ none_there. is_empty_lem mappings (sym (sort-is_empty _ mappings) ∙ none_there))
        λ full.
          if_split (Normal name mappings) (not (all_neighbours ends_before sorted))
            (λ over apart.
              let fine =
                Ascending-ends_before sorted (Apart→sorted order range_key mappings ranges apart) in
              ground (arith, over, fine))
            λ clear.
              let follow = ends_before-Ascending sorted (ground (arith, clear)) in
              identified-Normal name mappings _
                (is_empty-none mappings (sym (sort-is_empty _ mappings) ∙ full))
                (sorted→Apart order range_key mappings ranges follow) follow
                (sort-All _ (λ r. Nonempty (range_key r)) mappings ranges)
                (identity_from-Identified none sorted)

  single :
      (name : List ℕ) (r : Region)
      → from_mappings order name (r ∷ []) ≡ ok (module_of name (r ∷ []) (identity_of r.backing))
  unfolding from_mappings sort insert identity_from merge_identity
  single name r = by_backing (identity_of r.backing) refl
    where
      by_backing :
          (o : Option FileIdentity)
          → identity_of r.backing ≡ o
          → from_mappings order name (r ∷ []) ≡ ok (module_of name (r ∷ []) (identity_of r.backing))
      by_backing none e = rw e refl
      by_backing (some i) e = rw e refl

  abbrev pub Anchored : List Region → List ℕ → ℕ → Result NormalizeError Module → Type 0
  Anchored regions name anchor (ok m) =
      (r : Region) × Holds regions anchor r × (m ≡ module_of name (r ∷ []) (identity_of r.backing))
  Anchored regions name anchor (err e) =
      (e ≡ missing_anchor anchor) × ((r : Region) → ¬ Holds regions anchor r)

  -- On the regions of a snapshot `from_anchor` makes the module of the one region that contains the
  -- anchor, with its file's identity, and fails only where no region contains it, naming the anchor.
  pub from_anchor-Anchored :
      (regions : List Region) (name : List ℕ) (anchor : ℕ)
      → Follows 0 regions
      → Anchored regions name anchor (from_anchor order regions name anchor)
  unfolding from_anchor
  from_anchor-Anchored regions name anchor f = by_region (region_at regions anchor) refl
    where
      by_region :
          (o : Option Region)
          → region_at regions anchor ≡ o
          → Anchored regions name anchor (elim o [
            | none ↦ err (missing_anchor anchor)
            | some mapping ↦ from_mappings order name (mapping ∷ [])
          ])
      by_region none e = (refl, λ r h. let found = (region_at-Holds regions anchor r f).1 h in cc)
      by_region (some r) e = rw (single name r) (r, (region_at-Holds regions anchor r f).0 e, refl)

  -- A module that `from_mappings` made of nonempty ranges has nonempty mappings, apart from each other.
  pub from_mappings-apart :
      (name : List ℕ) (mappings : List Region) {m : Module}
      → Ranged mappings
      → from_mappings order name mappings ≡ ok m
      → Ranged m.mappings × AllApart m.mappings
  from_mappings-apart name mappings {m} ranges e =
      known (from_mappings order name mappings) e (from_mappings-Normal name mappings ranges)
    where
      known :
          (o : Result NormalizeError Module)
          → o ≡ ok m
          → Normal name mappings o
          → Ranged m.mappings × AllApart m.mappings
      known (err x) e h = cc
      known (ok made) e (_, _, _, ascending, ranged, _) =
          let same : made ≡ m = cc in
          rw (← same) (
            ranged,
            Pairwise-map _ _ made.mappings (λ r s. inl)
                (Neighbours→Pairwise (λ r. Nonempty (range_key r))
                  (λ r s. Before (range_key r) (range_key s)) made.mappings
                  (λ a b c full ab bc. omega (arith, full, ab, bc)) ranged ascending),
          )
