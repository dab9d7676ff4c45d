-- ===== src/Module.antt =====
-- ganymede-module/src/lib.rs: modules as sets of mappings, their normalisation, and their lookups.
-- The order of address ranges is catalejo's `Ord` of `ViRange`, the argument `order`. `Modules` is the
-- list it wraps.
mod Tests
pub mod Apart
pub mod Identity
pub mod Mappings
pub mod Ownership
pub mod Distinct
pub mod Lookup
use ganymede.Common.{
  ℕ, suc, ◌≤◌, ◌≡◌, List, [], ◌∷◌, ◌++◌, map, Option, none, some, Bool, true, false, not, ◌&&◌,
  ◌||◌, leb, ◌==◌, if◌then◌else◌,
}
use ganymede.Common.Result.{Result, ok, err, try_then}
use ganymede.Common.Sort.{is_empty, sort, all_neighbours}
use ganymede.Process.Snapshot.{
  Range, FileIdentity, Backing, file, anonymous, special, Region, region_at,
}
use ganymede.Process.Snapshot
use ganymede.Text.{basename, bytes_eq}

-- A total order of ranges that compares their starts first.
pub record RangeOrder : Type 0 where
  pub before : Range → Range → Bool
  pub early : (r s : Range) → before r s ≡ true → r.start_address ≤ s.start_address
  pub late : (r s : Range) → before r s ≡ false → s.start_address ≤ r.start_address

pub record Module : Type 0 where
  pub name : List ℕ
  pub mappings : List Region
  pub file_identity : Option FileIdentity

pub data NormalizeError : Type 0 where
  missing_anchor : ℕ → NormalizeError
  empty_mappings overlapping_mappings conflicting_file_identity ambiguous_mapping_ownership :
      NormalizeError

abbrev pub identity_of : Backing → Option FileIdentity
identity_of (file b) = some b.identity
identity_of anonymous = none
identity_of special = none

abbrev pub identity_eq : FileIdentity → FileIdentity → Bool
identity_eq a b =
    a.device_major == b.device_major
    && (a.device_minor == b.device_minor && a.inode_number == b.inode_number)

-- One round of the `try_for_each`: the identity kept so far, and that of the mapping.
unfoldable pub merge_identity :
    Option FileIdentity → Option FileIdentity → Result NormalizeError (Option FileIdentity)
merge_identity kept none = ok kept
merge_identity none (some identity) = ok (some identity)
merge_identity (some existing) (some identity) =
    if identity_eq existing identity then ok (some existing) else err conflicting_file_identity

unfoldable pub identity_from :
    Option FileIdentity → List Region → Result NormalizeError (Option FileIdentity)
identity_from kept [] = ok kept
identity_from kept (r ∷ mappings) =
    try_then (merge_identity kept (identity_of r.backing)) λ next. identity_from next mappings

abbrev pub ends_before : Region → Region → Bool
ends_before left right = leb left.range.end_address right.range.start_address

abbrev pub module_of : List ℕ → List Region → Option FileIdentity → Module
module_of name mappings file_identity = record {
  name = name;
  mappings = mappings;
  file_identity = file_identity;
}

module _ (order : RangeOrder) where
  abbrev pub sorted_mappings : List Region → List Region
  sorted_mappings = sort λ (r s : Region). order.before r.range s.range

  -- `Module::from_mappings`
  unfoldable pub from_mappings : List ℕ → List Region → Result NormalizeError Module
  from_mappings name mappings =
      let sorted = sorted_mappings mappings in
      if is_empty sorted
      then err empty_mappings
      else if not (all_neighbours ends_before sorted)
      then err overlapping_mappings
      else try_then (identity_from none sorted) λ identity. ok (module_of name sorted identity)

  -- `Module::from_anchor`
  unfoldable pub from_anchor : List Region → List ℕ → ℕ → Result NormalizeError Module
  from_anchor regions name anchor = elim (region_at regions anchor) [
    | none ↦ err (missing_anchor anchor)
    | some mapping ↦ from_mappings name (mapping ∷ [])
  ]

abbrev pub any_contains : List Region → ℕ → Bool
any_contains [] address = false
any_contains (r ∷ mappings) address = Snapshot.contains r address || any_contains mappings address

-- `Module::contains`
unfoldable pub contains : Module → ℕ → Bool
contains m address = any_contains m.mappings address

-- `Module::has_full_name`
abbrev pub has_full_name : Module → List ℕ → Bool
has_full_name m name = bytes_eq m.name name

-- `Module::has_basename`
abbrev pub has_basename : Module → List ℕ → Bool
has_basename m name = bytes_eq (basename m.name) name

abbrev pub ranges_of : List Region → ℕ → List (Range × ℕ)
ranges_of [] index = []
ranges_of (r ∷ mappings) index = (r.range, index) ∷ ranges_of mappings index

-- The ranges of all the modules, each with the index of its module.
abbrev pub ranges_from : ℕ → List Module → List (Range × ℕ)
ranges_from index [] = []
ranges_from index (m ∷ modules) = ranges_of m.mappings index ++ ranges_from (suc index) modules

abbrev pub unambiguous : Range × ℕ → Range × ℕ → Bool
unambiguous left right = left.1 == right.1 || leb left.0.end_address right.0.start_address

abbrev pub sorted_ranges : RangeOrder → List Module → List (Range × ℕ)
sorted_ranges order modules =
    sort (λ (a b : Range × ℕ). order.before a.0 b.0) (ranges_from 0 modules)

-- `Modules::new`
unfoldable pub new : RangeOrder → List Module → Result NormalizeError (List Module)
new order modules =
    if all_neighbours unambiguous (sorted_ranges order modules)
    then ok modules
    else err ambiguous_mapping_ownership

-- `Iterator::find`
abbrev pub find : (Module → Bool) → List Module → Option Module
find p [] = none
find p (m ∷ modules) = let rest = find p modules in if p m then some m else rest

-- `Modules::module_at`
unfoldable pub module_at : List Module → ℕ → Option Module
module_at modules address = find (λ m. contains m address) modules

-- `Modules::find_by_full_name`
unfoldable pub find_by_full_name : List Module → List ℕ → Option Module
find_by_full_name modules name = find (λ m. has_full_name m name) modules

-- `Modules::find_by_basename`
unfoldable pub find_by_basename : List Module → List ℕ → Option Module
find_by_basename modules name = find (λ m. has_basename m name) modules
