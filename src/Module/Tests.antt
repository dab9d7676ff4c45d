-- ===== src/Module/Tests.antt =====
-- Concrete mappings and modules for ganymede-module/src/lib.rs.
use ganymede.Common.{
  ℕ, ◌≡◌, ◌≤◌, ◌↔◌, refl, inl, List, [], ◌∷◌, none, some, false, leb, leb→le, All, arith,
}
use ganymede.Common.Result.{ok, err}
use ganymede.Common.Sort.{sort, insert}
use ganymede.Process.Snapshot.{Range, FileIdentity, Region, file, anonymous, region_at}
use ganymede.Process.Snapshot
use ganymede.Module.{
  RangeOrder, Module, overlapping_mappings, merge_identity, identity_from, from_mappings,
  from_anchor, contains, new, module_at,
}
use ganymede.Module.Mappings.{Normal, from_mappings-Normal, Anchored, from_anchor-Anchored}
use ganymede.Module.Ownership.{IsModule}
use ganymede.Module.Lookup.{Answers, new-Answers, Has, module_at-Has}

late_start :
    (r s : Range) → leb r.start_address s.start_address ≡ false → s.start_address ≤ r.start_address
late_start r s e = ground (arith, e)

abbrev by_start : RangeOrder
by_start = record {
  before = λ r s. leb r.start_address s.start_address;
  early = λ r s e. leb→le r.start_address s.start_address e;
  late = late_start;
}

abbrev identity : FileIdentity
identity = record { device_major = 8; device_minor = 1; inode_number = 77 }

abbrev plain : ℕ → ℕ → Region
plain start end = record {
  range = record { start_address = start; end_address = end };
  attributes = 1;
  backing = anonymous;
}

abbrev filed : ℕ → ℕ → Region
filed start end = record {
  range = record { start_address = start; end_address = end };
  attributes = 1;
  backing = file (record { identity = identity; offset = 0 });
}

abbrev library : Module
library = record {
  name = 97 ∷ [];
  mappings = filed 10 20 ∷ plain 30 40 ∷ [];
  file_identity = some identity;
}

abbrev program : Module
program = record { name = 98 ∷ []; mappings = plain 20 25 ∷ []; file_identity = none }

abbrev modules : List Module
modules = library ∷ program ∷ []

test-mappings : from_mappings by_start (97 ∷ []) (plain 30 40 ∷ filed 10 20 ∷ []) ≡ ok library
unfolding from_mappings sort insert identity_from merge_identity
test-mappings = refl

test-overlap :
    from_mappings by_start (97 ∷ []) (plain 30 40 ∷ filed 10 31 ∷ []) ≡ err overlapping_mappings
unfolding from_mappings sort insert identity_from merge_identity
test-overlap = refl

made : new by_start modules ≡ ok modules
unfolding new sort insert
made = refl

test-module_at : module_at modules 24 ≡ some program
unfolding module_at contains Snapshot.contains
test-module_at = refl

good : All IsModule modules
good = (
  ((omega arith, (omega arith, tt)), ((inl (omega arith), tt), (tt, tt))),
  (((omega arith, tt), (tt, tt)), tt),
)

from_mappings-Normal_example :
    Normal
      (97 ∷ [])
      (plain 30 40 ∷ filed 10 20 ∷ [])
      (from_mappings by_start (97 ∷ []) (plain 30 40 ∷ filed 10 20 ∷ []))
from_mappings-Normal_example =
    from_mappings-Normal by_start (97 ∷ []) (plain 30 40 ∷ filed 10 20 ∷ [])
      (omega arith, (omega arith, tt))

from_anchor-Anchored_example :
    Anchored by_start
      (plain 30 40 ∷ [])
      (97 ∷ [])
      33
      (from_anchor by_start (plain 30 40 ∷ []) (97 ∷ []) 33)
from_anchor-Anchored_example =
    from_anchor-Anchored by_start (plain 30 40 ∷ []) (97 ∷ []) 33 (omega arith, omega arith, tt)

new-Answers_example : Answers modules (new by_start modules)
new-Answers_example = new-Answers by_start modules good

module_at-Has_example : (module_at modules 24 ≡ some program) ↔ Has modules 24 program
module_at-Has_example = module_at-Has by_start modules 24 program good made
