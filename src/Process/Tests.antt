-- ===== src/Process/Tests.antt =====
-- Concrete mappings for ganymede-process/src/snapshot.rs.
use ganymede.Common.{ℕ, ◌+◌, ◌≡◌, ◌↔◌, refl, List, [], ◌∷◌, none, some, true, arith}
use ganymede.Common.Result.{ok, err}
use ganymede.Process.Snapshot.{
  Region, anonymous, Flags, has, Layout, overlapping_region, contains, backing_of, region_of,
  regions_from, region_at, readable_bytes,
}
use ganymede.Process.Snapshot.Regions.{Follows, Answers, regions_from-Answers}
use ganymede.Process.Snapshot.Lookup.{Holds, region_at-Holds, readable_bytes-Holds}

abbrev flags : Flags
flags = record { read = 1; anonymous = 2; file = 4 }

abbrev layout : ℕ → ℕ → ℕ → Layout
layout start end attributes = record {
  start_address = start;
  end_address = end;
  attribute_list = attributes;
  file_offset = 0;
  device_major = 0;
  device_minor = 0;
  inode_number = 0;
}

abbrev region : ℕ → ℕ → ℕ → Region
region start end attributes = record {
  range = record { start_address = start; end_address = end };
  attributes = attributes;
  backing = anonymous;
}

abbrev regions : List Region
regions = region 10 20 3 ∷ region 20 30 2 ∷ region 40 50 3 ∷ []

test-regions :
    regions_from flags none (layout 10 20 3 ∷ layout 20 30 2 ∷ layout 40 50 3 ∷ []) ≡ ok regions
unfolding regions_from region_of backing_of
test-regions = refl

test-overlap :
    regions_from flags none (layout 10 20 3 ∷ layout 15 30 2 ∷ [])
    ≡ err (overlapping_region (record { start_address = 15; end_address = 30 }))
unfolding regions_from region_of backing_of
test-overlap = refl

test-at : region_at regions 45 ≡ some (region 40 50 3)
unfolding region_at contains
test-at = refl

test-gap : region_at regions 30 ≡ none
unfolding region_at contains
test-gap = refl

test-readable : readable_bytes flags regions 45 ≡ some 5
unfolding readable_bytes region_at contains
test-readable = refl

follows : Follows 0 regions
follows = (omega arith, omega arith, (omega arith, omega arith, (omega arith, omega arith, tt)))

regions_from-Answers_example :
    Answers flags none
      (layout 10 20 3 ∷ layout 15 30 2 ∷ [])
      (regions_from flags none (layout 10 20 3 ∷ layout 15 30 2 ∷ []))
regions_from-Answers_example =
    regions_from-Answers flags none (layout 10 20 3 ∷ layout 15 30 2 ∷ [])

region_at-Holds_example :
    (region_at regions 45 ≡ some (region 40 50 3)) ↔ Holds regions 45 (region 40 50 3)
region_at-Holds_example = region_at-Holds regions 45 (region 40 50 3) follows

readable_bytes-Holds_example : (readable_bytes flags regions 45 ≡ some 5) ↔ (
    (r : Region) × Holds regions 45 r
    × (has r.attributes flags.read ≡ true)
    × (45 + 5 ≡ r.range.end_address))
readable_bytes-Holds_example = readable_bytes-Holds flags regions 45 5 follows
