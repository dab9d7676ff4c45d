-- ===== src/Process/Snapshot/Regions.antt =====
-- The validation in `Process::snapshot` of ganymede-process/src/snapshot.rs.
use ganymede.Common.{
  ℕ, ◌≤◌, ◌<◌, ◌≡◌, refl, List, [], ◌∷◌, ◌++◌, Option, none, some, Bool, true, false, not, ltb, leb,
  arith, if_split, ap,
}
use ganymede.Common.Result.{Result, ok, err, try_then}
use ganymede.Process.Snapshot.{
  Region, Backing, file, anonymous, special, Flags, has, Layout, SnapshotError, io, invalid_region,
  overlapping_region, conflicting_backing_attributes, unexpected_file_provenance, range_of,
  provenance_clear, backing_of, nonoverlap, region_of, regions_from,
}

-- The regions are nonempty, the first one starts at `lo` or above, and each one ends before the next.
abbrev pub Follows : ℕ → List Region → Type 0
Follows lo [] = Unit
Follows lo (r ∷ regions) =
    (lo ≤ r.range.start_address)
    × (r.range.start_address < r.range.end_address)
    × Follows r.range.end_address regions

-- The layout names no file: its offset and the numbers of its device and inode are 0.
abbrev pub IsClear : Layout → Type 0
IsClear l = (l.file_offset ≡ 0) × (l.device_major ≡ 0) × (l.device_minor ≡ 0) × (l.inode_number ≡ 0)

provenance_clear-IsClear : (l : Layout) → provenance_clear l ≡ true → IsClear l
provenance_clear-IsClear l e =
    (ground (arith, e), ground (arith, e), ground (arith, e), ground (arith, e))

provenance_clear-unless : (l : Layout) → provenance_clear l ≡ false → ¬ IsClear l
provenance_clear-unless l e (offset, major, minor, inode) =
    ground (arith, e, offset, major, minor, inode)

module _ (flags : Flags) where
  -- A backing that a layout allows: the file that it names, where it has the attribute of a file and not
  -- that of anonymous memory; without the attribute of a file, it names none, and the memory is anonymous
  -- where it has that attribute, and special otherwise.
  abbrev pub BackedBy : Layout → Backing → Type 0
  BackedBy l (file b) =
      (has l.attribute_list flags.file ≡ true)
      × (has l.attribute_list flags.anonymous ≡ false)
      × (b.identity.device_major ≡ l.device_major)
      × (b.identity.device_minor ≡ l.device_minor)
      × (b.identity.inode_number ≡ l.inode_number)
      × (b.offset ≡ l.file_offset)
  BackedBy l anonymous =
      (has l.attribute_list flags.file ≡ false)
      × (has l.attribute_list flags.anonymous ≡ true)
      × IsClear l
  BackedBy l special =
      (has l.attribute_list flags.file ≡ false)
      × (has l.attribute_list flags.anonymous ≡ false)
      × IsClear l

  -- The region has the range and the attributes of the layout, and a backing that it allows.
  abbrev pub MadeFrom : Region → Layout → Type 0
  MadeFrom r l = (r.range ≡ range_of l) × (r.attributes ≡ l.attribute_list) × BackedBy l r.backing

  abbrev pub bound : Option Region → ℕ
  bound none = 0
  bound (some r) = r.range.end_address

  -- The layout is not empty and does not start below the end of the region that was pushed last.
  abbrev pub IsPlaced : Option Region → Layout → Type 0
  IsPlaced previous l = (l.start_address < l.end_address) × (bound previous ≤ l.start_address)

  -- What is wrong with a layout after the region that was pushed last, by the error that names it.
  abbrev pub IsBad : Option Region → Layout → SnapshotError → Type 0
  IsBad previous l (io e) = ⊥
  IsBad previous l (invalid_region r) = (r ≡ range_of l) × (l.end_address ≤ l.start_address)
  IsBad previous l (overlapping_region r) =
      (r ≡ range_of l) × (l.start_address < l.end_address) × (l.start_address < bound previous)
  IsBad previous l (conflicting_backing_attributes r) =
      (r ≡ range_of l)
      × IsPlaced previous l
      × (has l.attribute_list flags.file ≡ true)
      × (has l.attribute_list flags.anonymous ≡ true)
  IsBad previous l (unexpected_file_provenance r) =
      (r ≡ range_of l)
      × IsPlaced previous l
      × (has l.attribute_list flags.file ≡ false)
      × (¬ IsClear l)

  abbrev pub Judged : Option Region → Layout → Result SnapshotError Region → Type 0
  Judged previous l (err e) = IsBad previous l e
  Judged previous l (ok r) =
      (bound previous ≤ r.range.start_address)
      × (r.range.start_address < r.range.end_address)
      × MadeFrom r l

  backed :
      (previous : Option Region) (l : Layout) (f a c : Bool)
      → has l.attribute_list flags.file ≡ f
      → has l.attribute_list flags.anonymous ≡ a
      → provenance_clear l ≡ c
      → bound previous ≤ l.start_address
      → l.start_address < l.end_address
      → Judged previous l (
          try_then (backing_of l f a c) λ backing.
            ok (record { range = range_of l; attributes = l.attribute_list; backing = backing }))
  unfolding backing_of
  backed previous l true false c ef ea ec b h =
      (b, h, (refl, refl, (ef, ea, refl, refl, refl, refl)))
  backed previous l true true c ef ea ec b h = (refl, (h, b), ef, ea)
  backed previous l false true true ef ea ec b h =
      (b, h, (refl, refl, (ef, ea, provenance_clear-IsClear l ec)))
  backed previous l false false true ef ea ec b h =
      (b, h, (refl, refl, (ef, ea, provenance_clear-IsClear l ec)))
  backed previous l false a false ef ea ec b h = (refl, (h, b), ef, provenance_clear-unless l ec)

  nonoverlap-bound :
      (previous : Option Region) (start : ℕ)
      → nonoverlap previous start ≡ leb (bound previous) start
  nonoverlap-bound none start = ground arith
  nonoverlap-bound (some r) start = refl

  pub region_of-Judged :
      (previous : Option Region) (l : Layout) → Judged previous l (region_of flags previous l)
  unfolding region_of
  region_of-Judged previous l =
      if_split (Judged previous l) (not (ltb l.start_address l.end_address))
        (λ e. (refl, ground (arith, e)))
        λ nonempty.
          if_split (Judged previous l) (not (nonoverlap previous l.start_address))
            (λ e. (
              refl,
              ground (arith, nonempty),
              ground (arith, e, nonoverlap-bound previous l.start_address),
            ))
            λ clear.
              backed previous l _ _ _ refl refl refl
                (ground (arith, clear, nonoverlap-bound previous l.start_address))
                (ground (arith, nonempty))

  -- The regions are made from the layouts, one for one.
  abbrev pub Same : List Region → List Layout → Type 0
  Same [] layouts = layouts ≡ []
  Same (r ∷ regions) [] = ⊥
  Same (r ∷ regions) (l ∷ layouts) = MadeFrom r l × Same regions layouts

  abbrev pub last_of : Option Region → List Region → Option Region
  last_of previous [] = previous
  last_of previous (r ∷ regions) = last_of (some r) regions

  -- Every layout gave its region, or the layouts before some one did and that one is bad.
  abbrev pub Answers : Option Region → List Layout → Result SnapshotError (List Region) → Type 0
  Answers previous layouts (ok regions) = Follows (bound previous) regions × Same regions layouts
  Answers previous layouts (err e) =
      (before : List Layout) × (l : Layout) × (after : List Layout) × (accepted : List Region)
      × (layouts ≡ before ++ l ∷ after)
      × (Follows (bound previous) accepted × Same accepted before)
      × IsBad (last_of previous accepted) l e

  extend :
      (previous : Option Region) (l : Layout) (layouts : List Layout) (r : Region)
      (o : Result SnapshotError (List Region))
      → Judged previous l (ok r)
      → Answers (some r) layouts o
      → Answers previous (l ∷ layouts) (try_then o λ rest. ok (r ∷ rest))
  extend previous l layouts r (ok regions) (low, nonempty, made_from) (f, same) =
      ((low, nonempty, f), (made_from, same))
  extend previous l layouts r (err e') (low, nonempty, made_from)
        (before, bad, after, accepted, split, (f, same), wrong) =
      (
        l ∷ before,
        bad,
        after,
        r ∷ accepted,
        ap (◌∷◌ l) split,
        ((low, nonempty, f), (made_from, same)),
        wrong,
      )

  -- On every list of layouts `snapshot` either makes a region of each, in the same order, nonempty,
  -- ascending and not overlapping, with its range and attributes, and backed by the file that it names, or
  -- by no file where it names none, as its attributes say; or it fails by the first layout that gives no
  -- region after those before it: it is empty, overlaps the region before it, has the attributes both of a
  -- file and of anonymous memory, or names a file without the attribute of one.
  pub regions_from-Answers :
      (previous : Option Region) (layouts : List Layout)
      → Answers previous layouts (regions_from flags previous layouts)
  unfolding regions_from
  regions_from-Answers previous [] = (tt, refl)
  regions_from-Answers previous (l ∷ layouts) =
      first (region_of flags previous l) (region_of-Judged previous l)
        λ r. regions_from-Answers (some r) layouts
    where
      first :
          (o : Result SnapshotError Region)
          → Judged previous l o
          → ((r : Region) → Answers (some r) layouts (regions_from flags (some r) layouts))
          → Answers previous
              (l ∷ layouts)
              (try_then o λ r. try_then (regions_from flags (some r) layouts) λ rest. ok (r ∷ rest))
      first (err e) bad onward = ([], l, layouts, [], refl, (tt, refl), bad)
      first (ok r) j onward =
          extend previous l layouts r (regions_from flags (some r) layouts) j (onward r)
