-- ===== src/Process/Snapshot.antt =====
-- ganymede-process/src/snapshot.rs: regions, their validation in `Process::snapshot`, and the address
-- lookups of `Snapshot`. `ViAddr` and `ViRange` are catalejo's, by their public fields. The kernel's
-- layouts are the argument of the model, and the attribute bits, generated by the build, are `Flags`.
pub mod Regions
pub mod Lookup
use ganymede.Common.{
  ℕ, zero, suc, ◌-◌, List, [], ◌∷◌, Option, none, some, Bool, true, false, not, ◌&&◌, ltb, leb,
  ◌==◌, if◌then◌else◌, get_elem?, checked_sub, bit_and,
}
use ganymede.Common.Result.{Result, ok, err, try_then}

pub record Range : Type 0 where
  pub start_address : ℕ
  pub end_address : ℕ

pub record FileIdentity : Type 0 where
  pub device_major : ℕ
  pub device_minor : ℕ
  pub inode_number : ℕ

pub record FileBacking : Type 0 where
  pub identity : FileIdentity
  pub offset : ℕ

pub data Backing : Type 0 where
  file : FileBacking → Backing
  anonymous special : Backing

pub record Region : Type 0 where
  pub range : Range
  pub attributes : ℕ
  pub backing : Backing

-- `Region::contains`
unfoldable pub contains : Region → ℕ → Bool
contains r address = leb r.range.start_address address && ltb address r.range.end_address

pub record Flags : Type 0 where
  pub read : ℕ
  pub anonymous : ℕ
  pub file : ℕ

-- `Attributes::contains`
abbrev pub has : ℕ → ℕ → Bool
has attributes flag = bit_and attributes flag == flag

-- One mapping as the kernel query returns it.
pub record Layout : Type 0 where
  pub start_address : ℕ
  pub end_address : ℕ
  pub attribute_list : ℕ
  pub file_offset : ℕ
  pub device_major : ℕ
  pub device_minor : ℕ
  pub inode_number : ℕ

-- The `io::Error` of the kernel query is a number.
pub data SnapshotError : Type 0 where
  io : ℕ → SnapshotError
  invalid_region overlapping_region conflicting_backing_attributes unexpected_file_provenance :
      Range → SnapshotError

abbrev pub range_of : Layout → Range
range_of l = record { start_address = l.start_address; end_address = l.end_address }

abbrev pub provenance_clear : Layout → Bool
provenance_clear l =
    l.file_offset == 0 && (l.device_major == 0 && (l.device_minor == 0 && l.inode_number == 0))

abbrev pub file_backing : Layout → Backing
file_backing l = file (record {
  identity = record {
    device_major = l.device_major;
    device_minor = l.device_minor;
    inode_number = l.inode_number;
  };
  offset = l.file_offset;
})

-- The two `match`es on the backing attributes: whether they are valid, and the backing.
unfoldable pub backing_of : Layout → Bool → Bool → Bool → Result SnapshotError Backing
backing_of l true false clear = ok (file_backing l)
backing_of l true true clear = err (conflicting_backing_attributes (range_of l))
backing_of l false true true = ok anonymous
backing_of l false false true = ok special
backing_of l false anon false = err (unexpected_file_provenance (range_of l))

-- No region stands before, or it ends where this one starts or earlier.
abbrev pub nonoverlap : Option Region → ℕ → Bool
nonoverlap none start = true
nonoverlap (some previous) start = leb previous.range.end_address start

module _ (flags : Flags) where
  -- One round of the `try_for_each`, after the region that was pushed last.
  unfoldable pub region_of : Option Region → Layout → Result SnapshotError Region
  region_of previous l =
      if not (ltb l.start_address l.end_address)
      then err (invalid_region (range_of l))
      else if not (nonoverlap previous l.start_address)
      then err (overlapping_region (range_of l))
      else try_then
          (backing_of l (has l.attribute_list flags.file) (has l.attribute_list flags.anonymous)
            (provenance_clear l))
          λ backing.
            ok (record { range = range_of l; attributes = l.attribute_list; backing = backing })

  -- The `region_list` of `Process::snapshot`.
  unfoldable pub regions_from : Option Region → List Layout → Result SnapshotError (List Region)
  regions_from previous [] = ok []
  regions_from previous (l ∷ layouts) =
      try_then (region_of previous l)
        λ r. try_then (regions_from (some r) layouts) λ rest. ok (r ∷ rest)

pub record AuxiliaryVectorEntry : Type 0 where
  pub entry_type : ℕ
  pub entry_value : ℕ

pub record Snapshot : Type 0 where
  pub region_list : List Region
  pub auxiliary_vector : List AuxiliaryVectorEntry
  pub environment_range : Range
  pub argument_range : Range

-- What the kernel query returns; an auxiliary entry of the kernel has the same two fields.
pub record AddressSpace : Type 0 where
  pub environment_start : ℕ
  pub environment_end : ℕ
  pub argument_start : ℕ
  pub argument_end : ℕ
  pub layouts : List Layout
  pub auxiliary : List AuxiliaryVectorEntry

abbrev pub snapshot_with : AddressSpace → List Region → Snapshot
snapshot_with space regions = record {
  region_list = regions;
  auxiliary_vector = space.auxiliary;
  environment_range = record {
    start_address = space.environment_start;
    end_address = space.environment_end;
  };
  argument_range = record {
    start_address = space.argument_start;
    end_address = space.argument_end;
  };
}

-- `Process::snapshot`, from what the kernel query returned.
unfoldable pub snapshot : Flags → Result ℕ AddressSpace → Result SnapshotError Snapshot
snapshot flags (err e) = err (io e)
snapshot flags (ok space) =
    try_then (regions_from flags none space.layouts) λ regions. ok (snapshot_with space regions)

-- `slice::partition_point` where the regions that meet the test stand first.
abbrev pub partition_point : (Region → Bool) → List Region → ℕ
partition_point p [] = 0
partition_point p (r ∷ regions) =
    let rest = suc (partition_point p regions) in if p r then rest else 0

abbrev pub filtered : Option Region → ℕ → Option Region
filtered none address = none
filtered (some r) address = if contains r address then some r else none

unfoldable pub region_at : List Region → ℕ → Option Region
region_at regions address =
    filtered (get_elem? regions (partition_point (λ r. leb r.range.end_address address) regions))
      address

-- The `usize` of the target has 64 bits, so the last conversion does not fail.
unfoldable pub readable_bytes : Flags → List Region → ℕ → Option ℕ
readable_bytes flags regions address = elim (region_at regions address) [
  | none ↦ none
  | some r ↦
      if not (has r.attributes flags.read) then none else checked_sub r.range.end_address address
]
