-- ===== src/Elf/Loaded.antt =====
-- ganymede-elf/src/loaded.rs: what is derived from the program table of a loaded image. The copying of
-- the foreign headers is not modelled: the table is the argument.
pub mod Segments
pub mod Pointers
use ganymede.Common.{
  ℕ, suc, ◌+◌, ◌-◌, ◌*◌, List, [], ◌∷◌, Option, none, some, Bool, true, false, not, ◌&&◌, ◌||◌, ltb,
  leb, ◌==◌, if◌then◌else◌, bit_and, checked_sub, get_elem?, take,
}
use mathlib.Core.Option
use ganymede.Common.Result.{Result, ok, err, try_then, ok_or}
use ganymede.Process.Snapshot.{Range}
use ganymede.Elf.{ElfClass, elf32, elf64, bits, Binding, word_add, address, range}
use ganymede.Text.{bytes_eq}

pub record ProgramHeader : Type 0 where
  pub kind : ℕ
  pub flags : ℕ
  pub virtual_address : ℕ
  pub file : ℕ
  pub memory : ℕ

pub data LoadedImageError : Type 0 where
  file_exceeds_memory : ℕ → LoadedImageError
  address_overflow : LoadedImageError

module _ (binding : Binding) (c : ElfClass) (load_bias : ℕ) where
  -- One round of the loop of `LoadedImage::executables`: a range to push, or none.
  unfoldable pub executable : ℕ → ProgramHeader → Result LoadedImageError (Option Range)
  executable index h =
      if not (h.kind == binding.pt_load)
      then ok none
      else if ltb h.memory h.file
      then err (file_exceeds_memory index)
      else if bit_and h.flags binding.pf_x == 0 || h.file == 0
      then ok none
      else try_then (ok_or (range c load_bias h.virtual_address h.file) address_overflow)
          λ r. ok (some r)

  abbrev pub push : Option Range → List Range → List Range
  push none ranges = ranges
  push (some r) ranges = r ∷ ranges

  -- `LoadedImage::executables`, from the index of the first header on.
  unfoldable pub executables : ℕ → List ProgramHeader → Result LoadedImageError (List Range)
  executables index [] = ok []
  executables index (h ∷ headers) =
      try_then (executable index h)
        λ found. try_then (executables (suc index) headers) λ rest. ok (push found rest)

  abbrev pub within : Range → ℕ → Bool
  within r target = leb r.start_address target && ltb target r.end_address

  abbrev pub is_within : Option Range → ℕ → Bool
  is_within none target = false
  is_within (some r) target = within r target

  -- The load segment of a header holds the address.
  abbrev pub loads : ProgramHeader → ℕ → Bool
  loads h target =
      if not (h.kind == binding.pt_load)
      then false
      else is_within (range c load_bias h.virtual_address h.memory) target

  -- `LoadedImage::contains_load`, and `contains`
  unfoldable pub contains_load : List ProgramHeader → ℕ → Bool
  contains_load [] target = false
  contains_load (h ∷ headers) target = loads h target || contains_load headers target

  abbrev pub filtered : List ProgramHeader → Option ℕ → Option ℕ
  filtered headers none = none
  filtered headers (some target) = if contains_load headers target then some target else none

  -- `LoadedImage::resolve_pointer`
  unfoldable pub resolve_pointer : List ProgramHeader → ℕ → Option ℕ
  resolve_pointer headers pointer =
      if contains_load headers pointer
      then some pointer
      else filtered headers (address c load_bias pointer)

  abbrev pub bytes_in : Option Range → ℕ → Option ℕ
  bytes_in none target = none
  bytes_in (some r) target =
      if not (within r target) then none else checked_sub r.end_address target

  abbrev pub segment_bytes : ProgramHeader → ℕ → Option ℕ
  segment_bytes h target =
      if not (h.kind == binding.pt_load)
      then none
      else bytes_in (range c load_bias h.virtual_address h.memory) target

  abbrev pub or_next : Option ℕ → Option ℕ → Option ℕ
  or_next none next = next
  or_next (some n) next = some n

  -- `LoadedImage::load_bytes`
  unfoldable pub load_bytes : List ProgramHeader → ℕ → Option ℕ
  load_bytes [] target = none
  load_bytes (h ∷ headers) target = or_next (segment_bytes h target) (load_bytes headers target)

  -- `dynamic.replace(range).is_some()`
  abbrev pub replace_once : Option Range → Range → (Option Range → Option Range) → Option Range
  replace_once none r next = next (some r)
  replace_once (some _) r next = none

  -- The loop of `LoadedImage::dynamic_range`, with the range found so far.
  unfoldable pub dynamic_from : Option Range → List ProgramHeader → Option Range
  dynamic_from found [] = found
  dynamic_from found (h ∷ headers) =
      if not (h.kind == binding.pt_dynamic)
      then dynamic_from found headers
      else if ltb h.memory h.file || h.memory == 0
      then none
      else Option.bind (range c load_bias h.virtual_address h.memory)
          λ r. replace_once found r λ next. dynamic_from next headers

  -- `LoadedImage::dynamic_range`
  unfoldable pub dynamic_range : List ProgramHeader → Option Range
  dynamic_range headers = dynamic_from none headers
