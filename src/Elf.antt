-- ===== src/Elf.antt =====
-- ganymede-elf/src/class.rs and image.rs: ELF classes and the load bias. The constants of the ELF headers
-- and the sizes of their records are generated by the build, so they are the fields of `Binding`.
mod Tests
pub mod Loaded
pub mod Symbol
pub mod Note
pub mod Dynamic
use ganymede.Common.{
  ℕ, ◌+◌, ◌-◌, ◌*◌, ◌^◌, List, [], ◌∷◌, Option, none, some, Bool, true, false, ltb, ◌==◌,
  if◌then◌else◌,
}
use mathlib.Core.Option
use ganymede.Common.Result.{Result, ok, err, try_then}
use ganymede.Process.Snapshot.{Range, AuxiliaryVectorEntry}

pub data ElfClass : Type 0 where
  elf32 elf64 : ElfClass

-- `Class::BITS`
abbrev pub bits : ElfClass → ℕ
bits elf32 = 32
bits elf64 = 64

-- The generated constants and record sizes.
pub record Binding : Type 0 where
  pub at_phent : ℕ
  pub program_header_size : ElfClass → ℕ
  pub pt_load : ℕ
  pub pt_note : ℕ
  pub pt_dynamic : ℕ
  pub pf_x : ℕ
  pub shn_undef : ℕ
  pub shn_common : ℕ
  pub shn_xindex : ℕ
  pub shn_abs : ℕ

-- `checked_add` of the word of the class.
abbrev pub word_add : ElfClass → ℕ → ℕ → Option ℕ
word_add c a b = if ltb (a + b) (2 ^ bits c) then some (a + b) else none

-- `LoadBias::address`; the bias is the word it wraps.
unfoldable pub address : ElfClass → ℕ → ℕ → Option ℕ
address c load_bias virtual_address = word_add c load_bias virtual_address

-- `LoadBias::range`
unfoldable pub range : ElfClass → ℕ → ℕ → ℕ → Option Range
range c load_bias virtual_address memory_size =
    Option.bind (word_add c load_bias virtual_address) λ start.
      Option.bind (word_add c start memory_size)
        λ end. some (record { start_address = start; end_address = end })

pub data ElfClassError : Type 0 where
  duplicate_program_header_size missing_program_header_size : ElfClassError
  unsupported_program_header_size : ℕ → ElfClassError

module _ (binding : Binding) where
  -- The `try_for_each` of `ElfClass::from_snapshot`.
  unfoldable pub entry_size : Option ℕ → List AuxiliaryVectorEntry → Result ElfClassError (Option ℕ)
  entry_size kept [] = ok kept
  entry_size kept (entry ∷ entries) =
      if entry.entry_type == binding.at_phent
      then elim kept [
        | none ↦ entry_size (some entry.entry_value) entries
        | some _ ↦ err duplicate_program_header_size
      ]
      else entry_size kept entries

  abbrev pub class_of_size : Option ℕ → Result ElfClassError ElfClass
  class_of_size none = err missing_program_header_size
  class_of_size (some size) =
      if size == binding.program_header_size elf32
      then ok elf32
      else if size == binding.program_header_size elf64
      then ok elf64
      else err (unsupported_program_header_size size)

  -- `ElfClass::from_snapshot`
  unfoldable pub from_snapshot : List AuxiliaryVectorEntry → Result ElfClassError ElfClass
  from_snapshot entries = try_then (entry_size none entries) class_of_size
