-- ===== src/Elf/Symbol.antt =====
-- ganymede-elf/src/symbol.rs: the fields of a symbol record, its location, and the promotion to an export.
pub mod Fields
pub mod Exports
use ganymede.Common.{
  ℕ, ◌/◌, List, [], ◌∷◌, Option, none, some, Bool, true, false, ◌&&◌, ◌==◌, if◌then◌else◌, bit_and,
}
use ganymede.Common.Result.{Result, ok, err, try_then, ok_or}
use ganymede.Elf.{ElfClass, Binding, address}

pub data ElfSymbolBinding : Type 0 where
  local global weak gnu_unique : ElfSymbolBinding
  other_binding : ℕ → ElfSymbolBinding

pub data ElfSymbolType : Type 0 where
  no_type object function section source_file common thread_local gnu_indirect_function :
      ElfSymbolType
  other_type : ℕ → ElfSymbolType

pub data ElfSymbolVisibility : Type 0 where
  default internal hidden protected : ElfSymbolVisibility
  other_visibility : ℕ → ElfSymbolVisibility

-- `SymbolInformation::binding`
unfoldable pub binding_of : ℕ → ElfSymbolBinding
binding_of information =
    let binding = information / 16 in
    if binding == 0
    then local
    else if binding == 1
    then global
    else if binding == 2
    then weak
    else if binding == 10
    then gnu_unique
    else other_binding binding

-- `SymbolInformation::symbol_type`
unfoldable pub type_of : ℕ → ElfSymbolType
type_of information =
    let symbol_type = bit_and information 15 in
    if symbol_type == 0
    then no_type
    else if symbol_type == 1
    then object
    else if symbol_type == 2
    then function
    else if symbol_type == 3
    then section
    else if symbol_type == 4
    then source_file
    else if symbol_type == 5
    then common
    else if symbol_type == 6
    then thread_local
    else if symbol_type == 10
    then gnu_indirect_function
    else other_type symbol_type

-- `SymbolVisibility::visibility`
unfoldable pub visibility_of : ℕ → ElfSymbolVisibility
visibility_of other =
    let visibility = bit_and other 3 in
    if visibility == 0
    then default
    else if visibility == 1
    then internal
    else if visibility == 2
    then hidden
    else if visibility == 3
    then protected
    else other_visibility visibility

pub record Symbol : Type 0 where
  pub name_offset : ℕ
  pub information : ℕ
  pub visibility : ℕ
  pub section_index : ℕ
  pub value : ℕ
  pub size : ℕ

abbrev pub binding_visible : ElfSymbolBinding → Bool
binding_visible local = false
binding_visible global = true
binding_visible weak = true
binding_visible gnu_unique = true
binding_visible (other_binding n) = false

abbrev pub visibility_visible : ElfSymbolVisibility → Bool
visibility_visible default = true
visibility_visible internal = false
visibility_visible hidden = false
visibility_visible protected = true
visibility_visible (other_visibility n) = false

-- `Symbol::externally_visible`
unfoldable pub externally_visible : Symbol → Bool
externally_visible s =
    binding_visible (binding_of s.information) && visibility_visible (visibility_of s.visibility)

abbrev pub is_thread_local : ElfSymbolType → Bool
is_thread_local thread_local = true
is_thread_local no_type = false
is_thread_local object = false
is_thread_local function = false
is_thread_local section = false
is_thread_local source_file = false
is_thread_local common = false
is_thread_local gnu_indirect_function = false
is_thread_local (other_type n) = false

abbrev pub is_indirect_function : ElfSymbolType → Bool
is_indirect_function gnu_indirect_function = true
is_indirect_function no_type = false
is_indirect_function object = false
is_indirect_function function = false
is_indirect_function section = false
is_indirect_function source_file = false
is_indirect_function common = false
is_indirect_function thread_local = false
is_indirect_function (other_type n) = false

pub data SymbolLocation : Type 0 where
  undefined extended_section : SymbolLocation
  at_process indirect_function : ℕ → SymbolLocation
  thread_offset common_allocation : ℕ → SymbolLocation

pub data SymbolError : Type 0 where
  address_overflow : SymbolError

abbrev pub placed : Symbol → ℕ → SymbolLocation
placed s a =
    if is_indirect_function (type_of s.information) then indirect_function a else at_process a

module _ (binding : Binding) (c : ElfClass) (load_bias : ℕ) where
  -- `Symbol::location`
  unfoldable pub location : Symbol → Result SymbolError SymbolLocation
  location s =
      if s.section_index == binding.shn_undef
      then ok undefined
      else if s.section_index == binding.shn_common
      then ok (common_allocation s.value)
      else if s.section_index == binding.shn_xindex
      then ok extended_section
      else if is_thread_local (type_of s.information)
      then ok (thread_offset s.value)
      else if s.section_index == binding.shn_abs
      then ok (placed s s.value)
      else try_then (ok_or (address c load_bias s.value) address_overflow) λ a. ok (placed s a)

  abbrev pub promoted : Bool → SymbolLocation → Option ℕ
  promoted true (at_process a) = some a
  promoted false (at_process a) = none
  promoted visible undefined = none
  promoted visible extended_section = none
  promoted visible (indirect_function a) = none
  promoted visible (thread_offset n) = none
  promoted visible (common_allocation n) = none

  -- `Export::new`, by the address of the export; the symbol is kept beside it.
  unfoldable pub export : Symbol → Result SymbolError (Option ℕ)
  export s = try_then (location s) λ at. ok (promoted (externally_visible s) at)
