-- ===== src/Elf/Note.antt =====
-- ganymede-elf/src/note.rs: the notes of one segment and the GNU build identifiers among them. The copying
-- of a segment and the loop of `GnuBuildId::extract` over the segments are not modelled: the bytes of a
-- segment are the argument.
pub mod Alignment
pub mod Fields
pub mod Records
pub mod Encoding
pub mod Segment
use ganymede.Common.{
  ℕ, zero, suc, ◌+◌, ◌-◌, ◌*◌, ◌^◌, ◌<◌, ◌≤◌, ◌≡◌, min, List, [], ◌∷◌, Option, none, some, Bool,
  true, false, not, ◌&&◌, ◌||◌, ltb, leb, ◌==◌, if◌then◌else◌, length, drop, get_range, bit_and,
  checked_add, word_mod,
}
use mathlib.Core.Option
use ganymede.Common.Sort.{is_empty}
use ganymede.Common.Result.{Result, ok, err, try_then, ok_or}
use ganymede.Text.{bytes_eq}
use ganymede.Scan.Foreign.{
  Copy, ByteCopyStatus, complete, faulted, cells, Progress, more, done, advance, Run, loop,
}
use ganymede.Elf.{ElfClass, Binding, address}
use ganymede.Elf.Loaded.{ProgramHeader}

pub data BuildIdError : Type 0 where
  access : ℕ → BuildIdError
  fault unavailable : ℕ → BuildIdError
  address_overflow malformed_note empty_build_id missing ambiguous : BuildIdError

-- `Notes::aligned`
unfoldable pub aligned : ℕ → Option ℕ
aligned size = Option.map (λ value. bit_and value (word_mod - 4)) (checked_add size 3)

abbrev pub from_le_bytes : List ℕ → ℕ
from_le_bytes [] = 0
from_le_bytes (byte ∷ bytes) = byte + 256 * from_le_bytes bytes

-- `Notes::word`: the word, and the offset after it. On an error the iterator is dropped by its only user.
unfoldable pub word : List ℕ → ℕ → Result BuildIdError (ℕ × ℕ)
word bytes offset = try_then (ok_or (checked_add offset 4) malformed_note) λ end.
    try_then (ok_or (get_range bytes offset end) malformed_note)
      λ value. ok (from_le_bytes value, end)

-- `Notes::field`
unfoldable pub field : List ℕ → ℕ → ℕ → Result BuildIdError (List ℕ × ℕ)
field bytes offset size = try_then (ok_or (aligned size) malformed_note) λ padded.
    try_then (ok_or (checked_add offset size) malformed_note) λ value_end.
      try_then (ok_or (checked_add offset padded) malformed_note) λ padded_end.
        try_then (ok_or (get_range bytes offset value_end) malformed_note) λ value.
          try_then (ok_or (get_range bytes value_end padded_end) malformed_note)
            λ padding. ok (value, padded_end)

-- `name.strip_suffix(&[0]).unwrap_or(name)`
abbrev pub strip_zero : List ℕ → List ℕ
strip_zero [] = []
strip_zero (x ∷ []) = if x == 0 then [] else x ∷ []
strip_zero (x ∷ y ∷ xs) = x ∷ strip_zero (y ∷ xs)

abbrev pub gnu_name : List ℕ
gnu_name = 71 ∷ 78 ∷ 85 ∷ []

abbrev pub judge : ℕ → List ℕ → List ℕ → Result BuildIdError (Option (List ℕ))
judge note_type name descriptor =
    if not (note_type == 3) || not (bytes_eq (strip_zero name) gnu_name)
    then ok none
    else if is_empty descriptor
    then err empty_build_id
    else ok (some descriptor)

-- The closure in `Notes::next`: what one record gives, and the offset after it.
unfoldable pub record_at : List ℕ → ℕ → Result BuildIdError (Option (List ℕ) × ℕ)
record_at bytes offset = try_then (word bytes offset) λ (name_size, o1).
    try_then (word bytes o1) λ (descriptor_size, o2). try_then (word bytes o2) λ (note_type, o3).
      try_then (field bytes o3 name_size) λ (name, o4).
        try_then (field bytes o4 descriptor_size)
          λ (descriptor, o5). try_then (judge note_type name descriptor) λ result. ok (result, o5)

abbrev pub all_zero : List ℕ → Bool
all_zero [] = true
all_zero (byte ∷ bytes) = byte == 0 && all_zero bytes

-- `Notes::next`: a descriptor and the offset after its record, the end, or an error.
pub data Next : Type 0 where
  yielded : List ℕ → ℕ → Next
  ended spent : Next
  failed : BuildIdError → Next

-- `remaining.is_empty()`, or nothing but zeros; there is nothing at all beyond the end.
abbrev pub at_end : List ℕ → ℕ → Bool
at_end bytes offset = ltb (length bytes) offset || all_zero (drop offset bytes)

unfoldable pub next_note : List ℕ → ℕ → ℕ → Next
next_note bytes zero offset = spent
next_note bytes (suc fuel) offset =
    if at_end bytes offset then ended else elim (record_at bytes offset) [
      | err e ↦ failed e
      | ok (some descriptor, next) ↦ yielded descriptor next
      | ok (none, next) ↦ next_note bytes fuel next
    ]

-- The loop over the notes of one segment: the identifier found so far, from the offset on.
unfoldable pub segment_id : List ℕ → ℕ → Option (List ℕ) → ℕ → Run BuildIdError (Option (List ℕ))
segment_id bytes zero found offset = none
segment_id bytes (suc fuel) found offset = elim (next_note bytes (suc (length bytes)) offset) [
  | spent ↦ none
  | ended ↦ some (ok found)
  | failed e ↦ some (err e)
  | yielded descriptor next ↦ elim found [
    | none ↦ segment_id bytes fuel (some descriptor) next
    | some _ ↦ some (err ambiguous)
  ]
]
