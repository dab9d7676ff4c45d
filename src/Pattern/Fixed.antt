-- ===== src/Pattern/Fixed.antt =====
-- ganymede-pattern-core/src/pattern/fixed.rs: the fixed-width projection of an atom stream.
-- `Fixed` stands for the borrowed `Fixed` and the owned `FixedBuf`, which hold the same three fields.
pub mod Run
pub mod Compile
use ganymede.Common.{
  ℕ, zero, suc, ◌+◌, List, [], ◌∷◌, ◌++◌, Option, none, some, Bool, true, false, not, ◌&&◌, ◌||◌,
  leb, ◌==◌, if◌then◌else◌, length, get_elem?, get_range, replicate, bit_and, bit_xor, checked_add,
}
use ganymede.Pattern.Atom.{Atom}
use ganymede.Pattern.Read.{Bytes, ◌>>=◌}
use ganymede.Pattern.Plan.{SearchPlan, plan_compile}

pub record Fixed : Type 0 where
  pub bytes : Bytes
  pub masks : Bytes
  pub plan : SearchPlan

unfoldable pub fixed_new : Bytes → Bytes → Fixed
fixed_new bytes masks = record { bytes = bytes; masks = masks; plan = plan_compile bytes masks }

abbrev pub starts_with_save : List Atom → Bool
starts_with_save (Atom.save zero ∷ atoms) = true
starts_with_save _ = false

-- The inner loop of `valid_for`: `count` positions from `index` on hold zero in both slices.
unfoldable pub zero_span : Bytes → Bytes → ℕ → ℕ → Bool
zero_span bytes masks index zero = true
zero_span bytes masks index (suc count) = elim (get_elem? bytes index) [
  | none ↦ false
  | some b ↦ elim (get_elem? masks index) [
    | none ↦ false
    | some m ↦ b == 0 && (m == 0 && zero_span bytes masks (index + 1) count)
  ]
]

abbrev pub byte_agrees : Bytes → Bytes → ℕ → ℕ → ℕ → Bool
byte_agrees bytes masks index b mask = elim (get_elem? bytes index) [
  | none ↦ false
  | some fixed_byte ↦ elim (get_elem? masks index) [
    | none ↦ false
    | some fixed_mask ↦ fixed_byte == bit_and b mask && fixed_mask == mask
  ]
]

-- The loop of `valid_for` over the atoms that are left: the next atom's index, the next byte's
-- index and the active mask.
unfoldable pub valid_loop : Bytes → Bytes → ℕ → ℕ → ℕ → List Atom → Bool
valid_loop bytes masks index at mask [] = at == length bytes && mask == 255
valid_loop bytes masks index at mask (Atom.save zero ∷ atoms) =
    index == 0 && valid_loop bytes masks (index + 1) at mask atoms
valid_loop bytes masks index at mask (Atom.nop ∷ atoms) =
    valid_loop bytes masks (index + 1) at mask atoms
valid_loop bytes masks index at mask (Atom.fuzzy m ∷ atoms) =
    mask == 255 && valid_loop bytes masks (index + 1) at m atoms
valid_loop bytes masks index at mask (Atom.byte b ∷ atoms) =
    byte_agrees bytes masks at b mask && valid_loop bytes masks (index + 1) (at + 1) 255 atoms
valid_loop bytes masks index at mask (Atom.skip n ∷ atoms) =
    (not (n == 0) && mask == 255)
    && ((elim (checked_add at n) [ none ↦ false | some end ↦ leb end (length bytes) ])
        && (zero_span bytes masks at n && valid_loop bytes masks (index + 1) (at + n) mask atoms))
valid_loop bytes masks index at mask (_ ∷ atoms) = false

unfoldable pub valid_for : List Atom → Bytes → Bytes → Bool
valid_for atoms bytes masks =
    not (length bytes == 0)
    && (length bytes == length masks
        && (starts_with_save atoms && valid_loop bytes masks 0 0 255 atoms))

-- The bytes agree with the pattern on every constrained bit.
unfoldable pub masked_all : Bytes → Bytes → Bytes → Bool
masked_all (b ∷ bytes) (m ∷ masks) (t ∷ target) =
    bit_and (bit_xor t b) m == 0 && masked_all bytes masks target
masked_all _ _ _ = true

unfoldable pub matches : Fixed → Bytes → Bool
matches f target = length target == length f.bytes && masked_all f.bytes f.masks target

unfoldable pub anchor_of : Fixed → Option Bytes
anchor_of f = elim f.plan [
  | SearchPlan.literal ↦ some f.bytes
  | SearchPlan.anchor offset length ↦ get_range f.bytes offset (offset + length)
  | _ ↦ none
]

unfoldable pub width_loop : ℕ → ℕ → Bool → List Atom → Option ℕ
width_loop index width fuzzy [] = if not fuzzy && not (width == 0) then some width else none
width_loop index width fuzzy (Atom.save zero ∷ atoms) =
    if index == 0 then width_loop (index + 1) width fuzzy atoms else none
width_loop index width fuzzy (Atom.nop ∷ atoms) = width_loop (index + 1) width fuzzy atoms
width_loop index width fuzzy (Atom.fuzzy m ∷ atoms) =
    if fuzzy then none else width_loop (index + 1) width true atoms
width_loop index width fuzzy (Atom.byte b ∷ atoms) = do
  width' ← checked_add width 1
  width_loop (index + 1) width' false atoms
width_loop index width fuzzy (Atom.skip n ∷ atoms) =
    let onward = checked_add width n >>= λ width'. width_loop (index + 1) width' fuzzy atoms in
    if not (n == 0) && not fuzzy then onward else none
width_loop index width fuzzy (_ ∷ atoms) = none

-- The loop of `compile`: the arrays so far and the active mask.
unfoldable pub project_loop : ℕ → ℕ → Bytes → Bytes → List Atom → Option (Bytes × Bytes × ℕ)
project_loop index mask bytes masks [] = some (bytes, masks, mask)
project_loop index mask bytes masks (Atom.save zero ∷ atoms) =
    if index == 0 then project_loop (index + 1) mask bytes masks atoms else none
project_loop index mask bytes masks (Atom.nop ∷ atoms) =
    project_loop (index + 1) mask bytes masks atoms
project_loop index mask bytes masks (Atom.fuzzy m ∷ atoms) =
    project_loop (index + 1) m bytes masks atoms
project_loop index mask bytes masks (Atom.byte b ∷ atoms) =
    project_loop (index + 1) 255 (bytes ++ bit_and b mask ∷ []) (masks ++ mask ∷ []) atoms
project_loop index mask bytes masks (Atom.skip n ∷ atoms) =
    let onward = checked_add (length bytes) n >>= λ _.
    project_loop (index + 1) 255 (bytes ++ replicate n 0) (masks ++ replicate n 0) atoms in
    if n == 0 then none else onward
project_loop index mask bytes masks (_ ∷ atoms) = none

abbrev pub finish_projection : Bytes × Bytes × ℕ → Option Fixed
finish_projection (bytes, masks, mask) =
    if length bytes == 0 || not (mask == 255) then none else some (fixed_new bytes masks)

unfoldable pub fixed_compile : List Atom → Option Fixed
fixed_compile atoms =
    if starts_with_save atoms
    then (do
      _ ← width_loop 0 0 false atoms
      projected ← project_loop 0 255 [] [] atoms
      finish_projection projected)
    else none
