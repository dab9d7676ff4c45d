-- ===== src/Pattern/Atom.antt =====
-- ganymede-pattern-core/src/pattern.rs: pointer widths, atoms and the capture extent.
pub mod Slots
use ganymede.Common.{ℕ, ◌+◌, List, [], ◌∷◌, Option, none, some, ltb, if◌then◌else◌}

pub data PointerWidth : Type 0 where
  u32 u64 : PointerWidth

unfoldable pub bytes : PointerWidth → ℕ
bytes u32 = 4
bytes u64 = 8

-- A `u8` or `usize` argument is a number; its range is stated where a theorem needs it.
pub data Atom : Type 0 where
  byte save push : ℕ → Atom
  pop : Atom
  fuzzy skip back many : ℕ → Atom
  jump1 jump4 pointer : Atom
  pir check aligned : ℕ → Atom
  read_i8 read_u8 read_i16 read_u16 read_i32 read_u32 read_rel32 : ℕ → Atom
  zero_slot case break : ℕ → Atom
  nop : Atom

unfoldable pub slot : Atom → Option ℕ
slot (save s) = some s
slot (pir s) = some s
slot (check s) = some s
slot (read_i8 s) = some s
slot (read_u8 s) = some s
slot (read_i16 s) = some s
slot (read_u16 s) = some s
slot (read_i32 s) = some s
slot (read_u32 s) = some s
slot (read_rel32 s) = some s
slot (zero_slot s) = some s
slot _ = none

-- One round of the loop of `capture_len`.
abbrev pub widen : ℕ → Option ℕ → ℕ
widen save_len none = save_len
widen save_len (some s) = if ltb save_len (s + 1) then s + 1 else save_len

abbrev pub capture_loop : ℕ → List Atom → ℕ
capture_loop save_len [] = save_len
capture_loop save_len (a ∷ atoms) = capture_loop (widen save_len (slot a)) atoms

unfoldable pub capture_len : List Atom → ℕ
capture_len atoms = capture_loop 0 atoms
