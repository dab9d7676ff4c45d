-- ===== src/Pattern/Syntax/Lower.antt =====
-- ganymede-pattern-core/src/pattern/syntax.rs: what the parser makes of the bytes it took, without
-- its state.
use ganymede.Common.{
  ℕ, ◌+◌, ◌-◌, ◌*◌, ◌%◌, List, [], ◌∷◌, ◌++◌, Option, none, some, Bool, true, false, ◌==◌,
  if◌then◌else◌, length, set, bit_or,
}
use ganymede.Pattern.Atom.{Atom}
use ganymede.Pattern.Syntax.{
  ParseError, Parser, Parsed, failed, parsed, within, hex, is_some, skip_push,
}

-- The arms of the `match` of `operation` on the leading byte.
pub data Leading : Type 0 where
  save skip quote jump1 jump4 pointer aligned signed unsigned relative zero_slot choice wildcard
        digit other :
      Leading

unfoldable pub leading : ℕ → Leading
leading b =
    if b == 39
    then save
    else if b == 91
    then skip
    else if b == 34
    then quote
    else if b == 37
    then jump1
    else if b == 36
    then jump4
    else if b == 42
    then pointer
    else if b == 64
    then aligned
    else if b == 105
    then signed
    else if b == 117
    then unsigned
    else if b == 114
    then relative
    else if b == 122
    then zero_slot
    else if b == 40
    then choice
    else if b == 63
    then wildcard
    else if is_some (hex b)
    then digit
    else other

-- The value and the mask of two nibbles, as atoms.
unfoldable pub push_byte : List Atom → ℕ → ℕ → List Atom
push_byte atoms value mask =
    if mask == 0
    then skip_push atoms 1
    else if mask == 255
    then atoms ++ Atom.byte value ∷ []
    else atoms ++ Atom.fuzzy mask ∷ Atom.byte value ∷ []

abbrev pub from_nibbles :
    ParseError → List Atom → Option (ℕ × ℕ) → Option (ℕ × ℕ) → Parser → Parsed (List Atom)
from_nibbles e atoms none low p = failed e
from_nibbles e atoms (some high) none p = failed e
from_nibbles e atoms (some (high_value, high_mask)) (some (low_value, low_mask)) p =
    parsed
      (push_byte atoms (bit_or (high_value * 16 % 256) low_value)
        (bit_or (high_mask * 16 % 256) low_mask))
      p

-- The exponent of one alignment operand.
unfoldable pub exponent : ℕ → Option ℕ
exponent b =
    if within 48 57 b
    then some (b - 48)
    else if within 97 122 b
    then some (b - 97 + 10)
    else if within 65 90 b
    then some (b - 65 + 10)
    else none

unfoldable pub read_atom : Bool → ℕ → ℕ → Option Atom
read_atom is_signed width n =
    if width == 49
    then some (if is_signed then Atom.read_i8 n else Atom.read_u8 n)
    else if width == 50
    then some (if is_signed then Atom.read_i16 n else Atom.read_u16 n)
    else if width == 52
    then some (if is_signed then Atom.read_i32 n else Atom.read_u32 n)
    else none

-- The first loop of `encode_choice`; the stacks of positions have their top first.
unfoldable pub lay_alternatives :
    List Atom → List (List Atom) → List ℕ → List ℕ → List Atom × List ℕ × List ℕ
lay_alternatives atoms [] cases breaks = (atoms, cases, breaks)
lay_alternatives atoms (nested ∷ alternatives) cases breaks =
    let laid = atoms ++ Atom.case 0 ∷ nested in
    lay_alternatives (laid ++ Atom.break 0 ∷ []) alternatives (length atoms ∷ cases)
      (length laid ∷ breaks)

unfoldable pub link_cases : List Atom → List ℕ → ℕ → List Atom
link_cases atoms [] next_case = atoms
link_cases atoms (case ∷ cases) next_case =
    link_cases (set atoms case (Atom.case (next_case - case - 1))) cases case

-- The positions are pairwise distinct, so their order does not matter.
unfoldable pub link_breaks : List Atom → List ℕ → ℕ → List Atom
link_breaks atoms [] end = atoms
link_breaks atoms (break ∷ breaks) end =
    link_breaks (set atoms break (Atom.break (end - break - 1))) breaks end

abbrev pub link : List Atom × List ℕ × List ℕ → List Atom
link (atoms, [], breaks) = atoms
link (atoms, last_case ∷ cases, []) = set atoms last_case Atom.nop
link (atoms, last_case ∷ cases, last_break ∷ breaks) =
    link_breaks
      (link_cases (set (set atoms last_case Atom.nop) last_break Atom.nop) cases last_case) breaks
      (length atoms)

unfoldable pub encode_choice : List Atom → List (List Atom) → List Atom
encode_choice atoms alternatives = link (lay_alternatives atoms alternatives [] [])

-- Terminal `Skip`, `Pop` and `Many`, from the end.
unfoldable pub is_trimmed : Atom → Bool
is_trimmed (Atom.skip _) = true
is_trimmed Atom.pop = true
is_trimmed (Atom.many _) = true
is_trimmed _ = false

abbrev pub trim_onto : Atom → List Atom → List Atom
trim_onto a [] = if is_trimmed a then [] else a ∷ []
trim_onto a (b ∷ rest) = a ∷ b ∷ rest

unfoldable pub trim : List Atom → List Atom
trim [] = []
trim (a ∷ atoms) = trim_onto a (trim atoms)
