-- ===== src/Pattern/Syntax.antt =====
-- ganymede-pattern-core/src/pattern/syntax.rs: the parser state, its errors and its small steps.
-- A failure ends the whole parse, so the parser state after one is not kept. The source does not
-- change; it is the first argument of every step.
pub mod Lower
pub mod Grammar
pub mod Operation
pub mod Fits
pub mod Total
pub mod Ends
pub mod Sequence
use ganymede.Common.{
  ℕ, zero, suc, ◌+◌, ◌-◌, ◌*◌, List, [], ◌∷◌, ◌++◌, Option, none, some, Bool, true, false, ◌&&◌,
  ◌||◌, leb, ltb, ◌==◌, if◌then◌else◌, length, get_elem?, checked_add, checked_mul,
}
use mathlib.Core.Option
use ganymede.Pattern.Atom.{Atom}
use ganymede.Pattern.Read.{Bytes}

pub data ParseErrorKind : Type 0 where
  empty : ParseErrorKind
  unexpected : ℕ → ParseErrorKind
  incomplete_byte invalid_hex invalid_skip unterminated_string save_overflow : ParseErrorKind
  aligned_operand read_operand relative_operand sub_pattern alternative : ParseErrorKind

pub record ParseError : Type 0 where
  pub offset : ℕ
  pub kind : ParseErrorKind

abbrev pub error_at : ℕ → ParseErrorKind → ParseError
error_at offset kind = record { offset = offset; kind = kind }

pub record Parser : Type 0 where
  pub offset : ℕ
  pub next_slot : ℕ

-- A `u16`, which `slot` increases only while it is below 256.
abbrev pub parser_new : Parser
parser_new = record { offset = 0; next_slot = 1 }

pub data Parsed {ℓ} (A : Type ℓ) : Type ℓ where
  out_of_fuel : Parsed A
  failed : ParseError → Parsed A
  parsed : A → Parser → Parsed A

infixl 1 ◌>>=◌
abbrev pub ◌>>=◌ {ℓ κ} : {A : Type ℓ} {B : Type κ} → Parsed A → (A → Parser → Parsed B) → Parsed B
out_of_fuel >>= f = out_of_fuel
failed e >>= f = failed e
parsed a p >>= f = f a p

abbrev pub within : ℕ → ℕ → ℕ → Bool
within lo hi b = leb lo b && leb b hi

-- `u8::is_ascii_whitespace`: space, tab, line feed, form feed, carriage return.
abbrev pub is_ascii_whitespace : ℕ → Bool
is_ascii_whitespace b = b == 32 || (b == 9 || (b == 10 || (b == 12 || b == 13)))

unfoldable pub hex : ℕ → Option ℕ
hex b =
    if within 48 57 b
    then some (b - 48)
    else if within 97 102 b
    then some (b - 97 + 10)
    else if within 65 70 b
    then some (b - 65 + 10)
    else none

-- Value and mask bits; `?` is 63.
unfoldable pub nibble : ℕ → Option (ℕ × ℕ)
nibble b = if b == 63 then some (0, 0) else Option.map (λ value. (value, 15)) (hex b)

abbrev pub is_some : Option ℕ → Bool
is_some none = false
is_some (some _) = true

abbrev pub is_nibble : ℕ → Bool
is_nibble b = b == 63 || is_some (hex b)

-- `peek().is_some_and(test)`
abbrev pub is_some_and : Option ℕ → (ℕ → Bool) → Bool
is_some_and none test = false
is_some_and (some b) test = test b

-- An adjacent skip is widened, unless the sum does not fit.
abbrev pub skip_onto : List Atom → ℕ → List Atom
skip_onto [] n = Atom.skip n ∷ []
skip_onto (Atom.skip existing ∷ []) n = elim (checked_add existing n) [
  | some combined ↦ Atom.skip combined ∷ []
  | none ↦ Atom.skip existing ∷ Atom.skip n ∷ []
]
skip_onto (a ∷ atoms) n = a ∷ skip_onto atoms n

unfoldable pub skip_push : List Atom → ℕ → List Atom
skip_push atoms n = if n == 0 then atoms else skip_onto atoms n

unfoldable pub slot : Parser → Parsed ℕ
slot p =
    if ltb p.next_slot 256
    then parsed p.next_slot (record p { next_slot = p.next_slot + 1 })
    else failed (error_at p.offset save_overflow)

abbrev pub advance : Parser → Parser
advance p = record p { offset = p.offset + 1 }

module _ (source : Bytes) where
  abbrev pub peek : Parser → Option ℕ
  peek p = get_elem? source p.offset

  -- `take().ok_or_else(…)`
  unfoldable pub take_or : ParseError → Parser → Parsed ℕ
  take_or e p = elim (peek p) [ none ↦ failed e | some b ↦ parsed b (advance p) ]

  -- `rounds` is the number of source bytes that are left; none is left to peek at after them. So it
  -- is in `decimal_loop` and `quoted_loop`.
  unfoldable pub space_loop : ℕ → Parser → Parser
  space_loop zero p = p
  space_loop (suc rounds) p =
      let rest = space_loop rounds (advance p) in
      if is_some_and (peek p) is_ascii_whitespace then rest else p

  unfoldable pub space : Parser → Parser
  space p = space_loop (length source - p.offset) p

  unfoldable pub decimal_loop : ℕ → ParseError → ℕ → Bool → Parser → Parsed ℕ
  decimal_loop zero e value seen p = if seen then parsed value p else failed e
  decimal_loop (suc rounds) e value seen p = elim (peek p) [
    | none ↦ if seen then parsed value p else failed e
    | some b ↦ elim (within 48 57 b) [
      | false ↦ if seen then parsed value p else failed e
      | true ↦ elim (Option.bind (checked_mul value 10) λ v. checked_add v (b - 48)) [
        | none ↦ failed e
        | some value' ↦ decimal_loop rounds e value' true (advance p)
      ]
    ]
  ]

  unfoldable pub decimal : ℕ → Parser → Parsed ℕ
  decimal start p = decimal_loop (length source - p.offset) (error_at start invalid_skip) 0 false p

  unfoldable pub quoted_loop : ℕ → ParseError → List Atom → Parser → Parsed (List Atom)
  quoted_loop zero e atoms p = failed e
  quoted_loop (suc rounds) e atoms p = elim (peek p) [
    | none ↦ failed e
    | some b ↦ elim (b == 34) [
      | true ↦ parsed atoms (advance p)
      | false ↦ quoted_loop rounds e (atoms ++ Atom.byte b ∷ []) (advance p)
    ]
  ]

  unfoldable pub quoted : ℕ → List Atom → Parser → Parsed (List Atom)
  quoted start atoms p =
      quoted_loop (length source - p.offset) (error_at start unterminated_string) atoms p
