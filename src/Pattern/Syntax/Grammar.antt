-- ===== src/Pattern/Syntax/Grammar.antt =====
-- ganymede-pattern-core/src/pattern/syntax.rs: the grammar, from one operation to the whole source.
use ganymede.Common.{
  ℕ, zero, suc, ◌-◌, List, [], ◌∷◌, ◌++◌, Option, none, some, Bool, true, false, not, ◌&&◌, ◌||◌,
  leb, ◌==◌, if◌then◌else◌, length, max,
}
use ganymede.Pattern.Atom.{Atom}
use ganymede.Pattern.Read.{Bytes}
use ganymede.Pattern.Syntax.{
  error_at, Parser, parser_new, Parsed, out_of_fuel, failed, parsed, ◌>>=◌, hex, nibble, is_some,
  is_nibble, is_some_and, skip_push, slot, advance, peek, take_or, space, decimal, quoted, empty,
  unexpected, incomplete_byte, invalid_hex, invalid_skip, aligned_operand, read_operand,
  relative_operand, sub_pattern, alternative,
}
use ganymede.Pattern.Syntax.Lower.{
  Leading, leading, from_nibbles, exponent, read_atom, encode_choice, trim, save, skip, quote,
  jump1, jump4, pointer, aligned, signed, unsigned, relative, zero_slot, choice, wildcard, digit,
  other,
}

-- `sequence` at a smaller fuel.
abbrev pub Nested : Type 0
Nested = Option ℕ → Parser → Parsed (List Atom)

module _ (source : Bytes) where
  abbrev pub second_is_nibble : ℕ → Parser → Bool
  second_is_nibble first p =
      if first == 63
      then is_some_and (peek source p) (λ b. is_some (hex b))
      else is_some_and (peek source p) is_nibble

  unfoldable pub byte : ℕ → ℕ → List Atom → Parser → Parsed (List Atom)
  byte start first atoms p =
      if first == 63 && not (second_is_nibble first p)
      then parsed (skip_push atoms 1) p
      else (take_or source (error_at start incomplete_byte) p >>= λ second.
          from_nibbles (error_at start invalid_hex) atoms (nibble first) (nibble second))

  abbrev pub ranged_skip : ℕ → List Atom → ℕ → ℕ → Parser → Parsed (List Atom)
  ranged_skip start atoms minimum maximum p = elim (peek source p) [
    | none ↦ failed (error_at start invalid_skip)
    | some close ↦
        if not (close == 93) || leb maximum minimum
        then failed (error_at start invalid_skip)
        else parsed (skip_push atoms minimum ++ Atom.many (maximum - minimum) ∷ []) (advance p)
  ]

  abbrev pub skip_rest : ℕ → List Atom → ℕ → Parser → Parsed (List Atom)
  skip_rest start atoms minimum p = elim (peek source p) [
    | none ↦ failed (error_at start invalid_skip)
    | some b ↦
        if b == 93
        then parsed (skip_push atoms minimum) (advance p)
        else if b == 45
        then decimal source start (advance p) >>= ranged_skip start atoms minimum
        else failed (error_at start invalid_skip)
  ]

  unfoldable pub skip_range : ℕ → List Atom → Parser → Parsed (List Atom)
  skip_range start atoms p = decimal source start p >>= skip_rest start atoms

  unfoldable pub follow : Nested → Atom → ℕ → List Atom → Parser → Parsed (List Atom)
  follow nested target resume atoms p =
      let q = space source p in
      elim (is_some_and (peek source q) (λ b. b == 123)) [
        | false ↦ parsed (atoms ++ target ∷ []) q
        | true ↦ nested (some 125) (advance q) >>= λ inner.
            parsed (atoms ++ Atom.push resume ∷ target ∷ inner ++ Atom.pop ∷ [])
      ]

  unfoldable pub align : ℕ → List Atom → Parser → Parsed (List Atom)
  align start atoms p = take_or source (error_at start aligned_operand) p >>= λ b q.
      elim (exponent b) [
        | none ↦ failed (error_at start aligned_operand)
        | some e ↦ parsed (atoms ++ Atom.aligned e ∷ []) q
      ]

  unfoldable pub read : ℕ → Bool → List Atom → Parser → Parsed (List Atom)
  read start is_signed atoms p = take_or source (error_at start read_operand) p >>= λ width q.
      slot q >>= λ n q'. elim (read_atom is_signed width n) [
        | none ↦ failed (error_at start read_operand)
        | some a ↦ parsed (atoms ++ a ∷ []) q'
      ]

  unfoldable pub relative_read : ℕ → List Atom → Parser → Parsed (List Atom)
  relative_read start atoms p = take_or source (error_at start relative_operand) p >>= λ width q.
      if not (width == 52)
      then failed (error_at start relative_operand)
      else (slot q >>= λ n. parsed (atoms ++ Atom.read_rel32 n ∷ []))

  abbrev pub finish_choice : ℕ → ℕ → List Atom → List (List Atom) → Parser → Parsed (List Atom)
  finish_choice start maximum_slot atoms alternatives p =
      if leb 2 (length alternatives)
      then parsed (encode_choice atoms alternatives) (record p { next_slot = maximum_slot })
      else failed (error_at start alternative)

  -- `|` goes on with the next alternative.
  abbrev pub choice_close :
      (Parser → Parsed (List Atom))
      → ℕ
      → ℕ
      → List Atom
      → List (List Atom)
      → ℕ
      → Parser
      → Parsed (List Atom)
  choice_close onward start maximum_slot atoms alternatives b p = elim (b == 124) [
    | true ↦ onward p
    | false ↦
        if b == 41
        then finish_choice start maximum_slot atoms alternatives p
        else failed (error_at start alternative)
  ]

  abbrev pub choice_rest :
      (Parser → Parsed (List Atom))
      → ℕ
      → ℕ
      → List Atom
      → List (List Atom)
      → List Atom
      → Parser
      → Parsed (List Atom)
  choice_rest onward start maximum_slot atoms alternatives last p = elim (length last == 0) [
    | true ↦ failed (error_at start alternative)
    | false ↦
        take_or source (error_at start alternative) (space source p)
        >>= choice_close onward start maximum_slot atoms (alternatives ++ last ∷ [])
  ]

  unfoldable pub choice_loop :
      Nested → ℕ → ℕ → ℕ → List Atom → ℕ → List (List Atom) → Parser → Parsed (List Atom)
  choice_loop nested zero start entry_slot atoms maximum_slot alternatives p = out_of_fuel
  choice_loop nested (suc fuel) start entry_slot atoms maximum_slot alternatives p =
      nested none (record p { next_slot = entry_slot }) >>= λ last q.
      choice_rest
        (choice_loop nested fuel start entry_slot atoms (max maximum_slot q.next_slot)
          (alternatives ++ last ∷ []))
        start (max maximum_slot q.next_slot) atoms alternatives last q

  -- The `match` of `operation` after the leading byte.
  unfoldable pub arm : Nested → ℕ → ℕ → List Atom → ℕ → Leading → Parser → Parsed (List Atom)
  arm nested fuel start atoms b save p = slot p >>= λ n. parsed (atoms ++ Atom.save n ∷ [])
  arm nested fuel start atoms b skip p = skip_range start atoms p
  arm nested fuel start atoms b quote p = quoted source start atoms p
  arm nested fuel start atoms b jump1 p = follow nested Atom.jump1 1 atoms p
  arm nested fuel start atoms b jump4 p = follow nested Atom.jump4 4 atoms p
  arm nested fuel start atoms b pointer p = follow nested Atom.pointer 0 atoms p
  arm nested fuel start atoms b aligned p = align start atoms p
  arm nested fuel start atoms b signed p = read start true atoms p
  arm nested fuel start atoms b unsigned p = read start false atoms p
  arm nested fuel start atoms b relative p = relative_read start atoms p
  arm nested fuel start atoms b zero_slot p =
      slot p >>= λ n. parsed (atoms ++ Atom.zero_slot n ∷ [])
  arm nested fuel start atoms b choice p =
      choice_loop nested fuel start p.next_slot atoms p.next_slot [] p
  arm nested fuel start atoms b wildcard p = byte start b atoms p
  arm nested fuel start atoms b digit p = byte start b atoms p
  arm nested fuel start atoms b other p = failed (error_at start (unexpected b))

  unfoldable pub operation : Nested → ℕ → List Atom → Parser → Parsed (List Atom)
  operation nested fuel atoms p = take_or source (error_at p.offset empty) p >>= λ b.
      arm nested fuel p.offset atoms b (leading b)

  -- A round of the loop of `sequence`, with the atoms so far; each round takes a byte at least.
  unfoldable pub sequence : ℕ → Option ℕ → List Atom → Parser → Parsed (List Atom)
  sequence zero end atoms p = out_of_fuel
  sequence (suc fuel) end atoms p =
      let q = space source p in
      elim (peek source q) [
        | none ↦ elim end [
          | some _ ↦ failed (error_at q.offset sub_pattern)
          | none ↦ parsed atoms q
        ]
        | some b ↦ elim (is_some_and end (λ e. e == b)) [
          | true ↦ parsed atoms (advance q)
          | false ↦ elim (b == 124 || b == 41) [
            | true ↦ parsed atoms q
            | false ↦ operation (λ e. sequence fuel e []) fuel atoms q >>= sequence fuel end
          ]
        ]
      ]

  -- An offset that is not the source's length is below it, so `peek` gives the byte there.
  abbrev pub finish : List Atom → Parser → Parsed (List Atom)
  finish nested p =
      let q = space source p in
      elim (peek source q) [
        | some b ↦ failed (error_at q.offset (unexpected b))
        | none ↦
            let atoms = trim (Atom.save 0 ∷ nested) in
            if length atoms == 1 then failed (error_at 0 empty) else parsed atoms q
      ]

  unfoldable pub parse : Parsed (List Atom)
  parse = sequence (suc (length source)) none [] parser_new >>= finish
