-- ===== src/Pattern/Syntax/Ends.antt =====
-- The operations of ganymede-pattern-core/src/pattern/syntax.rs that take no nested sequence:
-- their offsets and atoms.
use ganymede.Common.{
  ℕ, ◌-◌, ◌≤◌, ◌<◌, List, [], ◌∷◌, ◌++◌, Option, none, some, Bool, not, ◌&&◌, ◌==◌, length,
  get_elem?, get_elem?-lt, All, arith, Option-cases, inl, inr, if_split,
}
use ganymede.Pattern.Atom.{Atom}
use ganymede.Pattern.Read.{Bytes}
use ganymede.Pattern.Syntax.{
  ParseError, error_at, Parser, failed, parsed, ◌>>=◌, nibble, skip_push, slot, advance, take_or,
  decimal, incomplete_byte, invalid_hex, aligned_operand, read_operand, relative_operand,
}
use ganymede.Pattern.Syntax.Lower.{from_nibbles, exponent, read_atom}
use ganymede.Pattern.Syntax.Grammar.{
  byte, second_is_nibble, ranged_skip, skip_rest, skip_range, align, read, relative_read,
}
use ganymede.Pattern.Syntax.Fits.{
  Fits, OptionFits, Fits-append, skip_push-Fits, push_byte-Fits, nibbles_lem, nibble-bound,
  exponent-bound, read_atom-Fits,
}
use ganymede.Pattern.Syntax.Total.{Inside, Ends, bind-Ends, take_or-Ends, slot-Ends, decimal-Ends}

module _ (source : Bytes) (text : All (λ b. b < 256) source) where
  from_nibbles-Ends :
      (e : ParseError) (atoms : List Atom) (first second : ℕ) (p : Parser) {lo : ℕ}
      → e.offset ≤ length source
      → Inside source lo p
      → Fits atoms
      → Ends source Fits lo (from_nibbles e atoms (nibble first) (nibble second) p)
  from_nibbles-Ends e atoms first second p h i k = elim (Option-cases (nibble first)) [
    | inl bad ↦ rw bad h
    | inr ((hv, hm), high) ↦ elim (Option-cases (nibble second)) [
      | inl bad ↦ rw (high, bad) h
      | inr ((lv, lm), low) ↦
          let (hv_fits, hm_fits) = nibble-bound first high in
          let (lv_fits, lm_fits) = nibble-bound second low in
          rw (high, low)
            (
              i,
              push_byte-Fits atoms _ _ (nibbles_lem hv lv hv_fits lv_fits)
                  (nibbles_lem hm lm hm_fits lm_fits) k,
            )
    ]
  ]

  module _ (start : ℕ) (lo : ℕ) (inside : start ≤ length source) (atoms : List Atom)
      (k : Fits atoms) where
    pub byte-Ends :
        (b : ℕ) (p : Parser)
        → Inside source lo p
        → Ends source Fits lo (byte source start b atoms p)
    unfolding byte
    byte-Ends b p i =
        let wildcard : Ends source Fits lo (parsed (skip_push atoms 1) p) =
          (i, skip_push-Fits atoms 1 k) in
        if_split (Ends source Fits lo) (b == 63 && not (second_is_nibble source b p))
          (λ _. wildcard)
          λ _.
            bind-Ends source Fits lo (take_or source (error_at start incomplete_byte) p) _
              (take_or-Ends source (error_at start incomplete_byte) p inside
                (omega arith, omega arith, omega arith) text)
              λ second q j fits.
                from_nibbles-Ends (error_at start invalid_hex) atoms b second q inside
                  (omega arith, omega arith, omega arith) k

    ranged_skip-Ends :
        (minimum maximum : ℕ) (p : Parser)
        → Inside source lo p
        → Ends source Fits lo (ranged_skip source start atoms minimum maximum p)
    ranged_skip-Ends minimum maximum p i = elim (Option-cases (get_elem? source p.offset)) [
      | inl past ↦ ground (arith, past, inside)
      | inr (b, found) ↦
          let lt = get_elem?-lt source p.offset found in
          let range =
            Fits-append (skip_push atoms minimum) (Atom.many (maximum - minimum) ∷ [])
              (skip_push-Fits atoms minimum k) (tt, tt) in
          ground (arith, found, lt, inside, i, range)
    ]

    skip_rest-Ends :
        (minimum : ℕ) (p : Parser)
        → Inside source lo p
        → Ends source Fits lo (skip_rest source start atoms minimum p)
    skip_rest-Ends minimum p i = elim (Option-cases (get_elem? source p.offset)) [
      | inl past ↦ ground (arith, past, inside)
      | inr (b, found) ↦
          let lt = get_elem?-lt source p.offset found in
          let fixed : Ends source Fits lo (parsed (skip_push atoms minimum) (advance p)) =
            ((omega arith, omega arith, omega arith), skip_push-Fits atoms minimum k) in
          let ranged : Ends source Fits lo
              (decimal source start (advance p) >>= ranged_skip source start atoms minimum) =
            bind-Ends source Fits lo (decimal source start (advance p))
              (ranged_skip source start atoms minimum)
              (decimal-Ends source start (advance p) {lo = lo} inside
                (omega arith, omega arith, omega arith))
              λ maximum q j _. ranged_skip-Ends minimum maximum q j in
          rw (Ends, skip_rest, found)
            (if_split (Ends source Fits lo) (b == 93) (λ _. fixed)
              λ _. if_split (Ends source Fits lo) (b == 45) (λ _. ranged) λ _. inside)
    ]

    pub skip_range-Ends :
        (p : Parser) → Inside source lo p → Ends source Fits lo (skip_range source start atoms p)
    unfolding skip_range
    skip_range-Ends p i =
        bind-Ends source Fits lo (decimal source start p) (skip_rest source start atoms)
          (decimal-Ends source start p {lo = lo} inside i)
          λ minimum q j _. skip_rest-Ends minimum q j

    pub align-Ends :
        (p : Parser) → Inside source lo p → Ends source Fits lo (align source start atoms p)
    unfolding align
    align-Ends p i =
        bind-Ends source Fits lo (take_or source (error_at start aligned_operand) p) _
          (take_or-Ends source (error_at start aligned_operand) p inside
            (omega arith, omega arith, omega arith) text)
          λ b q j _. elim (Option-cases (exponent b)) [
            | inl bad ↦ rw bad inside
            | inr (e, ok) ↦ rw ok (
              (omega arith, omega arith, omega arith),
              Fits-append atoms (Atom.aligned e ∷ []) k (exponent-bound b ok, tt),
            )
          ]

    read_option-Ends :
        (o : Option Atom) (p : Parser)
        → Inside source lo p
        → OptionFits o
        → Ends source Fits lo (elim o [
          | none ↦ failed (error_at start read_operand)
          | some a ↦ parsed (atoms ++ a ∷ []) p
        ])
    read_option-Ends none p i f = inside
    read_option-Ends (some a) p i f = (i, Fits-append atoms (a ∷ []) k (f, tt))

    pub read-Ends :
        (is_signed : Bool) (p : Parser)
        → Inside source lo p
        → Ends source Fits lo (read source start is_signed atoms p)
    unfolding read
    read-Ends is_signed p i =
        bind-Ends source Fits lo (take_or source (error_at start read_operand) p) _
          (take_or-Ends source (error_at start read_operand) p inside
            (omega arith, omega arith, omega arith) text)
          λ w q j _.
            bind-Ends source Fits lo (slot q) _
              (slot-Ends source q {lo = lo} (omega arith, omega arith, omega arith))
              λ n q' j' fits.
                read_option-Ends (read_atom is_signed w n) q' j' (read_atom-Fits is_signed w n fits)

    pub slot_atom-Ends :
        (a : ℕ → Atom) (p : Parser)
        → ((n : ℕ) → n < 256 → Fits (a n ∷ []))
        → Inside source lo p
        → Ends source Fits lo (slot p >>= λ n. parsed (atoms ++ a n ∷ []))
    slot_atom-Ends a p fits i =
        bind-Ends source Fits lo (slot p) _ (slot-Ends source p {lo = lo} i)
          λ n q j f. (j, Fits-append atoms (a n ∷ []) k (fits n f))

    pub relative_read-Ends :
        (p : Parser) → Inside source lo p → Ends source Fits lo (relative_read source start atoms p)
    unfolding relative_read
    relative_read-Ends p i =
        bind-Ends source Fits lo (take_or source (error_at start relative_operand) p) _
          (take_or-Ends source (error_at start relative_operand) p inside
            (omega arith, omega arith, omega arith) text)
          λ w q j _.
            if_split (Ends source Fits lo) (not (w == 52)) (λ _. inside)
              λ _.
                slot_atom-Ends Atom.read_rel32 q (λ n f. (f, tt))
                  (omega arith, omega arith, omega arith)
