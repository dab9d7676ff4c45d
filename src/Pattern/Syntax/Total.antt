-- ===== src/Pattern/Syntax/Total.antt =====
-- The parser state of ganymede-pattern-core/src/pattern/syntax.rs: its bounds, and the small
-- steps.
use ganymede.Common.{
  ℕ, zero, suc, ◌+◌, ◌-◌, ◌≤◌, ◌<◌, List, [], ◌∷◌, ◌++◌, Bool, true, false, length, get_elem?,
  get_elem?-lt, All, All-get_elem?, arith, checked_add, checked_mul, Option-cases, Bool-cases, inl,
  inr,
}
use mathlib.Core.Option
use ganymede.Pattern.Atom.{Atom}
use ganymede.Pattern.Read.{Bytes}
use ganymede.Pattern.Syntax.{
  ParseError, Parser, Parsed, out_of_fuel, failed, parsed, ◌>>=◌, slot, advance, take_or,
  space_loop, space, decimal_loop, decimal, quoted_loop, quoted, within,
}
use ganymede.Pattern.Syntax.Fits.{Fits, Fits-append}

module _ (source : Bytes) where
  -- The parser's invariant, with a lower bound for its offset.
  abbrev pub Inside : ℕ → Parser → Type 0
  Inside lo p = (lo ≤ p.offset) × (p.offset ≤ length source) × (p.next_slot ≤ 256)

  -- A parse ended: it failed at an offset inside the source, or it went on and `Q` holds of the value.
  abbrev pub Ends {ℓ} : {A : Type ℓ} → (A → Type 0) → ℕ → Parsed A → Type 0
  Ends Q lo out_of_fuel = ⊥
  Ends Q lo (failed e) = e.offset ≤ length source
  Ends Q lo (parsed a p) = Inside lo p × Q a

  pub bind-Ends {ℓ κ} :
      {A : Type ℓ} {B : Type κ} {Q : A → Type 0} (R : B → Type 0) {lo : ℕ} (lo' : ℕ) (r : Parsed A)
      (f : A → Parser → Parsed B)
      → Ends Q lo r
      → ((a : A) (p : Parser) → Inside lo p → Q a → Ends R lo' (f a p))
      → Ends R lo' (r >>= f)
  bind-Ends R lo' out_of_fuel f k g = k
  bind-Ends R lo' (failed e) f k g = k
  bind-Ends R lo' (parsed a p) f (i, q) g = g a p i q

  abbrev pub Any {ℓ} : {A : Type ℓ} → A → Type 0
  Any a = Unit

  pub take_or-Ends :
      (e : ParseError) (p : Parser)
      → e.offset ≤ length source
      → Inside 0 p
      → All (λ b. b < 256) source
      → Ends (λ b. b < 256) (p.offset + 1) (take_or source e p)
  unfolding take_or
  take_or-Ends e p h i fits = elim (Option-cases (get_elem? source p.offset)) [
    | inl past ↦ ground (arith, past, h)
    | inr (b, found) ↦ ground (
      arith,
      found,
      get_elem?-lt source p.offset found,
      All-get_elem? (λ b. b < 256) source p.offset fits found,
    )
  ]

  pub slot-Ends : (p : Parser) {lo : ℕ} → Inside lo p → Ends (λ n. n < 256) lo (slot p)
  unfolding slot
  slot-Ends p i = ground arith

  space_loop-Inside :
      (rounds : ℕ) (p : Parser) {lo : ℕ} → Inside lo p → Inside lo (space_loop source rounds p)
  unfolding space_loop
  space_loop-Inside zero p i = i
  space_loop-Inside (suc rounds) p {lo} i = elim (Option-cases (get_elem? source p.offset)) [
    | inl past ↦ ground (arith, past, i)
    | inr (b, found) ↦ ground (
      arith,
      found,
      get_elem?-lt source p.offset found,
      i,
      space_loop-Inside rounds (advance p) {lo = lo},
    )
  ]

  pub space-Inside : (p : Parser) {lo : ℕ} → Inside lo p → Inside lo (space source p)
  unfolding space
  space-Inside p i = space_loop-Inside _ p i

  decimal_loop-Ends :
      (rounds : ℕ) (e : ParseError) (value : ℕ) (seen : Bool) (p : Parser) {lo : ℕ}
      → e.offset ≤ length source
      → Inside lo p
      → Ends Any lo (decimal_loop source rounds e value seen p)
  unfolding decimal_loop
  decimal_loop-Ends zero e value seen p h i = ground (arith, h, i)
  decimal_loop-Ends (suc rounds) e value seen p {lo} h i =
      elim (Option-cases (get_elem? source p.offset)) [
        | inl past ↦ ground (arith, past, h, i)
        | inr (b, found) ↦
            let lt = get_elem?-lt source p.offset found in
            let onward : (v : ℕ) → Ends Any lo (decimal_loop source rounds e v true (advance p)) =
              λ v.
                decimal_loop-Ends rounds e v true (advance p) {lo = lo} h
                  (omega arith, omega arith, omega arith) in
            elim (Bool-cases (within 48 57 b)) [
              | inr stop ↦ ground (arith, found, stop, h, i)
              | inl digit ↦
                  elim (Option-cases
                    (Option.bind (checked_mul value 10) λ v. checked_add v (b - 48))) [
                      | inl over ↦ rw (decimal_loop, found, digit, over) h
                      | inr (v, fits) ↦ rw (decimal_loop, found, digit, fits) (onward v)
                    ]
            ]
      ]

  pub decimal-Ends :
      (start : ℕ) (p : Parser) {lo : ℕ}
      → start ≤ length source
      → Inside lo p
      → Ends Any lo (decimal source start p)
  unfolding decimal
  decimal-Ends start p h i = decimal_loop-Ends _ _ 0 false p h i

  quoted_loop-Ends :
      (rounds : ℕ) (e : ParseError) (atoms : List Atom) (p : Parser) {lo : ℕ}
      → e.offset ≤ length source
      → Inside lo p
      → All (λ b. b < 256) source
      → Fits atoms
      → Ends Fits lo (quoted_loop source rounds e atoms p)
  unfolding quoted_loop
  quoted_loop-Ends zero e atoms p h i fits k = h
  quoted_loop-Ends (suc rounds) e atoms p {lo} h i fits k =
      elim (Option-cases (get_elem? source p.offset)) [
        | inl past ↦ ground (arith, past, h)
        | inr (b, found) ↦
            let byte = All-get_elem? (λ b. b < 256) source p.offset fits found in
            let lt = get_elem?-lt source p.offset found in
            ground (
              arith,
              found,
              h,
              i,
              k,
              quoted_loop-Ends rounds e (atoms ++ Atom.byte b ∷ []) (advance p) {lo = lo} h
                  (omega arith, omega arith, omega arith) fits
                  (Fits-append atoms (Atom.byte b ∷ []) k (byte, tt)),
            )
      ]

  pub quoted-Ends :
      (start : ℕ) (atoms : List Atom) (p : Parser) {lo : ℕ}
      → start ≤ length source
      → Inside lo p
      → All (λ b. b < 256) source
      → Fits atoms
      → Ends Fits lo (quoted source start atoms p)
  unfolding quoted
  quoted-Ends start atoms p h i fits k = quoted_loop-Ends _ _ atoms p h i fits k
