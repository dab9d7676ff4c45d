-- ===== src/Pattern/Syntax/Sequence.antt =====
-- The loop of `sequence` and the whole parser of ganymede-pattern-core/src/pattern/syntax.rs, by
-- the bytes that are left.
use ganymede.Common.{
  ℕ, zero, suc, ◌-◌, ◌≤◌, ◌<◌, ◌≡◌, ◌⊎◌, refl, List, [], ◌∷◌, Option, none, some, ◌||◌, ◌==◌,
  length, get_elem?, get_elem?-lt, get_elem?-some, All, arith, Option-cases, Bool-cases, inl, inr,
  if◌then◌else◌,
}
use ganymede.Pattern.Atom.{Atom}
use ganymede.Pattern.Read.{Bytes}
use ganymede.Pattern.Syntax.{
  ParseError, error_at, Parser, parser_new, Parsed, out_of_fuel, failed, parsed, ◌>>=◌, space,
  is_some_and, empty, unexpected,
}
use ganymede.Pattern.Syntax.Lower.{trim, trim_onto, is_trimmed}
use ganymede.Pattern.Syntax.Grammar.{operation, sequence, finish, parse}
use ganymede.Pattern.Syntax.Fits.{Fits, trim-Fits}
use ganymede.Pattern.Syntax.Total.{Inside, Ends, bind-Ends, space-Inside}
use ganymede.Pattern.Syntax.Operation.{here, Ends-weaken, operation-Ends}

trim_save : (atoms : List Atom) → trim (Atom.save 0 ∷ atoms) ≡ Atom.save 0 ∷ trim atoms
unfolding trim is_trimmed
trim_save atoms = kept (trim atoms)
  where
    kept : (xs : List Atom) → trim_onto (Atom.save 0) xs ≡ Atom.save 0 ∷ xs
    kept [] = refl
    kept (x ∷ xs) = refl

abbrev Answers : Bytes → Parsed (List Atom) → Type 0
Answers source r =
    ((e : ParseError) × (r ≡ failed e) × (e.offset ≤ length source))
    ⊎ ((a : Atom) × (rest : List Atom) × (p : Parser) × (r ≡ parsed (Atom.save 0 ∷ a ∷ rest) p)
        × (p.offset ≡ length source)
        × Fits (a ∷ rest))

module _ (source : Bytes) (text : All (λ b. b < 256) source) where
  -- A round of `sequence` takes a byte, so as much fuel as there are bytes left, and one, is enough.
  sequence-Ends :
      (fuel : ℕ) (end : Option ℕ) (atoms : List Atom) (p : Parser)
      → Fits atoms
      → Inside source 0 p
      → length source - p.offset < fuel
      → Ends source Fits p.offset (sequence source fuel end atoms p)
  unfolding sequence
  sequence-Ends zero end atoms p k i f = absurd (omega arith)
  sequence-Ends (suc fuel) end atoms p k i f =
      let q = space source p in
      let j = space-Inside source p {lo = p.offset} (here source p i) in
      elim (Option-cases (get_elem? source q.offset)) [
        | inl past ↦ elim (Option-cases end) [
          | inl top ↦ rw (Ends, sequence, past, top) (j, k)
          | inr (e, closing) ↦ rw (Ends, sequence, past, closing) j.1
        ]
        | inr (b, found) ↦
            let lt = get_elem?-lt source q.offset found in
            elim (Bool-cases (is_some_and end (λ e. e == b))) [
              | inl closed ↦
                  rw (Ends, sequence, found, closed) ((omega arith, omega arith, omega arith), k)
              | inr inner ↦ elim (Bool-cases (b == 124 || b == 41)) [
                | inl stop ↦ rw (Ends, sequence, found, inner, stop) (j, k)
                | inr more ↦
                    rw (Ends, sequence, found, inner, more)
                      (bind-Ends source Fits p.offset
                        (operation source (λ e. sequence source fuel e []) fuel atoms q) _
                        (operation-Ends source text (λ e. sequence source fuel e []) fuel
                          (λ e r l g. sequence-Ends fuel e [] r tt l g) fuel atoms q k
                          (omega arith, omega arith, omega arith) (omega arith) (omega arith))
                        λ atoms' r l k'. Ends-weaken source p.offset r.offset _ (omega arith) (
                          sequence-Ends fuel end atoms' r k' (omega arith, omega arith, omega arith)
                            (omega arith)))
              ]
            ]
      ]

  finish_lem :
      (atoms : List Atom) (p : Parser)
      → Fits atoms
      → Inside source 0 p
      → Answers source (finish source atoms p)
  finish_lem atoms p k i =
      let q = space source p in
      let j = space-Inside source p {lo = 0} i in
      elim (Option-cases (get_elem? source q.offset)) [
        | inr (b, found) ↦ inl (error_at q.offset (unexpected b), ground (arith, found), j.1)
        | inl past ↦ finish_end q past j (trim atoms) (trim_save atoms) (trim-Fits atoms k)
      ]
    where
      finish_end :
          (q : Parser)
          → get_elem? source q.offset ≡ none
          → Inside source 0 q
          → (rest : List Atom) → trim (Atom.save 0 ∷ atoms) ≡ Atom.save 0 ∷ rest
          → Fits rest
          → Answers source (elim (get_elem? source q.offset) [
            | some b ↦ failed (error_at q.offset (unexpected b))
            | none ↦
                let atoms' = trim (Atom.save 0 ∷ atoms) in
                if length atoms' == 1 then failed (error_at 0 empty) else parsed atoms' q
          ])
      finish_end q past j [] e f = inl (error_at 0 empty, rw (past, e) refl, omega arith)
      finish_end q past j (a ∷ rest) e f = inr (
        a,
        rest,
        q,
        ground (arith, past, e),
        ground (arith, past, get_elem?-some source q.offset),
        f,
      )

  parse_from :
      (r : Parsed (List Atom)) → Ends source Fits 0 r → Answers source (r >>= finish source)
  parse_from out_of_fuel h = absurd h
  parse_from (failed e) h = inl (e, refl, h)
  parse_from (parsed atoms p) (i, k) = finish_lem atoms p k i

  -- On a source of bytes the parser returns: it never runs out of its fuel, which is a round for each
  -- byte of the source and one more. Either it fails at an offset that is not past the source's end,
  -- or it has taken the whole source, its program is the capture of slot 0 and at least one atom more,
  -- and every operand that an atom stores as a byte fits one.
  pub parse_total :
      ((e : ParseError) × (parse source ≡ failed e) × (e.offset ≤ length source))
      ⊎ ((a : Atom) × (rest : List Atom) × (p : Parser) × (parse source
            ≡ parsed (Atom.save 0 ∷ a ∷ rest) p)
          × (p.offset ≡ length source)
          × Fits (a ∷ rest))
  unfolding parse
  parse_total = parse_from (sequence source (suc (length source)) none [] parser_new) (
      sequence-Ends (suc (length source)) none [] parser_new tt
        (omega arith, omega arith, omega arith) (omega arith))
