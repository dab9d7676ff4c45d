-- ===== src/Pattern/Syntax/Operation.antt =====
-- One operation of the grammar of ganymede-pattern-core/src/pattern/syntax.rs, alternatives and
-- followed subpatterns included, over nested sequences.
use ganymede.Common.{
  ℕ, zero, suc, ◌+◌, ◌-◌, ◌≤◌, ◌<◌, List, [], ◌∷◌, ◌++◌, Option, none, some, true, false, ◌==◌,
  length, get_elem?, get_elem?-lt, All, arith, Option-cases, Bool-cases, inl, inr, max,
}
use ganymede.Pattern.Atom.{Atom}
use ganymede.Pattern.Read.{Bytes}
use ganymede.Pattern.Syntax.{
  error_at, Parser, Parsed, out_of_fuel, failed, parsed, advance, take_or, space, empty,
  alternative,
}
use ganymede.Pattern.Syntax.Lower.{
  Leading, leading, save, skip, quote, jump1, jump4, pointer, aligned, signed, unsigned, relative,
  zero_slot, choice, wildcard, digit, other,
}
use ganymede.Pattern.Syntax.Grammar.{
  Nested, follow, finish_choice, choice_rest, choice_loop, arm, operation,
}
use ganymede.Pattern.Syntax.Fits.{Fits, Fits-append, encode_choice-Fits}
use ganymede.Pattern.Syntax.Total.{Inside, Ends, bind-Ends, take_or-Ends, space-Inside, quoted-Ends}
use ganymede.Pattern.Syntax.Ends.{
  byte-Ends, skip_range-Ends, align-Ends, read-Ends, slot_atom-Ends, relative_read-Ends,
}

pub here : (source : Bytes) (p : Parser) → Inside source 0 p → Inside source p.offset p
here source p i = (omega arith, omega arith, omega arith)

pub Ends-weaken :
    (source : Bytes) (lo lo' : ℕ) (r : Parsed (List Atom))
    → lo ≤ lo'
    → Ends source Fits lo' r
    → Ends source Fits lo r
Ends-weaken source lo lo' out_of_fuel h k = k
Ends-weaken source lo lo' (failed e) h k = k
Ends-weaken source lo lo' (parsed a p) h (i, q) = ((omega arith, omega arith, omega arith), q)

module _ (source : Bytes) (text : All (λ b. b < 256) source) where
  All-append :
      (xs : List (List Atom)) (x : List Atom) → All Fits xs → Fits x → All Fits (xs ++ x ∷ [])
  All-append [] x h k = (k, tt)
  All-append (y ∷ xs) x (g, h) k = (g, All-append xs x h k)

  module _ (lo start highest : ℕ) (atoms : List Atom) (inside : start ≤ length source)
      (bound : highest ≤ 256) (k : Fits atoms) where
    finish_choice-Ends :
        (alternatives : List (List Atom)) (p : Parser)
        → All Fits alternatives
        → Inside source lo p
        → Ends source Fits lo (finish_choice source start highest atoms alternatives p)
    finish_choice-Ends alternatives p a i =
        ground (arith, inside, bound, i, encode_choice-Fits atoms alternatives k a)

    choice_rest-Ends :
        (alternatives : List (List Atom)) (last : List Atom) (onward : Parser → Parsed (List Atom))
        (p : Parser)
        → All Fits (alternatives ++ last ∷ [])
        → Inside source lo p
        → ((q : Parser) → Inside source lo q → p.offset < q.offset → Ends source Fits lo (onward q))
        → Ends source Fits lo (choice_rest source onward start highest atoms alternatives last p)
    choice_rest-Ends alternatives last onward p a i goes = elim (Bool-cases (length last == 0)) [
      | inl nothing ↦ rw (Ends, nothing) inside
      | inr more ↦
          let q = space source p in
          let j = space-Inside source p {lo = p.offset} (omega arith, omega arith, omega arith) in
          rw (Ends, more)
            (bind-Ends source Fits lo (take_or source (error_at start alternative) q) _
              (take_or-Ends source (error_at start alternative) q inside
                (omega arith, omega arith, omega arith) text)
              λ b r l _. elim (Bool-cases (b == 124)) [
                | inl bar ↦
                    rw (Ends, bar) (goes r (omega arith, omega arith, omega arith) (omega arith))
                | inr close ↦ elim (Bool-cases (b == 41)) [
                  | inl paren ↦
                      rw (Ends, close, paren)
                        (finish_choice-Ends (alternatives ++ last ∷ []) r a
                          (omega arith, omega arith, omega arith))
                  | inr stray ↦ rw (Ends, close, stray) inside
                ]
              ])
    ]

  module _ (nested : Nested) (rounds : ℕ)
      (goes : (e : Option ℕ) (p : Parser)
        → Inside source 0 p
        → length source - p.offset < rounds
        → Ends source Fits p.offset (nested e p)) where
    follow-Ends :
        (target : Atom) (resume : ℕ) (atoms : List Atom) (p : Parser)
        → Fits (target ∷ [])
        → Fits atoms
        → Inside source 0 p
        → length source - p.offset < rounds
        → Ends source Fits p.offset (follow source nested target resume atoms p)
    unfolding follow
    follow-Ends target resume atoms p (t, _) k i f =
        let q = space source p in
        let j = space-Inside source p {lo = p.offset} (omega arith, omega arith, omega arith) in
        elim (Option-cases (get_elem? source q.offset)) [
          | inl past ↦ ground (arith, past, j, Fits-append atoms (target ∷ []) k (t, tt))
          | inr (b, found) ↦ elim (Bool-cases (b == 123)) [
            | inr plain ↦ ground (arith, found, plain, j, Fits-append atoms (target ∷ []) k (t, tt))
            | inl brace ↦
                let lt = get_elem?-lt source q.offset found in
                rw (Ends, found, brace)
                  (bind-Ends source Fits p.offset (nested (some 125) (advance q)) _
                    (goes (some 125) (advance q) (omega arith, omega arith, omega arith)
                      (omega arith))
                    λ inner r l g. (
                      (omega arith, omega arith, omega arith),
                      Fits-append _ (Atom.pop ∷ [])
                          (Fits-append atoms (Atom.push resume ∷ target ∷ inner) k (tt, (t, g)))
                          (tt, tt),
                    ))
          ]
        ]

    choice_loop-Ends :
        (fuel start entry : ℕ) (atoms : List Atom) (highest : ℕ) (alternatives : List (List Atom))
        (p : Parser)
        → start ≤ length source
        → entry ≤ 256
        → highest ≤ 256
        → Fits atoms
        → All Fits alternatives
        → Inside source 0 p
        → length source - p.offset < fuel
        → length source - p.offset < rounds
        → Ends source Fits p.offset
            (choice_loop source nested fuel start entry atoms highest alternatives p)
    unfolding choice_loop
    choice_loop-Ends zero start entry atoms highest alternatives p s e h k a i f g =
        absurd (omega arith)
    choice_loop-Ends (suc fuel) start entry atoms highest alternatives p s e h k a i f g =
        bind-Ends source Fits p.offset (nested none (record p { next_slot = entry })) _
          (goes none (record p { next_slot = entry }) (omega arith, omega arith, omega arith) g)
          λ last q j fits.
            let grown = All-append alternatives last a fits in
            choice_rest-Ends p.offset start (max highest q.next_slot) atoms s (omega arith) k
              alternatives last
              (choice_loop source nested fuel start entry atoms (max highest q.next_slot)
                (alternatives ++ last ∷ []))
              q grown j
              λ r l later. Ends-weaken source p.offset r.offset _ (omega arith) (
                choice_loop-Ends fuel start entry atoms (max highest q.next_slot)
                  (alternatives ++ last ∷ []) r s e (omega arith) k grown
                  (omega arith, omega arith, omega arith) (omega arith) (omega arith))

    arm-Ends :
        (fuel start : ℕ) (atoms : List Atom) (b : ℕ) (a : Leading) (p : Parser)
        → start ≤ length source
        → Fits atoms
        → Inside source 0 p
        → length source - p.offset < fuel
        → length source - p.offset < rounds
        → Ends source Fits p.offset (arm source nested fuel start atoms b a p)
    unfolding arm
    arm-Ends fuel start atoms b save p s k i f g =
        slot_atom-Ends source text start p.offset s atoms k Atom.save p (λ n h. (h, tt))
          (here source p i)
    arm-Ends fuel start atoms b skip p s k i f g =
        skip_range-Ends source text start p.offset s atoms k p (here source p i)
    arm-Ends fuel start atoms b quote p s k i f g =
        quoted-Ends source start atoms p {lo = p.offset} s (here source p i) text k
    arm-Ends fuel start atoms b jump1 p s k i f g = follow-Ends Atom.jump1 1 atoms p (tt, tt) k i g
    arm-Ends fuel start atoms b jump4 p s k i f g = follow-Ends Atom.jump4 4 atoms p (tt, tt) k i g
    arm-Ends fuel start atoms b pointer p s k i f g =
        follow-Ends Atom.pointer 0 atoms p (tt, tt) k i g
    arm-Ends fuel start atoms b aligned p s k i f g =
        align-Ends source text start p.offset s atoms k p (here source p i)
    arm-Ends fuel start atoms b signed p s k i f g =
        read-Ends source text start p.offset s atoms k true p (here source p i)
    arm-Ends fuel start atoms b unsigned p s k i f g =
        read-Ends source text start p.offset s atoms k false p (here source p i)
    arm-Ends fuel start atoms b relative p s k i f g =
        relative_read-Ends source text start p.offset s atoms k p (here source p i)
    arm-Ends fuel start atoms b zero_slot p s k i f g =
        slot_atom-Ends source text start p.offset s atoms k Atom.zero_slot p (λ n h. (h, tt))
          (here source p i)
    arm-Ends fuel start atoms b choice p s k i f g =
        choice_loop-Ends fuel start p.next_slot atoms p.next_slot [] p s (omega arith) (omega arith)
          k tt i f g
    arm-Ends fuel start atoms b wildcard p s k i f g =
        byte-Ends source text start p.offset s atoms k b p (here source p i)
    arm-Ends fuel start atoms b digit p s k i f g =
        byte-Ends source text start p.offset s atoms k b p (here source p i)
    arm-Ends fuel start atoms b other p s k i f g = s

    pub operation-Ends :
        (fuel : ℕ) (atoms : List Atom) (p : Parser)
        → Fits atoms
        → Inside source 0 p
        → length source - p.offset ≤ fuel
        → length source - p.offset ≤ rounds
        → Ends source Fits (p.offset + 1) (operation source nested fuel atoms p)
    unfolding operation
    operation-Ends fuel atoms p k i f g =
        bind-Ends source Fits (p.offset + 1) (take_or source (error_at p.offset empty) p) _
          (take_or-Ends source (error_at p.offset empty) p (omega arith) i text)
          λ b q j _. Ends-weaken source (p.offset + 1) q.offset _ (omega arith) (
            arm-Ends fuel p.offset atoms b (leading b) q (omega arith) k
              (omega arith, omega arith, omega arith) (omega arith) (omega arith))
