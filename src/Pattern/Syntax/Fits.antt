-- ===== src/Pattern/Syntax/Fits.antt =====
-- The `u8` fields of the atoms that ganymede-pattern-core/src/pattern/syntax.rs builds.
use ganymede.Common.{
  ℕ, zero, suc, ◌*◌, ◌%◌, ◌<◌, ◌≡◌, refl, List, [], ◌∷◌, ◌++◌, Option, none, some, Bool, true,
  false, ltb, ltb→lt, All, set, bit_or, arith, all_below, all_below→true,
}
use ganymede.Pattern.Atom.{Atom}
use ganymede.Pattern.Syntax.{hex, nibble, skip_onto, skip_push}
use ganymede.Pattern.Syntax.Lower.{
  push_byte, exponent, read_atom, lay_alternatives, link_cases, link_breaks, link, encode_choice,
  trim_onto, trim,
}

-- A byte, a mask, a slot and an exponent fit a `u8`.
abbrev pub AtomIsByte : Atom → Type 0
AtomIsByte (Atom.byte n) = n < 256
AtomIsByte (Atom.save n) = n < 256
AtomIsByte (Atom.fuzzy n) = n < 256
AtomIsByte (Atom.pir n) = n < 256
AtomIsByte (Atom.check n) = n < 256
AtomIsByte (Atom.aligned n) = n < 256
AtomIsByte (Atom.read_i8 n) = n < 256
AtomIsByte (Atom.read_u8 n) = n < 256
AtomIsByte (Atom.read_i16 n) = n < 256
AtomIsByte (Atom.read_u16 n) = n < 256
AtomIsByte (Atom.read_i32 n) = n < 256
AtomIsByte (Atom.read_u32 n) = n < 256
AtomIsByte (Atom.read_rel32 n) = n < 256
AtomIsByte (Atom.zero_slot n) = n < 256
AtomIsByte _ = Unit

abbrev pub Fits : List Atom → Type 0
Fits atoms = All AtomIsByte atoms

pub Fits-append : (xs ys : List Atom) → Fits xs → Fits ys → Fits (xs ++ ys)
Fits-append [] ys h k = k
Fits-append (x ∷ xs) ys (a, h) k = (a, Fits-append xs ys h k)

Fits-set : (xs : List Atom) (i : ℕ) (a : Atom) → AtomIsByte a → Fits xs → Fits (set xs i a)
Fits-set [] i a k h = tt
Fits-set (x ∷ xs) zero a k (_, h) = (k, h)
Fits-set (x ∷ xs) (suc i) a k (b, h) = (b, Fits-set xs i a k h)

skip_onto-Fits : (xs : List Atom) (n : ℕ) → Fits xs → Fits (skip_onto xs n)
skip_onto-Fits [] n h = (tt, tt)
skip_onto-Fits (Atom.skip m ∷ []) n h = ground arith
skip_onto-Fits (a ∷ xs) n (b, h) = (b, skip_onto-Fits xs n h)

pub skip_push-Fits : (xs : List Atom) (n : ℕ) → Fits xs → Fits (skip_push xs n)
unfolding skip_push
skip_push-Fits xs n h = ground (arith, h, skip_onto-Fits xs n h)

pub push_byte-Fits :
    (xs : List Atom) (v m : ℕ) → v < 256 → m < 256 → Fits xs → Fits (push_byte xs v m)
unfolding push_byte
push_byte-Fits xs v m v_fits m_fits h = ground (
  arith,
  skip_push-Fits xs 1 h,
  Fits-append xs (Atom.byte v ∷ []) h (v_fits, tt),
  Fits-append xs (Atom.fuzzy m ∷ Atom.byte v ∷ []) h (m_fits, (v_fits, tt)),
)

-- Two nibbles make a byte.
abbrev nibbles_fit : ℕ → Bool
nibbles_fit high = all_below 16 (λ low. ltb (bit_or (high * 16 % 256) low) 256)

pub nibbles_lem : (high low : ℕ) → high < 16 → low < 16 → bit_or (high * 16 % 256) low < 256
nibbles_lem high low h l =
    let one = all_below→true 16 nibbles_fit high refl h in
    ltb→lt _ _ (all_below→true 16 (λ low. ltb (bit_or (high * 16 % 256) low) 256) low one l)

pub nibble-bound : (b : ℕ) {v m : ℕ} → nibble b ≡ some (v, m) → (v < 16) × (m < 16)
unfolding nibble hex
nibble-bound b e = ground arith

pub exponent-bound : (b : ℕ) {e : ℕ} → exponent b ≡ some e → e < 256
unfolding exponent
exponent-bound b h = ground arith

abbrev pub OptionFits : Option Atom → Type 0
OptionFits none = Unit
OptionFits (some a) = AtomIsByte a

pub read_atom-Fits : (is_signed : Bool) (w n : ℕ) → n < 256 → OptionFits (read_atom is_signed w n)
unfolding read_atom
read_atom-Fits true w n h = ground (arith, h)
read_atom-Fits false w n h = ground (arith, h)

link_cases-Fits :
    (xs : List Atom) (cases : List ℕ) (next_case : ℕ)
    → Fits xs
    → Fits (link_cases xs cases next_case)
unfolding link_cases
link_cases-Fits xs [] n h = h
link_cases-Fits xs (c ∷ cases) n h = link_cases-Fits (set xs c _) cases c (Fits-set xs c _ tt h)

link_breaks-Fits :
    (xs : List Atom) (breaks : List ℕ) (end : ℕ) → Fits xs → Fits (link_breaks xs breaks end)
unfolding link_breaks
link_breaks-Fits xs [] n h = h
link_breaks-Fits xs (b ∷ breaks) n h = link_breaks-Fits (set xs b _) breaks n (Fits-set xs b _ tt h)

link-Fits : (xs : List Atom) (cases breaks : List ℕ) → Fits xs → Fits (link (xs, cases, breaks))
link-Fits xs [] breaks h = h
link-Fits xs (c ∷ cases) [] h = Fits-set xs c _ tt h
link-Fits xs (c ∷ cases) (b ∷ breaks) h =
    link_breaks-Fits _ breaks _
      (link_cases-Fits _ cases c (Fits-set _ b _ tt (Fits-set xs c _ tt h)))

lay-Fits :
    (xs : List Atom) (alts : List (List Atom)) (cases breaks : List ℕ)
    → Fits xs
    → All Fits alts
    → Fits (link (lay_alternatives xs alts cases breaks))
unfolding lay_alternatives
lay-Fits xs [] cases breaks h k = link-Fits xs cases breaks h
lay-Fits xs (alt ∷ alts) cases breaks h (a, k) =
    lay-Fits _ alts _ _
      (Fits-append (xs ++ Atom.case 0 ∷ alt) _ (Fits-append xs _ h (tt, a)) (tt, tt)) k

pub encode_choice-Fits :
    (xs : List Atom) (alts : List (List Atom))
    → Fits xs
    → All Fits alts
    → Fits (encode_choice xs alts)
unfolding encode_choice
encode_choice-Fits xs alts h k = lay-Fits xs alts [] [] h k

trim_onto-Fits : (a : Atom) (xs : List Atom) → AtomIsByte a → Fits xs → Fits (trim_onto a xs)
trim_onto-Fits a [] k h = ground (arith, k)
trim_onto-Fits a (x ∷ xs) k h = (k, h)

pub trim-Fits : (xs : List Atom) → Fits xs → Fits (trim xs)
unfolding trim
trim-Fits [] h = tt
trim-Fits (x ∷ xs) (k, h) = trim_onto-Fits x (trim xs) k (trim-Fits xs h)
