-- ===== src/Scan/Naive.antt =====
-- Instances of what ganymede-scan/src/lib.rs takes from other packages, for the tests: a search for the
-- occurrences of a needle, a handle that copies three bytes at a time, and a process over a memory.
use ganymede.Common.{
  ℕ, zero, suc, ◌+◌, ◌-◌, ◌≤◌, ◌<◌, ◌≡◌, refl, sym, ◌∙◌, ap, List, [], ◌∷◌, Option, none, some,
  false, ◌==◌, if◌then◌else◌, get_or, length, take, drop, drop_cons-drop_next, arith, Bool-cases,
  inl, inr, if_split, leb,
}
use mathlib.Core.Path.{subst}
use ganymede.Common.Result.{Result, ok}
use ganymede.Common.Sort.{is_empty}
use ganymede.Text.{bytes_eq}
use ganymede.Text.Basename.{bytes_eq_lem}
use ganymede.Process.Snapshot.{Range}
use ganymede.Scan.Foreign.{Foreign, Faithful, complete, cells}
use ganymede.Scan.Scanner.{Occurs, IsGreedy, Memmem, Process}

abbrev pub occurrences : List ℕ → ℕ → ℕ → List ℕ → List ℕ
occurrences needle position skip [] = []
occurrences needle position zero (x ∷ xs) =
    let hit = position ∷ occurrences needle (suc position) (length needle - 1) xs in
    let miss = occurrences needle (suc position) 0 xs in
    if bytes_eq (take (length needle) (x ∷ xs)) needle then hit else miss
occurrences needle position (suc skip) (x ∷ xs) = occurrences needle (suc position) skip xs

IsGreedy-lower :
    (hay needle : List ℕ) (from : ℕ) (ks : List ℕ)
    → (Occurs hay needle from → ⊥)
    → IsGreedy hay needle (suc from) ks
    → IsGreedy hay needle from ks
IsGreedy-lower hay needle from [] miss g = λ j low. elim (Bool-cases (j == from)) [
  | inl e ↦ let same : from ≡ j = ground (arith, e) in rw (← same) miss
  | inr e ↦ g j (ground (arith, e, low))
]
IsGreedy-lower hay needle from (k ∷ ks) miss (low, at, before, g) =
    (omega (arith, low), at, first, g)
  where
    first : (j : ℕ) → from ≤ j → j < k → ¬ Occurs hay needle j
    first j above below = elim (Bool-cases (j == from)) [
      | inl e ↦ let same : from ≡ j = ground (arith, e) in rw (← same) miss
      | inr e ↦ before j (ground (arith, e, above)) below
    ]

empty_miss :
    (needle : List ℕ) (hay : List ℕ) (j : ℕ)
    → is_empty needle ≡ false
    → drop j hay ≡ []
    → Occurs hay needle j
    → ⊥
empty_miss [] hay j full e h = cc
empty_miss (n ∷ needle) hay j full e h =
    let t : take (suc (length needle)) [] ≡ n ∷ needle =
      ap (take (suc (length needle))) (sym e) ∙ h in
    cc

drop-nil : (j : ℕ) → drop {A = ℕ} j [] ≡ []
drop-nil zero = refl
drop-nil (suc j) = refl

next_tail :
    (position : ℕ) (hay : List ℕ) {x : ℕ} {xs : List ℕ}
    → drop position hay ≡ x ∷ xs
    → drop (suc position) hay ≡ xs
next_tail position hay {x} {xs} e =
    let z : position + 1 ≡ suc position = omega arith in
    rw (← z) (drop_cons-drop_next position hay xs e)

pub occurrences-IsGreedy :
    (hay needle : List ℕ) (position skip : ℕ) (xs : List ℕ)
    → is_empty needle ≡ false
    → 0 < length needle
    → drop position hay ≡ xs
    → IsGreedy hay needle (position + skip) (occurrences needle position skip xs)
occurrences-IsGreedy hay needle position skip [] full some_byte e =
    λ j low. empty_miss needle hay j full (beyond position j hay e (omega (arith, low)))
  where
    beyond : (p j : ℕ) (ys : List ℕ) → drop p ys ≡ [] → p ≤ j → drop j ys ≡ []
    beyond zero j [] e h = drop-nil j
    beyond zero j (y ∷ ys) e h = cc
    beyond (suc p) j [] e h = drop-nil j
    beyond (suc p) zero (y ∷ ys) e h = absurd (omega (arith, h))
    beyond (suc p) (suc j) (y ∷ ys) e h = beyond p j ys e (omega (arith, h))
occurrences-IsGreedy hay needle position (suc skip) (x ∷ xs) full some_byte e =
    let at : position + suc skip ≡ suc position + skip = omega arith in
    rw at (
      occurrences-IsGreedy hay needle (suc position) skip xs full some_byte
        (next_tail position hay e))
occurrences-IsGreedy hay needle position zero (x ∷ xs) full some_byte e =
    let at : position + zero ≡ position = omega arith in
    let tail : drop (suc position) hay ≡ xs = next_tail position hay e in
    let past =
      occurrences-IsGreedy hay needle (suc position) (length needle - 1) xs full some_byte tail in
    let near = occurrences-IsGreedy hay needle (suc position) 0 xs full some_byte tail in
    rw at (
      if_split (IsGreedy hay needle position) (bytes_eq (take (length needle) (x ∷ xs)) needle)
        (λ same.
          let jump : suc position + (length needle - 1) ≡ position + length needle =
            omega (arith, some_byte) in
          (
            omega arith,
            ap (take (length needle)) e
                ∙ (bytes_eq_lem (take (length needle) (x ∷ xs)) needle).0 same,
            (λ j a b. absurd (omega (arith, a, b))),
            (rw (← jump) past),
          ))
        λ differ.
          IsGreedy-lower hay needle position _
            (λ h.
              let same =
                (bytes_eq_lem (take (length needle) (x ∷ xs)) needle).1
                  (sym (ap (take (length needle)) e) ∙ h) in
              ground (arith, same, differ))
            (let z : suc position + 0 ≡ suc position = omega arith in
              subst (λ p. IsGreedy hay needle p (occurrences needle (suc position) 0 xs)) z near))

pub some_length : (xs : List ℕ) → is_empty xs ≡ false → 0 < length xs
some_length [] e = cc
some_length (x ∷ xs) e = omega arith

abbrev pub naive : Memmem
naive = record {
  find_iter = λ hay needle. occurrences needle 0 0 hay;
  greedy = λ hay needle full.
      occurrences-IsGreedy hay needle 0 0 hay full (some_length needle full) refl;
}

abbrev pub by_three : (ℕ → ℕ) → Foreign
by_three memory = record {
  refresh = λ k. some 3;
  append = λ k n. some (record { bytes = cells memory k n; status = complete });
}

pub by_three-Faithful : (memory : ℕ → ℕ) → Faithful (by_three memory) memory
by_three-Faithful memory = record {
  leftover = λ k n e. ground (arith, e);
  whole = λ k n bytes e. cc;
  prefix = λ k n bytes e. cc;
}

abbrev pub open_over : List ℕ → ℕ → Result ℕ Foreign
open_over bytes a = ok (by_three (λ k. get_or bytes (a + k) 0))

pub opened :
    (bytes : List ℕ) (a : ℕ) (f : Foreign)
    → open_over bytes a ≡ ok f
    → Faithful f (λ k. get_or bytes (a + k) 0)
opened bytes a f e =
    let same : by_three (λ k. get_or bytes (a + k) 0) ≡ f = cc in
    rw (← same) (by_three-Faithful (λ k. get_or bytes (a + k) 0))

-- A byte of each address, by a list.
abbrev pub process_over : List ℕ → Process
process_over bytes = record {
  memory = λ a. get_or bytes a 0;
  open_at = open_over bytes;
  faithful = λ a f e. opened bytes a f e;
}

-- The size of a range, where it is not empty.
abbrev pub range_size : Range → Option ℕ
range_size r =
    if leb r.end_address r.start_address then none else some (r.end_address - r.start_address)
