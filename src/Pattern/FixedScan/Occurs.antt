-- ===== src/Pattern/FixedScan/Occurs.antt =====
-- Substring search in a part of the image, for the loops of
-- ganymede-pattern-core/src/pattern/scan.rs and pattern/fixed/scan.rs.
use ganymede.Common.{
  ℕ, ◌+◌, ◌-◌, ◌≤◌, ◌≡◌, [], ◌∷◌, true, ◌&&◌, leb, length, window, length-window, get_elem?-window,
  get_elem?-none, arith,
}
use native.Mathlib.Decide.{dec_lt}
use ganymede.Pattern.Read.{Bytes}
use ganymede.Pattern.FixedScan.{occurs_at}

-- The needle stands in the part exactly where it stands in the whole and does not leave the part.
pub occurs_at-window :
    (xs needle : Bytes) (start end i : ℕ)
    → start ≤ end
    → end ≤ length xs
    → occurs_at (window xs start end) needle i
      ≡ (leb (start + i + length needle) end && occurs_at xs needle (start + i))
unfolding occurs_at
occurs_at-window xs [] start end i h k = ground (arith, length-window xs start end h k)
occurs_at-window xs (b ∷ needle) start end i h k =
    let next : start + (i + 1) ≡ start + i + 1 = omega arith in
    let rest = rw next at (occurs_at-window xs needle start end (i + 1) h k) in
    elim (dec_lt i (end - start)) [
      | yes inside ↦ ground (arith, get_elem?-window xs start end i inside, rest)
      | no past ↦ ground (
        arith,
        get_elem?-none (window xs start end) i (omega (arith, length-window xs start end h k)),
      )
    ]

-- A needle that stands at `i` ends inside the haystack.
pub occurs_at-le :
    (xs needle : Bytes) (i : ℕ) → occurs_at xs needle i ≡ true → i + length needle ≤ length xs
unfolding occurs_at
occurs_at-le xs [] i h = ground arith
occurs_at-le xs (b ∷ needle) i h =
    let rest : occurs_at xs needle (i + 1) ≡ true = ground arith in
    omega (arith, occurs_at-le xs needle (i + 1) rest)
