-- ===== src/Scan/Strings.antt =====
-- `CBytes::assemble_with` of ganymede-scan/src/lib.rs.
use ganymede.Common.{
  ℕ, zero, suc, ◌+◌, ◌≤◌, ◌<◌, ◌≡◌, ◌≢◌, refl, ap, List, ◌∷◌, Option, none, some, take, arith,
}
use mathlib.Core.Option
use ganymede.Common.Result.{Result, ok, err}
use ganymede.Scan.Foreign.{Foreign, cells, ByteLiftError, missing_terminator, Run, Progress}
use ganymede.Scan.Assembly.{Judged}

pub take-cells : (memory : ℕ → ℕ) (k a b : ℕ) → a ≤ b → take a (cells memory k b) ≡ cells memory k a
take-cells memory k zero b h = refl
take-cells memory k (suc a) zero h = absurd (omega (arith, h))
take-cells memory k (suc a) (suc b) h =
    ap (◌∷◌ (memory k)) (take-cells memory (suc k) a b (omega (arith, h)))

-- The first zero of some bytes of the memory, or that there is none.
Zero : (ℕ → ℕ) → ℕ → ℕ → Option ℕ → Type 0
Zero memory k n none = (j : ℕ) → j < n → memory (k + j) ≢ 0
Zero memory k n (some i) = (i < n) × (memory (k + i) ≡ 0) × ((j : ℕ) → j < i → memory (k + j) ≢ 0)

module _ (f : Foreign) (memory : ℕ → ℕ) (bound : ℕ) where
  abbrev pub IsString : List ℕ → Type 0
  IsString all =
      (k : ℕ) × (k < bound)
      × (all ≡ cells memory 0 (k + 1))
      × (memory k ≡ 0)
      × ((j : ℕ) → j < k → memory j ≢ 0)

  abbrev pub CBytesRead : Run ByteLiftError (List ℕ) → Type 0
  CBytesRead none = ⊥
  CBytesRead (some (ok bytes)) = IsString bytes
  CBytesRead (some (err e)) = e ≡ missing_terminator → (j : ℕ) → j < bound → memory j ≢ 0

  abbrev Clean : ℕ → List ℕ → Type 0
  Clean offset bytes = (bytes ≡ cells memory 0 offset) × ((j : ℕ) → j < offset → memory j ≢ 0)

  abbrev IsMissing : ByteLiftError → Type 0
  IsMissing e = e ≡ missing_terminator → (j : ℕ) → j < bound → memory j ≢ 0

  abbrev CJudged : ℕ → Result ByteLiftError Progress → Type 0
  CJudged = Judged Clean IsString IsMissing bound
