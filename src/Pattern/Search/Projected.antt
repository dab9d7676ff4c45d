-- ===== src/Pattern/Search/Projected.antt =====
-- `Scanner::find_fixed` of ganymede-pattern-core/src/pattern/scan.rs: candidates come from the fixed
-- scanner, and the program runs at each.
use ganymede.Common.{
  ℕ, zero, suc, ◌+◌, ◌-◌, ◌≤◌, ◌<◌, ◌≡◌, ◌⊎◌, refl, List, [], Option, none, some, Bool, true,
  length, saturating_add, word_mod, arith, All,
}
use ganymede.Common.Checked.{done}
use ganymede.Common.First.{IsFirst, first_from, first_from-IsFirst}
use native.Mathlib.Decide.{dec_lt}
use mathlib.Core.Path.{subst}
use ganymede.Pattern.Atom.{Atom}
use ganymede.Pattern.Read.{Bytes}
use ganymede.Pattern.Exec.{Context}
use ganymede.Pattern.Plan.{SearchPlan, plan_compile}
use ganymede.Pattern.Fixed.{fixed_new, valid_for}
use ganymede.Pattern.Fixed.Run.{masked_at, exec-valid_for}
use ganymede.Pattern.FixedScan.{Memchr, FixedScanner, scanner_new, fixed_find}
use ganymede.Pattern.FixedScan.Exact.{fixed_find-exact}
use ganymede.Pattern.Vector.{Simd}
use ganymede.Pattern.Search.{Scanner, try_candidate, fixed_loop}
use ganymede.Pattern.Search.Filter.{direct, EndsFirst, filter_step}

module _ (lib : Memchr) (simd : Simd) (c : Context) (f : FixedScanner) (end : ℕ)
    (short : length c.haystack < word_mod) (inside : end ≤ length c.haystack) where
  fixed_round :
      (fuel next : ℕ) (o : Option ℕ)
      → next < end
      → fixed_find lib simd f c.haystack next end ≡ done o
      → ((k : ℕ) → o ≡ some k → k < end)
      → (elim o [
        | none ↦ done (none, [])
        | some k ↦ try_candidate c k [] (fixed_loop lib simd c f end fuel (k + 1))
      ])
        ≡ fixed_loop lib simd c f end (suc fuel) next []
  unfolding fixed_loop
  fixed_round fuel next none h e b = ground (arith, e)
  fixed_round fuel next (some k) h e b =
      let step : saturating_add k 1 ≡ k + 1 = ground (arith, b k refl) in ground (arith, e, step)

  pub fixed_loop-EndsFirst :
      (q : ℕ → Bool)
      → ((start : ℕ)
          → start ≤ end
          → fixed_find lib simd f c.haystack start end ≡ done (first_from q start (end - start)))
      → ((i : ℕ) → i < end → direct c i ≡ true → q i ≡ true)
      → (fuel next : ℕ) → next ≤ end
      → end - next ≤ fuel
      → EndsFirst (direct c) next end (fixed_loop lib simd c f end fuel next [])
  unfolding fixed_loop
  fixed_loop-EndsFirst q finds need zero next h g =
      (none, ground arith, λ i l u. absurd (omega arith))
  fixed_loop-EndsFirst q finds need (suc fuel) next h g = elim (dec_lt next end) [
    | no last ↦ (none, ground arith, λ i l u. absurd (omega arith))
    | yes more ↦
        let span : next + (end - next) ≡ end = omega arith in
        let o = first_from q next (end - next) in
        let gen = rw span at (first_from-IsFirst q (end - next) next) in
        subst (EndsFirst (direct c) next end)
          (fixed_round fuel next o more (finds next h) (below o gen))
          (filter_step c q next end o (λ k. fixed_loop lib simd c f end fuel (k + 1)) need gen
            λ k l u. fixed_loop-EndsFirst q finds need fuel (k + 1) (omega arith) (omega arith))
  ]
    where
      below : (o : Option ℕ) → IsFirst q next end o → (k : ℕ) → o ≡ some k → k < end
      below none v k e = cc
      below (some j) (l, u, _, _) k e = ground (arith, e, u)

-- A projection that the scanner serves with no verification: bytes and masks that `valid_for` accepts
-- for the program, and whose strategy is a literal search or matches anything.
pub record Projects (atoms : List Atom) (fixed : Option FixedScanner) : Type 0 where
  pub bytes : Bytes
  pub masks : Bytes
  pub is_fixed : fixed ≡ some (scanner_new (fixed_new bytes masks))
  pub valid : valid_for atoms bytes masks ≡ true
  pub bytes_fit : All (λ b. b < 256) bytes
  pub masks_fit : All (λ m. m < 256) masks
  pub plan :
      (plan_compile bytes masks ≡ SearchPlan.literal)
      ⊎ (plan_compile bytes masks ≡ SearchPlan.wildcard)

-- A scanner with no fixed projection, or with one that needs no verification.
abbrev pub Served : Scanner → Type 0
Served s = (s.fixed ≡ none) ⊎ Projects s.pattern.atoms s.fixed

valid_for-length :
    (atoms : List Atom) (bytes masks : Bytes)
    → valid_for atoms bytes masks ≡ true
    → length bytes ≡ length masks
unfolding valid_for
valid_for-length atoms bytes masks h = ground arith

pub projected-EndsFirst :
    (lib : Memchr) (simd : Simd) (c : Context) (fixed : Option FixedScanner)
    (p : Projects c.atoms fixed) (start end : ℕ)
    → All (λ b. b < 256) c.haystack
    → length c.haystack < word_mod
    → start ≤ end
    → end ≤ length c.haystack
    → EndsFirst
        (direct c)
        start
        end
        (fixed_loop lib simd c (scanner_new (fixed_new p.bytes p.masks)) end (end - start) start [])
projected-EndsFirst lib simd c fixed p start end image short h k =
    fixed_loop-EndsFirst lib simd c (scanner_new (fixed_new p.bytes p.masks)) end short k
      (λ i. masked_at c.haystack i p.bytes p.masks)
      (λ s l.
        fixed_find-exact lib simd c.haystack p.bytes p.masks
          (valid_for-length c.atoms p.bytes p.masks p.valid) s end image p.bytes_fit p.masks_fit
          p.plan l k)
      (λ i u hit.
        ground (arith, exec-valid_for c p.bytes p.masks i [] short (omega arith) p.valid, hit))
      (end - start) start h (omega arith)
