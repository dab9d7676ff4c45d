-- ===== src/Pattern/Compiled/Static.antt =====
-- `Pattern::from_static_parts` of ganymede-pattern-core/src/pattern.rs on what the macro emits for a
-- compiled pattern: its atoms, and the slices of `PatternBuf::fixed_parts`.
use ganymede.Common.{
  suc, ◌≡◌, refl, List, ◌∷◌, true, false, ◌==◌, length, arith, Option-cases, inl, inr,
}
use ganymede.Common.Checked.{done}
use ganymede.Pattern.Atom.{Atom}
use ganymede.Pattern.Fixed.{Fixed, valid_for, fixed_compile}
use ganymede.Pattern.Fixed.Compile.{fixed_compile-valid_for}
use ganymede.Pattern.Compiled.{from_static_parts, compile, fixed_parts, emitted_parts}

valid_for-sizes :
    (f : Fixed) (atoms : List Atom)
    → valid_for atoms f.bytes f.masks ≡ true
    → ((length f.bytes == 0) ≡ false) × ((length f.bytes == length f.masks) ≡ true)
unfolding valid_for
valid_for-sizes f atoms h = ground arith

-- For every nonempty program: the static pattern that is built from the parts emitted for the
-- compiled program passes all its assertions, and is the compiled pattern.
pub from_static_parts-fixed_parts :
    (a : Atom) (rest : List Atom)
    → from_static_parts
        (a ∷ rest)
        (emitted_parts (compile (a ∷ rest))).0
        (emitted_parts (compile (a ∷ rest))).1
      ≡ done (compile (a ∷ rest))
unfolding from_static_parts emitted_parts fixed_parts compile
from_static_parts-fixed_parts a rest =
    let started : (suc (length rest) == 0) ≡ false = ground arith in
    elim (Option-cases (fixed_compile (a ∷ rest))) [
      | inl linear ↦ rw (linear, started) refl
      | inr (f, found) ↦
          let (valid, same) = fixed_compile-valid_for (a ∷ rest) f found in
          let (nonempty, equal) = valid_for-sizes f (a ∷ rest) valid in
          rw (found, started, nonempty, equal, valid, ← same) refl
    ]
