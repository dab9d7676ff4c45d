-- ===== src/Pattern/Compiled.antt =====
-- ganymede-pattern-core/src/pattern.rs: `Pattern`, `PatternBuf` and their construction. The borrowed
-- and the owned pattern hold the same three fields, and `as_pattern` copies them.
pub mod Static
use ganymede.Common.{ℕ, List, [], ◌∷◌, Option, none, some, not, ◌||◌, ◌==◌, if◌then◌else◌, length}
use ganymede.Common.Checked.{Checked, done, and_then, assert}
use ganymede.Common.Result.{Result, ok, err}
use ganymede.Pattern.Atom.{Atom, capture_len}
use ganymede.Pattern.Read.{Bytes}
use ganymede.Pattern.Syntax.{Parsed, parsed, ◌>>=◌}
use ganymede.Pattern.Syntax.Grammar.{parse}
use ganymede.Pattern.Fixed.{Fixed, fixed_new, valid_for, fixed_compile}

pub data PatternError : Type 0 where
  empty : PatternError

pub record Pattern : Type 0 where
  pub atoms : List Atom
  pub save_len : ℕ
  pub fixed : Option Fixed

unfoldable pub from_atoms : List Atom → Result PatternError Pattern
from_atoms [] = err empty
from_atoms (a ∷ atoms) =
    ok (record { atoms = a ∷ atoms; save_len = capture_len (a ∷ atoms); fixed = none })

unfoldable pub from_static_parts : List Atom → Bytes → Bytes → Checked Pattern
from_static_parts atoms bytes masks = and_then (assert (not (length atoms == 0))) λ _.
    and_then (assert (length bytes == length masks)) λ _.
      and_then (assert (length bytes == 0 || valid_for atoms bytes masks)) λ _. done (record {
        atoms = atoms;
        save_len = capture_len atoms;
        fixed = if length bytes == 0 then none else some (fixed_new bytes masks);
      })

-- What `PatternBuf::from_atoms` and `PatternBuf::parse` build from their atoms.
unfoldable pub compile : List Atom → Pattern
compile atoms = record { atoms = atoms; save_len = capture_len atoms; fixed = fixed_compile atoms }

unfoldable pub buf_from_atoms : List Atom → Result PatternError Pattern
unfolding compile
buf_from_atoms [] = err empty
buf_from_atoms (a ∷ atoms) = ok (compile (a ∷ atoms))

-- `PatternBuf::fixed_parts`
unfoldable pub fixed_parts : Pattern → Option (Bytes × Bytes)
fixed_parts p = elim p.fixed [ none ↦ none | some f ↦ some (f.bytes, f.masks) ]

-- The slices that the macro of ganymede-pattern-macro/src/lib.rs emits.
unfoldable pub emitted_parts : Pattern → Bytes × Bytes
emitted_parts p = elim (fixed_parts p) [ none ↦ ([], []) | some parts ↦ parts ]

-- `PatternBuf::parse`
unfoldable pub buf_parse : Bytes → Parsed Pattern
unfolding compile
buf_parse source = parse source >>= λ atoms. parsed (compile atoms)
