-- ===== src/Text.antt =====
-- ganymede-text/src/lib.rs: paths as bytes, and views of bytes that are there where the bytes allow them.
-- `MaybeUtf8`, which asks the standard library whether bytes are UTF-8, is not modelled.
mod Tests
pub mod Basename
use ganymede.Common.{
  ℕ, List, [], ◌∷◌, Option, none, some, Bool, true, false, ltb, ◌&&◌, ◌==◌, if◌then◌else◌,
}

abbrev pub slash : ℕ
slash = 47

-- The pieces of `slice::split`.
abbrev pub cons_first : ℕ → List (List ℕ) → List (List ℕ)
cons_first x [] = (x ∷ []) ∷ []
cons_first x (piece ∷ pieces) = (x ∷ piece) ∷ pieces

unfoldable pub split : (ℕ → Bool) → List ℕ → List (List ℕ)
split p [] = [] ∷ []
split p (x ∷ xs) = let rest = split p xs in if p x then [] ∷ rest else cons_first x rest

-- The first piece of `rsplit` is the last one of `split`.
abbrev pub last_piece : List (List ℕ) → Option (List ℕ)
last_piece [] = none
last_piece (piece ∷ []) = some piece
last_piece (piece ∷ next ∷ pieces) = last_piece (next ∷ pieces)

abbrev pub or_whole : Option (List ℕ) → List ℕ → List ℕ
or_whole none bytes = bytes
or_whole (some piece) bytes = piece

-- `BytePath::basename`
unfoldable pub basename : List ℕ → List ℕ
basename bytes = or_whole (last_piece (split (λ byte. byte == slash) bytes)) bytes

-- Equality of byte slices.
abbrev pub bytes_eq : List ℕ → List ℕ → Bool
bytes_eq [] [] = true
bytes_eq [] (y ∷ ys) = false
bytes_eq (x ∷ xs) [] = false
bytes_eq (x ∷ xs) (y ∷ ys) = x == y && bytes_eq xs ys

pub record MaybeAscii : Type 0 where
  pub bytes : List ℕ
  pub ascii : Option (List ℕ)

abbrev pub is_ascii : List ℕ → Bool
is_ascii [] = true
is_ascii (byte ∷ bytes) = ltb byte 128 && is_ascii bytes

-- `MaybeAscii::new`
unfoldable pub new : List ℕ → MaybeAscii
new bytes = record { bytes = bytes; ascii = if is_ascii bytes then some bytes else none }
