-- ===== src/Text/Tests.antt =====
-- Concrete paths for ganymede-text/src/lib.rs.
use ganymede.Common.{ℕ, ◌≡◌, ◌↔◌, refl, List, [], ◌∷◌, none}
use ganymede.Text.{split, basename, new}
use ganymede.Text.Basename.{IsBasename, basename-IsBasename}

abbrev path : List ℕ
path = 47 ∷ 116 ∷ 47 ∷ 97 ∷ 255 ∷ []

test-basename : basename path ≡ 97 ∷ 255 ∷ []
unfolding basename split
test-basename = refl

test-slash : basename (97 ∷ 47 ∷ []) ≡ []
unfolding basename split
test-slash = refl

test-ascii : (new path).ascii ≡ none
unfolding new
test-ascii = refl

basename-IsBasename_example : (basename path ≡ 97 ∷ 255 ∷ []) ↔ IsBasename path (97 ∷ 255 ∷ [])
basename-IsBasename_example = basename-IsBasename path (97 ∷ 255 ∷ [])
