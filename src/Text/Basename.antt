-- ===== src/Text/Basename.antt =====
-- `BytePath::basename` and `MaybeAscii::new` of ganymede-text/src/lib.rs.
use ganymede.Common.{
  ℕ, ◌≡◌, ◌≢◌, ◌⊎◌, ◌↔◌, inl, inr, refl, sym, ap, ◌∙◌, List, [], ◌∷◌, ◌++◌, some, true, ◌==◌, All,
  arith, Bool-cases,
}
use ganymede.Text.{slash, cons_first, split, last_piece, or_whole, basename, bytes_eq}

abbrev NoSlash : List ℕ → Type 0
NoSlash bytes = All (λ (byte : ℕ). byte ≢ slash) bytes

-- What follows the last slash, or all of a path that has none.
abbrev pub IsBasename : List ℕ → List ℕ → Type 0
IsBasename path q = NoSlash q × ((path ≡ q) ⊎ ((dir : List ℕ) × (path ≡ dir ++ slash ∷ q)))

abbrev Cut : List ℕ → List (List ℕ) → Type 0
Cut path [] = ⊥
Cut path (q ∷ []) = NoSlash q × (path ≡ q)
Cut path (q ∷ r ∷ pieces) =
    (b : List ℕ) × (dir : List ℕ) × (last_piece (r ∷ pieces) ≡ some b)
    × NoSlash b
    × (path ≡ dir ++ slash ∷ b)

Cut-slash :
    (x : ℕ) (path : List ℕ) (pieces : List (List ℕ))
    → x ≡ slash
    → Cut path pieces
    → Cut (x ∷ path) ([] ∷ pieces)
Cut-slash x path [] same h = absurd h
Cut-slash x path (q ∷ []) same (clean, e) = (q, [], refl, clean, cc)
Cut-slash x path (q ∷ r ∷ pieces) same (b, dir, last, clean, e) = (b, slash ∷ dir, last, clean, cc)

Cut-other :
    (x : ℕ) (path : List ℕ) (pieces : List (List ℕ))
    → x ≢ slash
    → Cut path pieces
    → Cut (x ∷ path) (cons_first x pieces)
Cut-other x path [] ne h = absurd h
Cut-other x path (q ∷ []) ne (clean, e) = ((ne, clean), ap (◌∷◌ x) e)
Cut-other x path (q ∷ r ∷ pieces) ne (b, dir, last, clean, e) =
    (b, x ∷ dir, last, clean, ap (◌∷◌ x) e)

split-Cut : (path : List ℕ) → Cut path (split (λ byte. byte == slash) path)
unfolding split
split-Cut [] = (tt, refl)
split-Cut (x ∷ path) = elim (Bool-cases (x == slash)) [
  | inl e ↦ rw e (Cut-slash x path _ (ground (arith, e)) (split-Cut path))
  | inr e ↦ rw e (Cut-other x path _ (ground (arith, e)) (split-Cut path))
]

Cut-IsBasename :
    (path : List ℕ) (pieces : List (List ℕ))
    → Cut path pieces
    → IsBasename path (or_whole (last_piece pieces) path)
Cut-IsBasename path [] h = absurd h
Cut-IsBasename path (q ∷ []) (clean, e) = (clean, inl e)
Cut-IsBasename path (q ∷ r ∷ pieces) (b, dir, last, clean, e) = rw last (clean, inr (dir, e))

clean-slash : (q dir rest : List ℕ) → NoSlash q → q ≢ dir ++ slash ∷ rest
clean-slash [] [] rest h e = cc
clean-slash [] (d ∷ dir) rest h e = cc
clean-slash (x ∷ q) [] rest (ne, h) e = ne cc
clean-slash (x ∷ q) (d ∷ dir) rest (ne, h) e = clean-slash q dir rest h cc

same_tail :
    (dir dir' q q' : List ℕ)
    → NoSlash q
    → NoSlash q'
    → dir ++ slash ∷ q ≡ dir' ++ slash ∷ q'
    → q ≡ q'
same_tail [] [] q q' h h' e = cc
same_tail [] (d ∷ dir') q q' h h' e = absurd (clean-slash q dir' q' h cc)
same_tail (d ∷ dir) [] q q' h h' e = absurd (clean-slash q' dir q h' cc)
same_tail (d ∷ dir) (d' ∷ dir') q q' h h' e = same_tail dir dir' q q' h h' cc

IsBasename-unique : (path q q' : List ℕ) → IsBasename path q → IsBasename path q' → q ≡ q'
IsBasename-unique path q q' (h, inl e) (h', inl e') = sym e ∙ e'
IsBasename-unique path q q' (h, inl e) (h', inr (dir, e')) =
    absurd (clean-slash q dir q' h (sym e ∙ e'))
IsBasename-unique path q q' (h, inr (dir, e)) (h', inl e') =
    absurd (clean-slash q' dir q h' (sym e' ∙ e))
IsBasename-unique path q q' (h, inr (dir, e)) (h', inr (dir', e')) =
    same_tail dir dir' q q' h h' (sym e ∙ e')

-- `basename` returns `q` exactly when `q` has no slash and is the whole path or stands after a slash
-- at its end.
pub basename-IsBasename : (path q : List ℕ) → (basename path ≡ q) ↔ IsBasename path q
unfolding basename
basename-IsBasename path q =
    let found = Cut-IsBasename path (split (λ byte. byte == slash) path) (split-Cut path) in
    ((λ e. rw (← e) found), λ h. IsBasename-unique path _ q found h)

pub bytes_eq_lem : (xs ys : List ℕ) → (bytes_eq xs ys ≡ true) ↔ (xs ≡ ys)
bytes_eq_lem [] [] = ((λ _. refl), λ _. refl)
bytes_eq_lem [] (y ∷ ys) = ((λ e. cc), λ e. cc)
bytes_eq_lem (x ∷ xs) [] = ((λ e. cc), λ e. cc)
bytes_eq_lem (x ∷ xs) (y ∷ ys) =
    let again = bytes_eq_lem xs ys in
    (
      λ e.
          let head : x ≡ y = ground (arith, e) in
          let tail : bytes_eq xs ys ≡ true = ground (arith, e) in let rest = again.0 tail in cc,
      λ e.
          let tail : xs ≡ ys = cc in
          let head : x ≡ y = cc in let rest = again.1 tail in ground (arith, head, rest),
    )
