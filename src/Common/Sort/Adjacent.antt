-- ===== src/Common/Sort/Adjacent.antt =====
-- `windows(2)` on slices, and pairs of elements, by which sorted vectors are checked.
use mathlib.Core.Path.{◌≡◌, refl}
use mathlib.Core.Bool.{Bool, true, false, ◌&&◌}
use mathlib.Core.Logic.{◌⊎◌, inl, inr}
use mathlib.Core.List.{List, [], ◌∷◌, ◌++◌}
use native.Mathlib.Omega.{arith}
use ganymede.Common.Tests.{Bool-cases}
use ganymede.Common.Lists.{All}

module _ {ℓ} {A : Type ℓ} where
  abbrev pub is_empty : List A → Bool
  is_empty [] = true
  is_empty (x ∷ xs) = false

  -- A test of each pair of neighbours.
  abbrev pub all_neighbours : (A → A → Bool) → List A → Bool
  all_neighbours p [] = true
  all_neighbours p (x ∷ []) = true
  all_neighbours p (x ∷ y ∷ xs) = p x y && all_neighbours p (y ∷ xs)

  abbrev pub Neighbours {κ} : (A → A → Type κ) → List A → Type κ
  Neighbours R [] = Unit
  Neighbours R (x ∷ []) = Unit
  Neighbours R (x ∷ y ∷ xs) = R x y × Neighbours R (y ∷ xs)

  -- Each element with each one after it.
  abbrev pub Pairwise {κ} : (A → A → Type κ) → List A → Type κ
  Pairwise R [] = Unit
  Pairwise R (x ∷ xs) = All (R x) xs × Pairwise R xs

  abbrev pub Any : (A → Type 0) → List A → Type 0
  Any P [] = ⊥
  Any P (x ∷ xs) = P x ⊎ Any P xs

  pub Any-elim {μ} :
      (P : A → Type 0) (G : Type μ) (xs : List A) → All (λ x. P x → G) xs → Any P xs → G
  Any-elim P G [] all h = absurd h
  Any-elim P G (x ∷ xs) (f, all) (inl p) = f p
  Any-elim P G (x ∷ xs) (f, all) (inr h) = Any-elim P G xs all h

  pub All-Any {μ} :
      (P : A → Type 0) (G : Type μ) (xs : List A) → (Any P xs → G) → All (λ x. P x → G) xs
  All-Any P G [] f = tt
  All-Any P G (x ∷ xs) f = ((λ p. f (inl p)), All-Any P G xs λ h. f (inr h))

  pub all_neighbours→Neighbours :
      (p : A → A → Bool) (xs : List A)
      → all_neighbours p xs ≡ true
      → Neighbours (λ x y. p x y ≡ true) xs
  all_neighbours→Neighbours p [] h = tt
  all_neighbours→Neighbours p (x ∷ []) h = tt
  all_neighbours→Neighbours p (x ∷ y ∷ xs) h =
      (ground (arith, h), all_neighbours→Neighbours p (y ∷ xs) (ground (arith, h)))

  pub Neighbours-map {κ μ} :
      {R : A → A → Type κ} (S : A → A → Type μ) (xs : List A)
      → ((x y : A) → R x y → S x y)
      → Neighbours R xs
      → Neighbours S xs
  Neighbours-map S [] f h = tt
  Neighbours-map S (x ∷ []) f h = tt
  Neighbours-map S (x ∷ y ∷ xs) f (r, h) = (f x y r, Neighbours-map S (y ∷ xs) f h)

  pub All-map {κ μ} :
      (P : A → Type κ) (Q : A → Type μ) (xs : List A) → ((x : A) → P x → Q x) → All P xs → All Q xs
  All-map P Q [] f h = tt
  All-map P Q (x ∷ xs) f (p, h) = (f x p, All-map P Q xs f h)

  pub All-append {κ} : (P : A → Type κ) (xs ys : List A) → All P xs → All P ys → All P (xs ++ ys)
  All-append P [] ys h k = k
  All-append P (x ∷ xs) ys (p, h) k = (p, All-append P xs ys h k)

  pub Pairwise-append {κ} :
      (R : A → A → Type κ) (xs ys : List A)
      → Pairwise R xs
      → Pairwise R ys
      → All (λ x. All (R x) ys) xs
      → Pairwise R (xs ++ ys)
  Pairwise-append R [] ys h k across = k
  Pairwise-append R (x ∷ xs) ys (all, h) k (r, across) =
      (All-append (R x) xs ys all r, Pairwise-append R xs ys h k across)

  pub append-All {κ} : (P : A → Type κ) (xs ys : List A) → All P (xs ++ ys) → All P xs × All P ys
  append-All P [] ys h = (tt, h)
  append-All P (x ∷ xs) ys (p, h) = let (a, b) = append-All P xs ys h in ((p, a), b)

  pub append-Pairwise {κ} :
      (R : A → A → Type κ) (xs ys : List A)
      → Pairwise R (xs ++ ys)
      → All (λ x. All (R x) ys) xs × Pairwise R ys
  append-Pairwise R [] ys h = (tt, h)
  append-Pairwise R (x ∷ xs) ys (all, h) =
      let (across, k) = append-Pairwise R xs ys h in (((append-All (R x) xs ys all).1, across), k)

  pub Pairwise→Neighbours {κ} : (R : A → A → Type κ) (xs : List A) → Pairwise R xs → Neighbours R xs
  Pairwise→Neighbours R [] h = tt
  Pairwise→Neighbours R (x ∷ []) h = tt
  Pairwise→Neighbours R (x ∷ y ∷ xs) ((r, _), h) = (r, Pairwise→Neighbours R (y ∷ xs) h)

  pub Pairwise-map {κ μ} :
      (R : A → A → Type κ) (S : A → A → Type μ) (xs : List A)
      → ((x y : A) → R x y → S x y)
      → Pairwise R xs
      → Pairwise S xs
  Pairwise-map R S [] f h = tt
  Pairwise-map R S (x ∷ xs) f (all, h) = (All-map (R x) (S x) xs (f x) all, Pairwise-map R S xs f h)

  -- Neighbours in a relation that is transitive through elements with `P` are all in that relation.
  pub Neighbours→Pairwise {κ μ} :
      (P : A → Type κ) (R : A → A → Type μ) (xs : List A)
      → ((x y z : A) → P y → R x y → R y z → R x z)
      → All P xs
      → Neighbours R xs
      → Pairwise R xs
  Neighbours→Pairwise P R [] transitive ps h = tt
  Neighbours→Pairwise P R (x ∷ []) transitive ps h = (tt, tt)
  Neighbours→Pairwise P R (x ∷ y ∷ xs) transitive (_, (p, ps)) (r, h) =
      let rest = Neighbours→Pairwise P R (y ∷ xs) transitive (p, ps) h in
      ((r, All-map (R y) (R x) xs (λ z. transitive x y z p r) rest.0), rest)

  -- A test of neighbours that fails does so at two of them.
  pub all_neighbours-false {κ μ} :
      (p : A → A → Bool) (P : A → Type κ) (Q : A → A → Type μ) (xs : List A)
      → All P xs
      → Neighbours Q xs
      → all_neighbours p xs ≡ false
      → (x : A) × (y : A) × P x × P y × Q x y × (p x y ≡ false)
  all_neighbours-false p P Q [] ps qs e = cc
  all_neighbours-false p P Q (x ∷ []) ps qs e = cc
  all_neighbours-false p P Q (x ∷ y ∷ xs) (px, (py, ps)) (q, qs) e = elim (Bool-cases (p x y)) [
    | inl fine ↦ all_neighbours-false p P Q (y ∷ xs) (py, ps) qs (ground (arith, e, fine))
    | inr wrong ↦ (x, y, px, py, q, wrong)
  ]

  pub Neighbours-true :
      (p : A → A → Bool) (xs : List A)
      → Neighbours (λ x y. p x y ≡ true) xs
      → all_neighbours p xs ≡ true
  Neighbours-true p [] h = refl
  Neighbours-true p (x ∷ []) h = refl
  Neighbours-true p (x ∷ y ∷ xs) (e, h) = ground (arith, e, Neighbours-true p (y ∷ xs) h)

  pub Neighbours-both {κ μ} :
      (R : A → A → Type κ) (S : A → A → Type μ) (xs : List A)
      → Neighbours R xs
      → Neighbours S xs
      → Neighbours (λ x y. R x y × S x y) xs
  Neighbours-both R S [] h k = tt
  Neighbours-both R S (x ∷ []) h k = tt
  Neighbours-both R S (x ∷ y ∷ xs) (r, h) (s, k) = ((r, s), Neighbours-both R S (y ∷ xs) h k)

  pub All→Neighbours {κ} :
      (P : A → Type κ) (xs : List A) → All P xs → Neighbours (λ x y. P x × P y) xs
  All→Neighbours P [] h = tt
  All→Neighbours P (x ∷ []) h = tt
  All→Neighbours P (x ∷ y ∷ xs) (p, (q, h)) = ((p, q), All→Neighbours P (y ∷ xs) (q, h))
