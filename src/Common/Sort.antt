-- ===== src/Common/Sort.antt =====
-- `sort_unstable_by_key` on vectors: an insertion sort by a Boolean order. Where two elements have equal
-- keys the code leaves their order open.
mod Adjacent
pub use Adjacent.*
use mathlib.Core.Path.{◌≡◌, refl}
use mathlib.Core.Bool.{Bool, true, false, ◌&&◌}
use mathlib.Core.Logic.{◌⊎◌, inl, inr}
use mathlib.Core.List.{List, [], ◌∷◌, ◌++◌, Perm}
use mathlib.Core.List.Perm
use native.Mathlib.Omega.{arith}
use ganymede.Common.Tests.{if_split, if◌then◌else◌, Bool-cases}
use ganymede.Common.Lists.{All}

module _ {ℓ} {A : Type ℓ} where
  module _ (before : A → A → Bool) where
    unfoldable pub insert : A → List A → List A
    insert x [] = x ∷ []
    insert x (y ∷ ys) = if before x y then x ∷ y ∷ ys else y ∷ insert x ys

    unfoldable pub sort : List A → List A
    sort [] = []
    sort (x ∷ xs) = insert x (sort xs)

    insert-perm : (x : A) (ys : List A) → Perm (insert x ys) (x ∷ ys)
    unfolding insert
    insert-perm x [] = Perm.refl (x ∷ [])
    insert-perm x (y ∷ ys) = elim (Bool-cases (before x y)) [
      | inl first ↦ rw first (Perm.refl (x ∷ y ∷ ys))
      | inr later ↦ rw later (Perm.trans (Perm.cons y (insert-perm x ys)) (Perm.swap x y ys))
    ]

    pub sort-perm : (xs : List A) → Perm (sort xs) xs
    unfolding sort
    sort-perm [] = Perm.refl []
    sort-perm (x ∷ xs) = Perm.trans (insert-perm x (sort xs)) (Perm.cons x (sort-perm xs))

    insert-All {κ} : (P : A → Type κ) (x : A) (ys : List A) → P x → All P ys → All P (insert x ys)
    unfolding insert
    insert-All P x [] p h = (p, tt)
    insert-All P x (y ∷ ys) p (q, h) = elim (Bool-cases (before x y)) [
      | inl first ↦ rw first (p, (q, h))
      | inr later ↦ rw later (q, insert-All P x ys p h)
    ]

    abbrev placed : A → A → List A → Bool → List A
    placed x y ys b = if b then x ∷ y ∷ ys else y ∷ insert x ys

    All-insert {κ} : (P : A → Type κ) (x : A) (ys : List A) → All P (insert x ys) → P x × All P ys
    unfolding insert
    All-insert P x [] h = h
    All-insert P x (y ∷ ys) h = split (before x y) (All-insert P x ys) h
      where
        split :
            (b : Bool)
            → (All P (insert x ys) → P x × All P ys)
            → All P (placed x y ys b)
            → P x × All P (y ∷ ys)
        split true again h = h
        split false again (q, h) = let (p, r) = again h in (p, (q, r))

    pub sort-All {κ} : (P : A → Type κ) (xs : List A) → All P xs → All P (sort xs)
    unfolding sort
    sort-All P [] h = tt
    sort-All P (x ∷ xs) (p, h) = insert-All P x (sort xs) p (sort-All P xs h)

    pub All-sort {κ} : (P : A → Type κ) (xs : List A) → All P (sort xs) → All P xs
    unfolding sort
    All-sort P [] h = tt
    All-sort P (x ∷ xs) h = let (p, r) = All-insert P x (sort xs) h in (p, All-sort P xs r)

    Pairwise-insert {κ} :
        (R : A → A → Type κ) (x : A) (ys : List A)
        → ((a b : A) → R a b → R b a)
        → Pairwise R (insert x ys)
        → All (R x) ys × Pairwise R ys
    unfolding insert
    Pairwise-insert R x [] symmetric h = h
    Pairwise-insert R x (y ∷ ys) symmetric h =
        split (before x y) (Pairwise-insert R x ys symmetric) h
      where
        split :
            (b : Bool)
            → (Pairwise R (insert x ys) → All (R x) ys × Pairwise R ys)
            → Pairwise R (placed x y ys b)
            → All (R x) (y ∷ ys) × Pairwise R (y ∷ ys)
        split true again h = h
        split false again (all, h) =
            let (q, r) = All-insert (R y) x ys all in
            let (s, t) = again h in ((symmetric y x q, s), (r, t))

    -- A symmetric relation that holds of each two elements of the sorted list holds of each two of the list.
    pub Pairwise-sort {κ} :
        (R : A → A → Type κ) (xs : List A)
        → ((a b : A) → R a b → R b a)
        → Pairwise R (sort xs)
        → Pairwise R xs
    unfolding sort
    Pairwise-sort R [] symmetric h = tt
    Pairwise-sort R (x ∷ xs) symmetric h =
        let (p, r) = Pairwise-insert R x (sort xs) symmetric h in
        (All-sort (R x) xs p, Pairwise-sort R xs symmetric r)

    insert-Neighbours {κ} :
        (R : A → A → Type κ) (x : A) (ys : List A)
        → ((a b : A) → before a b ≡ true → R a b)
        → ((a b : A) → before a b ≡ false → R b a)
        → Neighbours R ys
        → Neighbours R (insert x ys)
    unfolding insert
    insert-Neighbours R x [] up down h = tt
    insert-Neighbours R x (y ∷ []) up down h = elim (Bool-cases (before x y)) [
      | inl first ↦ rw first (up x y first, tt)
      | inr later ↦ rw later (down x y later, tt)
    ]
    insert-Neighbours R x (y ∷ z ∷ ys) up down (r, h) = elim (Bool-cases (before x y)) [
      | inl first ↦ rw first (up x y first, (r, h))
      | inr later ↦
          rw later
            (between (down x y later) (before x z) (insert-Neighbours R x (z ∷ ys) up down h))
    ]
      where
        between :
            R y x → (b : Bool) → Neighbours R (placed x z ys b) → Neighbours R (y ∷ placed x z ys b)
        between s true h = (s, h)
        between s false h = (r, h)

    pub sort-Neighbours {κ} :
        (R : A → A → Type κ) (xs : List A)
        → ((a b : A) → before a b ≡ true → R a b)
        → ((a b : A) → before a b ≡ false → R b a)
        → Neighbours R (sort xs)
    unfolding sort
    sort-Neighbours R [] up down = tt
    sort-Neighbours R (x ∷ xs) up down =
        insert-Neighbours R x (sort xs) up down (sort-Neighbours R xs up down)

    insert-Pairwise {κ} :
        (R : A → A → Type κ) (x : A) (ys : List A)
        → ((a b : A) → R a b → R b a)
        → All (R x) ys
        → Pairwise R ys
        → Pairwise R (insert x ys)
    unfolding insert
    insert-Pairwise R x [] symmetric all h = (tt, tt)
    insert-Pairwise R x (y ∷ ys) symmetric (r, all) (s, h) = elim (Bool-cases (before x y)) [
      | inl first ↦ rw first ((r, all), (s, h))
      | inr later ↦
          rw later
            (insert-All (R y) x ys (symmetric x y r) s, insert-Pairwise R x ys symmetric all h)
    ]

    pub sort-Pairwise {κ} :
        (R : A → A → Type κ) (xs : List A)
        → ((a b : A) → R a b → R b a)
        → Pairwise R xs
        → Pairwise R (sort xs)
    unfolding sort
    sort-Pairwise R [] symmetric h = tt
    sort-Pairwise R (x ∷ xs) symmetric (all, h) =
        insert-Pairwise R x (sort xs) symmetric (sort-All (R x) xs all)
          (sort-Pairwise R xs symmetric h)

    pub Any-sort : (P : A → Type 0) (xs : List A) → Any P (sort xs) → Any P xs
    Any-sort P xs h =
        Any-elim P (Any P xs) (sort xs)
          (sort-All (λ x. P x → Any P xs) xs (All-Any P (Any P xs) xs λ h. h)) h

    insert-is_empty : (x : A) (ys : List A) → is_empty (insert x ys) ≡ false
    unfolding insert
    insert-is_empty x [] = refl
    insert-is_empty x (y ∷ ys) =
        if_split (λ (zs : List A). is_empty zs ≡ false) (before x y) (λ _. refl) λ _. refl

    pub sort-is_empty : (xs : List A) → is_empty (sort xs) ≡ is_empty xs
    unfolding sort
    sort-is_empty [] = refl
    sort-is_empty (x ∷ xs) = insert-is_empty x (sort xs)

    insert-Any : (P : A → Type 0) (x : A) (ys : List A) → P x ⊎ Any P ys → Any P (insert x ys)
    unfolding insert
    insert-Any P x [] h = h
    insert-Any P x (y ∷ ys) h =
        if_split (Any P) (before x y) (λ _. h) λ _. later h (λ k. insert-Any P x ys k)
      where
        later :
            P x ⊎ Any P (y ∷ ys) → (P x ⊎ Any P ys → Any P (insert x ys)) → Any P (y ∷ insert x ys)
        later (inl p) again = inr (again (inl p))
        later (inr (inl q)) again = inl q
        later (inr (inr k)) again = inr (again (inr k))

    pub sort-Any : (P : A → Type 0) (xs : List A) → Any P xs → Any P (sort xs)
    unfolding sort
    sort-Any P [] h = h
    sort-Any P (x ∷ xs) (inl p) = insert-Any P x (sort xs) (inl p)
    sort-Any P (x ∷ xs) (inr h) = insert-Any P x (sort xs) (inr (sort-Any P xs h))
