-- ===== src/Module/Ownership.antt =====
-- `Modules::new` and `Modules::module_at` of ganymede-module/src/lib.rs.
use ganymede.Common.{ℕ, suc, ◌≤◌, ◌≡◌, refl, sym, List, [], ◌∷◌, All, arith}
use ganymede.Common.Sort.{Pairwise, Pairwise-append, All-append, All-map}
use ganymede.Process.Snapshot.{Range, Region}
use ganymede.Module.{Module, ranges_of, ranges_from}
use ganymede.Module.Apart.{Nonempty, Apart, Apart-sym}
use ganymede.Module.Identity.{range_key}
use ganymede.Module.Mappings.{AllApart, Ranged}

-- The mappings of a module are nonempty and apart.
abbrev pub IsModule : Module → Type 0
IsModule m = Ranged m.mappings × AllApart m.mappings

abbrev pub Owned : Type 0
Owned = Range × ℕ

abbrev pub owned_key : Owned → Range
owned_key p = p.0

-- Two ranges of one module are apart.
abbrev pub SameApart : Owned → Owned → Type 0
SameApart p q = p.1 ≡ q.1 → Apart p.0 q.0

pub SameApart-sym : (p q : Owned) → SameApart p q → SameApart q p
SameApart-sym p q h e = Apart-sym p.0 q.0 (h (sym e))

ranges_of-index :
    (mappings : List Region) (index : ℕ)
    → All (λ (p : Owned). p.1 ≡ index) (ranges_of mappings index)
ranges_of-index [] index = tt
ranges_of-index (r ∷ mappings) index = (refl, ranges_of-index mappings index)

ranges_of-full :
    (mappings : List Region) (index : ℕ)
    → Ranged mappings
    → All (λ p. Nonempty (owned_key p)) (ranges_of mappings index)
ranges_of-full [] index h = tt
ranges_of-full (r ∷ mappings) index (n, h) = (n, ranges_of-full mappings index h)

ranges_of-from :
    (r : Region) (mappings : List Region) (index : ℕ)
    → All (λ s. Apart (range_key r) (range_key s)) mappings
    → All (SameApart (r.range, index)) (ranges_of mappings index)
ranges_of-from r [] index h = tt
ranges_of-from r (s ∷ mappings) index (a, h) = ((λ _. a), ranges_of-from r mappings index h)

ranges_of-apart :
    (mappings : List Region) (index : ℕ)
    → AllApart mappings
    → Pairwise SameApart (ranges_of mappings index)
ranges_of-apart [] index h = tt
ranges_of-apart (r ∷ mappings) index (all, h) =
    (ranges_of-from r mappings index all, ranges_of-apart mappings index h)

ranges_from-index :
    (modules : List Module) (index : ℕ)
    → All (λ (p : Owned). index ≤ p.1) (ranges_from index modules)
ranges_from-index [] index = tt
ranges_from-index (m ∷ modules) index =
    All-append _ (ranges_of m.mappings index) (ranges_from (suc index) modules)
      (All-map _ _ _ (λ p e. omega (arith, e)) (ranges_of-index m.mappings index))
      (All-map _ _ _ (λ p e. omega (arith, e)) (ranges_from-index modules (suc index)))

pub ranges_from-full :
    (modules : List Module) (index : ℕ)
    → All IsModule modules
    → All (λ p. Nonempty (owned_key p)) (ranges_from index modules)
ranges_from-full [] index h = tt
ranges_from-full (m ∷ modules) index ((ranged, _), h) =
    All-append _ (ranges_of m.mappings index) (ranges_from (suc index) modules)
      (ranges_of-full m.mappings index ranged) (ranges_from-full modules (suc index) h)

pub ranges_from-apart :
    (modules : List Module) (index : ℕ)
    → All IsModule modules
    → Pairwise SameApart (ranges_from index modules)
ranges_from-apart [] index h = tt
ranges_from-apart (m ∷ modules) index ((_, apart), h) =
    Pairwise-append SameApart (ranges_of m.mappings index) (ranges_from (suc index) modules)
      (ranges_of-apart m.mappings index apart) (ranges_from-apart modules (suc index) h)
      (All-map _ _ (ranges_of m.mappings index)
        (λ p e.
          All-map _ _ (ranges_from (suc index) modules)
            (λ q above same. omega (arith, e, above, same)) (ranges_from-index modules (suc index)))
        (ranges_of-index m.mappings index))
