-- ===== src/Module/Identity.antt =====
-- The file identity of the mappings of a module, of ganymede-module/src/lib.rs.
use ganymede.Common.{
  ◌≡◌, ◌≢◌, ◌⊎◌, ◌↔◌, inl, inr, refl, sym, ◌∙◌, ap, List, [], ◌∷◌, Option, none, some, true, All,
  arith, if_split,
}
use ganymede.Common.Result.{Result, ok, err, try_then}
use ganymede.Common.Sort.{Any}
use ganymede.Process.Snapshot.{Range, FileIdentity, Region}
use ganymede.Module.{
  NormalizeError, conflicting_file_identity, identity_of, identity_eq, merge_identity,
  identity_from,
}

abbrev pub range_key : Region → Range
range_key r = r.range

identity_eq_lem : (a b : FileIdentity) → (identity_eq a b ≡ true) ↔ (a ≡ b)
identity_eq_lem a b = (
  λ e.
      let major : a.device_major ≡ b.device_major = ground (arith, e) in
      let minor : a.device_minor ≡ b.device_minor = ground (arith, e) in
      let inode : a.inode_number ≡ b.inode_number = ground (arith, e) in cc,
  λ e. rw e (ground arith),
)

-- The mapping is backed by that file.
abbrev pub BackedBy : FileIdentity → Region → Type 0
BackedBy i r = identity_of r.backing ≡ some i

abbrev pub Agrees : Option FileIdentity → Region → Type 0
Agrees kept r = (identity_of r.backing ≡ none) ⊎ (identity_of r.backing ≡ kept)

-- The identity kept so far, or that of a mapping.
abbrev pub Source : Option FileIdentity → List Region → FileIdentity → Type 0
Source kept mappings i = (kept ≡ some i) ⊎ Any (BackedBy i) mappings

unfoldable pub Identified :
    Option FileIdentity → List Region → Result NormalizeError (Option FileIdentity) → Type 0
Identified kept mappings (ok none) = (kept ≡ none) × All (Agrees none) mappings
Identified kept mappings (ok (some i)) =
    Source kept mappings i × ((kept ≡ none) ⊎ (kept ≡ some i)) × All (Agrees (some i)) mappings
Identified kept mappings (err e) =
    (e ≡ conflicting_file_identity)
    × (i : FileIdentity) × (j : FileIdentity) × (i ≢ j)
    × Source kept mappings i
    × Source kept mappings j

skip :
    (kept : Option FileIdentity) (r : Region) (mappings : List Region)
    (o : Result NormalizeError (Option FileIdentity))
    → identity_of r.backing ≡ none
    → Identified kept mappings o
    → Identified kept (r ∷ mappings) o
unfolding Identified
skip kept r mappings (ok none) e (k, all) = (k, (inl e, all))
skip kept r mappings (ok (some i)) e (inl s, k, all) = (inl s, k, (inl e, all))
skip kept r mappings (ok (some i)) e (inr s, k, all) = (inr (inr s), k, (inl e, all))
skip kept r mappings (err x) e (h, i, j, ne, s, t) = (h, i, j, ne, wider i s, wider j t)
  where
    wider : (i : FileIdentity) → Source kept mappings i → Source kept (r ∷ mappings) i
    wider i (inl s) = inl s
    wider i (inr s) = inr (inr s)

-- The mapping is backed by the file that is then kept.
keep :
    (kept : Option FileIdentity) (i : FileIdentity) (r : Region) (mappings : List Region)
    (o : Result NormalizeError (Option FileIdentity))
    → identity_of r.backing ≡ some i
    → (kept ≡ none) ⊎ (kept ≡ some i)
    → Identified (some i) mappings o
    → Identified kept (r ∷ mappings) o
unfolding Identified
keep kept i r mappings (ok none) e k (h, all) = cc
keep kept i r mappings (ok (some j)) e k (s, inl h, all) = cc
keep kept i r mappings (ok (some j)) e k (s, inr h, all) =
    (inr (inl (e ∙ h)), rw (← h) k, (inr (e ∙ h), all))
keep kept i r mappings (err x) e k (h, a, b, ne, s, t) = (h, a, b, ne, wider a s, wider b t)
  where
    wider : (j : FileIdentity) → Source (some i) mappings j → Source kept (r ∷ mappings) j
    wider j (inl s) = inr (inl (e ∙ s))
    wider j (inr s) = inr (inr s)

pub identity_from-Identified :
    (kept : Option FileIdentity) (mappings : List Region)
    → Identified kept mappings (identity_from kept mappings)
unfolding identity_from Identified merge_identity
identity_from-Identified none [] = (refl, tt)
identity_from-Identified (some i) [] = (inl refl, inr refl, tt)
identity_from-Identified kept (r ∷ mappings) =
    round kept (identity_of r.backing) refl λ next. identity_from-Identified next mappings
  where
    round :
        (kept owner : Option FileIdentity)
        → identity_of r.backing ≡ owner
        → ((next : Option FileIdentity) → Identified next mappings (identity_from next mappings))
        → Identified kept
            (r ∷ mappings)
            (try_then (merge_identity kept owner) λ next. identity_from next mappings)
    round kept none e onward = skip kept r mappings _ e (onward kept)
    round none (some i) e onward = keep none i r mappings _ e (inl refl) (onward (some i))
    round (some j) (some i) e onward =
        if_split
          (λ o. Identified (some j) (r ∷ mappings) (try_then o λ next. identity_from next mappings))
          (identity_eq j i)
          (λ same.
            let equal : some i ≡ some j = ap some (sym ((identity_eq_lem j i).0 same)) in
            keep (some j) j r mappings _ (e ∙ equal) (inr refl) (onward (some j)))
          λ differ. (
            refl,
            j,
            i,
            (λ equal. let same = (identity_eq_lem j i).1 equal in ground (arith, same, differ)),
            inl refl,
            inr (inl e),
          )
